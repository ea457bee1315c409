-- ===== src/Controller/Stopping.antt =====
-- What Stop of src/ec_controller/ec_controller.cpp leaves behind.
use mo_driver_pc_ether_cat.Common.{◌≡◌, true, [], arith}
use mo_driver_pc_ether_cat.Types.{EcMasterConfig}
use mo_driver_pc_ether_cat.Soem.{Soem}
use mo_driver_pc_ether_cat.Master
use mo_driver_pc_ether_cat.Axis.{Floats}
use mo_driver_pc_ether_cat.Controller.States.{ControllerState, is_allowed}
use mo_driver_pc_ether_cat.Controller.{stop, dispatch, do_action, initialize_adapter}
use mo_driver_pc_ether_cat.Controller.Actions.{Controller, do_shutdown, do_init}
use mo_driver_pc_ether_cat.Controller.Invariant.{IsWellFormed}

module _ {B F : Type 0} ⦃soem : Soem B⦄ ⦃fl : Floats F⦄ where
  -- From every state of a well-formed controller Stop comes to `uninitialized`, with the adapter
  -- closed and no node left, and a second Stop changes nothing; from there the adapter can be
  -- opened again, which fails only if SOEM cannot open the interface.
  pub stop-idle :
      (config : EcMasterConfig) (c : Controller B F)
      → IsWellFormed c
      → ((stop c).state ≡ ControllerState.uninitialized)
        × ((stop c).master.closed ≡ true)
        × ((stop c).nodes ≡ [])
        × (stop (stop c) ≡ stop c)
        × ((config : EcMasterConfig)
            → (initialize_adapter config (stop c)).0
              ≡ (soem.ecx_init config.ifname (stop c).master.port).0)
  unfolding stop dispatch do_action do_shutdown is_allowed Master.close initialize_adapter do_init
      Master.initialize
  stop-idle config c w = (ground arith, ground arith, ground arith, ground arith, ground arith)
