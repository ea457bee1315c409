-- ===== src/Controller/Wrappers.antt =====
-- The public methods of EcatController against its action table.
use mo_driver_pc_ether_cat.Common.{◌≡◌, false, arith}
use mo_driver_pc_ether_cat.Types.{EcMasterConfig}
use mo_driver_pc_ether_cat.Soem.{Soem}
use mo_driver_pc_ether_cat.Axis.{Floats}
use mo_driver_pc_ether_cat.Controller.States.{ControllerState, MasterAction, is_allowed, same_state}
use mo_driver_pc_ether_cat.Controller.{
  dispatch, initialize_adapter, scan, enter_maintenance, prepare_run, start_operation,
  back_to_maintenance, stop,
}
use mo_driver_pc_ether_cat.Controller.Actions.{Controller}

module _ {B F : Type 0} ⦃soem : Soem B⦄ ⦃fl : Floats F⦄ where
  -- The guard of each of six public methods agrees with the action table: the method is the dispatch
  -- of its action, in every state.
  pub wrappers-dispatch :
      (c : Controller B F)
      → (scan c ≡ dispatch MasterAction.scan_slaves c)
        × (enter_maintenance c ≡ dispatch MasterAction.enter_maintenance c)
        × (prepare_run c ≡ dispatch MasterAction.prepare_run c)
        × (start_operation c ≡ dispatch MasterAction.start_operation c)
        × (back_to_maintenance c ≡ dispatch MasterAction.back_to_maintenance c)
        × (stop c ≡ (dispatch MasterAction.stop c).1)
  unfolding scan enter_maintenance prepare_run start_operation back_to_maintenance stop dispatch
      is_allowed
  wrappers-dispatch c =
      (ground arith, ground arith, ground arith, ground arith, ground arith, ground arith)

  -- Outside `uninitialized` a second initialisation is refused, and changes nothing, not even the
  -- configuration.
  pub initialize_adapter_refused :
      (config : EcMasterConfig) (c : Controller B F)
      → same_state c.state ControllerState.uninitialized ≡ false
      → initialize_adapter config c ≡ (false, c)
  unfolding initialize_adapter
  initialize_adapter_refused config c h = ground arith
