-- ===== src/Api/Public.antt =====
-- The queries of the class MoEcatMaster of src/core/mo_ecat_master.cpp, each of which asks its `Impl`.
use mo_driver_pc_ether_cat.Common.{ℕ, List}
use mo_driver_pc_ether_cat.Types.{MasterState, MasterRuntimeState, SlaveInfo, MasterSnapshot}
use mo_driver_pc_ether_cat.Soem.{Soem}
use mo_driver_pc_ether_cat.Axis.{Floats}
use mo_driver_pc_ether_cat.Api
use mo_driver_pc_ether_cat.Api.{Impl}
use mo_driver_pc_ether_cat.Api.Service
use mo_driver_pc_ether_cat.Api.Objects

module _ {B F : Type 0} where
  -- GetRuntimeState of `Impl`, then that of the class.
  abbrev pub impl_runtime_state : Impl B F → MasterRuntimeState
  impl_runtime_state i = Api.current_runtime_state i

  abbrev pub get_runtime_state : Impl B F → MasterRuntimeState
  get_runtime_state i = impl_runtime_state i

  abbrev pub get_state : Impl B F → MasterState
  get_state i = Api.get_state i

  abbrev pub get_slave_count : Impl B F → ℕ
  get_slave_count i = Objects.get_slave_count i

  abbrev pub get_slave_infos : Impl B F → List SlaveInfo
  get_slave_infos i = Service.get_slave_infos i

  abbrev pub get_snapshot : Impl B F → MasterSnapshot
  get_snapshot i = Service.get_snapshot i

module _ {B F : Type 0} ⦃soem : Soem B⦄ ⦃fl : Floats F⦄ where
  abbrev pub service : (cycle_time check_time : ℕ) → Impl B F → Impl B F
  service cycle_time check_time i = Service.service cycle_time check_time i
