-- ===== src/Api/Service.antt =====
-- Service and the queries of src/core/mo_ecat_master.cpp.
use mo_driver_pc_ether_cat.Common.{ℕ, Bool, true, false, not, ◌&&◌, List, [], ◌∷◌, if◌then◌else◌}
use mo_driver_pc_ether_cat.Types.{MasterState, SlaveInfo, MasterSnapshot}
use mo_driver_pc_ether_cat.Runtime.{should_check_pre_op_slaves, can_run_process_data}
use mo_driver_pc_ether_cat.Soem.{Soem}
use mo_driver_pc_ether_cat.Master
use mo_driver_pc_ether_cat.Axis.{Floats}
use mo_driver_pc_ether_cat.Engine
use mo_driver_pc_ether_cat.Api.{
  state_changed, Impl, get_state, current_runtime_state, notify_runtime_state_changed,
}

-- `a == b` on the enumeration.
abbrev pub same_master_state : MasterState → MasterState → Bool
same_master_state MasterState.uninitialized MasterState.uninitialized = true
same_master_state MasterState.adapter_ready MasterState.adapter_ready = true
same_master_state MasterState.scanned MasterState.scanned = true
same_master_state MasterState.maintenance MasterState.maintenance = true
same_master_state MasterState.ready_to_run MasterState.ready_to_run = true
same_master_state MasterState.operational MasterState.operational = true
same_master_state MasterState.fault MasterState.fault = true
same_master_state MasterState.emergency_stop MasterState.emergency_stop = true
same_master_state _ _ = false

module _ {B F : Type 0} where
  abbrev pub get_slave_infos : Impl B F → List SlaveInfo
  get_slave_infos i =
      Master.collect_infos i.controller.master (Master.get_slave_count i.controller.master) 1

  unfoldable pub get_snapshot : Impl B F → MasterSnapshot
  get_snapshot i = record {
    state = get_state i;
    runtime_state = current_runtime_state i;
    slaves = get_slave_infos i;
    last_fault = [];
  }

module _ {B F : Type 0} ⦃soem : Soem B⦄ ⦃fl : Floats F⦄ where
  -- engine_.CheckSlaveStates()
  unfoldable pub watch : ℕ → Impl B F → Impl B F
  watch now i =
      let (last, c) = Engine.check_slave_states now i.last_state_check_time i.controller in
      record i { controller = c; last_state_check_time = last }

  -- The part of Service that works on the bus, at the times of the cycle and of the check.
  unfoldable pub work : (cycle_time check_time : ℕ) → Impl B F → Impl B F
  unfolding watch
  work cycle_time check_time i =
      let state = current_runtime_state i in
      if should_check_pre_op_slaves state
      then watch check_time i
      else if can_run_process_data state
      then watch check_time (record i { controller = Engine.run_once cycle_time i.controller })
      else i

  unfoldable pub service : (cycle_time check_time : ℕ) → Impl B F → Impl B F
  unfolding work
  service cycle_time check_time i =
      let old_state = get_state i in
      let worked = work cycle_time check_time i in
      let new_state = get_state worked in
      let told : Impl B F =
        if not (same_master_state old_state new_state) && worked.on_state_changed
        then record worked { trace = state_changed old_state new_state ∷ worked.trace }
        else worked in
      if same_master_state old_state new_state then told else notify_runtime_state_changed told
