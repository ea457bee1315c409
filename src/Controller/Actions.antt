-- ===== src/Controller/Actions.antt =====
-- The state of src/ec_controller/ec_controller.{h,cpp} and the actions that only exchange states with
-- the bus.
use mo_driver_pc_ether_cat.Common.{
  ℕ, zero, suc, Bool, true, false, not, ◌&&◌, ◌||◌, List, [], ◌∷◌, ◌==◌, if◌then◌else◌, length,
}
use mo_driver_pc_ether_cat.Common.Text.{is_empty}
use mo_driver_pc_ether_cat.Types.{SlaveInfo, SlaveIdentity, EcMasterConfig}
use mo_driver_pc_ether_cat.Soem.{Soem, state_pre_op, state_safe_op, state_operational}
use mo_driver_pc_ether_cat.Master
use mo_driver_pc_ether_cat.Master.{Master, get_slave_count, collect_infos}
use mo_driver_pc_ether_cat.Node.Manager
use mo_driver_pc_ether_cat.Node.Manager.{Nodes}
use mo_driver_pc_ether_cat.Controller.States.{ControllerState, same_state}

pub record Controller (B F : Type 0) : Type 0 where
  pub state : ControllerState
  pub master : Master B
  pub nodes : Nodes F
  pub config : EcMasterConfig
  pub slave_infos : List SlaveInfo

module _ {B F : Type 0} where
  abbrev pub in_state : Controller B F → ControllerState → Bool
  in_state c s = same_state c.state s

  abbrev pub is_initialized : Controller B F → Bool
  is_initialized c = not (in_state c ControllerState.uninitialized)

  abbrev pub is_operational : Controller B F → Bool
  is_operational c = in_state c ControllerState.operational

  -- master_ after a call on it
  abbrev pub with_master : Controller B F → Master B → Controller B F
  with_master c m = record c { master = m }

  unfoldable pub refresh_slave_infos : Controller B F → List SlaveInfo
  unfolding collect_infos
  refresh_slave_infos c = collect_infos c.master (get_slave_count c.master) 1

-- The identity check of one slave; a field 0 is not checked.
unfoldable pub identity_ok : SlaveIdentity → SlaveInfo → Bool
identity_ok expected actual =
    (expected.vendor_id == 0 || actual.vendor_id == expected.vendor_id)
    && (expected.product_id == 0 || actual.product_id == expected.product_id)

-- The loop over the shorter of the two lists.
unfoldable pub identities_ok : List SlaveIdentity → List SlaveInfo → Bool
unfolding identity_ok
identities_ok [] infos = true
identities_ok (e ∷ es) [] = true
identities_ok (e ∷ es) (i ∷ is) = identity_ok e i && identities_ok es is

-- The checks that follow a scan.
unfoldable pub topology_ok : EcMasterConfig → List SlaveInfo → Bool
topology_ok config infos =
    not (is_empty infos)
    && ((config.expected_slave_count == 0 || length infos == config.expected_slave_count)
        && identities_ok config.expected_identities infos)

module _ {B : Type 0} ⦃soem : Soem B⦄ where
  -- for (i = from; i < from + n; ++i) { ReadActualState(i); ReadAlStatusCode(i); }
  unfoldable pub snapshot_loop : ℕ → ℕ → Master B → Master B
  snapshot_loop zero from m = m
  snapshot_loop (suc n) from m =
      let (_, m') = Master.read_actual_state from m in
      let (_, m'') = Master.read_al_status_code from m' in snapshot_loop n (suc from) m''

module _ {B F : Type 0} ⦃soem : Soem B⦄ where
  unfoldable pub log_slave_snapshot : Controller B F → Controller B F
  unfolding snapshot_loop
  log_slave_snapshot c = with_master c (snapshot_loop (get_slave_count c.master) 1 c.master)

  unfoldable pub enter_fault : Controller B F → Controller B F
  enter_fault c = record (log_slave_snapshot c) { state = ControllerState.fault }

  unfoldable pub enter_emergency_stop : Controller B F → Controller B F
  enter_emergency_stop c = record (log_slave_snapshot c) { state = ControllerState.emergency_stop }

  -- The three conditional requests of DoShutdown, whose failures are only logged.
  unfoldable pub roll_back : Controller B F → Master B
  roll_back c =
      let m0 = c.master in
      let m1 =
        if in_state c ControllerState.operational
        then (Master.request_safe_op_state m0).1
        else m0 in
      let m2 =
        if in_state c ControllerState.operational
          || (in_state c ControllerState.ready_to_run || in_state c ControllerState.maintenance)
        then (Master.request_pre_op_state m1).1
        else m1 in
      if in_state c ControllerState.uninitialized
        || (in_state c ControllerState.adapter_ready || in_state c ControllerState.scanned)
      then m2
      else (Master.request_init_state m2).1

  unfoldable pub do_shutdown : Controller B F → Bool × Controller B F
  unfolding roll_back
  do_shutdown c = (
    true,
    record c {
      state = ControllerState.uninitialized;
      master = Master.close (roll_back c);
      nodes = Manager.clear c.nodes;
    },
  )

  unfoldable pub do_init : Controller B F → Bool × Controller B F
  do_init c =
      if in_state c ControllerState.uninitialized
      then (let (ok, m) = Master.initialize c.config c.master in
          if ok
          then (true, record c { state = ControllerState.adapter_ready; master = m })
          else (false, with_master c m))
      else (false, c)

  unfoldable pub do_scan : Controller B F → Bool × Controller B F
  unfolding topology_ok
  do_scan c =
      if in_state c ControllerState.adapter_ready
      then (let (infos, m) = Master.scan_slaves c.master in
          let c' : Controller B F = record c { master = m; slave_infos = infos } in
          if topology_ok c.config infos
          then (true, record c' { state = ControllerState.scanned })
          else (false, (do_shutdown c').1))
      else (false, c)

  unfoldable pub do_enter_maintenance : Controller B F → Bool × Controller B F
  do_enter_maintenance c =
      if in_state c ControllerState.scanned
      then (let (asked, m1) = Master.request_pre_op_state c.master in
          if asked
          then (let (reached, m2) = Master.check_all_slaves_in_state state_pre_op m1 in
              if reached
              then (let c1 : Controller B F = record c {
                state = ControllerState.maintenance;
                master = m2;
              } in
                  let infos = refresh_slave_infos c1 in
                  let (made, nodes) = Manager.initialize infos c.nodes in
                  let c2 : Controller B F = record c1 { slave_infos = infos; nodes = nodes } in
                  if made then (true, c2) else (false, (do_shutdown c2).1))
              else (false, (do_shutdown (with_master c m2)).1))
          else (false, (do_shutdown (with_master c m1)).1))
      else (false, c)

  -- RequestPreOpState() && CheckAllSlavesInState(PRE_OP), or a fault.
  unfoldable pub return_to_pre_op : Controller B F → Bool × Controller B F
  return_to_pre_op c =
      let (asked, m1) = Master.request_pre_op_state c.master in
      let (reached, m2) = Master.check_all_slaves_in_state state_pre_op m1 in
      if asked
      then (if reached
          then (true, record c { state = ControllerState.maintenance; master = m2 })
          else (false, enter_fault (with_master c m2)))
      else (false, enter_fault (with_master c m1))

  unfoldable pub do_back_to_maintenance : Controller B F → Bool × Controller B F
  unfolding return_to_pre_op
  do_back_to_maintenance c =
      if in_state c ControllerState.ready_to_run
      then return_to_pre_op c
      else if in_state c ControllerState.operational
      then return_to_pre_op (with_master c (Master.request_safe_op_state c.master).1)
      else (false, c)

  unfoldable pub do_safe_op : Controller B F → Bool × Controller B F
  do_safe_op c =
      if in_state c ControllerState.maintenance
      then (let (mapped, m1) = Master.configure_process_data c.master in
          if mapped
          then (let (asked, m2) = Master.request_safe_op_state m1 in
              let (reached, m3) = Master.check_all_slaves_in_state state_safe_op m2 in
              if asked
              then (if reached
                  then (true, with_master c m3)
                  else (false, enter_fault (with_master c m3)))
              else (false, enter_fault (with_master c m2)))
          else (false, enter_fault (with_master c m1)))
      else (false, c)

  unfoldable pub do_dc_configure : Controller B F → Bool × Controller B F
  do_dc_configure c =
      if in_state c ControllerState.maintenance
      then (let (ok, m) = Master.configure_dc c.master in
          if ok then (true, with_master c m) else (false, enter_fault (with_master c m)))
      else (false, c)

  unfoldable pub do_operational : Controller B F → Bool × Controller B F
  do_operational c =
      if in_state c ControllerState.ready_to_run
      then (let (asked, m1) = Master.request_operational_state c.master in
          let (reached, m2) = Master.check_all_slaves_in_state state_operational m1 in
          if asked
          then (if reached
              then (true, record c { state = ControllerState.operational; master = m2 })
              else (false, enter_fault (with_master c m2)))
          else (false, enter_fault (with_master c m1)))
      else (false, c)

  unfoldable pub do_start_operation : Controller B F → Bool × Controller B F
  unfolding do_operational
  do_start_operation c =
      if in_state c ControllerState.ready_to_run then do_operational c else (false, c)
