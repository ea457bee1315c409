-- ===== src/Master.antt =====
-- src/ec_master/ec_master.{h,cpp}: the wrapper round SOEM. The mutex is left out: each method is
-- one atomic step. `B` is the part of SOEM and the bus that the code does not see.
pub mod Stats
pub mod Check
pub mod Retry
pub mod Frame
use mo_driver_pc_ether_cat.Common.{
  ℕ, zero, suc, ◌+◌, ◌*◌, Bool, true, false, ◌&&◌, ◌||◌, none, some, List, [], ◌∷◌, ◌++◌, ltb, ◌==◌,
  if◌then◌else◌, bit_and, bit_or, drop,
}
use mo_driver_pc_ether_cat.Common.Int.{pos, is_nonpos, nat_part, eq_ℤ}
use mo_driver_pc_ether_cat.Common.Bytes.{write_range, read_range}
use mo_driver_pc_ether_cat.Types.{SlaveInfo, empty_info, EcMasterConfig, default_config}
use mo_driver_pc_ether_cat.Soem.{
  Slave, Port, Soem, set_state, state_init, state_pre_op, state_boot, state_safe_op,
  state_operational, state_error,
}
use Stats.{CyclicStats, empty_stats, record_cycle}

pub record Master (B : Type 0) : Type 0 where
  pub port : Port B
  pub config : EcMasterConfig
  pub expected_wkc : ℕ
  pub stats : CyclicStats
  pub closed : Bool
  pub last_cycle_time : ℕ

-- The constructor, which zeroes the context: `port` is the port of a zero context. The adapter
-- counts as closed.
abbrev pub new_master : {B : Type 0} → Port B → Master B
new_master port = record {
  port = port;
  config = default_config;
  expected_wkc = 0;
  stats = empty_stats;
  closed = true;
  last_cycle_time = 0;
}

abbrev pub get_stats : {B : Type 0} → Master B → CyclicStats
get_stats m = m.stats

abbrev pub default_retries : ℕ
default_retries = 3

module _ {B : Type 0} where
  abbrev pub get_slave_count : Master B → ℕ
  get_slave_count m = m.port.slavecount

  -- The state as it was last read, without a look at the bus.
  unfoldable pub get_current_state : Master B → ℕ → ℕ
  get_current_state m slave = (m.port.slavelist slave).state

  unfoldable pub get_slave_info : Master B → ℕ → SlaveInfo
  get_slave_info m slave_id =
      if slave_id == 0 || ltb m.port.slavecount slave_id then empty_info else record {
        slave_id = slave_id;
        config_address = slave.configadr;
        alias_address = slave.aliasadr;
        vendor_id = slave.eep_man;
        product_id = slave.eep_id;
        revision_id = slave.eep_rev;
        serial_id = slave.eep_ser;
        name = slave.name;
        supports_dc = if slave.hasdc == 0 then false else true;
        mbx_l = slave.mbx_l;
        mbx_wo = slave.mbx_wo;
        mbx_ro = slave.mbx_ro;
        mbx_proto = slave.mbx_proto;
        mbx_cnt = slave.mbx_cnt;
        state = slave.state;
        al_status_code = slave.al_status_code;
        coe_details = slave.coe_details;
        output_bytes = slave.obytes;
        input_bytes = slave.ibytes;
      }
    where
      slave : Slave
      slave = m.port.slavelist slave_id

  -- for (i = from; i < from + n; ++i) infos.push_back(GetSlaveInfo(i))
  unfoldable pub collect_infos : Master B → ℕ → ℕ → List SlaveInfo
  collect_infos m zero from = []
  collect_infos m (suc n) from = get_slave_info m from ∷ collect_infos m n (suc from)

  -- for (i = from; i < from + n; ++i) if (slavelist[i].state != state) return false
  unfoldable pub all_in_state : Port B → ℕ → ℕ → ℕ → Bool
  all_in_state p state zero from = true
  all_in_state p state (suc n) from =
      (p.slavelist from).state == state && all_in_state p state n (suc from)

module _ {B : Type 0} ⦃soem : Soem B⦄ where
  unfoldable pub initialize : EcMasterConfig → Master B → Bool × Master B
  initialize config m =
      let (ok, port) = soem.ecx_init config.ifname m.port in
      if ok
      then (true, record m { port = port; config = config; closed = false })
      else (false, record m { port = port; config = config })

  unfoldable pub close : Master B → Master B
  close m = if m.closed then m else record m { port = soem.ecx_close m.port; closed = true }

  -- The destructor.
  unfoldable pub destroy : Master B → Master B
  unfolding close
  destroy m = close m

  unfoldable pub scan_slaves : Master B → List SlaveInfo × Master B
  unfolding collect_infos get_slave_info
  scan_slaves m =
      let (found, port) = soem.ecx_config_init m.port in
      let m' : Master B = record m { port = port } in
      if is_nonpos found then ([], m') else (collect_infos m' (nat_part found) 1, m')

  unfoldable pub configure_process_data : Master B → Bool × Master B
  configure_process_data m =
      if m.port.slavecount == 0
      then (false, m)
      else let port = soem.ecx_config_map_group m.port in
        (true, record m { port = port; expected_wkc = port.outputs_wkc * 2 + port.inputs_wkc })

  unfoldable pub configure_dc : Master B → Bool × Master B
  configure_dc m =
      if m.config.use_dc then (true, record m { port = soem.ecx_configdc m.port }) else (true, m)

  unfoldable pub request_state : (slave state : ℕ) → Master B → Bool × Master B
  request_state slave state m =
      let port =
        soem.ecx_statecheck slave state
          (soem.ecx_writestate slave (set_state slave state m.port)) in
      ((port.slavelist slave).state == state, record m { port = port })

  unfoldable pub request_operational_state : Master B → Bool × Master B
  unfolding request_state
  request_operational_state = request_state 0 state_operational

  unfoldable pub request_safe_op_state : Master B → Bool × Master B
  unfolding request_state
  request_safe_op_state = request_state 0 state_safe_op

  unfoldable pub request_init_state : Master B → Bool × Master B
  unfolding request_state
  request_init_state = request_state 0 state_init

  -- The acknowledgement of an error: the lower nibble of the state read, with the ACK bit.
  unfoldable pub acknowledge : (slave actual : ℕ) → Port B → Port B
  acknowledge slave actual p =
      soem.ecx_statecheck slave (bit_and actual 0x0f)
        (soem.ecx_writestate slave (set_state slave (bit_or (bit_and actual 0x0f) state_error) p))

  -- The write and the wait of one attempt.
  unfoldable pub attempt : (slave state : ℕ) → Port B → Port B
  attempt slave state p =
      soem.ecx_statecheck slave state (soem.ecx_writestate slave (set_state slave state p))

  -- The loop of RequestStateWithRetry, by the rounds that are left.
  unfoldable pub retry_loop : (rounds slave state : ℕ) → Port B → Bool × Port B
  retry_loop zero slave state p = (false, p)
  retry_loop (suc n) slave state p =
      let read = soem.ecx_readstate p in
      let actual = (read.slavelist slave).state in
      let acked = retry_loop n slave state (acknowledge slave actual read) in
      let tried = attempt slave state read in
      let again = retry_loop n slave state tried in
      if actual == state
      then (true, read)
      else if bit_and actual state_error == 0
      then (if (tried.slavelist slave).state == state then (true, tried) else again)
      else acked

  unfoldable pub request_state_with_retry :
      (slave state max_retries : ℕ) → Master B → Bool × Master B
  request_state_with_retry slave state max_retries m =
      let (ok, port) = retry_loop (suc max_retries) slave state m.port in
      (ok, record m { port = port })

  unfoldable pub request_pre_op_state : Master B → Bool × Master B
  request_pre_op_state = request_state_with_retry 0 state_pre_op default_retries

  unfoldable pub request_bootstrap_state : ℕ → Master B → Bool × Master B
  request_bootstrap_state slave = request_state_with_retry slave state_boot default_retries

  unfoldable pub read_actual_state : ℕ → Master B → ℕ × Master B
  read_actual_state slave m =
      let port = soem.ecx_readstate m.port in
      ((port.slavelist slave).state, record m { port = port })

  unfoldable pub read_al_status_code : ℕ → Master B → ℕ × Master B
  read_al_status_code slave m =
      let port = soem.ecx_readstate m.port in
      ((port.slavelist slave).al_status_code, record m { port = port })

  unfoldable pub check_all_slaves_in_state : ℕ → Master B → Bool × Master B
  unfolding all_in_state
  check_all_slaves_in_state state m =
      let port = soem.ecx_readstate m.port in
      (all_in_state port state port.slavecount 1, record m { port = port })

  -- One exchange of process data at time `now`, in nanoseconds of the steady clock.
  unfoldable pub run_one_cycle : ℕ → Master B → Master B
  run_one_cycle now m =
      let (wkc, port) = soem.ecx_receive_processdata (soem.ecx_send_processdata m.port) in
      record m {
        port = port;
        stats =
            record_cycle now m.last_cycle_time (eq_ℤ wkc (pos m.expected_wkc)) port.dc_time m.stats;
        last_cycle_time = now;
      }

  unfoldable pub check_slave_states : Master B → Master B
  check_slave_states m = record m { port = soem.ecx_readstate m.port }

  unfoldable pub sdo_read :
      (slave index subindex timeout_us : ℕ) → List ℕ → Master B → Bool × List ℕ × Master B
  sdo_read slave index subindex timeout_us data' m =
      let (wkc, bytes, port) = soem.ecx_sdo_read slave index subindex timeout_us data' m.port in
      (if is_nonpos wkc then false else true, bytes, record m { port = port })

  unfoldable pub sdo_write :
      (slave index subindex timeout_us : ℕ) → List ℕ → Master B → Bool × Master B
  sdo_write slave index subindex timeout_us data' m =
      let (wkc, port) = soem.ecx_sdo_write slave index subindex timeout_us data' m.port in
      (if is_nonpos wkc then false else true, record m { port = port })

module _ {B : Type 0} where
  unfoldable pub write_output : (slave offset : ℕ) → List ℕ → Master B → Master B
  write_output slave offset bytes m = elim (m.port.slavelist slave).outputs [
    | none ↦ m
    | some base ↦ record m {
      port = record (m.port) { iomap = write_range m.port.iomap (base + offset) bytes };
    }
  ]

  -- The buffer that is passed in, and what `memcpy` leaves in it.
  unfoldable pub read_input : (slave offset len : ℕ) → List ℕ → Master B → List ℕ
  read_input slave offset len buffer m = elim (m.port.slavelist slave).inputs [
    | none ↦ buffer
    | some base ↦ read_range m.port.iomap (base + offset) len ++ drop len buffer
  ]
