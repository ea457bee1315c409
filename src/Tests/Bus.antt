-- ===== src/Tests/Bus.antt =====
-- Two simulated slaves: a servo drive and a digital I/O module, which do what they are asked. The
-- rest of the bus is a number, 1 while the slaves report an error that was not acknowledged.
use mo_driver_pc_ether_cat.Common.{
  ℕ, ◌+◌, ◌≡◌, refl, true, false, none, some, [], arith, ◌==◌, if◌then◌else◌, length, bit_and,
  Bool-cases, inl, inr,
}
use mo_driver_pc_ether_cat.Common.Int.{ℤ, pos, eq_ℤ}
use mo_driver_pc_ether_cat.Common.Text.{Text, codes}
use mo_driver_pc_ether_cat.Common.Bytes.{le_bytes}
use mo_driver_pc_ether_cat.Types.{default_config}
use mo_driver_pc_ether_cat.Soem.{Slave, Port, Soem, state_error}
use mo_driver_pc_ether_cat.Master
use mo_driver_pc_ether_cat.Master.{Master, acknowledge, attempt}
use mo_driver_pc_ether_cat.Master.Retry.{Obeys}
use mo_driver_pc_ether_cat.Axis.{Floats}

-- The model of `double`: scales are 1.
instance abbrev pub whole : Floats ℤ
whole = record {
  zero = pos 0;
  milli = pos 1;
  is_zero = λ x. eq_ℤ x (pos 0);
  mul = λ x y. x;
  div = λ x y. x;
  of_int = λ x. x;
  to_int = λ x. x;
}

abbrev pub slave : (vendor product : ℕ) → Text → (bytes outputs inputs : ℕ) → Slave
slave vendor product name bytes outputs inputs = record {
  state = 1;
  al_status_code = 0;
  configadr = 0x1001;
  aliasadr = 0;
  eep_man = vendor;
  eep_id = product;
  eep_rev = 1;
  eep_ser = 7;
  name = name;
  hasdc = 1;
  mbx_l = 128;
  mbx_wo = 0x1000;
  mbx_ro = 0x1080;
  mbx_proto = 4;
  mbx_cnt = 0;
  coe_details = 0;
  obytes = bytes;
  ibytes = bytes;
  outputs = some outputs;
  inputs = some inputs;
}

abbrev pub blank : Slave
blank = record (slave 0 0 [] 0 0 0) { state = 0; outputs = none; inputs = none }

abbrev pub on_bus : ℕ → Slave
on_bus i =
    if i == 1
    then slave 0x766 0x2000 (codes "MT-Device") 10 0 20
    else if i == 2
    then slave 0x2 0x44c2c52 (codes "EL2008 Digital") 1 10 30
    else blank

abbrev pub dark_port : Port ℕ
dark_port = record {
  slavecount = 0;
  slavelist = λ i. blank;
  outputs_wkc = 0;
  inputs_wkc = 0;
  dc_time = 0;
  iomap = λ a. 0;
  bus = 0;
}

abbrev pub lit_port : Port ℕ
lit_port = record dark_port { slavecount = 2; slavelist = on_bus }

abbrev pub sound_state : ℕ → ℕ
sound_state s = if bit_and s state_error == 0 then s else 1

abbrev pub simulated_read : Port ℕ → Port ℕ
simulated_read p = record p {
  slavelist = λ i. record (p.slavelist i) {
    state = if p.bus == 1 then 0x14 else sound_state (p.slavelist i).state;
  };
}

abbrev pub simulated_check : (slave state : ℕ) → Port ℕ → Port ℕ
simulated_check k s p = record p {
  slavelist = λ i.
      if k == 0
      then record (p.slavelist i) { state = s }
      else if k == i
      then record (p.slavelist i) { state = s }
      else p.slavelist i;
}

-- Every object has `count` parts, each a mapping entry of 16 bits.
abbrev pub simulated_bus : (count : ℕ) → Soem ℕ
simulated_bus count = record {
  ecx_init = λ name p. (true, p);
  ecx_close = λ p. dark_port;
  ecx_config_init = λ p. (pos 2, lit_port);
  ecx_config_map_group = λ p. record p { outputs_wkc = 2; inputs_wkc = 2 };
  ecx_configdc = λ p. record p { dc_time = 1 };
  ecx_readstate = simulated_read;
  ecx_writestate = λ k p. record p { bus = 0 };
  ecx_statecheck = simulated_check;
  ecx_send_processdata = λ p. p;
  ecx_receive_processdata = λ p. (pos (p.outputs_wkc + p.outputs_wkc + p.inputs_wkc), p);
  ecx_sdo_read = λ k index sub timeout bytes p.
      (pos 1, le_bytes (length bytes) (if sub == 0 then count else 0x60400010), p);
  ecx_sdo_write = λ k index sub timeout bytes p. (pos 1, p);
}

instance abbrev pub bus : Soem ℕ
bus = simulated_bus 2

abbrev pub master_on : Port ℕ → Master ℕ
master_on port = record {
  port = port;
  config = default_config;
  expected_wkc = 6;
  stats = Master.Stats.empty_stats;
  closed = false;
  last_cycle_time = 0;
}

sound_state-clear : (s : ℕ) → bit_and (sound_state s) state_error ≡ 0
sound_state-clear s = elim (Bool-cases (bit_and s state_error == 0)) [
  | inl e ↦ ground (arith, e)
  | inr e ↦ rw e refl
]

-- The drive of the simulated bus obeys.
pub drive-Obeys : Obeys bus 1
unfolding acknowledge attempt
drive-Obeys = record {
  ack_clears = λ actual p. sound_state-clear ((acknowledge 1 actual p).slavelist 1).state;
  attempt_reaches = λ state p h. refl;
}
