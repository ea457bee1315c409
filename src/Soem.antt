-- ===== src/Soem.antt =====
-- What the code uses of SOEM (third_party/SOEM, a submodule): the fields of `ecx_contextt` that it
-- reads or writes, and the functions that it calls, which are a parameter of the model. `B` is
-- all that SOEM and the slaves keep beside those fields.
pub mod Calls
use mo_driver_pc_ether_cat.Common.{ℕ, ◌≡◌, Bool, Option, List, ◌==◌, if◌then◌else◌}
use mo_driver_pc_ether_cat.Common.Int.{ℤ}
use mo_driver_pc_ether_cat.Common.Text.{Text}

-- An entry of `ctx_.slavelist`. `outputs` and `inputs` point into the IOmap; `none` is null.
pub record Slave : Type 0 where
  pub state : ℕ
  pub al_status_code : ℕ
  pub configadr : ℕ
  pub aliasadr : ℕ
  pub eep_man : ℕ
  pub eep_id : ℕ
  pub eep_rev : ℕ
  pub eep_ser : ℕ
  pub name : Text
  pub hasdc : ℕ
  pub mbx_l : ℕ
  pub mbx_wo : ℕ
  pub mbx_ro : ℕ
  pub mbx_proto : ℕ
  pub mbx_cnt : ℕ
  pub coe_details : ℕ
  pub obytes : ℕ
  pub ibytes : ℕ
  pub outputs : Option ℕ
  pub inputs : Option ℕ

-- The context, the memory from the start of `iomap_` on, into which its pointers lead, by byte
-- address, and the rest.
pub record Port (B : Type 0) : Type 0 where
  pub slavecount : ℕ
  pub slavelist : ℕ → Slave
  pub outputs_wkc : ℕ
  pub inputs_wkc : ℕ
  pub dc_time : ℕ
  pub iomap : ℕ → ℕ
  pub bus : B

-- Timeouts are left out: they are constants of each call. `sdo_read` is given the caller's buffer
-- and returns it as it left it.
pub record Soem (B : Type 0) : Type 0 where
  pub ecx_init : Text → Port B → Bool × Port B
  pub ecx_close : Port B → Port B
  pub ecx_config_init : Port B → ℤ × Port B
  pub ecx_config_map_group : Port B → Port B
  pub ecx_configdc : Port B → Port B
  pub ecx_readstate : Port B → Port B
  pub ecx_writestate : ℕ → Port B → Port B
  pub ecx_statecheck : (slave state : ℕ) → Port B → Port B
  pub ecx_send_processdata : Port B → Port B
  pub ecx_receive_processdata : Port B → ℤ × Port B
  pub ecx_sdo_read : (slave index subindex timeout_us : ℕ) → List ℕ → Port B → ℤ × List ℕ × Port B
  pub ecx_sdo_write : (slave index subindex timeout_us : ℕ) → List ℕ → Port B → ℤ × Port B

-- `ec_state` of SOEM's headers.
abbrev pub state_init : ℕ
state_init = 0x01

abbrev pub state_pre_op : ℕ
state_pre_op = 0x02

abbrev pub state_boot : ℕ
state_boot = 0x03

abbrev pub state_safe_op : ℕ
state_safe_op = 0x04

abbrev pub state_operational : ℕ
state_operational = 0x08

-- `EC_STATE_ERROR` and `EC_STATE_ACK` are the same bit.
abbrev pub state_error : ℕ
state_error = 0x10

module _ {B : Type 0} where
  -- ctx_.slavelist[i].state = s
  abbrev pub set_state : ℕ → ℕ → Port B → Port B
  set_state i s p = record p {
    slavelist = λ j. if i == j then record (p.slavelist j) { state = s } else p.slavelist j;
  }

-- What SOEM documents of the calls that only exchange AL states: they leave the slave count alone.
pub record KeepsCount {B : Type 0} (soem : Soem B) : Type 0 where
  pub readstate_count : (p : Port B) → (soem.ecx_readstate p).slavecount ≡ p.slavecount
  pub writestate_count : (i : ℕ) (p : Port B) → (soem.ecx_writestate i p).slavecount ≡ p.slavecount
  pub statecheck_count :
      (i s : ℕ) (p : Port B) → (soem.ecx_statecheck i s p).slavecount ≡ p.slavecount
