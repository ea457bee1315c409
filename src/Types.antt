-- ===== src/Types.antt =====
-- The data of the public interface: include/mo_ecat/types.h and include/mo_ecat/config.h.
-- Machine integers are numbers; the ranges that matter are written where they are computed.
use mo_driver_pc_ether_cat.Common.{ℕ, Bool, true, List, []}
use mo_driver_pc_ether_cat.Common.Text.{Text, codes}

pub data MasterState : Type 0 where
  uninitialized adapter_ready scanned maintenance ready_to_run operational fault emergency_stop :
      MasterState

pub data MasterMode : Type 0 where
  init prepare run fault emergency_stop : MasterMode

pub data TransitionStage : Type 0 where
  entering stable exiting : TransitionStage

pub data PrepareStage : Type 0 where
  none adapter_ready topology_discovered pre_op_maintenance safe_op_ready : PrepareStage

pub record MasterRuntimeState : Type 0 where
  pub mode : MasterMode
  pub transition : TransitionStage
  pub prepare_stage : PrepareStage

-- The braces of `MasterRuntimeState{a, b, c}`.
abbrev pub runtime : MasterMode → TransitionStage → PrepareStage → MasterRuntimeState
runtime m t p = record { mode = m; transition = t; prepare_stage = p }

-- `MasterRuntimeState{}`
abbrev pub default_runtime : MasterRuntimeState
default_runtime = runtime MasterMode.init TransitionStage.stable PrepareStage.none

pub record SlaveIdentity : Type 0 where
  pub vendor_id : ℕ
  pub product_id : ℕ
  pub revision_id : ℕ
  pub serial_id : ℕ
  pub name : Text

pub record SlaveInfo : Type 0 where
  pub slave_id : ℕ
  pub config_address : ℕ
  pub alias_address : ℕ
  pub vendor_id : ℕ
  pub product_id : ℕ
  pub revision_id : ℕ
  pub serial_id : ℕ
  pub name : Text
  pub supports_dc : Bool
  pub mbx_l : ℕ
  pub mbx_wo : ℕ
  pub mbx_ro : ℕ
  pub mbx_proto : ℕ
  pub mbx_cnt : ℕ
  pub state : ℕ
  pub al_status_code : ℕ
  pub coe_details : ℕ
  pub output_bytes : ℕ
  pub input_bytes : ℕ

-- `SlaveInfo info;`
abbrev pub empty_info : SlaveInfo
empty_info = record {
  slave_id = 0;
  config_address = 0;
  alias_address = 0;
  vendor_id = 0;
  product_id = 0;
  revision_id = 0;
  serial_id = 0;
  name = [];
  supports_dc = Bool.false;
  mbx_l = 0;
  mbx_wo = 0;
  mbx_ro = 0;
  mbx_proto = 0;
  mbx_cnt = 0;
  state = 0;
  al_status_code = 0;
  coe_details = 0;
  output_bytes = 0;
  input_bytes = 0;
}

pub record MasterSnapshot : Type 0 where
  pub state : MasterState
  pub runtime_state : MasterRuntimeState
  pub slaves : List SlaveInfo
  pub last_fault : Text

pub data LogSinkMode : Type 0 where
  none file callback file_and_callback : LogSinkMode

-- `expected_slave_count` and the two rates are `int`; a negative count switches the check off as 0
-- does, so a number carries what the code distinguishes.
pub record EcMasterConfig : Type 0 where
  pub ifname : Text
  pub cycle_time_us : ℕ
  pub use_dc : Bool
  pub expected_slave_count : ℕ
  pub expected_identities : List SlaveIdentity
  pub log_sink : LogSinkMode
  pub log_path : Text
  pub feedback_publish_hz : ℕ

abbrev pub default_config : EcMasterConfig
default_config = record {
  ifname = codes "eth0";
  cycle_time_us = 1000;
  use_dc = true;
  expected_slave_count = 0;
  expected_identities = [];
  log_sink = LogSinkMode.callback;
  log_path = [];
  feedback_publish_hz = 20;
}
