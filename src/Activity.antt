-- ===== src/Activity.antt =====
-- src/activity: the maintenance activities on one slave node, and the scheduler that runs them. Log
-- lines are left out. The activities reach the bus through the master of the controller.
pub mod Scheduling
pub mod Names
use mo_driver_pc_ether_cat.Common.{
  ℕ, zero, suc, get_elem?, Bool, true, false, ◌&&◌, Option, none, some, List, [], ◌∷◌, ◌==◌,
  if◌then◌else◌, replicate,
}
use mo_driver_pc_ether_cat.Common.Bytes.{u16, le_bytes, of_le_bytes}
use mo_driver_pc_ether_cat.Types.{MasterRuntimeState}
use mo_driver_pc_ether_cat.Runtime.{can_run_maintenance_activity}
use mo_driver_pc_ether_cat.Soem.{Soem}
use mo_driver_pc_ether_cat.Master.{Master}
use mo_driver_pc_ether_cat.Axis.{Floats}
use mo_driver_pc_ether_cat.Node.Slave
use mo_driver_pc_ether_cat.Node.Slave.{SlaveNode}
use mo_driver_pc_ether_cat.Controller.{request_fault, stop}
use mo_driver_pc_ether_cat.Controller.Actions.{Controller}
use mo_driver_pc_ether_cat.Sdo.{read_sm_assignment, read_pdo_mapping}

pub data ActivityFailurePolicy : Type 0 where
  keep_controller_state enter_error shutdown : ActivityFailurePolicy

-- The four activities, by their constructors' arguments without the node.
pub data EcatActivity : Type 0 where
  sdo_parameter : (index subindex value : ℕ) → Bool → EcatActivity
  sdo_diagnostics state_inspection pdo_mapping : EcatActivity

abbrev pub can_start : EcatActivity → MasterRuntimeState → Bool
can_start a state = can_run_maintenance_activity state

unfoldable pub get_failure_policy : EcatActivity → ActivityFailurePolicy
get_failure_policy (sdo_parameter index subindex value verify) = ActivityFailurePolicy.enter_error
get_failure_policy _ = ActivityFailurePolicy.keep_controller_state

module _ {B F : Type 0} ⦃soem : Soem B⦄ where
  -- A 32-bit object read into a variable that is 0.
  unfoldable pub read_u32 : (index subindex : ℕ) → SlaveNode F → Master B → Bool × ℕ × Master B
  unfolding of_le_bytes
  read_u32 index subindex n m =
      let (ok, bytes, m') = Slave.sdo_read index subindex 10000 (replicate 4 0) n m in
      (ok, of_le_bytes bytes, m')

  -- SdoParameterActivity::Execute
  unfoldable pub write_parameter :
      (index subindex value : ℕ) → Bool → SlaveNode F → Master B → Bool × Master B
  unfolding read_u32 le_bytes
  write_parameter index subindex value verify n m =
      let (written, m1) = Slave.sdo_write index subindex 10000 (le_bytes 4 value) n m in
      let (ok, read_back, m2) = read_u32 index subindex n m1 in
      if written
      then (if verify then (ok && read_back == value, m2) else (true, m1))
      else (false, m1)

  -- SdoDiagnosticsActivity::Execute: all four objects are read, also after one has failed.
  unfoldable pub diagnose : SlaveNode F → Master B → Bool × Master B
  unfolding read_u32
  diagnose n m =
      let (type_ok, _, m1) = read_u32 0x1000 0 n m in
      let (vendor_ok, _, m2) = read_u32 0x1018 1 n m1 in
      let (product_ok, _, m3) = read_u32 0x1018 2 n m2 in
      let (revision_ok, _, m4) = read_u32 0x1018 3 n m3 in
      (type_ok && (vendor_ok && (product_ok && revision_ok)), m4)

  -- StateInspectionActivity::Execute, which refreshes the node.
  unfoldable pub inspect_state : SlaveNode F → Master B → SlaveNode F × Master B
  inspect_state n m =
      let (_, n', m1) = Slave.refresh_actual_state n m in
      let (_, m2) = Slave.read_al_status_code n' m1 in (n', m2)

  -- The loop of LogPdoMapping, which passes over what cannot be read.
  unfoldable pub log_pdos : (fuel : ℕ) → List ℕ → SlaveNode F → Master B → Option (Master B)
  log_pdos fuel [] n m = some m
  log_pdos fuel (pdo ∷ pdos) n m = elim (read_pdo_mapping fuel (u16 n.info.slave_id) pdo m) [
    | none ↦ none
    | some (_, _, m') ↦ log_pdos fuel pdos n m'
  ]

  unfoldable pub log_pdo_mapping :
      (fuel assign_index : ℕ) → SlaveNode F → Master B → Option (Bool × Master B)
  unfolding log_pdos
  log_pdo_mapping fuel assign_index n m =
      elim (read_sm_assignment fuel (u16 n.info.slave_id) assign_index m) [
        | none ↦ none
        | some (ok, pdos, m') ↦
            (if ok
              then (elim (log_pdos fuel pdos n m') [ none ↦ none | some m'' ↦ some (true, m'') ])
              else some (false, m'))
      ]

  -- PdoMappingActivity::Execute: both directions, also after the first has failed.
  unfoldable pub map_pdos : (fuel : ℕ) → SlaveNode F → Master B → Option (Bool × Master B)
  unfolding log_pdo_mapping
  map_pdos fuel n m = elim (log_pdo_mapping fuel 0x1C12 n m) [
    | none ↦ none
    | some (rx_ok, m1) ↦ (elim (log_pdo_mapping fuel 0x1C13 n m1) [
      | none ↦ none
      | some (tx_ok, m2) ↦ some (rx_ok && tx_ok, m2)
    ])
  ]

  -- EcatActivity::Execute on the node that it holds; `none` if a walk does not end.
  unfoldable pub execute :
      (fuel : ℕ) → EcatActivity → SlaveNode F → Master B → Option (Bool × SlaveNode F × Master B)
  unfolding write_parameter diagnose inspect_state map_pdos
  execute fuel (sdo_parameter index subindex value verify) n m =
      let (ok, m') = write_parameter index subindex value verify n m in some (ok, n, m')
  execute fuel sdo_diagnostics n m = let (ok, m') = diagnose n m in some (ok, n, m')
  execute fuel state_inspection n m = let (n', m') = inspect_state n m in some (true, n', m')
  execute fuel pdo_mapping n m = elim (map_pdos fuel n m) [
    | none ↦ none
    | some (ok, m') ↦ some (ok, n, m')
  ]

-- nodes_[k] = n
unfoldable pub set_node : {A : Type 0} → ℕ → A → List A → List A
set_node k x [] = []
set_node zero x (y ∷ ys) = x ∷ ys
set_node (suc k) x (y ∷ ys) = y ∷ set_node k x ys

module _ {B F : Type 0} ⦃soem : Soem B⦄ ⦃fl : Floats F⦄ where
  -- What the scheduler does after a failure.
  unfoldable pub apply_policy : ActivityFailurePolicy → Controller B F → Controller B F
  apply_policy ActivityFailurePolicy.enter_error c = request_fault c
  apply_policy ActivityFailurePolicy.shutdown c = stop c
  apply_policy ActivityFailurePolicy.keep_controller_state c = c

  -- ActivityScheduler::Execute of an activity on node `k` (`none` for a null pointer), with the
  -- flag `running_` and the state that the provider shows. The answer, the flag, the controller.
  -- A node that is not there cannot be referred to; the model refuses it.
  unfoldable pub schedule :
      (fuel : ℕ)
      → Option (EcatActivity × ℕ)
      → (running : Bool) → MasterRuntimeState
      → Controller B F
      → Option (Bool × Bool × Controller B F)
  unfolding execute set_node apply_policy get_failure_policy
  schedule fuel none running state c = some (false, running, c)
  schedule fuel (some (a, k)) true state c = some (false, true, c)
  schedule fuel (some (a, k)) false state c =
      if can_start a state
      then (elim (get_elem? c.nodes k) [
        | none ↦ some (false, false, c)
        | some n ↦ (elim (execute fuel a n c.master) [
          | none ↦ none
          | some (ok, n', m') ↦
              (let done : Controller B F = record c {
                master = m';
                nodes = set_node k n' c.nodes;
              } in
                some (ok, false, (if ok then done else apply_policy (get_failure_policy a) done)))
        ])
      ])
      else some (false, false, c)
