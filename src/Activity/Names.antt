-- ===== src/Activity/Names.antt =====
-- The names of the activities of src/activity, and the line that StateInspectionActivity logs.
use mo_driver_pc_ether_cat.Common.{ℕ, ◌≡◌, refl, ◌++◌, ◌==◌, if◌then◌else◌}
use mo_driver_pc_ether_cat.Common.Text.{Text, codes, to_text, to_hex}
use mo_driver_pc_ether_cat.Soem.{
  state_init, state_pre_op, state_boot, state_safe_op, state_operational,
}
use mo_driver_pc_ether_cat.Types.{SlaveInfo, empty_info}
use mo_driver_pc_ether_cat.Activity.{
  EcatActivity, sdo_parameter, sdo_diagnostics, state_inspection, pdo_mapping,
}

unfoldable pub get_name : EcatActivity → Text
get_name (sdo_parameter index subindex value verify) = codes "SdoParameter"
get_name sdo_diagnostics = codes "SdoDiagnostics"
get_name state_inspection = codes "StateInspection"
get_name pdo_mapping = codes "PdoMapping"

unfoldable pub ether_cat_state_to_string : ℕ → Text
ether_cat_state_to_string state =
    if state == state_init
    then codes "INIT"
    else if state == state_pre_op
    then codes "PREOP"
    else if state == state_boot
    then codes "BOOT"
    else if state == state_safe_op
    then codes "SAFEOP"
    else if state == state_operational
    then codes "OP"
    else codes "UNKNOWN"

unfoldable pub inspection_line : SlaveInfo → (actual_state al_status_code : ℕ) → Text
unfolding ether_cat_state_to_string
inspection_line info actual_state al_status_code =
    codes "StateInspection for slave "
    ++ to_text info.slave_id
    ++ codes " ["
    ++ info.name
    ++ codes "]: state=0x"
    ++ to_hex actual_state
    ++ codes " ("
    ++ ether_cat_state_to_string actual_state
    ++ codes "), al_status_code=0x"
    ++ to_hex al_status_code

-- A slave that reports an error is in no state that has a name.
inspection_line_runs :
    inspection_line (record empty_info { slave_id = 3; name = codes "EK" }) 0x14 0x1b
    ≡ codes "StateInspection for slave 3 [EK]: state=0x14 (UNKNOWN), al_status_code=0x1b"
unfolding inspection_line ether_cat_state_to_string to_text to_hex
inspection_line_runs = refl
