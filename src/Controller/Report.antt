-- ===== src/Controller/Report.antt =====
-- The texts of src/ec_controller/ec_controller.cpp: the report on a slave that Scan logs, and the name
-- of a state.
use mo_driver_pc_ether_cat.Common.{
  ℕ, ◌-◌, ◌==◌, ◌≡◌, Bool, not, [], ◌∷◌, ◌++◌, arith, if◌then◌else◌, bit_and, length, replicate,
}
use mo_driver_pc_ether_cat.Common.Text.{
  Text, codes, is_empty, to_text, to_hex, contains, starts_with,
}
use mo_driver_pc_ether_cat.Types.{SlaveInfo}
use mo_driver_pc_ether_cat.Controller.States.{ControllerState}

unfoldable pub state_to_string : ControllerState → Text
state_to_string ControllerState.uninitialized = codes "Uninitialized"
state_to_string ControllerState.adapter_ready = codes "AdapterReady"
state_to_string ControllerState.scanned = codes "Scanned"
state_to_string ControllerState.maintenance = codes "Maintenance"
state_to_string ControllerState.ready_to_run = codes "ReadyToRun"
state_to_string ControllerState.operational = codes "Operational"
state_to_string ControllerState.fault = codes "Fault"
state_to_string ControllerState.emergency_stop = codes "EmergencyStop"

-- if (value & mask) s += name;
abbrev named : Bool → Text → Text
named clear name = if clear then [] else name

-- s.pop_back()
abbrev pop_back : Text → Text
pop_back [] = []
pop_back (c ∷ []) = []
pop_back (c ∷ d ∷ s) = c ∷ pop_back (d ∷ s)

abbrev or_none : Text → Text
or_none s = if is_empty s then codes "none" else pop_back s

-- MbxProtoToString, by the bits that are clear.
abbrev protocols : (no_aoe no_eoe no_coe no_foe no_soe no_voe : Bool) → Text
protocols no_aoe no_eoe no_coe no_foe no_soe no_voe = or_none (
    named no_aoe (codes "AoE ")
    ++ named no_eoe (codes "EoE ")
    ++ named no_coe (codes "CoE ")
    ++ named no_foe (codes "FoE ")
    ++ named no_soe (codes "SoE ")
    ++ named no_voe (codes "VoE "))

unfoldable pub mbx_proto_to_string : ℕ → Text
mbx_proto_to_string proto =
    protocols (bit_and proto 0x01 == 0) (bit_and proto 0x02 == 0) (bit_and proto 0x04 == 0)
      (bit_and proto 0x08 == 0) (bit_and proto 0x10 == 0) (bit_and proto 0x20 == 0)

unfoldable pub coe_details_to_string : ℕ → Text
coe_details_to_string details = or_none (
    named (bit_and details 0x01 == 0) (codes "SDO ")
    ++ named (bit_and details 0x02 == 0) (codes "SDOINFO ")
    ++ named (bit_and details 0x04 == 0) (codes "PDOASSIGN ")
    ++ named (bit_and details 0x08 == 0) (codes "PDOCONFIG ")
    ++ named (bit_and details 0x10 == 0) (codes "UPLOAD ")
    ++ named (bit_and details 0x20 == 0) (codes "SDOCA "))

-- hex_u32, hex_u16 and hex_u8: 0x and at least `width` digits.
unfoldable pub hex_padded : (width : ℕ) → ℕ → Text
hex_padded width n = codes "0x" ++ replicate (width - length (to_hex n)) b'0' ++ to_hex n

-- std::left << std::setw(18)
unfoldable pub info_line : Text → Text → Text
info_line key value =
    codes "  " ++ key ++ replicate (18 - length key) b' ' ++ codes " = " ++ value ++ codes "\n"

unfoldable pub format_slave_info : SlaveInfo → Text
unfolding hex_padded info_line mbx_proto_to_string coe_details_to_string
format_slave_info info =
    codes "Slave["
    ++ to_text info.slave_id
    ++ codes "] info:\n"
    ++ info_line (codes "name") (codes "\"" ++ info.name ++ codes "\"")
    ++ info_line (codes "vendor_id") (hex_padded 8 info.vendor_id)
    ++ info_line (codes "product_id") (hex_padded 8 info.product_id)
    ++ info_line (codes "revision_id") (hex_padded 8 info.revision_id)
    ++ info_line (codes "serial_id") (hex_padded 8 info.serial_id)
    ++ info_line (codes "config_address") (hex_padded 4 info.config_address)
    ++ info_line (codes "alias_address") (hex_padded 4 info.alias_address)
    ++ info_line (codes "supports_dc") (if info.supports_dc then codes "yes" else codes "no")
    ++ info_line (codes "mbx_l") (to_text info.mbx_l)
    ++ info_line (codes "mbx_wo") (hex_padded 4 info.mbx_wo)
    ++ info_line (codes "mbx_ro") (hex_padded 4 info.mbx_ro)
    ++ info_line (codes "mbx_proto") (
        hex_padded 4 info.mbx_proto
        ++ codes " ("
        ++ mbx_proto_to_string info.mbx_proto
        ++ codes ")")
    ++ info_line (codes "mbx_cnt") (to_text info.mbx_cnt)
    ++ info_line (codes "state") (hex_padded 4 info.state)
    ++ info_line (codes "al_status_code") (hex_padded 4 info.al_status_code)
    ++ info_line (codes "coe_details") (
        hex_padded 2 info.coe_details
        ++ codes " ("
        ++ coe_details_to_string info.coe_details
        ++ codes ")")
    ++ info_line (codes "output_bytes") (to_text info.output_bytes)
    ++ info_line (codes "input_bytes") (to_text info.input_bytes)

protocols-named :
    (no_aoe no_eoe no_coe no_foe no_soe no_voe : Bool)
    → let text = protocols no_aoe no_eoe no_coe no_foe no_soe no_voe in
      (contains (codes "AoE") text ≡ not no_aoe)
      × (contains (codes "EoE") text ≡ not no_eoe)
      × (contains (codes "CoE") text ≡ not no_coe)
      × (contains (codes "FoE") text ≡ not no_foe)
      × (contains (codes "SoE") text ≡ not no_soe)
      × (contains (codes "VoE") text ≡ not no_voe)
unfolding contains starts_with
protocols-named no_aoe no_eoe no_coe no_foe no_soe no_voe =
    (ground arith, ground arith, ground arith, ground arith, ground arith, ground arith)

-- The text of the mailbox protocols names a protocol exactly where its bit is set.
pub mbx_proto_to_string-named :
    (proto : ℕ)
    → let text = mbx_proto_to_string proto in
      (contains (codes "AoE") text ≡ not (bit_and proto 0x01 == 0))
      × (contains (codes "EoE") text ≡ not (bit_and proto 0x02 == 0))
      × (contains (codes "CoE") text ≡ not (bit_and proto 0x04 == 0))
      × (contains (codes "FoE") text ≡ not (bit_and proto 0x08 == 0))
      × (contains (codes "SoE") text ≡ not (bit_and proto 0x10 == 0))
      × (contains (codes "VoE") text ≡ not (bit_and proto 0x20 == 0))
unfolding mbx_proto_to_string
mbx_proto_to_string-named proto =
    protocols-named (bit_and proto 0x01 == 0) (bit_and proto 0x02 == 0) (bit_and proto 0x04 == 0)
      (bit_and proto 0x08 == 0) (bit_and proto 0x10 == 0) (bit_and proto 0x20 == 0)
