-- ===== src/Node/Profile.antt =====
-- src/slave_node/device_profile.{h,cpp}: PDO bytes and what they mean to a device. A class that
-- derives from DeviceProfile is a constructor; the three besides ServoProfile convert nothing.
use mo_driver_pc_ether_cat.Common.{
  ℕ, ◌*◌, false, Option, none, some, List, [], ◌∷◌, ◌==◌, if◌then◌else◌,
}
use mo_driver_pc_ether_cat.Common.Int.{ℤ, pos}
use mo_driver_pc_ether_cat.Common.Text.{Text, codes, text_eq}
use mo_driver_pc_ether_cat.Common.Bytes.{
  copy_to, copy_from, le_bytes, of_le_bytes, to_word, of_word,
}
use mo_driver_pc_ether_cat.Axis.{Floats, AxisConfig, ServoAxis, new_axis, update_command_readback}
use mo_driver_pc_ether_cat.Node.Config.{SlaveType, PdoEntry, PdoMapping}

pub data Profile (F : Type 0) : Type 0 where
  servo : ServoAxis F → Profile F
  digital_io analog_io unknown : Profile F

unfoldable pub find_entry : List PdoEntry → Text → Option PdoEntry
find_entry [] name = none
find_entry (e ∷ es) name = if text_eq e.name name then some e else find_entry es name

-- `sizeof(T)` is `size`; the result of the source is not used by its callers.
unfoldable pub write_raw : (size : ℕ) → Option PdoEntry → ℤ → List ℕ → List ℕ
write_raw size none value buffer = buffer
write_raw size (some e) value buffer =
    if e.size == size
    then copy_to buffer e.offset (le_bytes size (to_word (8 * size) value))
    else buffer

-- The variable that is passed in holds 0.
unfoldable pub read_raw : (size : ℕ) → Option PdoEntry → List ℕ → ℤ
read_raw size none buffer = pos 0
read_raw size (some e) buffer =
    if e.size == size
    then of_word (8 * size) (of_le_bytes (copy_from buffer e.offset size))
    else pos 0

-- GetType of each class.
abbrev pub profile_type : {F : Type 0} → Profile F → SlaveType
profile_type (Profile.servo a) = SlaveType.servo
profile_type Profile.digital_io = SlaveType.digital_io
profile_type Profile.analog_io = SlaveType.analog_io
profile_type Profile.unknown = SlaveType.unknown

module _ {F : Type 0} ⦃fl : Floats F⦄ where
  unfoldable pub create_device_profile : SlaveType → AxisConfig F → Profile F
  create_device_profile SlaveType.servo config = Profile.servo (new_axis config)
  create_device_profile SlaveType.digital_io config = Profile.digital_io
  create_device_profile SlaveType.analog_io config = Profile.analog_io
  create_device_profile SlaveType.unknown config = Profile.unknown

  -- if (scale != 0.0) raw = static_cast<T>(target / scale * direction), else raw stays 0
  abbrev pub to_raw : (target scale : F) → ℤ → ℤ
  to_raw target scale direction =
      if fl.is_zero scale
      then pos 0
      else fl.to_int (fl.mul (fl.div target scale) (fl.of_int direction))

  abbrev pub of_raw : ℤ → F → ℤ → F
  of_raw raw scale direction = fl.mul (fl.mul (fl.of_int raw) scale) (fl.of_int direction)

  unfoldable pub encode_pdo_output : PdoMapping → Profile F → List ℕ → List ℕ
  unfolding write_raw find_entry
  encode_pdo_output mapping (Profile.servo a) buffer =
      write_raw 2 (find_entry mapping.outputs (codes "target_torque"))
        (to_raw a.target_torque a.config.torque_scale a.config.direction)
        (write_raw 4 (find_entry mapping.outputs (codes "target_velocity"))
          (to_raw a.target_velocity a.config.velocity_scale a.config.direction)
          (write_raw 4 (find_entry mapping.outputs (codes "target_position"))
            (to_raw a.target_position a.config.position_scale a.config.direction) buffer))
  encode_pdo_output mapping _ buffer = buffer

  unfoldable pub decode_pdo_input : PdoMapping → List ℕ → Profile F → Profile F
  unfolding read_raw find_entry update_command_readback
  decode_pdo_input mapping buffer (Profile.servo a) = Profile.servo (
      update_command_readback
        (of_raw (read_raw 4 (find_entry mapping.inputs (codes "position_actual_value")) buffer)
          a.config.position_scale a.config.direction)
        (of_raw (read_raw 4 (find_entry mapping.inputs (codes "velocity_actual_value")) buffer)
          a.config.velocity_scale a.config.direction)
        (of_raw (read_raw 2 (find_entry mapping.inputs (codes "torque_actual_value")) buffer)
          a.config.torque_scale a.config.direction)
        false false a)
  decode_pdo_input mapping buffer p = p
