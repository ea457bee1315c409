-- ===== src/Node/Pdo.antt =====
-- Servo commands and feedback as PDO bytes: the encoding of src/slave_node/device_profile.cpp under
-- the mapping of src/slave_node/slave_config_factory.cpp.
use mo_driver_pc_ether_cat.Common.{ℕ, ◌^◌, ◌<◌, ◌≡◌, false, List, arith, length}
use mo_driver_pc_ether_cat.Common.Int.{ℤ, pos, negsuc}
use mo_driver_pc_ether_cat.Common.Bytes.{
  copy_to, copy_from, le_bytes, of_le_bytes, to_word, of_word, of_le_bytes-le_bytes,
}
use mo_driver_pc_ether_cat.Axis.{Floats, ServoAxis, update_command_readback}
use mo_driver_pc_ether_cat.Node.Factory.{servo_mapping}
use mo_driver_pc_ether_cat.Node.Profile.{
  Profile, to_raw, of_raw, encode_pdo_output, decode_pdo_input,
}

-- The value of a signed integer of `bits + 1` bits.
abbrev pub Fits : ℕ → ℤ → Type 0
Fits bits (pos n) = n < 2 ^ bits
Fits bits (negsuc n) = n < 2 ^ bits

to_word_lt32 : (z : ℤ) → to_word 32 z < 256 ^ 4
unfolding to_word
to_word_lt32 (pos n) = omega arith
to_word_lt32 (negsuc n) = omega arith

to_word_lt16 : (z : ℤ) → to_word 16 z < 256 ^ 2
unfolding to_word
to_word_lt16 (pos n) = omega arith
to_word_lt16 (negsuc n) = omega arith

of_word-to_word32 : (z : ℤ) → Fits 31 z → of_word 32 (to_word 32 z) ≡ z
unfolding of_word to_word
of_word-to_word32 (pos n) h = ground arith
of_word-to_word32 (negsuc n) h = ground arith

of_word-to_word16 : (z : ℤ) → Fits 15 z → of_word 16 (to_word 16 z) ≡ z
unfolding of_word to_word
of_word-to_word16 (pos n) h = ground arith
of_word-to_word16 (negsuc n) h = ground arith

pub field32 : (z : ℤ) → Fits 31 z → of_word 32 (of_le_bytes (le_bytes 4 (to_word 32 z))) ≡ z
field32 z h = rw (of_le_bytes-le_bytes 4 (to_word 32 z) (to_word_lt32 z)) (of_word-to_word32 z h)

pub field16 : (z : ℤ) → Fits 15 z → of_word 16 (of_le_bytes (le_bytes 2 (to_word 16 z))) ≡ z
field16 z h = rw (of_le_bytes-le_bytes 2 (to_word 16 z) (to_word_lt16 z)) (of_word-to_word16 z h)

module _ {F : Type 0} ⦃fl : Floats F⦄ where
  -- The raw values of the three commands.
  abbrev pub raw_position : ServoAxis F → ℤ
  raw_position a = to_raw a.target_position a.config.position_scale a.config.direction

  abbrev pub raw_velocity : ServoAxis F → ℤ
  raw_velocity a = to_raw a.target_velocity a.config.velocity_scale a.config.direction

  abbrev pub raw_torque : ServoAxis F → ℤ
  raw_torque a = to_raw a.target_torque a.config.torque_scale a.config.direction

  -- With a buffer of ten bytes and raw commands that fit their fields, a drive that returns the
  -- bytes it was sent is read back as having reached its commands: each field comes back from its
  -- own bytes, and the enable and fault flags are cleared.
  pub decode-encode :
      (a : ServoAxis F) (buffer : List ℕ)
      → length buffer ≡ 10
      → Fits 31 (raw_position a)
      → Fits 31 (raw_velocity a)
      → Fits 15 (raw_torque a)
      → decode_pdo_input servo_mapping
          (encode_pdo_output servo_mapping (Profile.servo a) buffer)
          (Profile.servo a)
        ≡ Profile.servo (record a {
          actual_position = of_raw (raw_position a) a.config.position_scale a.config.direction;
          actual_velocity = of_raw (raw_velocity a) a.config.velocity_scale a.config.direction;
          actual_torque = of_raw (raw_torque a) a.config.torque_scale a.config.direction;
          enabled = false;
          fault = false;
        })
  unfolding decode_pdo_input encode_pdo_output copy_to copy_from le_bytes of_le_bytes
      update_command_readback
  decode-encode a buffer h p v t =
      cc (field32 (raw_position a) p, field32 (raw_velocity a) v, field16 (raw_torque a) t)
