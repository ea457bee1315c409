-- ===== src/Node/Layout.antt =====
-- Servo commands and feedback as PDO bytes under any mapping, such as one that SetPdoMapping of
-- src/slave_node/slave_node.cpp sets: the encoding of src/slave_node/device_profile.cpp.
use mo_driver_pc_ether_cat.Common.{
  ℕ, ◌+◌, ◌*◌, ◌≤◌, ◌≡◌, ap, subst, false, ◌∙◌, ◌⊎◌, some, List, arith, length,
}
use mo_driver_pc_ether_cat.Common.Int.{ℤ}
use mo_driver_pc_ether_cat.Common.Text.{Text, codes}
use mo_driver_pc_ether_cat.Common.Bytes.{
  copy_to, copy_from, le_bytes, of_le_bytes, to_word, of_word, length-copy_to, length-le_bytes,
  copy_from-copy_to,
}
use mo_driver_pc_ether_cat.Common.Bytes.Copies.{copy_from-copy_to_apart}
use mo_driver_pc_ether_cat.Axis.{Floats, ServoAxis, update_command_readback}
use mo_driver_pc_ether_cat.Node.Config.{PdoEntry, PdoMapping}
use mo_driver_pc_ether_cat.Node.Profile.{
  Profile, of_raw, find_entry, write_raw, read_raw, encode_pdo_output, decode_pdo_input,
}
use mo_driver_pc_ether_cat.Node.Pdo.{Fits, raw_position, raw_velocity, raw_torque, field32, field16}

-- The mapping has an output and an input of `size` bytes at the same offset.
pub record Field (mapping : PdoMapping) (output input : Text) (size : ℕ) : Type 0 where
  pub out_entry : PdoEntry
  pub in_entry : PdoEntry
  pub has_output : find_entry mapping.outputs output ≡ some out_entry
  pub has_input : find_entry mapping.inputs input ≡ some in_entry
  pub out_size : out_entry.size ≡ size
  pub in_size : in_entry.size ≡ size
  pub same_place : in_entry.offset ≡ out_entry.offset

-- The two ranges have no byte in common.
abbrev pub Disjoint : (at size at' size' : ℕ) → Type 0
Disjoint at size at' size' = (at + size ≤ at') ⊎ (at' + size' ≤ at)

module _ {mapping : PdoMapping} {output input : Text} {size : ℕ}
    (f : Field mapping output input size) where
  abbrev pub place : ℕ
  place = f.out_entry.offset

  write_raw-field :
      (z : ℤ) (buffer : List ℕ)
      → write_raw size (find_entry mapping.outputs output) z buffer
        ≡ copy_to buffer place (le_bytes size (to_word (8 * size) z))
  unfolding write_raw
  write_raw-field z buffer = ground (arith, f.has_output, f.out_size)

  read_raw-field :
      (buffer : List ℕ)
      → read_raw size (find_entry mapping.inputs input) buffer
        ≡ of_word (8 * size) (of_le_bytes (copy_from buffer place size))
  unfolding read_raw
  read_raw-field buffer = ground (arith, f.has_input, f.in_size, f.same_place)

  -- The buffer after the field has been written.
  abbrev pub written : ℤ → List ℕ → List ℕ
  written z buffer = copy_to buffer place (le_bytes size (to_word (8 * size) z))

  length-written :
      (z : ℤ) (buffer : List ℕ)
      → place + size ≤ length buffer
      → length (written z buffer) ≡ length buffer
  length-written z buffer h =
      length-copy_to buffer place (le_bytes size (to_word (8 * size) z))
        (omega (arith, length-le_bytes size (to_word (8 * size) z)))

  read-written :
      (z : ℤ) (buffer : List ℕ)
      → place + size ≤ length buffer
      → copy_from (written z buffer) place size ≡ le_bytes size (to_word (8 * size) z)
  read-written z buffer h =
      let bytes = le_bytes size (to_word (8 * size) z) in
      subst (λ k. copy_from (written z buffer) place k ≡ bytes)
        (length-le_bytes size (to_word (8 * size) z))
        (copy_from-copy_to buffer place bytes (omega arith))

  read-apart :
      (z : ℤ) (buffer : List ℕ) (at len : ℕ)
      → place + size ≤ length buffer
      → Disjoint at len place size
      → copy_from (written z buffer) at len ≡ copy_from buffer at len
  read-apart z buffer at len h k =
      let bytes = le_bytes size (to_word (8 * size) z) in
      let long = length-le_bytes size (to_word (8 * size) z) in
      copy_from-copy_to_apart buffer place bytes at len (omega (arith, long)) (ground (arith, long))

-- The three fields of a servo lie in the buffer, apart from each other.
pub record Layout (mapping : PdoMapping) (size : ℕ) : Type 0 where
  pub position : Field mapping (codes "target_position") (codes "position_actual_value") 4
  pub velocity : Field mapping (codes "target_velocity") (codes "velocity_actual_value") 4
  pub torque : Field mapping (codes "target_torque") (codes "torque_actual_value") 2
  pub position_inside : place position + 4 ≤ size
  pub velocity_inside : place velocity + 4 ≤ size
  pub torque_inside : place torque + 2 ≤ size
  pub position_velocity : Disjoint (place position) 4 (place velocity) 4
  pub position_torque : Disjoint (place position) 4 (place torque) 2
  pub velocity_torque : Disjoint (place velocity) 4 (place torque) 2

module _ {F : Type 0} ⦃fl : Floats F⦄ where
  -- The raw commands fit their fields.
  pub record CommandsFit (a : ServoAxis F) : Type 0 where
    pub position : Fits 31 (raw_position a)
    pub velocity : Fits 31 (raw_velocity a)
    pub torque : Fits 15 (raw_torque a)

  -- The axis with the commands as its feedback.
  abbrev pub answered : ServoAxis F → ServoAxis F
  answered a = record a {
    actual_position = of_raw (raw_position a) a.config.position_scale a.config.direction;
    actual_velocity = of_raw (raw_velocity a) a.config.velocity_scale a.config.direction;
    actual_torque = of_raw (raw_torque a) a.config.torque_scale a.config.direction;
    enabled = false;
    fault = false;
  }

module _ {F : Type 0} ⦃fl : Floats F⦄ (a : ServoAxis F) (mapping : PdoMapping) (buffer : List ℕ)
    (l : Layout mapping (length buffer)) where
  abbrev first : List ℕ
  first = written l.position (raw_position a) buffer

  abbrev second : List ℕ
  second = written l.velocity (raw_velocity a) first

  abbrev third : List ℕ
  third = written l.torque (raw_torque a) second

  encoded-third : encode_pdo_output mapping (Profile.servo a) buffer ≡ third
  unfolding encode_pdo_output
  encoded-third = cc (
    write_raw-field l.position (raw_position a) buffer,
    write_raw-field l.velocity (raw_velocity a) first,
    write_raw-field l.torque (raw_torque a) second,
  )

  first-length : length first ≡ length buffer
  first-length = length-written l.position (raw_position a) buffer l.position_inside

  second-length : length second ≡ length buffer
  second-length =
      length-written l.velocity (raw_velocity a) first
        (omega (arith, first-length, l.velocity_inside))
      ∙ first-length

  torque-read :
      read_raw 2 (find_entry mapping.inputs (codes "torque_actual_value")) third
      ≡ of_word 16 (of_le_bytes (le_bytes 2 (to_word 16 (raw_torque a))))
  torque-read =
      read_raw-field l.torque third
      ∙ ap (λ bs. of_word 16 (of_le_bytes bs))
          (read-written l.torque (raw_torque a) second
            (omega (arith, second-length, l.torque_inside)))

  velocity-read :
      read_raw 4 (find_entry mapping.inputs (codes "velocity_actual_value")) third
      ≡ of_word 32 (of_le_bytes (le_bytes 4 (to_word 32 (raw_velocity a))))
  velocity-read =
      read_raw-field l.velocity third
      ∙ ap (λ bs. of_word 32 (of_le_bytes bs))
          (read-apart l.torque (raw_torque a) second (place l.velocity) 4
              (omega (arith, second-length, l.torque_inside)) l.velocity_torque
            ∙ read-written l.velocity (raw_velocity a) first
                (omega (arith, first-length, l.velocity_inside)))

  position-read :
      read_raw 4 (find_entry mapping.inputs (codes "position_actual_value")) third
      ≡ of_word 32 (of_le_bytes (le_bytes 4 (to_word 32 (raw_position a))))
  position-read =
      read_raw-field l.position third
      ∙ ap (λ bs. of_word 32 (of_le_bytes bs))
          (read-apart l.torque (raw_torque a) second (place l.position) 4
              (omega (arith, second-length, l.torque_inside)) l.position_torque
            ∙ read-apart l.velocity (raw_velocity a) first (place l.position) 4
                (omega (arith, first-length, l.velocity_inside)) l.position_velocity
            ∙ read-written l.position (raw_position a) buffer l.position_inside)

pub decode-encode_any :
    {F : Type 0} ⦃fl : Floats F⦄ (a : ServoAxis F) (mapping : PdoMapping) (buffer : List ℕ)
    → Layout mapping (length buffer)
    → CommandsFit a
    → decode_pdo_input mapping
        (encode_pdo_output mapping (Profile.servo a) buffer)
        (Profile.servo a)
      ≡ Profile.servo (answered a)
unfolding decode_pdo_input update_command_readback
decode-encode_any a mapping buffer l f = cc (
  encoded-third a mapping buffer l,
  position-read a mapping buffer l ∙ field32 (raw_position a) f.position,
  velocity-read a mapping buffer l ∙ field32 (raw_velocity a) f.velocity,
  torque-read a mapping buffer l ∙ field16 (raw_torque a) f.torque,
)
