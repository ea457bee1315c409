-- ===== src/Node/Sound.antt =====
-- The buffers of a slave node and what they are for: src/slave_node/slave_node.cpp.
use mathlib.Core.List.{append-nil}
use mo_driver_pc_ether_cat.Common.{
  ℕ, ◌+◌, ◌*◌, ◌≤◌, ◌≡◌, refl, ◌∙◌, inl, inr, Option, none, some, List, [], ◌∷◌, arith, drop, ltb,
  if◌then◌else◌, length, is_some, Option-cases,
}
use mo_driver_pc_ether_cat.Common.Int.{ℤ}
use mo_driver_pc_ether_cat.Common.Text.{Text}
use mo_driver_pc_ether_cat.Common.Bytes.{
  to_word, le_bytes, length-resize, length-copy_to, length-le_bytes, length-read_range,
}
use mo_driver_pc_ether_cat.Types.{SlaveInfo}
use mo_driver_pc_ether_cat.Master.{Master, read_input}
use mo_driver_pc_ether_cat.Axis.{Floats}
use mo_driver_pc_ether_cat.Node.Config.{PdoEntry, PdoMapping, SlaveConfig}
use mo_driver_pc_ether_cat.Node.Profile.{Profile, find_entry, write_raw, encode_pdo_output}
use mo_driver_pc_ether_cat.Node.Slave.{
  SlaveNode, placeholder, extent, compute_output_size, compute_input_size, configure,
  set_pdo_mapping, encoded, decoded, received, update_pdo_output, update_pdo_input,
}
use mo_driver_pc_ether_cat.Node.Typed.{Typed, create_device_profile-Typed, decoded-Typed}

extent-ge : (size : ℕ) (es : List PdoEntry) → size ≤ extent size es
unfolding extent
extent-ge size [] = omega arith
extent-ge size (e ∷ es) =
    ground (arith, extent-ge (if ltb size (e.offset + e.size) then e.offset + e.size else size) es)

-- Every entry that can be found ends inside the extent.
find_entry-le-extent :
    (size : ℕ) (es : List PdoEntry) (name : Text) (e : PdoEntry)
    → find_entry es name ≡ some e
    → e.offset + e.size ≤ extent size es
unfolding extent find_entry
find_entry-le-extent size [] name e h = cc
find_entry-le-extent size (x ∷ es) name e h =
    let size' = if ltb size (x.offset + x.size) then x.offset + x.size else size in
    ground (arith, extent-ge size' es, find_entry-le-extent size' es name e)

compute_output_size_fits :
    (mapping : PdoMapping) (name : Text) (e : PdoEntry)
    → find_entry mapping.outputs name ≡ some e
    → e.offset + e.size ≤ compute_output_size mapping
unfolding compute_output_size
compute_output_size_fits mapping name e h =
    ground (arith, find_entry-le-extent 0 mapping.outputs name e h)

length-write_raw :
    (size : ℕ) (mapping : PdoMapping) (name : Text) (value : ℤ) (buffer : List ℕ)
    → length buffer ≡ compute_output_size mapping
    → length (write_raw size (find_entry mapping.outputs name) value buffer) ≡ length buffer
unfolding write_raw
length-write_raw size mapping name value buffer h =
    elim (Option-cases (find_entry mapping.outputs name)) [
      | inl e ↦ rw (e, write_raw)
      | inr (x, e) ↦
          (let bytes = le_bytes size (to_word (8 * size) value) in
            let fits = compute_output_size_fits mapping name x e in
            rw (e, write_raw)
              (ground (
                arith,
                length-copy_to buffer x.offset bytes,
                length-le_bytes size (to_word (8 * size) value),
                fits,
              )))
    ]

-- A write keeps the buffer at the size that the mapping gives it.
write_raw-size :
    (size : ℕ) (mapping : PdoMapping) (name : Text) (value : ℤ) (buffer : List ℕ)
    → length buffer ≡ compute_output_size mapping
    → length (write_raw size (find_entry mapping.outputs name) value buffer)
      ≡ compute_output_size mapping
write_raw-size size mapping name value buffer h =
    length-write_raw size mapping name value buffer h ∙ h

module _ {F : Type 0} ⦃fl : Floats F⦄ where
  encode-size :
      (mapping : PdoMapping) (p : Profile F) (buffer : List ℕ)
      → length buffer ≡ compute_output_size mapping
      → length (encode_pdo_output mapping p buffer) ≡ compute_output_size mapping
  unfolding encode_pdo_output
  encode-size mapping (Profile.servo a) buffer h =
      write_raw-size 2 mapping _ _ _
        (write_raw-size 4 mapping _ _ _ (write_raw-size 4 mapping _ _ buffer h))
  encode-size mapping Profile.digital_io buffer h = h
  encode-size mapping Profile.analog_io buffer h = h
  encode-size mapping Profile.unknown buffer h = h

-- The buffers have the sizes that the mapping asks for.
abbrev pub Sized : {F : Type 0} → Option (SlaveConfig F) → List ℕ → List ℕ → Type 0
Sized none output input = Unit {0}
Sized (some c) output input =
    (length output ≡ compute_output_size c.mapping) × (length input ≡ compute_input_size c.mapping)

-- A node is configured exactly when it has a configuration and a profile, and then its buffers
-- have the sizes that its mapping asks for and its profile is the one of its type.
pub record IsSound {F : Type 0} (n : SlaveNode F) : Type 0 where
  pub has_config : n.configured ≡ is_some n.config
  pub has_profile : n.configured ≡ is_some n.profile
  pub sized : Sized n.config n.output_buffer n.input_buffer
  pub typed : Typed n.config n.profile

pub drop-length : (xs : List ℕ) → drop (length xs) xs ≡ []
drop-length [] = refl
drop-length (x ∷ xs) = drop-length xs

length-read_input :
    {B : Type 0} (slave offset : ℕ) (buffer : List ℕ) (m : Master B)
    → length (read_input slave offset (length buffer) buffer m) ≡ length buffer
unfolding read_input
length-read_input slave offset buffer m = elim (Option-cases (m.port.slavelist slave).inputs) [
  | inl e ↦ rw (e, read_input)
  | inr (base, e) ↦
      rw (e, read_input)
        (rw (drop-length buffer)
          (simp append-nil (length-read_range m.port.iomap (base + offset) (length buffer))))
]

module _ {F : Type 0} where
  pub placeholder-IsSound : (info : SlaveInfo) → IsSound (placeholder {F = F} info)
  placeholder-IsSound info = record {
    has_config = refl;
    has_profile = refl;
    sized = tt;
    typed = tt;
  }

  pub set_pdo_mapping-IsSound :
      (mapping : PdoMapping) (n : SlaveNode F) → IsSound n → IsSound (set_pdo_mapping mapping n)
  unfolding set_pdo_mapping
  set_pdo_mapping-IsSound mapping n s = ground (
    arith,
    length-resize (compute_output_size mapping) n.output_buffer,
    length-resize (compute_input_size mapping) n.input_buffer,
  )

module _ {F : Type 0} ⦃fl : Floats F⦄ where
  pub configure-IsSound :
      (config : SlaveConfig F) (n : SlaveNode F) → IsSound n → IsSound (configure config n).1
  unfolding configure
  configure-IsSound config n s = ground (
    arith,
    length-resize (compute_output_size config.mapping) n.output_buffer,
    length-resize (compute_input_size config.mapping) n.input_buffer,
    create_device_profile-Typed config.type config.axis_config,
  )

  decoded-some :
      (n : SlaveNode F) (buffer : List ℕ) → is_some (decoded n buffer) ≡ is_some n.profile
  unfolding decoded
  decoded-some n buffer = ground arith

  pub encoded-size :
      (n : SlaveNode F) (c : SlaveConfig F)
      → n.config ≡ some c
      → length n.output_buffer ≡ compute_output_size c.mapping
      → length (encoded n) ≡ compute_output_size c.mapping
  unfolding encoded
  encoded-size n c e h = elim (Option-cases n.profile) [
    | inl q ↦ rw (e, q) h
    | inr (p, q) ↦ rw (e, q) (encode-size c.mapping p n.output_buffer h)
  ]

  module _ {B : Type 0} where
    pub update_pdo_output-IsSound :
        (n : SlaveNode F) (m : Master B) → IsSound n → IsSound (update_pdo_output n m).0
    unfolding update_pdo_output
    update_pdo_output-IsSound n m s = elim (Option-cases n.config) [
      | inl e ↦ ground arith
      | inr (c, e) ↦ ground (arith, encoded-size n c e)
    ]

    length-received :
        (n : SlaveNode F) (m : Master B) → length (received n m) ≡ length n.input_buffer
    unfolding received
    length-received n m = ground (arith, length-read_input n.info.slave_id 0 n.input_buffer m)

    pub update_pdo_input-IsSound :
        (n : SlaveNode F) (m : Master B) → IsSound n → IsSound (update_pdo_input n m)
    unfolding update_pdo_input
    update_pdo_input-IsSound n m s = elim (Option-cases n.config) [
      | inl e ↦
          ground (arith, decoded-some n (received n m), decoded-Typed n (received n m) s.typed)
      | inr (c, e) ↦ ground (
        arith,
        decoded-some n (received n m),
        decoded-Typed n (received n m) s.typed,
        length-received n m,
      )
    ]
