-- ===== src/Sdo/Dictionary.antt =====
-- What DumpPdoMapping of src/core/mo_ecat_master.cpp lists of a device that answers from an object
-- dictionary.
use mo_driver_pc_ether_cat.Common.{
  ℕ, zero, suc, ◌+◌, ◌^◌, ◌<◌, ◌≡◌, refl, ap, ◌∙◌, true, Option, some, List, [], ◌∷◌, map, length,
  length-replicate, arith, replicate, All,
}
use mo_driver_pc_ether_cat.Common.Int.{pos}
use mo_driver_pc_ether_cat.Common.Bytes.{u16, le_bytes, of_le_bytes, of_le_bytes-le_bytes}
use mo_driver_pc_ether_cat.Soem.{Port, Soem}
use mo_driver_pc_ether_cat.Master
use mo_driver_pc_ether_cat.Master.{Master}
use mo_driver_pc_ether_cat.Sdo.{
  walk_timeout, read_value, read_entries, read_object, to_entry, Listing, dump_pdos, dump_direction,
  dump_pdo_mapping,
}

module _ {B : Type 0} ⦃soem : Soem B⦄ where
  both_directions :
      (fuel slave : ℕ) (m m1 m2 : Master B) (rx tx : Option Listing)
      → 0 < slave
      → slave < 2 ^ 16
      → dump_direction fuel slave 0x1C12 m ≡ some (rx, m1)
      → dump_direction fuel slave 0x1C13 m1 ≡ some (tx, m2)
      → dump_pdo_mapping fuel (pos slave) m ≡ some (rx ∷ tx ∷ [], m2)
  unfolding dump_pdo_mapping
  both_directions fuel slave m m1 m2 rx tx low high e f =
      let sid : u16 slave ≡ slave = omega arith in ground (arith, sid, e, f)

-- The objects of a device: the value of each part of each object, part 0 being their number.
abbrev pub Dictionary : Type 0
Dictionary = ℕ → ℕ → ℕ

-- The slave answers every SDO upload with the lowest bytes of the part, whatever else happens on
-- the bus.
pub record Answers {B : Type 0} (soem : Soem B) (slave : ℕ) (dict : Dictionary) : Type 0 where
  pub succeeds :
      (index subindex timeout : ℕ) (bytes : List ℕ) (p : Port B)
      → (soem.ecx_sdo_read slave index subindex timeout bytes p).0 ≡ pos 1
  pub answers :
      (index subindex timeout : ℕ) (bytes : List ℕ) (p : Port B)
      → (soem.ecx_sdo_read slave index subindex timeout bytes p).1
        ≡ le_bytes (length bytes) (dict index subindex)

-- The parts of an object from `from` on.
abbrev pub parts_from : (ℕ → ℕ) → (number from : ℕ) → List ℕ
parts_from part zero from = []
parts_from part (suc n) from = part from ∷ parts_from part n (suc from)

abbrev pub parts_of : Dictionary → ℕ → List ℕ
parts_of dict index = parts_from (dict index) (dict index 0) 1

-- What is printed of a list of PDOs.
abbrev pub listed : Dictionary → List ℕ → Listing
listed dict pdos = map (λ pdo. (pdo, some (map to_entry (parts_of dict pdo)))) pdos

-- The object has fewer than 255 parts, and each of them `size` bytes.
pub record HasParts (dict : Dictionary) (size index : ℕ) : Type 0 where
  pub number : dict index 0 < 255
  pub fits : (i : ℕ) → dict index i < 256 ^ size

module _ {B : Type 0} ⦃soem : Soem B⦄ {slave : ℕ} {dict : Dictionary}
    (d : Answers soem slave dict) where
  read_value-part :
      (size index subindex : ℕ) (m : Master B)
      → dict index subindex < 256 ^ size
      → ((read_value size slave index subindex m).0 ≡ true)
        × ((read_value size slave index subindex m).1 ≡ dict index subindex)
  unfolding read_value Master.sdo_read
  read_value-part size index subindex m h =
      let bytes = replicate {A = ℕ} size 0 in
      let timeout = walk_timeout in
      (
        ground (arith, d.succeeds index subindex timeout bytes m.port),
        ap of_le_bytes (d.answers index subindex timeout bytes m.port)
            ∙ ap (λ n. of_le_bytes (le_bytes n (dict index subindex))) (length-replicate size 0)
            ∙ of_le_bytes-le_bytes size (dict index subindex) h,
      )

  read_entries-parts :
      (fuel size index left from count : ℕ) (m : Master B)
      → ((i : ℕ) → dict index i < 256 ^ size)
      → count < 255
      → from + left ≡ suc count
      → left < fuel
      → (m' : Master B) × (read_entries fuel size slave index from count m
          ≡ some (true, parts_from (dict index) left from, m'))
  unfolding read_entries
  read_entries-parts zero size index left from count m f c e l = absurd (omega arith)
  read_entries-parts (suc fuel) size index zero from count m f c e l = (m, ground arith)
  read_entries-parts (suc fuel) size index (suc left) from count m f c e l =
      let m1 = (read_value size slave index from m).2 in
      let (m', rest) =
        read_entries-parts fuel size index left (suc from) count m1 f c (omega arith)
          (omega arith) in
      (m', ground (arith, rest, read_value-part size index from m (f from)))

  read_object-parts :
      (size index : ℕ) (m : Master B)
      → HasParts dict size index
      → (m' : Master B) × (read_object 256 size slave index m
          ≡ some (true, parts_of dict index, m'))
  unfolding read_object
  read_object-parts size index m h =
      let m1 = (read_value 1 slave index 0 m).2 in
      let (m', rest) =
        read_entries-parts 256 size index (dict index 0) 1 (dict index 0) m1 h.fits h.number
          (omega arith) (omega (arith, h.number)) in
      (m', ground (arith, rest, read_value-part 1 index 0 m (omega (arith, h.number))))

  dump_pdos-parts :
      (pdos : List ℕ) (m : Master B)
      → All (HasParts dict 4) pdos
      → (m' : Master B) × (dump_pdos 256 slave pdos m ≡ some (listed dict pdos, m'))
  unfolding dump_pdos
  dump_pdos-parts [] m h = (m, refl)
  dump_pdos-parts (pdo ∷ pdos) m h =
      let (m1, e) = read_object-parts 4 pdo m h.0 in
      let (m2, rest) = dump_pdos-parts pdos m1 h.1 in (m2, ground (arith, e, rest))

  dump_direction-parts :
      (assign_index : ℕ) (m : Master B)
      → HasParts dict 2 assign_index
      → All (HasParts dict 4) (parts_of dict assign_index)
      → (m' : Master B) × (dump_direction 256 slave assign_index m
          ≡ some (some (listed dict (parts_of dict assign_index)), m'))
  unfolding dump_direction
  dump_direction-parts assign_index m h k =
      let (m1, e) = read_object-parts 2 assign_index m h in
      let (m2, rest) = dump_pdos-parts (parts_of dict assign_index) m1 k in
      (m2, ground (arith, e, rest))

  -- Of a slave that answers from its object dictionary, DumpPdoMapping lists exactly what stands
  -- there: for each direction the PDOs that its assignment object names, in their order, and for
  -- each of them every mapping entry, cut into its fields. The objects have fewer than 255 parts,
  -- those of an assignment two bytes and those of a mapping four; 256 rounds are enough.
  pub dump_pdo_mapping-parts :
      (m : Master B)
      → 0 < slave
      → slave < 2 ^ 16
      → HasParts dict 2 0x1C12
      → HasParts dict 2 0x1C13
      → All (HasParts dict 4) (parts_of dict 0x1C12)
      → All (HasParts dict 4) (parts_of dict 0x1C13)
      → (m' : Master B) × (dump_pdo_mapping 256 (pos slave) m
          ≡ some (
            some (listed dict (parts_of dict 0x1C12))
                ∷ some (listed dict (parts_of dict 0x1C13))
                ∷ [],
            m',
          ))
  dump_pdo_mapping-parts m low high rx tx rx_pdos tx_pdos =
      let (m1, e) = dump_direction-parts 0x1C12 m rx rx_pdos in
      let (m2, rest) = dump_direction-parts 0x1C13 m1 tx tx_pdos in
      (m2, both_directions 256 slave m m1 m2 _ _ low high e rest)
