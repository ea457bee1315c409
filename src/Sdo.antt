-- ===== src/Sdo.antt =====
-- The SDO services of src/core/mo_ecat_master.cpp, and the walks over PDO objects, which
-- src/activity/pdo_mapping_activity.cpp repeats on a slave node. Each walk is on fuel: a round is one
-- turn of its `for` loop, and `none` says that the fuel was used up.
pub mod Walk
pub mod Traffic
pub mod Dump
pub mod Dictionary
use mo_driver_pc_ether_cat.Common.{
  ℕ, zero, suc, ◌+◌, ◌*◌, ◌/◌, ◌%◌, Bool, true, false, ◌||◌, Option, none, some, List, [], ◌∷◌, leb,
  if◌then◌else◌, replicate, map,
}
use mo_driver_pc_ether_cat.Common.Int.{ℤ, is_nonpos, nat_part}
use mo_driver_pc_ether_cat.Common.Bytes.{u16, of_le_bytes}
use mo_driver_pc_ether_cat.Common.Text.{is_empty}
use mo_driver_pc_ether_cat.Soem.{Soem}
use mo_driver_pc_ether_cat.Master
use mo_driver_pc_ether_cat.Master.{Master}

-- The timeout of the walks, in microseconds.
abbrev pub walk_timeout : ℕ
walk_timeout = 10000

module _ {B : Type 0} ⦃soem : Soem B⦄ where
  -- The timeout in milliseconds is taken as not negative.
  unfoldable pub read_sdo :
      ℤ → (index subindex : ℕ) → List ℕ → (timeout_ms : ℕ) → Master B → Bool × List ℕ × Master B
  read_sdo slave_id index subindex data' timeout_ms m =
      if is_nonpos slave_id || is_empty data'
      then (false, data', m)
      else Master.sdo_read (u16 (nat_part slave_id)) index subindex (timeout_ms * 1000) data' m

  unfoldable pub write_sdo :
      ℤ → (index subindex : ℕ) → List ℕ → (timeout_ms : ℕ) → Master B → Bool × Master B
  write_sdo slave_id index subindex data' timeout_ms m =
      if is_nonpos slave_id || is_empty data'
      then (false, m)
      else Master.sdo_write (u16 (nat_part slave_id)) index subindex (timeout_ms * 1000) data' m

  -- `T x = 0; SdoRead(slave, index, subindex, &x, sizeof(x), 10000)`, for a T of `size` bytes.
  unfoldable pub read_value : (size slave index subindex : ℕ) → Master B → Bool × ℕ × Master B
  unfolding of_le_bytes
  read_value size slave index subindex m =
      let (ok, bytes, m') =
        Master.sdo_read slave index subindex walk_timeout (replicate size 0) m in
      (ok, of_le_bytes bytes, m')

  -- for (uint8_t i = from; i <= count; ++i), the values read so far in front.
  unfoldable pub read_entries :
      (fuel size slave index from count : ℕ) → Master B → Option (Bool × List ℕ × Master B)
  unfolding read_value
  read_entries zero size slave index from count m = none
  read_entries (suc fuel) size slave index from count m =
      let (ok, value, m') = read_value size slave index from m in
      let rest = read_entries fuel size slave index ((from + 1) % 256) count m' in
      if leb from count
      then (if ok
          then (elim rest [
            | none ↦ none
            | some (good, values, m'') ↦ some (good, value ∷ values, m'')
          ])
          else some (false, [], m'))
      else some (true, [], m)

  -- ReadSmAssignment (entries of 2 bytes) and ReadPdoMapping (entries of 4 bytes).
  unfoldable pub read_object :
      (fuel size slave index : ℕ) → Master B → Option (Bool × List ℕ × Master B)
  unfolding read_entries
  read_object fuel size slave index m =
      let (ok, count, m') = read_value 1 slave index 0 m in
      if ok then read_entries fuel size slave index 1 count m' else some (false, [], m')

  abbrev pub read_sm_assignment :
      (fuel slave assign_index : ℕ) → Master B → Option (Bool × List ℕ × Master B)
  read_sm_assignment fuel = read_object fuel 2

  abbrev pub read_pdo_mapping :
      (fuel slave pdo_index : ℕ) → Master B → Option (Bool × List ℕ × Master B)
  read_pdo_mapping fuel = read_object fuel 4

-- One line of the dump: an entry of a PDO, by its object, its part and its length in bits.
pub record Entry : Type 0 where
  pub index : ℕ
  pub subindex : ℕ
  pub bit_length : ℕ

unfoldable pub to_entry : ℕ → Entry
to_entry entry = record {
  index = entry / 65536 % 65536;
  subindex = entry / 256 % 256;
  bit_length = entry % 256;
}

-- What DumpPdoMapping prints of a PDO, and of a direction; `none` for "read failed". Its wording is
-- in Sdo/Dump.antt.
abbrev pub Listing : Type 0
Listing = List (ℕ × Option (List Entry))

module _ {B : Type 0} ⦃soem : Soem B⦄ where
  -- The loop over the PDOs that are assigned; a PDO that cannot be read does not end it.
  unfoldable pub dump_pdos : (fuel slave : ℕ) → List ℕ → Master B → Option (Listing × Master B)
  unfolding read_object to_entry
  dump_pdos fuel slave [] m = some ([], m)
  dump_pdos fuel slave (pdo ∷ pdos) m = elim (read_pdo_mapping fuel slave pdo m) [
    | none ↦ none
    | some (ok, entries, m') ↦ (elim (dump_pdos fuel slave pdos m') [
      | none ↦ none
      | some (listing, m'') ↦
          some ((pdo, (if ok then some (map to_entry entries) else none)) ∷ listing, m'')
    ])
  ]

  unfoldable pub dump_direction :
      (fuel slave assign_index : ℕ) → Master B → Option (Option Listing × Master B)
  unfolding dump_pdos
  dump_direction fuel slave assign_index m = elim (read_sm_assignment fuel slave assign_index m) [
    | none ↦ none
    | some (ok, pdos, m') ↦
        (if ok
          then (elim (dump_pdos fuel slave pdos m') [
            | none ↦ none
            | some (listing, m'') ↦ some (some listing, m'')
          ])
          else some (none, m'))
  ]

  -- DumpPdoMapping; the empty string where the slave id is not positive is `[]`.
  unfoldable pub dump_pdo_mapping :
      (fuel : ℕ) → ℤ → Master B → Option (List (Option Listing) × Master B)
  unfolding dump_direction
  dump_pdo_mapping fuel slave_id m =
      if is_nonpos slave_id
      then some ([], m)
      else elim (dump_direction fuel (u16 (nat_part slave_id)) 0x1C12 m) [
        | none ↦ none
        | some (rx, m') ↦ (elim (dump_direction fuel (u16 (nat_part slave_id)) 0x1C13 m') [
          | none ↦ none
          | some (tx, m'') ↦ some (rx ∷ tx ∷ [], m'')
        ])
      ]
