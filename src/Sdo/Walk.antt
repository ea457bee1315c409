-- ===== src/Sdo/Walk.antt =====
-- When the walks over PDO objects end, and what they then hold: src/core/mo_ecat_master.cpp and
-- src/activity/pdo_mapping_activity.cpp.
use mo_driver_pc_ether_cat.Common.{
  ℕ, zero, suc, ◌+◌, ◌*◌, ◌%◌, ◌^◌, ◌≤◌, ◌<◌, ◌≡◌, refl, inl, inr, Bool, true, Option, none, some,
  List, [], ◌∷◌, length, arith, if_rule, Option-cases, is_some,
}
use mo_driver_pc_ether_cat.Soem.{Soem}
use mo_driver_pc_ether_cat.Master.{Master}
use mo_driver_pc_ether_cat.Sdo.{read_value, read_entries, read_object, to_entry}

module _ {B : Type 0} ⦃soem : Soem B⦄ where
  read_entries-ends :
      (fuel size slave index from count : ℕ) (m : Master B)
      → count < 255
      → from ≤ count + 1
      → count + 1 < from + fuel
      → is_some (read_entries fuel size slave index from count m) ≡ true
  unfolding read_entries
  read_entries-ends zero size slave index from count m h l f = absurd (omega arith)
  read_entries-ends (suc fuel) size slave index from count m h l f =
      let m1 = (read_value size slave index from m).2 in
      ground (arith, read_entries-ends fuel size slave index ((from + 1) % 256) count m1)

  read_entries-length :
      (fuel size slave index from count : ℕ) (m : Master B) (values : List ℕ) (m' : Master B)
      → count < 255
      → from ≤ count + 1
      → read_entries fuel size slave index from count m ≡ some (true, values, m')
      → from + length values ≡ count + 1
  unfolding read_entries
  read_entries-length zero size slave index from count m values m' h hi e = ground arith
  read_entries-length (suc fuel) size slave index from count m [] m' h hi e =
      let m1 = (read_value size slave index from m).2 in
      let rest = read_entries fuel size slave index ((from + 1) % 256) count m1 in
      elim (Option-cases rest) [
        | inl n ↦ ground (arith, n)
        | inr s ↦ let q = s.1 in ground (arith, q)
      ]
  read_entries-length (suc fuel) size slave index from count m (v ∷ vs) m' h hi e =
      let m1 = (read_value size slave index from m).2 in
      let rest = read_entries fuel size slave index ((from + 1) % 256) count m1 in
      elim (Option-cases rest) [
        | inl n ↦ ground (arith, n)
        | inr s ↦
            let q = s.1 in
            ground (
              arith,
              q,
              read_entries-length fuel size slave index ((from + 1) % 256) count m1 vs m' h,
            )
      ]

  read_entries-endless :
      (fuel size slave index from : ℕ) (m : Master B)
      → from ≤ 255
      → ((i : ℕ) (n : Master B) → (read_value size slave index i n).0 ≡ true)
      → read_entries fuel size slave index from 255 m ≡ none
  unfolding read_entries
  read_entries-endless zero size slave index from m l ok = refl
  read_entries-endless (suc fuel) size slave index from m l ok =
      let m1 = (read_value size slave index from m).2 in
      ground (
        arith,
        ok from m,
        read_entries-endless fuel size slave index ((from + 1) % 256) m1 (omega arith) ok,
      )

  -- The walk over an object that announces fewer than 255 entries comes to an end, whatever the
  -- device answers: 256 rounds are enough.
  pub read_object-ends :
      (size slave index : ℕ) (m : Master B)
      → (read_value 1 slave index 0 m).1 < 255
      → is_some (read_object 256 size slave index m) ≡ true
  unfolding read_object
  read_object-ends size slave index m h =
      let (ok, count, m') = read_value 1 slave index 0 m in
      if_rule (λ (r : Option (Bool × List ℕ × Master B)). is_some r ≡ true) ok
        (read_entries-ends 256 size slave index 1 count m' h (omega arith) (omega arith)) refl

  -- A walk over an object that announces fewer than 255 entries, and that succeeds, has read
  -- exactly as many as were announced.
  pub read_object-length :
      (fuel size slave index : ℕ) (m : Master B) (values : List ℕ) (m' : Master B)
      → (read_value 1 slave index 0 m).1 < 255
      → read_object fuel size slave index m ≡ some (true, values, m')
      → length values ≡ (read_value 1 slave index 0 m).1
  unfolding read_object
  read_object-length fuel size slave index m values m' h e =
      let (ok, count, m1) = read_value 1 slave index 0 m in
      ground (arith, read_entries-length fuel size slave index 1 count m1 values m' h)

  -- Of a device that announces 255 entries and answers every request, the walk never ends, however
  -- many rounds it is given: the counter of 8 bits is 0 again after 255.
  pub read_object-endless :
      (fuel size slave index : ℕ) (m : Master B)
      → (read_value 1 slave index 0 m).0 ≡ true
      → (read_value 1 slave index 0 m).1 ≡ 255
      → ((i : ℕ) (n : Master B) → (read_value size slave index i n).0 ≡ true)
      → read_object fuel size slave index m ≡ none
  unfolding read_object
  read_object-endless fuel size slave index m good full ok =
      let m1 = (read_value 1 slave index 0 m).2 in
      ground (arith, read_entries-endless fuel size slave index 1 m1 (omega arith) ok)

-- The three fields of a mapping entry are all of its 32 bits.
pub to_entry-whole :
    (entry : ℕ)
    → entry < 2 ^ 32
    → (to_entry entry).index * 65536 + (to_entry entry).subindex * 256 + (to_entry entry).bit_length
      ≡ entry
unfolding to_entry
to_entry-whole entry h = omega arith
