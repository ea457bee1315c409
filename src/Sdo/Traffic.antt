-- ===== src/Sdo/Traffic.antt =====
-- What the SDO services of src/core/mo_ecat_master.cpp leave as it was.
use mo_driver_pc_ether_cat.Common.{
  ℕ, zero, suc, ◌+◌, ◌%◌, ◌≡◌, refl, Bool, Option, List, [], ◌∷◌, arith, Ends, bind-Ends, if_rule,
}
use mo_driver_pc_ether_cat.Common.Int.{ℤ, is_nonpos, nat_part}
use mo_driver_pc_ether_cat.Common.Bytes.{u16}
use mo_driver_pc_ether_cat.Soem.{Soem}
use mo_driver_pc_ether_cat.Master
use mo_driver_pc_ether_cat.Master.{Master}
use mo_driver_pc_ether_cat.Sdo.{
  read_value, read_sdo, write_sdo, read_entries, read_object, dump_pdos, dump_direction,
  dump_pdo_mapping, Listing,
}

module _ {B : Type 0} where
  -- The master has changed in its port at most.
  abbrev pub SameMaster : Master B → Master B → Type 0
  SameMaster m m' = m' ≡ record m { port = m'.port }

  SameMaster-trans : (m m' m'' : Master B) → SameMaster m m' → SameMaster m' m'' → SameMaster m m''
  SameMaster-trans m m' m'' e e' = ground arith

module _ {B : Type 0} ⦃soem : Soem B⦄ where
  read_value-SameMaster :
      (size slave index subindex : ℕ) (m : Master B)
      → SameMaster m (read_value size slave index subindex m).2
  unfolding read_value Master.sdo_read
  read_value-SameMaster size slave index subindex m = refl

  pub read_sdo-SameMaster :
      (k : ℤ) (index subindex : ℕ) (bytes : List ℕ) (t : ℕ) (m : Master B)
      → SameMaster m (read_sdo k index subindex bytes t m).2
  unfolding read_sdo Master.sdo_read
  read_sdo-SameMaster k index subindex bytes t m = ground arith

  pub write_sdo-SameMaster :
      (k : ℤ) (index subindex : ℕ) (bytes : List ℕ) (t : ℕ) (m : Master B)
      → SameMaster m (write_sdo k index subindex bytes t m).1
  unfolding write_sdo Master.sdo_write
  write_sdo-SameMaster k index subindex bytes t m = ground arith

  read_entries-SameMaster :
      (fuel size slave index from count : ℕ) (m : Master B)
      → Ends
          (λ (r : Bool × List ℕ × Master B). SameMaster m r.2)
          (read_entries fuel size slave index from count m)
  unfolding read_entries
  read_entries-SameMaster zero size slave index from count m = tt
  read_entries-SameMaster (suc fuel) size slave index from count m =
      let m1 = (read_value size slave index from m).2 in
      ground (
        arith,
        read_value-SameMaster size slave index from m,
        read_entries-SameMaster fuel size slave index ((from + 1) % 256) count m1,
      )

  read_object-SameMaster :
      (fuel size slave index : ℕ) (m : Master B)
      → Ends
          (λ (r : Bool × List ℕ × Master B). SameMaster m r.2)
          (read_object fuel size slave index m)
  unfolding read_object
  read_object-SameMaster fuel size slave index m =
      let r = read_value 1 slave index 0 m in
      ground (
        arith,
        read_value-SameMaster 1 slave index 0 m,
        read_entries-SameMaster fuel size slave index 1 r.1 r.2,
      )

  dump_pdos-SameMaster :
      (fuel slave : ℕ) (pdos : List ℕ) (m : Master B)
      → Ends (λ (r : Listing × Master B). SameMaster m r.1) (dump_pdos fuel slave pdos m)
  unfolding dump_pdos
  dump_pdos-SameMaster fuel slave [] m = refl
  dump_pdos-SameMaster fuel slave (pdo ∷ pdos) m =
      bind-Ends _ _ (read_object fuel 4 slave pdo m) (read_object-SameMaster fuel 4 slave pdo m)
        (λ r h.
          bind-Ends _ _ (dump_pdos fuel slave pdos r.2) (dump_pdos-SameMaster fuel slave pdos r.2)
            (λ r' h'. SameMaster-trans m r.2 r'.1 h h'))

  dump_direction-SameMaster :
      (fuel slave index : ℕ) (m : Master B)
      → Ends
          (λ (r : Option Listing × Master B). SameMaster m r.1)
          (dump_direction fuel slave index m)
  unfolding dump_direction
  dump_direction-SameMaster fuel slave index m =
      bind-Ends _ _ (read_object fuel 2 slave index m) (read_object-SameMaster fuel 2 slave index m)
        (λ r h.
          if_rule (Ends (λ (r' : Option Listing × Master B). SameMaster m r'.1)) r.0
            (bind-Ends _ _ (dump_pdos fuel slave r.1 r.2) (dump_pdos-SameMaster fuel slave r.1 r.2)
              (λ r' h'. SameMaster-trans m r.2 r'.1 h h'))
            h)

  pub dump_pdo_mapping-SameMaster :
      (fuel : ℕ) (k : ℤ) (m : Master B)
      → Ends
          (λ (r : List (Option Listing) × Master B). SameMaster m r.1)
          (dump_pdo_mapping fuel k m)
  unfolding dump_pdo_mapping
  dump_pdo_mapping-SameMaster fuel k m =
      if_rule (Ends (λ (r : List (Option Listing) × Master B). SameMaster m r.1)) (is_nonpos k) refl
        (bind-Ends _ _ (dump_direction fuel (u16 (nat_part k)) 0x1C12 m)
          (dump_direction-SameMaster fuel (u16 (nat_part k)) 0x1C12 m)
          (λ r h.
            bind-Ends _ _ (dump_direction fuel (u16 (nat_part k)) 0x1C13 r.1)
              (dump_direction-SameMaster fuel (u16 (nat_part k)) 0x1C13 r.1)
              (λ r' h'. SameMaster-trans m r.1 r'.1 h h')))
