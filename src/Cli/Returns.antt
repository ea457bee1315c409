-- ===== src/Cli/Returns.antt =====
-- When a call of Run of examples/cli/ecat_application.cpp returns.
use mo_driver_pc_ether_cat.Common.{
  ℕ, zero, suc, ◌≡◌, ◌<◌, refl, true, Option, none, some, List, [], ◌∷◌, arith, is_some, if_rule,
  inl, inr, Option-cases,
}
use mo_driver_pc_ether_cat.Common.Int.{ℤ, pos, is_nonpos, nat_part}
use mo_driver_pc_ether_cat.Common.Bytes.{u16}
use mo_driver_pc_ether_cat.Common.Text.{Text}
use mo_driver_pc_ether_cat.Types.{MasterState}
use mo_driver_pc_ether_cat.Soem.{Soem}
use mo_driver_pc_ether_cat.Axis.{Floats}
use mo_driver_pc_ether_cat.Master.{Master}
use mo_driver_pc_ether_cat.Sdo
use mo_driver_pc_ether_cat.Sdo.Walk.{read_object-ends}
use mo_driver_pc_ether_cat.Api.{Impl, get_state}
use mo_driver_pc_ether_cat.Api.Service.{service}
use mo_driver_pc_ether_cat.Api.Objects.{dump_pdo_mapping, get_slave_count}
use mo_driver_pc_ether_cat.Cli.{ReadResult, run, serve, handle_in, handle_maintenance_state}
use mo_driver_pc_ether_cat.Cli.Words.{words}
use mo_driver_pc_ether_cat.Cli.Numbers.{stoi}
use mo_driver_pc_ether_cat.Cli.Log.{App, log_info, reading_pdos, pdo_mapping}
use mo_driver_pc_ether_cat.Cli.Commands.{on_pdo, pdo_all, pdo_one}

pub is_some-bind {ℓ κ} :
    {A : Type ℓ} {C : Type κ} (f : A → Option C) (o : Option A)
    → is_some o ≡ true
    → ((a : A) → is_some (f a) ≡ true)
    → is_some (elim o [ none ↦ none | some a ↦ f a ]) ≡ true
is_some-bind f none h k = cc
is_some-bind f (some a) h k = k a

-- No object of the bus tells of 255 parts.
abbrev pub IsBounded : {B : Type 0} → Soem B → Type 0
IsBounded {B} soem =
    (slave index : ℕ) (m : Master B) → (Sdo.read_value ⦃soem = soem⦄ 1 slave index 0 m).1 < 255

module _ {B : Type 0} ⦃soem : Soem B⦄ where
  dump_pdos-ends :
      (slave : ℕ) (pdos : List ℕ) (m : Master B)
      → IsBounded soem
      → is_some (Sdo.dump_pdos 256 slave pdos m) ≡ true
  unfolding Sdo.dump_pdos
  dump_pdos-ends slave [] m h = refl
  dump_pdos-ends slave (pdo ∷ pdos) m h =
      is_some-bind _ (Sdo.read_object 256 4 slave pdo m)
        (read_object-ends 4 slave pdo m (h slave pdo m))
        (λ r.
          is_some-bind _ (Sdo.dump_pdos 256 slave pdos r.2) (dump_pdos-ends slave pdos r.2 h)
            (λ r'. refl))

  dump_direction-ends :
      (slave index : ℕ) (m : Master B)
      → IsBounded soem
      → is_some (Sdo.dump_direction 256 slave index m) ≡ true
  unfolding Sdo.dump_direction
  dump_direction-ends slave index m h =
      is_some-bind _ (Sdo.read_object 256 2 slave index m)
        (read_object-ends 2 slave index m (h slave index m))
        (λ r.
          if_rule (λ (o : Option (Option Sdo.Listing × Master B)). is_some o ≡ true) r.0
            (is_some-bind _ (Sdo.dump_pdos 256 slave r.1 r.2) (dump_pdos-ends slave r.1 r.2 h)
              (λ r'. refl))
            refl)

  dump_pdo_mapping-ends :
      (k : ℤ) (m : Master B) → IsBounded soem → is_some (Sdo.dump_pdo_mapping 256 k m) ≡ true
  unfolding Sdo.dump_pdo_mapping
  dump_pdo_mapping-ends k m h =
      let slave = u16 (nat_part k) in
      if_rule (λ (o : Option (List (Option Sdo.Listing) × Master B)). is_some o ≡ true)
        (is_nonpos k) refl
        (is_some-bind _ (Sdo.dump_direction 256 slave 0x1C12 m)
          (dump_direction-ends slave 0x1C12 m h)
          (λ r.
            is_some-bind _ (Sdo.dump_direction 256 slave 0x1C13 r.1)
              (dump_direction-ends slave 0x1C13 r.1 h) (λ r'. refl)))

module _ {B F : Type 0} ⦃soem : Soem B⦄ where
  dump-ends : (k : ℤ) (i : Impl B F) → IsBounded soem → is_some (dump_pdo_mapping 256 k i) ≡ true
  unfolding dump_pdo_mapping
  dump-ends k i h =
      is_some-bind _ (Sdo.dump_pdo_mapping 256 k i.controller.master)
        (dump_pdo_mapping-ends k i.controller.master h) (λ r. refl)

  pdo_all-ends :
      (left i : ℕ) (app : App B F) → IsBounded soem → is_some (pdo_all 256 left i app) ≡ true
  unfolding pdo_all
  pdo_all-ends zero i app h = refl
  pdo_all-ends (suc left) i app h =
      is_some-bind _ (dump_pdo_mapping 256 (pos i) app.master) (dump-ends (pos i) app.master h)
        (λ r.
          pdo_all-ends left (suc i)
            (log_info (pdo_mapping (pos i) r.0) (record app { master = r.1 })) h)

  pdo_one-ends : (k : ℤ) (app : App B F) → IsBounded soem → is_some (pdo_one 256 k app) ≡ true
  unfolding pdo_one
  pdo_one-ends k app h =
      is_some-bind _ (dump_pdo_mapping 256 k app.master) (dump-ends k app.master h) (λ r. refl)

  on_pdo-ends :
      (args : List Text) (app : App B F) → IsBounded soem → is_some (on_pdo 256 args app) ≡ true
  unfolding on_pdo
  on_pdo-ends [] app h = refl
  on_pdo-ends (_ ∷ []) app h =
      pdo_all-ends (get_slave_count app.master) 1 (log_info reading_pdos app) h
  on_pdo-ends (_ ∷ id ∷ []) app h = elim (Option-cases (stoi id)) [
    | inl e ↦ ground (arith, e)
    | inr (k, e) ↦ ground (arith, e, pdo_one-ends k app h)
  ]
  on_pdo-ends (_ ∷ _ ∷ _ ∷ _) app h = refl

module _ {B F : Type 0} ⦃soem : Soem B⦄ ⦃fl : Floats F⦄ where
  handle_in-ends :
      (s : MasterState) (line : Option Text) (app : App B F)
      → IsBounded soem
      → is_some (handle_in 256 s line app) ≡ true
  unfolding handle_in handle_maintenance_state
  handle_in-ends s none app h = ground arith
  handle_in-ends s (some c) app h = ground (arith, on_pdo-ends (words c) app h)

  serve-ends :
      (cycle_time check_time : ℕ) (line : Option Text) (app : App B F)
      → IsBounded soem
      → is_some (serve 256 cycle_time check_time line app) ≡ true
  unfolding serve
  serve-ends cycle_time check_time line app h =
      let served : App B F = record app { master = service cycle_time check_time app.master } in
      is_some-bind _ (handle_in 256 (get_state served.master) line served)
        (handle_in-ends (get_state served.master) line served h) (λ r. refl)

  -- Where no object tells of 255 parts, every call of Run returns, with 256 rounds of each walk
  -- over the parts of an object.
  pub run-returns :
      (cycle_time check_time : ℕ) (result : ReadResult) (c : Text) (app : App B F)
      → IsBounded soem
      → is_some (run 256 cycle_time check_time result c app) ≡ true
  unfolding run
  run-returns cycle_time check_time result c app h = ground (
    arith,
    serve-ends cycle_time check_time none app h,
    serve-ends cycle_time check_time (some c) app h,
  )
