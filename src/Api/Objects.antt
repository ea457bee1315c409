-- ===== src/Api/Objects.antt =====
-- The SDO services of src/core/mo_ecat_master.cpp as methods of the public class.
use mo_driver_pc_ether_cat.Common.{ℕ, Bool, Option, none, some, List, length}
use mo_driver_pc_ether_cat.Common.Int.{ℤ}
use mo_driver_pc_ether_cat.Soem.{Soem}
use mo_driver_pc_ether_cat.Master.{Master}
use mo_driver_pc_ether_cat.Controller.Actions.{with_master}
use mo_driver_pc_ether_cat.Sdo
use mo_driver_pc_ether_cat.Sdo.{Listing}
use mo_driver_pc_ether_cat.Api.{Impl}

module _ {B F : Type 0} where
  -- The class after a use of the bus.
  abbrev pub on_bus : Impl B F → Master B → Impl B F
  on_bus i m = record i { controller = with_master i.controller m }

  -- GetSlaveCount counts the slaves of the last refresh, not those of the bus.
  abbrev pub get_slave_count : Impl B F → ℕ
  get_slave_count i = length i.controller.slave_infos

module _ {B F : Type 0} ⦃soem : Soem B⦄ where
  unfoldable pub read_sdo :
      ℤ → (index subindex : ℕ) → List ℕ → (timeout_ms : ℕ) → Impl B F → Bool × List ℕ × Impl B F
  read_sdo slave_id index subindex data' timeout_ms i =
      let (ok, data'', m) =
        Sdo.read_sdo slave_id index subindex data' timeout_ms i.controller.master in
      (ok, data'', on_bus i m)

  unfoldable pub write_sdo :
      ℤ → (index subindex : ℕ) → List ℕ → (timeout_ms : ℕ) → Impl B F → Bool × Impl B F
  write_sdo slave_id index subindex data' timeout_ms i =
      let (ok, m) = Sdo.write_sdo slave_id index subindex data' timeout_ms i.controller.master in
      (ok, on_bus i m)

  unfoldable pub dump_pdo_mapping :
      (fuel : ℕ) → ℤ → Impl B F → Option (List (Option Listing) × Impl B F)
  dump_pdo_mapping fuel slave_id i = elim (Sdo.dump_pdo_mapping fuel slave_id i.controller.master) [
    | none ↦ none
    | some (mapping, m) ↦ some (mapping, on_bus i m)
  ]
