-- ===== src/Tests/Dictionary.antt =====
-- A slave with an object dictionary of two PDOs in each direction.
use mo_driver_pc_ether_cat.Common.{ℕ, ◌≡◌, refl, some, [], ◌∷◌, ◌==◌, if◌then◌else◌, arith, length}
use mo_driver_pc_ether_cat.Common.Int.{pos}
use mo_driver_pc_ether_cat.Common.Bytes.{le_bytes}
use mo_driver_pc_ether_cat.Soem.{Soem}
use mo_driver_pc_ether_cat.Master.{Master}
use mo_driver_pc_ether_cat.Sdo.{dump_pdo_mapping}
use mo_driver_pc_ether_cat.Sdo.Dictionary.{
  Dictionary, Answers, HasParts, parts_of, listed, dump_pdo_mapping-parts,
}
use mo_driver_pc_ether_cat.Tests.Bus.{simulated_bus, lit_port, master_on}

abbrev objects : Dictionary
objects index subindex =
    if subindex == 0
    then 2
    else if index == 0x1C12
    then 0x1600
    else if index == 0x1C13
    then 0x1a00
    else 0x60400010

instance abbrev dictionary_bus : Soem ℕ
dictionary_bus = record (simulated_bus 2) {
  ecx_sdo_read = λ k index subindex timeout bytes p.
      (pos 1, le_bytes (length bytes) (objects index subindex), p);
}

objects-Answers : Answers dictionary_bus 1 objects
objects-Answers = record {
  succeeds = λ index subindex timeout bytes p. refl;
  answers = λ index subindex timeout bytes p. refl;
}

rx-HasParts : HasParts objects 2 0x1C12
rx-HasParts = record { number = omega arith; fits = λ i. ground arith }

tx-HasParts : HasParts objects 2 0x1C13
tx-HasParts = record { number = omega arith; fits = λ i. ground arith }

pdo-HasParts : (index : ℕ) → HasParts objects 4 index
pdo-HasParts index = record { number = omega arith; fits = λ i. ground arith }

dump_pdo_mapping-parts_example :
    (m' : Master ℕ) × (dump_pdo_mapping 256 (pos 1) (master_on lit_port)
      ≡ some (
        some (listed objects (parts_of objects 0x1C12))
            ∷ some (listed objects (parts_of objects 0x1C13))
            ∷ [],
        m',
      ))
dump_pdo_mapping-parts_example =
    dump_pdo_mapping-parts objects-Answers (master_on lit_port) (omega arith) (omega arith)
      rx-HasParts tx-HasParts (pdo-HasParts 0x1600, (pdo-HasParts 0x1600, tt))
      (pdo-HasParts 0x1a00, (pdo-HasParts 0x1a00, tt))
