-- ===== src/Cli/Params.antt =====
-- The arguments of the command `param` of examples/cli/ecat_application.cpp.
use mo_driver_pc_ether_cat.Common.{ℕ, ◌%◌, ◌^◌, none, some, List, [], ◌∷◌, ltb, if◌then◌else◌}
use mo_driver_pc_ether_cat.Common.Text.{Text}
use mo_driver_pc_ether_cat.Cli.Numbers.{stoul}

-- The ways out of the first half of OnParam.
pub data Param : Type 0 where
  bad_usage bad_argument : Param
  bad_index bad_subindex : Text → Param
  accepted : (index subindex value : ℕ) → Param

-- The value is cast to 32 bits and not compared with them.
abbrev pub checked : Text → Text → (raw_index raw_subindex raw_value : ℕ) → Param
checked index subindex raw_index raw_subindex raw_value =
    if ltb 0xFFFF raw_index
    then bad_index index
    else if ltb 0xFF raw_subindex
    then bad_subindex subindex
    else accepted raw_index raw_subindex (raw_value % 2 ^ 32)

unfoldable pub parse_param : List Text → Param
parse_param (program ∷ index ∷ subindex ∷ value ∷ []) = elim (stoul index) [
  | none ↦ bad_argument
  | some raw_index ↦ (elim (stoul subindex) [
    | none ↦ bad_argument
    | some raw_subindex ↦ (elim (stoul value) [
      | none ↦ bad_argument
      | some raw_value ↦ checked index subindex raw_index raw_subindex raw_value
    ])
  ])
]
parse_param _ = bad_usage
