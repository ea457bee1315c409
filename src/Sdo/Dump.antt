-- ===== src/Sdo/Dump.antt =====
-- The text that DumpPdoMapping of src/core/mo_ecat_master.cpp makes of what it has read.
use mo_driver_pc_ether_cat.Common.{ℕ, suc, ◌≡◌, refl, Option, none, some, List, [], ◌∷◌, ◌++◌}
use mo_driver_pc_ether_cat.Common.Text.{Text, codes, to_text, to_hex}
use mo_driver_pc_ether_cat.Sdo.{Entry, Listing}

-- The line of an entry; `std::hex` still holds for the subindex.
unfoldable pub entry_line : ℕ → Entry → Text
entry_line i e =
    codes "    ["
    ++ to_text i
    ++ codes "] 0x"
    ++ to_hex e.index
    ++ codes ":"
    ++ to_hex e.subindex
    ++ codes " ("
    ++ to_text e.bit_length
    ++ codes " bits)\n"

-- The lines from entry `i` on.
unfoldable pub entry_lines : ℕ → List Entry → Text
unfolding entry_line
entry_lines i [] = []
entry_lines i (e ∷ es) = entry_line i e ++ entry_lines (suc i) es

unfoldable pub pdo_text : ℕ → Option (List Entry) → Text
unfolding entry_lines
pdo_text pdo none = codes "  PDO 0x" ++ to_hex pdo ++ codes ": read failed\n"
pdo_text pdo (some es) = codes "  PDO 0x" ++ to_hex pdo ++ codes ":\n" ++ entry_lines 0 es

unfoldable pub pdos_text : Listing → Text
unfolding pdo_text
pdos_text [] = []
pdos_text ((pdo, entries) ∷ pdos) = pdo_text pdo entries ++ pdos_text pdos

unfoldable pub direction_text : Text → ℕ → Option Listing → Text
unfolding pdos_text
direction_text direction assign_index none =
    direction ++ codes " (0x" ++ to_hex assign_index ++ codes "): read failed\n"
direction_text direction assign_index (some pdos) =
    direction ++ codes " (0x" ++ to_hex assign_index ++ codes "):\n" ++ pdos_text pdos

-- Both directions; nothing for a slave id that is not positive.
unfoldable pub dump_text : List (Option Listing) → Text
unfolding direction_text
dump_text [] = []
dump_text (rx ∷ []) = direction_text (codes "RxPDO") 0x1C12 rx
dump_text (rx ∷ tx ∷ _) =
    direction_text (codes "RxPDO") 0x1C12 rx ++ direction_text (codes "TxPDO") 0x1C13 tx

abbrev short_dump : List (Option Listing)
short_dump =
    some (
      (0x1600, some (record { index = 0x6040; subindex = 0x1a; bit_length = 16 } ∷ []))
      ∷ (0x1601, none)
      ∷ [])
    ∷ none
    ∷ []

dump_text_runs :
    dump_text short_dump
    ≡ codes
        "RxPDO (0x1c12):\n  PDO 0x1600:\n    [0] 0x6040:1a (16 bits)\n  PDO 0x1601: read failed\nTxPDO (0x1c13): read failed\n"
unfolding dump_text direction_text pdos_text pdo_text entry_lines entry_line to_text to_hex
dump_text_runs = refl
