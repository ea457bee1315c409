-- ===== src/Logger/Format.antt =====
-- The text of a line of src/utils/logger.cpp, with the time stamp as an argument.
use mo_driver_pc_ether_cat.Common.{
  ℕ, ◌≡◌, refl, ◌==◌, Bool, true, false, ◌||◌, [], ◌∷◌, ◌++◌, arith, if◌then◌else◌, All,
}
use mo_driver_pc_ether_cat.Common.Text.{Text, codes, to_text}
use mo_driver_pc_ether_cat.Logger.{LogLevel}

unfoldable pub level_to_string : LogLevel → Text
level_to_string LogLevel.debug = codes "DEBUG"
level_to_string LogLevel.info = codes "INFO"
level_to_string LogLevel.warn = codes "WARN"
level_to_string LogLevel.error = codes "ERROR"
level_to_string LogLevel.fatal = codes "FATAL"

abbrev pub is_separator : ℕ → Bool
is_separator c = c == b'/' || c == b'\\'

-- The loop over the path, from `p` on, with the base name found so far.
unfoldable pub basename_from : (p basename : Text) → Text
basename_from [] basename = basename
basename_from (c ∷ p) basename =
    let after = basename_from p p in
    let kept = basename_from p basename in if is_separator c then after else kept

unfoldable pub basename_of : Text → Text
unfolding basename_from
basename_of file = basename_from file file

unfoldable pub format_record : (timestamp : Text) → LogLevel → (file : Text) → ℕ → Text → Text
unfolding level_to_string basename_of
format_record timestamp level file line message =
    codes "["
    ++ timestamp
    ++ codes "] ["
    ++ level_to_string level
    ++ codes "] ["
    ++ basename_of file
    ++ codes ":"
    ++ to_text line
    ++ codes "] "
    ++ message
    ++ codes "\n"

-- A text without separators.
abbrev pub IsName : Text → Type 0
IsName = All (λ c. is_separator c ≡ false)

basename_from-name : (p basename : Text) → IsName p → basename_from p basename ≡ basename
unfolding basename_from
basename_from-name [] basename h = refl
basename_from-name (c ∷ p) basename h = rw h.0 (basename_from-name p basename h.1)

basename_from-folder :
    (folder name basename : Text) (c : ℕ)
    → is_separator c ≡ true
    → IsName name
    → basename_from (folder ++ (c ∷ name)) basename ≡ name
unfolding basename_from
basename_from-folder [] name basename c h k = rw h (basename_from-name name name k)
basename_from-folder (d ∷ folder) name basename c h k = ground (
  arith,
  basename_from-folder folder name (folder ++ (c ∷ name)) c h k,
  basename_from-folder folder name basename c h k,
)

-- The base name of a path is what stands behind its last separator, or the whole of a path that
-- has none.
pub basename_of-folder :
    (folder name : Text) (c : ℕ)
    → is_separator c ≡ true
    → IsName name
    → (basename_of (folder ++ (c ∷ name)) ≡ name) × (basename_of name ≡ name)
unfolding basename_of
basename_of-folder folder name c h k =
    (basename_from-folder folder name (folder ++ (c ∷ name)) c h k, basename_from-name name name k)
