-- ===== src/Common/Text.antt =====
-- `std::string` as a list of bytes.
use Prim.Native.Nat.{ℕ, zero, suc, ◌+◌, ◌-◌, ◌/◌, ◌%◌}
use Prim.Native.Char.{code}
use Prim.Native.String.{String}
use mathlib.Core.Path.{◌≡◌, refl}
use mathlib.Core.Logic.{◌↔◌}
use mathlib.Core.Bool.{Bool, true, false, ◌&&◌, ◌||◌}
use mathlib.Core.List.{List, [], ◌∷◌}
use native.Mathlib.Omega.{arith}
use mo_driver_pc_ether_cat.Common.Tests.{ltb, leb, ◌==◌, if◌then◌else◌}

abbrev pub Text : Type 0
Text = List ℕ

-- The bytes of an ASCII literal.
abbrev pub codes : String → Text
codes String.[] = []
codes (String.◌∷◌ c s) = code c ∷ codes s

abbrev pub is_empty {ℓ} : {A : Type ℓ} → List A → Bool
is_empty [] = true
is_empty (_ ∷ _) = false

abbrev pub text_eq : Text → Text → Bool
text_eq [] [] = true
text_eq (a ∷ s) (b ∷ t) = a == b && text_eq s t
text_eq _ _ = false

pub text_eq_iff : (s t : Text) → (text_eq s t ≡ true) ↔ (s ≡ t)
text_eq_iff [] [] = (λ _. refl, λ _. refl)
text_eq_iff [] (b ∷ t) = ground arith
text_eq_iff (a ∷ s) [] = ground arith
text_eq_iff (a ∷ s) (b ∷ t) = ground (arith, text_eq_iff s t)

-- `tolower` of the C locale.
unfoldable pub lower : ℕ → ℕ
lower c = if leb b'A' c && leb c b'Z' then c + 32 else c

-- s.rfind(p, 0) == 0
unfoldable pub starts_with : Text → Text → Bool
starts_with [] s = true
starts_with (a ∷ p) [] = false
starts_with (a ∷ p) (b ∷ s) = a == b && starts_with p s

-- s.find(p) != npos
unfoldable pub contains : Text → Text → Bool
contains p [] = starts_with p []
contains p (b ∷ s) = starts_with p (b ∷ s) || contains p s

-- `std::to_string` of a number: decimal digits, one round for each digit.
decimal : ℕ → ℕ → Text → Text
decimal zero n acc = acc
decimal (suc fuel) n acc =
    let digit = (n % 10 + b'0') ∷ acc in
    let rest = decimal fuel (n / 10) digit in if ltb n 10 then digit else rest

unfoldable pub to_text : ℕ → Text
unfolding decimal
to_text n = decimal (suc n) n []

to_text_runs : to_text 205 ≡ codes "205"
unfolding to_text
to_text_runs = refl

-- `<< std::hex`: the digits in front of `acc`, one round for each.
abbrev pub hex_digit : ℕ → ℕ
hex_digit d = if ltb d 10 then d + b'0' else d - 10 + b'a'

unfoldable pub hex_before : ℕ → ℕ → Text → Text
hex_before zero n acc = acc
hex_before (suc fuel) n acc =
    let longer = hex_digit (n % 16) ∷ acc in
    let rest = hex_before fuel (n / 16) longer in if ltb n 16 then longer else rest

unfoldable pub to_hex : ℕ → Text
unfolding hex_before
to_hex n = hex_before (suc n) n []

-- 0x and the digits.
abbrev pub prefixed : ℕ → Text
prefixed n = b'0' ∷ b'x' ∷ to_hex n
