-- ===== src/Cli/Numbers.antt =====
-- `std::stoul(s, nullptr, 0)` and `std::stoi(s)` as examples/cli/ecat_application.cpp uses them, with
-- `unsigned long` of 64 bits and `int` of 32 bits; `none` is an exception. What follows the digits
-- is ignored.
use mo_driver_pc_ether_cat.Common.{
  ℕ, zero, suc, ◌+◌, ◌-◌, ◌*◌, ◌/◌, ◌%◌, ◌^◌, ◌<◌, ◌≡◌, refl, Bool, true, false, ◌&&◌, ◌||◌, Option,
  none, some, [], ◌∷◌, arith, leb, ltb, ◌==◌, if◌then◌else◌, if_rule,
}
use mo_driver_pc_ether_cat.Common.Int.{ℤ, pos, negsuc}
use mo_driver_pc_ether_cat.Common.Text.{Text, codes, hex_digit, hex_before, to_hex, prefixed}
use mo_driver_pc_ether_cat.Cli.Words.{is_space, IsSolid}

-- The value of a digit, and 36 of any other character.
unfoldable pub digit : ℕ → ℕ
digit c =
    if leb b'0' c && leb c b'9'
    then c - b'0'
    else if leb b'a' c && leb c b'z'
    then c - b'a' + 10
    else if leb b'A' c && leb c b'Z'
    then c - b'A' + 10
    else 36

-- The digits at the front, after those that make up `value`.
unfoldable pub digits_after : ℕ → ℕ → Text → ℕ
unfolding digit
digits_after base value [] = value
digits_after base value (c ∷ s) =
    let rest = digits_after base (value * base + digit c) s in
    if ltb (digit c) base then rest else value

abbrev pub starts_with_digit : ℕ → Text → Bool
starts_with_digit base [] = false
starts_with_digit base (c ∷ s) = ltb (digit c) base

abbrev pub magnitude : ℕ → Text → Option ℕ
magnitude base s = if starts_with_digit base s then some (digits_after base 0 s) else none

-- Base 0: the prefix tells the base. An `x` that no digit follows ends the number 0.
unfoldable pub based : Text → Option ℕ
unfolding digits_after digit
based [] = none
based (c ∷ []) = magnitude 10 (c ∷ [])
based (c ∷ x ∷ s) =
    if c == b'0'
    then if (x == b'x' || x == b'X') && starts_with_digit 16 s
      then magnitude 16 s
      else magnitude 8 (c ∷ x ∷ s)
    else magnitude 10 (c ∷ x ∷ s)

abbrev pub skip_spaces : Text → Text
skip_spaces [] = []
skip_spaces (c ∷ s) = if is_space c then skip_spaces s else c ∷ s

-- The sign, and the text after it; `true` is a minus.
abbrev pub sign : Text → Bool × Text
sign [] = (false, [])
sign (c ∷ s) = if c == b'-' then (true, s) else if c == b'+' then (false, s) else (false, c ∷ s)

unfoldable pub stoul : Text → Option ℕ
unfolding based
stoul s =
    let (minus, t) = sign (skip_spaces s) in
    elim (based t) [
      | none ↦ none
      | some v ↦
          (if leb (2 ^ 64) v then none else if minus then some ((2 ^ 64 - v) % 2 ^ 64) else some v)
    ]

unfoldable pub stoi : Text → Option ℤ
unfolding digits_after digit
stoi s =
    let (minus, t) = sign (skip_spaces s) in
    elim (magnitude 10 t) [
      | none ↦ none
      | some v ↦
          (if minus
            then (if ltb (2 ^ 31) v
                then none
                else if v == 0
                then some (pos 0)
                else some (negsuc (v - 1)))
            else (if leb (2 ^ 31) v then none else some (pos v)))
    ]

stoul_runs :
    (stoul (codes "0x6040") ≡ some 0x6040)
    × (stoul (codes "017") ≡ some 15)
    × (stoul (codes " 12ab") ≡ some 12)
    × (stoul (codes "-1") ≡ some (2 ^ 64 - 1))
    × (stoul (codes "0x") ≡ some 0)
    × (stoul (codes "x1") ≡ none)
    × (stoul (codes "18446744073709551616") ≡ none)
unfolding stoul based digits_after digit
stoul_runs = (refl, refl, refl, refl, refl, refl, refl)

stoi_runs :
    (stoi (codes "-2147483648") ≡ some (negsuc 2147483647))
    × (stoi (codes "2147483648") ≡ none)
    × (stoi (codes "3x") ≡ some (pos 3))
unfolding stoi digits_after digit
stoi_runs = (refl, refl, refl)

digit-hex_digit : (d : ℕ) → d < 16 → digit (hex_digit d) ≡ d
unfolding digit
digit-hex_digit d h = ground arith

hex_digit-solid : (d : ℕ) → d < 16 → is_space (hex_digit d) ≡ false
hex_digit-solid d h = ground arith

-- Reading the printed digits of `n` gives `n`, and goes on with what stands behind them.
digits_after-hex_before :
    (fuel n : ℕ) (acc : Text)
    → n < fuel
    → digits_after 16 0 (hex_before fuel n acc) ≡ digits_after 16 n acc
unfolding digits_after hex_before
digits_after-hex_before zero n acc h = absurd (omega arith)
digits_after-hex_before (suc fuel) n acc h = ground (
  arith,
  digit-hex_digit (n % 16) (omega arith),
  digits_after-hex_before fuel (n / 16) (hex_digit (n % 16) ∷ acc),
)

digits_after-to_hex : (n : ℕ) → digits_after 16 0 (to_hex n) ≡ n
unfolding to_hex digits_after
digits_after-to_hex n = digits_after-hex_before (suc n) n [] (omega arith)

starts_with_digit-hex_before :
    (fuel n : ℕ) (acc : Text)
    → starts_with_digit 16 acc ≡ true
    → starts_with_digit 16 (hex_before fuel n acc) ≡ true
unfolding hex_before
starts_with_digit-hex_before zero n acc h = h
starts_with_digit-hex_before (suc fuel) n acc h = ground (
  arith,
  digit-hex_digit (n % 16) (omega arith),
  starts_with_digit-hex_before fuel (n / 16) (hex_digit (n % 16) ∷ acc),
)

starts_with_digit-to_hex : (n : ℕ) → starts_with_digit 16 (to_hex n) ≡ true
unfolding to_hex hex_before
starts_with_digit-to_hex n = ground (
  arith,
  digit-hex_digit (n % 16) (omega arith),
  starts_with_digit-hex_before n (n / 16) (hex_digit (n % 16) ∷ []),
)

hex_before-IsSolid : (fuel n : ℕ) (acc : Text) → IsSolid acc → IsSolid (hex_before fuel n acc)
unfolding hex_before
hex_before-IsSolid zero n acc h = h
hex_before-IsSolid (suc fuel) n acc h =
    let longer : IsSolid (hex_digit (n % 16) ∷ acc) = (hex_digit-solid (n % 16) (omega arith), h) in
    if_rule IsSolid (ltb n 16) longer
      (hex_before-IsSolid fuel (n / 16) (hex_digit (n % 16) ∷ acc) longer)

pub to_hex-IsSolid : (n : ℕ) → IsSolid (to_hex n)
unfolding to_hex
to_hex-IsSolid n = hex_before-IsSolid (suc n) n [] tt

magnitude-to_hex : (n : ℕ) → magnitude 16 (to_hex n) ≡ some n
magnitude-to_hex n = ground (arith, starts_with_digit-to_hex n, digits_after-to_hex n)

-- A number of 64 bits that is printed with `std::hex` behind 0x is read back by `std::stoul` in
-- base 0.
pub stoul-to_hex : (n : ℕ) → n < 2 ^ 64 → stoul (prefixed n) ≡ some n
unfolding stoul based
stoul-to_hex n h = ground (arith, starts_with_digit-to_hex n, magnitude-to_hex n)
