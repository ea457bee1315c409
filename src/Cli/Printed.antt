-- ===== src/Cli/Printed.antt =====
-- Lines of the command `param` of examples/cli/ecat_application.cpp, written out and read.
use mo_driver_pc_ether_cat.Common.{
  ℕ, ◌≡◌, refl, ◌%◌, ◌^◌, ◌<◌, ◌∙◌, ap, some, [], ◌∷◌, ◌++◌, arith, ◌↔◌, Option-cases, inl, inr,
}
use mo_driver_pc_ether_cat.Common.Text.{Text, codes, to_hex, prefixed}
use mo_driver_pc_ether_cat.Cli.Words.{words, words-blank, words-last, IsSolid}
use mo_driver_pc_ether_cat.Cli.Numbers.{stoul, to_hex-IsSolid, stoul-to_hex}
use mo_driver_pc_ether_cat.Cli.Params.{accepted, parse_param}

-- The command line for a value of an object.
abbrev pub param_line : (index subindex value : ℕ) → Text
param_line index subindex value =
    codes "param" ++ (32 ∷ (prefixed index ++ (32 ∷ (prefixed subindex ++ (32 ∷ prefixed value)))))

prefixed-IsSolid : (n : ℕ) → IsSolid (prefixed n)
prefixed-IsSolid n = (refl, (refl, to_hex-IsSolid n))

words-param_line :
    (index subindex value : ℕ)
    → words (param_line index subindex value)
      ≡ codes "param" ∷ prefixed index ∷ prefixed subindex ∷ prefixed value ∷ []
words-param_line index subindex value =
    words-blank b'p' (codes "aram")
      (prefixed index ++ (32 ∷ (prefixed subindex ++ (32 ∷ prefixed value))))
      (refl, (refl, (refl, (refl, (refl, tt)))))
    ∙ ap (◌∷◌ (codes "param")) (
        words-blank b'0' (b'x' ∷ to_hex index) (prefixed subindex ++ (32 ∷ prefixed value))
          (prefixed-IsSolid index)
        ∙ ap (◌∷◌ (prefixed index)) (
            words-blank b'0' (b'x' ∷ to_hex subindex) (prefixed value) (prefixed-IsSolid subindex)
            ∙ ap (◌∷◌ (prefixed subindex))
                (words-last b'0' (b'x' ∷ to_hex value) (prefixed-IsSolid value))))

-- OnParam goes on with an index, a subindex and a value exactly where it is given four words, of
-- which the last three are numbers, the first of them of 16 bits and the second of 8 bits.
pub parse_param_iff :
    (program i s v : Text) (index subindex value : ℕ)
    → (parse_param (program ∷ i ∷ s ∷ v ∷ []) ≡ accepted index subindex value) ↔ (
        (stoul i ≡ some index)
        × (stoul s ≡ some subindex)
        × (index < 2 ^ 16)
        × (subindex < 2 ^ 8)
        × ((raw : ℕ) × (stoul v ≡ some raw) × (value ≡ raw % 2 ^ 32)))
unfolding parse_param
parse_param_iff program i s v index subindex value = (
  λ h. elim (Option-cases (stoul v)) [
    | inl e ↦ absurd (ground arith)
    | inr (raw, e) ↦ (
      ground (arith, e),
      ground (arith, e),
      ground (arith, e),
      ground (arith, e),
      (raw, e, ground (arith, e)),
    )
  ],
  λ (hi, hs, ki, ks, (raw, hv, kv)). ground arith,
)

-- A command line that names an index of 16 bits, a subindex of 8 bits and a value of 64 bits in
-- hexadecimal digits is taken apart into the index, the subindex and the lower 32 bits of the
-- value: a value that does not fit is cut off and not refused.
pub parse_param-param_line :
    (index subindex value : ℕ)
    → index < 2 ^ 16
    → subindex < 2 ^ 8
    → value < 2 ^ 64
    → parse_param (words (param_line index subindex value))
      ≡ accepted index subindex (value % 2 ^ 32)
parse_param-param_line index subindex value h k l =
    ap parse_param (words-param_line index subindex value)
    ∙ (parse_param_iff (codes "param") (prefixed index) (prefixed subindex) (prefixed value) index
          subindex (value % 2 ^ 32)).1
        (
          stoul-to_hex index (omega arith),
          stoul-to_hex subindex (omega arith),
          h,
          k,
          (value, stoul-to_hex value l, refl),
        )
