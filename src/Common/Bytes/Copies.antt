-- ===== src/Common/Bytes/Copies.antt =====
-- Copies to different places of a buffer.
use Prim.Native.Nat.{ℕ, zero, suc, ◌+◌, ◌≤◌}
use mathlib.Core.Path.{◌≡◌, refl, ap}
use mathlib.Core.Logic.{◌⊎◌, inl, inr}
use mathlib.Core.List.{List, [], ◌∷◌, ◌++◌}
use native.Mathlib.Omega.{arith}
use mo_driver_pc_ether_cat.Common.Lists.{length, take, drop}
use mo_driver_pc_ether_cat.Common.Bytes.{copy_to, copy_from}

-- What stands before the copy.
copy_before :
    (buffer rest : List ℕ) (at from len : ℕ)
    → from + len ≤ at
    → at ≤ length buffer
    → take len (drop from (take at buffer ++ rest)) ≡ take len (drop from buffer)
copy_before buffer rest at from zero h l = refl
copy_before [] rest zero from (suc len) h l = absurd (omega arith)
copy_before [] rest (suc at) from (suc len) h l = absurd (omega arith)
copy_before (x ∷ xs) rest zero from (suc len) h l = absurd (omega arith)
copy_before (x ∷ xs) rest (suc at) zero (suc len) h l =
    ap (◌∷◌ x) (copy_before xs rest at zero len (omega arith) (omega arith))
copy_before (x ∷ xs) rest (suc at) (suc from) (suc len) h l =
    copy_before xs rest at from (suc len) (omega arith) (omega arith)

-- What stands behind it, where the copy ends at `end`.
copy_behind :
    (buffer bytes : List ℕ) (at end from : ℕ)
    → end ≡ at + length bytes
    → end ≤ from
    → end ≤ length buffer
    → drop from (take at buffer ++ (bytes ++ drop end buffer)) ≡ drop from buffer
copy_behind buffer [] zero zero from e h l = refl
copy_behind buffer [] zero (suc end) from e h l = absurd (omega arith)
copy_behind buffer (y ∷ ys) zero zero from e h l = absurd (omega arith)
copy_behind [] bytes at (suc end) from e h l = absurd (omega arith)
copy_behind (x ∷ xs) bytes at (suc end) zero e h l = absurd (omega arith)
copy_behind (x ∷ xs) (y ∷ ys) zero (suc end) (suc from) e h l =
    copy_behind xs ys zero end from (omega arith) (omega arith) (omega arith)
copy_behind buffer bytes (suc at) zero from e h l = absurd (omega arith)
copy_behind (x ∷ xs) bytes (suc at) (suc end) (suc from) e h l =
    copy_behind xs bytes at end from (omega arith) (omega arith) (omega arith)

-- A copy leaves alone what stands apart from it.
pub copy_from-copy_to_apart :
    (buffer : List ℕ) (at : ℕ) (bytes : List ℕ) (from len : ℕ)
    → at + length bytes ≤ length buffer
    → (from + len ≤ at) ⊎ (at + length bytes ≤ from)
    → copy_from (copy_to buffer at bytes) from len ≡ copy_from buffer from len
unfolding copy_to copy_from
copy_from-copy_to_apart buffer at bytes from len h (inl before) =
    copy_before buffer (bytes ++ drop (at + length bytes) buffer) at from len before (omega arith)
copy_from-copy_to_apart buffer at bytes from len h (inr behind) =
    ap (take len) (copy_behind buffer bytes at (at + length bytes) from refl behind h)
