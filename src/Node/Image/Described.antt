-- ===== src/Node/Image/Described.antt =====
-- The process image address by address, for src/slave_node/slave_node_manager.cpp.
use mathlib.Core.Path.{fun_ext}
use mo_driver_pc_ether_cat.Common.{
  ℕ, zero, suc, ◌+◌, ◌≤◌, ◌<◌, ◌≡◌, refl, ◌∙◌, inl, inr, none, some, get_elem?, Option-cases, ◌-◌,
  List, [], ◌∷◌, arith, length,
}
use mo_driver_pc_ether_cat.Common.Bytes.{write_range, write_range_outside}
use mo_driver_pc_ether_cat.Node.Image.{
  Share, AllApart, Outside, lay, byte_at, image, lay-Outside, Apart-Outside, write_range-agree,
}

lay-agree :
    (ss : List Share) (memory memory' : ℕ → ℕ) (a : ℕ)
    → memory a ≡ memory' a
    → lay ss memory a ≡ lay ss memory' a
unfolding lay
lay-agree [] memory memory' a h = h
lay-agree (s ∷ ss) memory memory' a h =
    lay-agree ss (write_range memory s.at s.bytes) (write_range memory' s.at s.bytes) a
      (write_range-agree memory memory' s.at s.bytes a h)

write_range-get :
    (memory : ℕ → ℕ) (at i : ℕ) (bytes : List ℕ) (b : ℕ)
    → get_elem? bytes i ≡ some b
    → (write_range memory at bytes (at + i) ≡ b) × (i < length bytes)
unfolding write_range
write_range-get memory at i [] b h = absurd cc
write_range-get memory at zero (x ∷ xs) b h = (ground arith, omega arith)
write_range-get memory at (suc i) (x ∷ xs) b h =
    ground (arith, write_range-get memory (suc at) i xs b h)

get_elem?-none : (bytes : List ℕ) (i : ℕ) → get_elem? bytes i ≡ none → length bytes ≤ i
get_elem?-none [] i h = omega arith
get_elem?-none (x ∷ xs) zero h = absurd cc
get_elem?-none (x ∷ xs) (suc i) h = ground (arith, get_elem?-none xs i h)

byte_at-none : (s : Share) (a : ℕ) → byte_at s a ≡ none → Outside a s
unfolding byte_at
byte_at-none s a h = ground (arith, get_elem?-none s.bytes (a - s.at))

byte_at-some :
    (s : Share) (a b : ℕ) (memory : ℕ → ℕ)
    → byte_at s a ≡ some b
    → (write_range memory s.at s.bytes a ≡ b) × (s.at ≤ a) × (a < s.at + length s.bytes)
unfolding byte_at
byte_at-some s a b memory h = ground (arith, write_range-get memory s.at (a - s.at) s.bytes b)

lay-image_at :
    (ss : List Share) (memory : ℕ → ℕ) → AllApart ss → (a : ℕ) → lay ss memory a ≡ image ss memory a
unfolding lay image
lay-image_at [] memory h a = refl
lay-image_at (s ∷ ss) memory h a = elim (Option-cases (byte_at s a)) [
  | inl e ↦
      rw (e, image)
        (lay-agree ss (write_range memory s.at s.bytes) memory a
            (write_range_outside memory s.at a s.bytes (byte_at-none s a e))
          ∙ lay-image_at ss memory h.1 a)
  | inr (b, e) ↦
      (let (written, low, high) = byte_at-some s a b memory e in
        rw (e, image)
          (lay-Outside ss (write_range memory s.at s.bytes) a (Apart-Outside s a low high ss h.0)
            ∙ written))
]

-- Shares that are apart make the memory what it should be.
pub lay-image : (ss : List Share) (memory : ℕ → ℕ) → AllApart ss → lay ss memory ≡ image ss memory
lay-image ss memory h = fun_ext (lay-image_at ss memory h)
