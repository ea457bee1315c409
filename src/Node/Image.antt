-- ===== src/Node/Image.antt =====
-- The process image as the nodes of src/slave_node/slave_node_manager.cpp see it: every node has a
-- share of the outputs, an address and the bytes that go there.
pub mod Order
pub mod Described
use mo_driver_pc_ether_cat.Common.{
  ℕ, zero, suc, ◌+◌, ◌≤◌, ◌<◌, ◌≡◌, refl, ◌∙◌, ◌⊎◌, Option, none, some, ltb, if◌then◌else◌,
  get_elem?, ◌-◌, List, [], ◌∷◌, arith, length, All, All-map,
}
use mo_driver_pc_ether_cat.Common.Bytes.{
  write_range, read_range, write_range_outside, read_range-write_range,
}

pub record Share : Type 0 where
  pub at : ℕ
  pub bytes : List ℕ

-- The two shares have no address in common.
abbrev pub Apart : Share → Share → Type 0
Apart s t = (s.at + length s.bytes ≤ t.at) ⊎ (t.at + length t.bytes ≤ s.at)

-- No two shares of the list have an address in common.
abbrev pub AllApart : List Share → Type 0
AllApart [] = Unit
AllApart (s ∷ ss) = All (Apart s) ss × AllApart ss

abbrev pub Outside : ℕ → Share → Type 0
Outside a s = (a < s.at) ⊎ (s.at + length s.bytes ≤ a)

-- The memory holds the share's bytes.
abbrev pub Holds : (ℕ → ℕ) → Share → Type 0
Holds memory s = read_range memory s.at (length s.bytes) ≡ s.bytes

-- The shares copied one after the other.
unfoldable pub lay : List Share → (ℕ → ℕ) → ℕ → ℕ
lay [] memory = memory
lay (s ∷ ss) memory = lay ss (write_range memory s.at s.bytes)

-- The byte that a share gives an address.
unfoldable pub byte_at : Share → ℕ → Option ℕ
byte_at s a = if ltb a s.at then none else get_elem? s.bytes (a - s.at)

-- What the memory should be: every address has the byte of a share that covers it, and its old
-- byte if there is none.
unfoldable pub image : List Share → (ℕ → ℕ) → ℕ → ℕ
unfolding byte_at
image [] memory a = memory a
image (s ∷ ss) memory a = elim (byte_at s a) [ none ↦ image ss memory a | some b ↦ b ]

-- Memories that agree on a range hold the same bytes there.
pub read_range-agree :
    (memory memory' : ℕ → ℕ) (at len : ℕ)
    → ((a : ℕ) → at ≤ a → a < at + len → memory a ≡ memory' a)
    → read_range memory at len ≡ read_range memory' at len
unfolding read_range
read_range-agree memory memory' at zero h = refl
read_range-agree memory memory' at (suc len) h = cc (
  h at (omega arith) (omega arith),
  read_range-agree memory memory' (suc at) len (λ a k l. h a (omega arith) (omega arith)),
)

-- Nothing is changed outside the shares.
pub lay-Outside :
    (ss : List Share) (memory : ℕ → ℕ) (a : ℕ) → All (Outside a) ss → lay ss memory a ≡ memory a
unfolding lay
lay-Outside [] memory a h = refl
lay-Outside (s ∷ ss) memory a h =
    lay-Outside ss (write_range memory s.at s.bytes) a h.1
    ∙ write_range_outside memory s.at a s.bytes h.0

pub Apart-Outside :
    (s : Share) (a : ℕ)
    → s.at ≤ a
    → a < s.at + length s.bytes
    → (ss : List Share) → All (Apart s) ss
    → All (Outside a) ss
Apart-Outside s a low high = All-map (λ t. apart t)
  where
    apart : (t : Share) → Apart s t → Outside a t
    apart t h = ground arith

-- A share that is apart from those written after it stays.
lay-Apart :
    (s : Share) (ss : List Share) (memory : ℕ → ℕ)
    → All (Apart s) ss
    → Holds memory s
    → Holds (lay ss memory) s
lay-Apart s ss memory h held =
    read_range-agree (lay ss memory) memory s.at (length s.bytes)
      (λ a low high. lay-Outside ss memory a (Apart-Outside s a low high ss h))
    ∙ held

-- Shares that are apart are all held in the end.
pub lay-Holds : (ss : List Share) (memory : ℕ → ℕ) → AllApart ss → All (Holds (lay ss memory)) ss
unfolding lay
lay-Holds [] memory h = tt
lay-Holds (s ∷ ss) memory h = (
  lay-Apart s ss (write_range memory s.at s.bytes) h.0 (read_range-write_range memory s.at s.bytes),
  lay-Holds ss (write_range memory s.at s.bytes) h.1,
)

-- A write reads the memory at the same address only.
pub write_range-agree :
    (memory memory' : ℕ → ℕ) (at : ℕ) (bytes : List ℕ) (a : ℕ)
    → memory a ≡ memory' a
    → write_range memory at bytes a ≡ write_range memory' at bytes a
unfolding write_range
write_range-agree memory memory' at [] a h = h
write_range-agree memory memory' at (b ∷ bs) a h =
    ground (arith, write_range-agree memory memory' (suc at) bs a h)
