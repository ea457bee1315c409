-- ===== src/Common/Bytes.antt =====
-- Byte buffers: `memcpy`, `vector::resize`, and integers as little-endian bytes.
pub mod Copies
use Prim.Native.Nat.{ℕ, zero, suc, ◌+◌, ◌-◌, ◌*◌, ◌/◌, ◌%◌, ◌^◌, ◌≤◌, ◌<◌, min}
use mathlib.Core.Path.{◌≡◌, refl, ap}
use mathlib.Core.Logic.{◌⊎◌}
use mathlib.Core.List.{List, [], ◌∷◌, ◌++◌}
use native.Mathlib.Omega.{arith}
use native.Mathlib.Nat.{pow-suc}
use mo_driver_pc_ether_cat.Common.Tests.{ltb, ◌==◌, if◌then◌else◌}
use mo_driver_pc_ether_cat.Common.Int.{ℤ, pos, negsuc}
use mo_driver_pc_ether_cat.Common.Lists.{
  length, take, drop, replicate, length-append, length-replicate,
}

-- memcpy(buffer + at, bytes, bytes.size()), for a range inside the buffer.
unfoldable pub copy_to : List ℕ → ℕ → List ℕ → List ℕ
copy_to buffer at bytes = take at buffer ++ (bytes ++ drop (at + length bytes) buffer)

-- memcpy(out, buffer + at, len), for a range inside the buffer.
unfoldable pub copy_from : List ℕ → ℕ → ℕ → List ℕ
copy_from buffer at len = take len (drop at buffer)

-- The same between a buffer and the memory of a pointer, by address.
unfoldable pub write_range : (ℕ → ℕ) → ℕ → List ℕ → ℕ → ℕ
write_range memory at [] a = memory a
write_range memory at (b ∷ bs) a = if at == a then b else write_range memory (suc at) bs a

unfoldable pub read_range : (ℕ → ℕ) → ℕ → ℕ → List ℕ
read_range memory at zero = []
read_range memory at (suc len) = memory at ∷ read_range memory (suc at) len

-- buffer.resize(n, 0)
unfoldable pub resize : ℕ → List ℕ → List ℕ
resize n buffer = take n buffer ++ replicate (n - length buffer) 0

abbrev pub u16 : ℕ → ℕ
u16 n = n % 2 ^ 16

-- The bytes of an unsigned value, lowest first.
unfoldable pub le_bytes : ℕ → ℕ → List ℕ
le_bytes zero n = []
le_bytes (suc size) n = (n % 256) ∷ le_bytes size (n / 256)

unfoldable pub of_le_bytes : List ℕ → ℕ
of_le_bytes [] = 0
of_le_bytes (b ∷ bs) = b + 256 * of_le_bytes bs

-- The bit pattern of an integer in `bits` bits, and the integer of a pattern.
unfoldable pub to_word : ℕ → ℤ → ℕ
to_word bits (pos n) = n % 2 ^ bits
to_word bits (negsuc n) = 2 ^ bits - 1 - n % 2 ^ bits

unfoldable pub of_word : ℕ → ℕ → ℤ
of_word bits w = if ltb w (2 ^ (bits - 1)) then pos w else negsuc (2 ^ bits - 1 - w)

length-take : (n : ℕ) (xs : List ℕ) → length (take n xs) ≡ min n (length xs)
length-take zero xs = omega arith
length-take (suc n) [] = omega arith
length-take (suc n) (x ∷ xs) = omega (arith, length-take n xs)

length-drop : (n : ℕ) (xs : List ℕ) → length (drop n xs) ≡ length xs - n
length-drop zero xs = omega arith
length-drop (suc n) [] = omega arith
length-drop (suc n) (x ∷ xs) = omega (arith, length-drop n xs)

-- A copy inside the buffer keeps its length.
pub length-copy_to :
    (buffer : List ℕ) (at : ℕ) (bytes : List ℕ)
    → at + length bytes ≤ length buffer
    → length (copy_to buffer at bytes) ≡ length buffer
unfolding copy_to
length-copy_to buffer at bytes h = omega (
  arith,
  length-append (take at buffer) (bytes ++ drop (at + length bytes) buffer),
  length-append bytes (drop (at + length bytes) buffer),
  length-take at buffer,
  length-drop (at + length bytes) buffer,
)

pub length-copy_from :
    (buffer : List ℕ) (at len : ℕ)
    → at + len ≤ length buffer
    → length (copy_from buffer at len) ≡ len
unfolding copy_from
length-copy_from buffer at len h =
    omega (arith, length-take len (drop at buffer), length-drop at buffer)

pub length-resize : (n : ℕ) (buffer : List ℕ) → length (resize n buffer) ≡ n
unfolding resize
length-resize n buffer = omega (
  arith,
  length-append (take n buffer) (replicate (n - length buffer) 0),
  length-take n buffer,
  length-replicate {A = ℕ} (n - length buffer) 0,
)

pub length-le_bytes : (size n : ℕ) → length (le_bytes size n) ≡ size
unfolding le_bytes
length-le_bytes zero n = refl
length-le_bytes (suc size) n = ap suc (length-le_bytes size (n / 256))

-- The bytes of a value that fits give the value back.
pub of_le_bytes-le_bytes : (size n : ℕ) → n < 256 ^ size → of_le_bytes (le_bytes size n) ≡ n
unfolding le_bytes of_le_bytes
of_le_bytes-le_bytes zero n h = omega arith
of_le_bytes-le_bytes (suc size) n h =
    omega (arith, of_le_bytes-le_bytes size (n / 256) (omega (arith, pow-suc 256 size)))

drop_at :
    (at : ℕ) (buffer rest : List ℕ) → at ≤ length buffer → drop at (take at buffer ++ rest) ≡ rest
drop_at zero buffer rest h = refl
drop_at (suc at) [] rest h = absurd (omega arith)
drop_at (suc at) (x ∷ xs) rest h = drop_at at xs rest (omega arith)

take_all : (bytes rest : List ℕ) → take (length bytes) (bytes ++ rest) ≡ bytes
take_all [] rest = refl
take_all (b ∷ bytes) rest = ap (◌∷◌ b) (take_all bytes rest)

-- What was copied in can be copied out.
pub copy_from-copy_to :
    (buffer : List ℕ) (at : ℕ) (bytes : List ℕ)
    → at ≤ length buffer
    → copy_from (copy_to buffer at bytes) at (length bytes) ≡ bytes
unfolding copy_to copy_from
copy_from-copy_to buffer at bytes h =
    rw (drop_at at buffer (bytes ++ drop (at + length bytes) buffer) h)
      (take_all bytes (drop (at + length bytes) buffer))

pub length-read_range : (memory : ℕ → ℕ) (at len : ℕ) → length (read_range memory at len) ≡ len
unfolding read_range
length-read_range memory at zero = refl
length-read_range memory at (suc len) = ap suc (length-read_range memory (suc at) len)

-- A write changes no address outside its range.
pub write_range_outside :
    (memory : ℕ → ℕ) (at a : ℕ) (bytes : List ℕ)
    → (a < at) ⊎ (at + length bytes ≤ a)
    → write_range memory at bytes a ≡ memory a
unfolding write_range
write_range_outside memory at a [] h = refl
write_range_outside memory at a (b ∷ bs) h =
    ground (arith, write_range_outside memory (suc at) a bs)

-- What was written is what is read back.
read_range_above :
    (memory memory' : ℕ → ℕ) (at len : ℕ)
    → ((a : ℕ) → at ≤ a → memory a ≡ memory' a)
    → read_range memory at len ≡ read_range memory' at len
unfolding read_range
read_range_above memory memory' at zero h = refl
read_range_above memory memory' at (suc len) h =
    cc (h at (omega arith), read_range_above memory memory' (suc at) len (λ a k. h a (omega arith)))

pub read_range-write_range :
    (memory : ℕ → ℕ) (at : ℕ) (bytes : List ℕ)
    → read_range (write_range memory at bytes) at (length bytes) ≡ bytes
unfolding read_range write_range
read_range-write_range memory at [] = refl
read_range-write_range memory at (b ∷ bs) = cc (
  first,
  read_range_above (write_range memory at (b ∷ bs)) (write_range memory (suc at) bs) (suc at)
      (length bs) (λ a k. ground arith),
  read_range-write_range memory (suc at) bs,
)
  where
    first : write_range memory at (b ∷ bs) at ≡ b
    first = ground arith
