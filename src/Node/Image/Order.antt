-- ===== src/Node/Image/Order.antt =====
-- Copies into the process image in another order, for src/slave_node/slave_node_manager.cpp.
use mathlib.Core.Path.{fun_ext, subst₂}
use mathlib.Core.Logic.{∥∥₁_elim}
use mathlib.Core.List.{Perm, Permᴰ}
use mo_driver_pc_ether_cat.Common.{
  ℕ, ◌≡◌, refl, sym, ◌∙◌, ◌⊎◌, inl, inr, List, ◌∷◌, arith, All, ap, subst,
}
use mo_driver_pc_ether_cat.Common.Bytes.{write_range, write_range_outside}
use mo_driver_pc_ether_cat.Node.Image.{Share, Apart, AllApart, Outside, lay, write_range-agree}

-- A write outside of which the address lies commutes with any other write.
write_range-past :
    (memory : ℕ → ℕ) (s t : Share) (a : ℕ)
    → Outside a t
    → write_range (write_range memory s.at s.bytes) t.at t.bytes a
      ≡ write_range (write_range memory t.at t.bytes) s.at s.bytes a
write_range-past memory s t a h =
    write_range_outside (write_range memory s.at s.bytes) t.at a t.bytes h
    ∙ write_range-agree memory (write_range memory t.at t.bytes) s.at s.bytes a
        (sym (write_range_outside memory t.at a t.bytes h))

Apart-cases : (s t : Share) (a : ℕ) → Apart s t → Outside a t ⊎ Outside a s
Apart-cases s t a h = ground arith

-- Two writes that are apart can be exchanged.
write_range-swap :
    (memory : ℕ → ℕ) (s t : Share)
    → Apart s t
    → write_range (write_range memory s.at s.bytes) t.at t.bytes
      ≡ write_range (write_range memory t.at t.bytes) s.at s.bytes
write_range-swap memory s t h = fun_ext (λ a. elim (Apart-cases s t a h) [
  | inl k ↦ write_range-past memory s t a k
  | inr k ↦ sym (write_range-past memory t s a k)
])

Apart-sym : (s t : Share) → Apart s t → Apart t s
Apart-sym s t h = ground arith

All-permᴰ : (P : Share → Type 0) {ss ts : List Share} → Permᴰ ss ts → All P ss → All P ts
All-permᴰ P Permᴰ.nil h = tt
All-permᴰ P (Permᴰ.cons e d) h = (subst P e h.0, All-permᴰ P d h.1)
All-permᴰ P (Permᴰ.swap e f) h = (subst P f h.1.0, (subst P e h.0, h.1.1))
All-permᴰ P (Permᴰ.trans d e) h = All-permᴰ P e (All-permᴰ P d h)

AllApart-permᴰ : {ss ts : List Share} → Permᴰ ss ts → AllApart ss → AllApart ts
AllApart-permᴰ Permᴰ.nil h = tt
AllApart-permᴰ (Permᴰ.cons {l₂ = l} e d) h =
    (subst (λ s. All (Apart s) l) e (All-permᴰ _ d h.0), AllApart-permᴰ d h.1)
AllApart-permᴰ (Permᴰ.swap {a = s} {b = t} {l = l} e f) h =
    subst₂ (λ x y. AllApart (x ∷ y ∷ l)) f e ((Apart-sym s t h.0.0, h.1.0), (h.0.1, h.1.1))
AllApart-permᴰ (Permᴰ.trans d e) h = AllApart-permᴰ e (AllApart-permᴰ d h)

lay-permᴰ :
    {ss ts : List Share}
    → Permᴰ ss ts
    → (memory : ℕ → ℕ) → AllApart ss
    → lay ss memory ≡ lay ts memory
unfolding lay
lay-permᴰ Permᴰ.nil memory h = refl
lay-permᴰ (Permᴰ.cons {a = s} {l₁ = ss} {l₂ = ts} e d) memory h =
    lay-permᴰ d (write_range memory s.at s.bytes) h.1
    ∙ ap (λ (x : Share). lay ts (write_range memory x.at x.bytes)) e
lay-permᴰ (Permᴰ.swap {a = s} {b = t} {l = l} e f) memory h =
    ap (lay l) (write_range-swap memory s t h.0.0)
    ∙ (λ i. lay l (write_range (write_range memory (f i).at (f i).bytes) (e i).at (e i).bytes))
lay-permᴰ (Permᴰ.trans d e) memory h =
    lay-permᴰ d memory h ∙ lay-permᴰ e memory (AllApart-permᴰ d h)

-- The order in which shares that are apart are copied does not matter.
pub lay-perm :
    {ss ts : List Share}
    → Perm ss ts
    → (memory : ℕ → ℕ) → AllApart ss
    → lay ss memory ≡ lay ts memory
lay-perm p memory h = ∥∥₁_elim p (hlevel) (λ d. lay-permᴰ d memory h)
