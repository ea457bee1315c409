-- ===== src/Cli/Words.antt =====
-- The `while (iss >> token)` loops of examples/cli/ecat_application.cpp.
use mo_driver_pc_ether_cat.Common.{
  ℕ, ◌≡◌, refl, subst, ◌∙◌, Bool, false, ◌&&◌, ◌||◌, List, [], ◌∷◌, ◌++◌, arith, leb, ◌==◌,
  if◌then◌else◌, All,
}
use mo_driver_pc_ether_cat.Common.Text.{Text, is_empty, codes}

-- `isspace` of the C locale: the blank, and the controls from the tab to the carriage return.
abbrev pub is_space : ℕ → Bool
is_space c = c == 32 || leb 9 c && leb c 13

-- The word that has ended in front, if it has a letter.
abbrev pub put_word : Text → List Text → List Text
put_word word rest = if is_empty word then rest else word ∷ rest

-- The words of the text, after the part `word` of the one that is being read.
unfoldable pub words_after : Text → Text → List Text
words_after word [] = put_word word []
words_after word (c ∷ s) =
    let ended = words_after [] s in
    let longer = words_after (word ++ (c ∷ [])) s in
    if is_space c then put_word word ended else longer

unfoldable pub words : Text → List Text
unfolding words_after
words s = words_after [] s

words_runs : words (codes "  param 0x6040\t0 ") ≡ codes "param" ∷ codes "0x6040" ∷ codes "0" ∷ []
unfolding words
words_runs = refl

append_empty : (s : Text) → s ++ [] ≡ s
append_empty [] = refl
append_empty (c ∷ s) = ground (arith, append_empty s)

append_assoc : (r s t : Text) → (r ++ s) ++ t ≡ r ++ (s ++ t)
append_assoc [] s t = refl
append_assoc (c ∷ r) s t = ground (arith, append_assoc r s t)

-- A text without space.
abbrev pub IsSolid : Text → Type 0
IsSolid = All (λ c. is_space c ≡ false)

-- The letters of a solid text go to the word that is being read.
words_after-solid :
    (word s t : Text) → IsSolid s → words_after word (s ++ t) ≡ words_after (word ++ s) t
unfolding words_after
words_after-solid word [] t h = rw (append_empty word) refl
words_after-solid word (c ∷ s) t h =
    rw h.0
      (rw (words_after-solid (word ++ (c ∷ [])) s t h.1) (rw (append_assoc word (c ∷ []) s) refl))

-- A word that a blank follows is read off the front.
pub words-blank :
    (c : ℕ) (s t : Text) → IsSolid (c ∷ s) → words ((c ∷ s) ++ (32 ∷ t)) ≡ (c ∷ s) ∷ words t
unfolding words
words-blank c s t h = rw (words_after-solid [] (c ∷ s) (32 ∷ t) h) (unfold words_after in refl)

-- The last word.
pub words-last : (c : ℕ) (s : Text) → IsSolid (c ∷ s) → words (c ∷ s) ≡ (c ∷ s) ∷ []
unfolding words
words-last c s h =
    subst (λ t. words_after [] t ≡ (c ∷ s) ∷ []) (append_empty (c ∷ s))
      (words_after-solid [] (c ∷ s) [] h ∙ unfold words_after in refl)
