-- ===== src/Node/Rules.antt =====
-- What SlaveTypeDetector of src/slave_node/slave_type_detector.cpp answers.
use mo_driver_pc_ether_cat.Common.{
  ℕ, ◌≡◌, refl, ap, ◌↔◌, inl, inr, true, false, List, [], ◌∷◌, ◌++◌, arith, if◌then◌else◌,
  Bool-cases, All, All-map,
}
use mo_driver_pc_ether_cat.Common.Text.{Text, codes, lower, starts_with, contains}
use mo_driver_pc_ether_cat.Types.{SlaveInfo}
use mo_driver_pc_ether_cat.Node.Config.{SlaveType}
use mo_driver_pc_ether_cat.Node.Detector.{Rule, to_lower, register_rule, skips, by_name, detect}

-- The answer comes from a rule that stands behind rules which do not fit.
pub record FirstRule (rules : List Rule) (info : SlaveInfo) : Type 0 where
  pub before : List Rule
  pub rule : Rule
  pub after : List Rule
  pub parts : rules ≡ before ++ rule ∷ after
  pub passed : All (λ r. skips r info ≡ true) before
  pub fits : skips rule info ≡ false
  pub answer : detect rules info ≡ rule.type

-- A rule that is registered later decides only where no earlier rule fits: it takes the place of
-- the test by name for the slaves that it fits.
pub detect-register_rule :
    (vendor product : ℕ) (type : SlaveType) (rules : List Rule) (info : SlaveInfo)
    → detect (register_rule vendor product type rules) info ≡ (
        if skips (record { vendor_id = vendor; product_id = product; type = type }) info
        then detect rules info
        else detect (rules ++ record { vendor_id = 0; product_id = 0; type = type } ∷ []) info)
unfolding detect register_rule
detect-register_rule vendor product type [] info = ground arith
detect-register_rule vendor product type (r ∷ rules) info =
    ground (arith, detect-register_rule vendor product type rules info)

lower_idem : (c : ℕ) → lower (lower c) ≡ lower c
unfolding lower
lower_idem c = ground arith

to_lower_idem : (name : Text) → to_lower (to_lower name) ≡ to_lower name
to_lower_idem [] = refl
to_lower_idem (c ∷ cs) = cc (lower_idem c, to_lower_idem cs)

-- The type that is detected does not depend on the case of the letters of the name.
pub detect-to_lower :
    (rules : List Rule) (info : SlaveInfo)
    → detect rules (record info { name = to_lower info.name }) ≡ detect rules info
unfolding detect
detect-to_lower [] info = ap by_name (to_lower_idem info.name)
detect-to_lower (r ∷ rules) info = ground (arith, detect-to_lower rules info)

-- `word` stands somewhere in `name`.
abbrev pub Occurs : Text → Text → Type 0
Occurs word name = (a : Text) × (b : Text) × (name ≡ a ++ (word ++ b))

starts_with_sound : (p s : Text) → starts_with p s ≡ true → (rest : Text) × (s ≡ p ++ rest)
unfolding starts_with
starts_with_sound [] s h = (s, refl)
starts_with_sound (a ∷ p) [] h = cc
starts_with_sound (a ∷ p) (b ∷ s) h =
    let both : (a ≡ b) × (starts_with p s ≡ true) = ground arith in
    let rest = starts_with_sound p s both.1 in (rest.0, cc (both.0, rest.1))

starts_with_append : (p rest : Text) → starts_with p (p ++ rest) ≡ true
unfolding starts_with
starts_with_append [] rest = refl
starts_with_append (a ∷ p) rest = ground (arith, starts_with_append p rest)

contains_sound : (p s : Text) → contains p s ≡ true → Occurs p s
unfolding contains
contains_sound p [] h = let rest = starts_with_sound p [] h in ([], rest.0, rest.1)
contains_sound p (c ∷ s) h = elim (Bool-cases (starts_with p (c ∷ s))) [
  | inl e ↦ (let rest = starts_with_sound p (c ∷ s) e in ([], rest.0, rest.1))
  | inr e ↦
      (let found = contains_sound p s (ground arith) in (c ∷ found.0, found.1, ap (◌∷◌ c) found.2))
]

contains_here : (p rest : Text) → contains p (p ++ rest) ≡ true
unfolding contains
contains_here [] [] = unfold starts_with in refl
contains_here [] (c ∷ rest) = unfold starts_with in refl
contains_here (a ∷ p) rest = ground (arith, starts_with_append (a ∷ p) rest)

contains_complete : (p a b : Text) → contains p (a ++ (p ++ b)) ≡ true
unfolding contains
contains_complete p [] b = contains_here p b
contains_complete p (c ∷ a) b = ground (arith, contains_complete p a b)

pub contains_iff : (p s : Text) → (contains p s ≡ true) ↔ Occurs p s
contains_iff p s = (contains_sound p s, λ found. rw (found.2) (contains_complete p found.0 found.1))

abbrev pub keywords : List Text
keywords =
    codes "servo"
    ∷ codes "motor"
    ∷ codes "drive"
    ∷ codes "digital"
    ∷ codes "dio"
    ∷ codes "analog"
    ∷ codes "aio"
    ∷ []

not-Occurs : (name word : Text) → contains word name ≡ false → ¬ Occurs word name
not-Occurs name word h o = let e = (contains_iff word name).1 o in cc

not_contained : (name word : Text) → ¬ Occurs word name → contains word name ≡ false
not_contained name word h = elim (Bool-cases (contains word name)) [
  | inl e ↦ absurd (h ((contains_iff word name).0 e))
  | inr e ↦ e
]

by_name-absent :
    (name : Text)
    → (by_name name ≡ SlaveType.unknown) ↔ All (λ word. contains word name ≡ false) keywords
unfolding by_name
by_name-absent name = (λ h. ground arith, λ h. ground arith)

-- A name leaves the type unknown exactly when none of the seven keywords occurs in it.
pub by_name-unknown :
    (name : Text) → (by_name name ≡ SlaveType.unknown) ↔ All (λ word. ¬ Occurs word name) keywords
by_name-unknown name = (
  λ h. All-map (not-Occurs name) keywords ((by_name-absent name).0 h),
  λ h. (by_name-absent name).1 (All-map (not_contained name) keywords h),
)
