-- ===== src/Node/Detector.antt =====
-- src/slave_node/slave_type_detector.{h,cpp}: the type of a slave from its identity and its name.
use mo_driver_pc_ether_cat.Common.{
  ℕ, Bool, ◌&&◌, ◌||◌, not, List, [], ◌∷◌, ◌++◌, map, ◌==◌, if◌then◌else◌,
}
use mo_driver_pc_ether_cat.Common.Text.{Text, codes, lower, contains}
use mo_driver_pc_ether_cat.Types.{SlaveInfo}
use mo_driver_pc_ether_cat.Node.Config.{SlaveType}

pub record Rule : Type 0 where
  pub vendor_id : ℕ
  pub product_id : ℕ
  pub type : SlaveType

abbrev pub to_lower : Text → Text
to_lower = map lower

unfoldable pub register_rule : ℕ → ℕ → SlaveType → List Rule → List Rule
register_rule vendor product type rules =
    rules ++ record { vendor_id = vendor; product_id = product; type = type } ∷ []

-- The rules of a new detector.
unfoldable pub new_detector : List Rule
unfolding register_rule
new_detector = register_rule 0x00000766 0x00002000 SlaveType.servo []

-- A field 0 of a rule stands for any value.
abbrev pub skips : Rule → SlaveInfo → Bool
skips r info =
    (not (r.vendor_id == 0) && not (r.vendor_id == info.vendor_id))
    || (not (r.product_id == 0) && not (r.product_id == info.product_id))

-- The keywords, in the order of the tests.
unfoldable pub by_name : Text → SlaveType
by_name name =
    if contains (codes "servo") name
      || (contains (codes "motor") name || contains (codes "drive") name)
    then SlaveType.servo
    else if contains (codes "digital") name || contains (codes "dio") name
    then SlaveType.digital_io
    else if contains (codes "analog") name || contains (codes "aio") name
    then SlaveType.analog_io
    else SlaveType.unknown

unfoldable pub detect : List Rule → SlaveInfo → SlaveType
unfolding by_name
detect [] info = by_name (to_lower info.name)
detect (r ∷ rules) info = let rest = detect rules info in if skips r info then rest else r.type
