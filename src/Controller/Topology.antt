-- ===== src/Controller/Topology.antt =====
-- What DoScan of src/ec_controller/ec_controller.cpp accepts.
use mo_driver_pc_ether_cat.Common.{
  ℕ, zero, suc, ◌≡◌, ◌≢◌, refl, subst, ◌↔◌, ◌⊎◌, inl, inr, true, false, some, List, [], ◌∷◌, arith,
  length, get_elem?, Bool-cases,
}
use mo_driver_pc_ether_cat.Common.Text.{is_empty}
use mo_driver_pc_ether_cat.Types.{SlaveInfo, SlaveIdentity, EcMasterConfig}
use mo_driver_pc_ether_cat.Soem.{Soem}
use mo_driver_pc_ether_cat.Master
use mo_driver_pc_ether_cat.Axis.{Floats}
use mo_driver_pc_ether_cat.Controller.States.{ControllerState, is_allowed}
use mo_driver_pc_ether_cat.Controller.{do_action, scan, dispatch}
use mo_driver_pc_ether_cat.Controller.Actions.{
  Controller, identity_ok, identities_ok, topology_ok, do_shutdown, do_scan,
}

-- An identity that is expected, 0 standing for any value, and the one that was found.
pub record Matches (expected : SlaveIdentity) (actual : SlaveInfo) : Type 0 where
  pub vendor : (expected.vendor_id ≡ 0) ⊎ (actual.vendor_id ≡ expected.vendor_id)
  pub product : (expected.product_id ≡ 0) ⊎ (actual.product_id ≡ expected.product_id)

-- Place by place, where both lists reach.
pub MatchesAll : List SlaveIdentity → List SlaveInfo → Type 0
MatchesAll es is =
    (n : ℕ) (e : SlaveIdentity) (i : SlaveInfo)
    → get_elem? es n ≡ some e
    → get_elem? is n ≡ some i
    → Matches e i

identity_ok_iff : (e : SlaveIdentity) (i : SlaveInfo) → (identity_ok e i ≡ true) ↔ Matches e i
unfolding identity_ok
identity_ok_iff e i = (
  λ h. record { vendor = ground arith; product = ground arith },
  λ m. let v = m.vendor in let q = m.product in ground (arith, v, q),
)

identities_ok_sound :
    (es : List SlaveIdentity) (is : List SlaveInfo) → identities_ok es is ≡ true → MatchesAll es is
unfolding identities_ok MatchesAll
identities_ok_sound [] is h n e i he hi = ground arith
identities_ok_sound (x ∷ es) [] h n e i he hi = ground arith
identities_ok_sound (x ∷ es) (y ∷ is) h zero e i he hi =
    let m = (identity_ok_iff x y).0 (ground (arith, h)) in
    subst (λ t. Matches t i) (ground (arith, he)) (subst (λ t. Matches x t) (ground (arith, hi)) m)
identities_ok_sound (x ∷ es) (y ∷ is) h (suc n) e i he hi =
    identities_ok_sound es is (ground (arith, h)) n e i he hi

identities_ok_complete :
    (es : List SlaveIdentity) (is : List SlaveInfo) → MatchesAll es is → identities_ok es is ≡ true
unfolding identities_ok MatchesAll
identities_ok_complete [] is m = refl
identities_ok_complete (x ∷ es) [] m = refl
identities_ok_complete (x ∷ es) (y ∷ is) m = ground (
  arith,
  (identity_ok_iff x y).1 (m 0 x y refl refl),
  identities_ok_complete es is (λ n. m (suc n)),
)

-- What the checks after a scan ask for.
pub record IsExpected (config : EcMasterConfig) (infos : List SlaveInfo) : Type 0 where
  pub found : infos ≢ []
  pub counted : (config.expected_slave_count ≡ 0) ⊎ (length infos ≡ config.expected_slave_count)
  pub matched : MatchesAll config.expected_identities infos

not_empty : {A : Type 0} (xs : List A) → xs ≢ [] → is_empty xs ≡ false
not_empty [] h = absurd (h refl)
not_empty (_ ∷ _) h = refl

topology_ok_iff :
    (config : EcMasterConfig) (infos : List SlaveInfo)
    → (topology_ok config infos ≡ true) ↔ IsExpected config infos
unfolding topology_ok
topology_ok_iff config infos = (
  λ h. record {
    found = λ e. ground (arith, h, e);
    counted = ground (arith, h);
    matched = identities_ok_sound config.expected_identities infos (ground (arith, h));
  },
  λ x.
      let n = not_empty infos x.found in
      let c = x.counted in
      let m = identities_ok_complete config.expected_identities infos x.matched in
      ground (arith, n, c, m),
)

module _ {B F : Type 0} ⦃soem : Soem B⦄ ⦃fl : Floats F⦄ where
  -- A scan succeeds exactly when it finds a slave, as many as the configuration expects, and at
  -- every place the vendor and the product that it expects there; otherwise it closes the adapter
  -- and falls back to `uninitialized`. In both cases the list it read replaces the old one.
  pub scan-IsExpected :
      (c : Controller B F)
      → c.state ≡ ControllerState.adapter_ready
      → let infos = (Master.scan_slaves c.master).0 in
        ((scan c).1.slave_infos ≡ infos)
        × ((IsExpected c.config infos
              × ((scan c).0 ≡ true)
              × ((scan c).1.state ≡ ControllerState.scanned))
            ⊎ ((¬ IsExpected c.config infos)
                × ((scan c).0 ≡ false)
                × ((scan c).1.state ≡ ControllerState.uninitialized)
                × ((scan c).1.master.closed ≡ true)))
  unfolding scan dispatch do_action do_scan do_shutdown is_allowed Master.close
  scan-IsExpected c e =
      let infos = (Master.scan_slaves c.master).0 in
      let expected = topology_ok_iff c.config infos in
      (
        ground arith,
        elim (Bool-cases (topology_ok c.config infos)) [
          | inl t ↦ inl (expected.0 t, ground (arith, t), ground (arith, t))
          | inr f ↦ inr (
            λ x. let t = expected.1 x in cc,
            ground (arith, f),
            ground (arith, f),
            ground (arith, f),
          )
        ],
      )
