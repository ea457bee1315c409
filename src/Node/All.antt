-- ===== src/Node/All.antt =====
-- All nodes at once: src/slave_node/slave_node_manager.cpp.
use mo_driver_pc_ether_cat.Common.{
  ◌≡◌, refl, ap, Bool, true, List, [], ◌∷◌, map, arith, if◌then◌else◌, if_rule, All,
}
use mo_driver_pc_ether_cat.Types.{SlaveInfo}
use mo_driver_pc_ether_cat.Master.{Master}
use mo_driver_pc_ether_cat.Axis.{Floats}
use mo_driver_pc_ether_cat.Node.Slave
use mo_driver_pc_ether_cat.Node.Slave.{SlaveNode}
use mo_driver_pc_ether_cat.Node.Manager.{
  Nodes, initialize, config_for, configure_all, update_all_outputs, update_all_inputs,
}
use mo_driver_pc_ether_cat.Node.Sound.{
  IsSound, placeholder-IsSound, configure-IsSound, update_pdo_output-IsSound,
  update_pdo_input-IsSound,
}

module _ {F : Type 0} where
  abbrev pub AllSound : Nodes F → Type 0
  AllSound = All IsSound

  abbrev pub AllConfigured : Nodes F → Type 0
  AllConfigured = All (λ n. n.configured ≡ true)

  -- The slaves that the nodes stand for, in order.
  abbrev pub infos_of : Nodes F → List SlaveInfo
  infos_of = map (λ n. n.info)

  pub initialize-AllSound :
      (infos : List SlaveInfo) (old : Nodes F) → AllSound (initialize infos old).1
  unfolding initialize
  initialize-AllSound [] old = tt
  initialize-AllSound (i ∷ is) old = (placeholder-IsSound i, initialize-AllSound is old)

  pub infos_of-initialize :
      (infos : List SlaveInfo) (old : Nodes F) → infos_of (initialize infos old).1 ≡ infos
  unfolding initialize
  infos_of-initialize [] old = refl
  infos_of-initialize (i ∷ is) old = ap (◌∷◌ i) (infos_of-initialize is old)

module _ {F : Type 0} ⦃fl : Floats F⦄ where
  -- ConfigureAll cannot fail: afterwards every node is configured, and the nodes stand for the
  -- same slaves.
  pub configure_all_succeeds :
      (ns : Nodes F)
      → ((configure_all ns).0 ≡ true)
        × AllConfigured (configure_all ns).1
        × (infos_of (configure_all ns).1 ≡ infos_of ns)
  unfolding configure_all Slave.configure
  configure_all_succeeds [] = (refl, tt, refl)
  configure_all_succeeds (n ∷ ns) = ground (arith, configure_all_succeeds ns)

  -- A node that is configured already is left as it is.
  pub configure_all_again : (ns : Nodes F) → AllConfigured ns → configure_all ns ≡ (true, ns)
  unfolding configure_all
  configure_all_again [] h = refl
  configure_all_again (n ∷ ns) h = ground (arith, configure_all_again ns h.1)

  pub configure_all-AllSound : (ns : Nodes F) → AllSound ns → AllSound (configure_all ns).1
  unfolding configure_all
  configure_all-AllSound [] h = tt
  configure_all-AllSound (n ∷ ns) h =
      if_rule (λ (r : Bool × Nodes F). AllSound r.1) n.configured
        (h.0, configure_all-AllSound ns h.1)
        (configure-IsSound (config_for n.info) n h.0, configure_all-AllSound ns h.1)

  module _ {B : Type 0} where
    pub update_all_outputs-AllSound :
        (ns : Nodes F) (m : Master B) → AllSound ns → AllSound (update_all_outputs ns m).0
    unfolding update_all_outputs
    update_all_outputs-AllSound [] m h = tt
    update_all_outputs-AllSound (n ∷ ns) m h = (
      if_rule (λ (r : SlaveNode F × Master B). IsSound r.0) n.configured
          (update_pdo_output-IsSound n m h.0) h.0,
      update_all_outputs-AllSound ns
          (if n.configured then Slave.update_pdo_output n m else (n, m)).1 h.1,
    )

    pub update_all_inputs-AllSound :
        (ns : Nodes F) (m : Master B) → AllSound ns → AllSound (update_all_inputs ns m)
    unfolding update_all_inputs
    update_all_inputs-AllSound [] m h = tt
    update_all_inputs-AllSound (n ∷ ns) m h = (
      if_rule IsSound n.configured (update_pdo_input-IsSound n m h.0) h.0,
      update_all_inputs-AllSound ns m h.1,
    )

    pub update_all_outputs-kept :
        (ns : Nodes F) (m : Master B)
        → (infos_of (update_all_outputs ns m).0 ≡ infos_of ns)
          × (AllConfigured ns → AllConfigured (update_all_outputs ns m).0)
    unfolding update_all_outputs Slave.update_pdo_output
    update_all_outputs-kept [] m = (refl, λ h. tt)
    update_all_outputs-kept (n ∷ ns) m =
        let m' = (if n.configured then Slave.update_pdo_output n m else (n, m)).1 in
        let rest = update_all_outputs-kept ns m' in
        (ground (arith, rest.0), λ h. (ground arith, rest.1 h.1))

    pub update_all_inputs-kept :
        (ns : Nodes F) (m : Master B)
        → (infos_of (update_all_inputs ns m) ≡ infos_of ns)
          × (AllConfigured ns → AllConfigured (update_all_inputs ns m))
    unfolding update_all_inputs Slave.update_pdo_input
    update_all_inputs-kept [] m = (refl, λ h. tt)
    update_all_inputs-kept (n ∷ ns) m =
        let rest = update_all_inputs-kept ns m in
        (ground (arith, rest.0), λ h. (ground arith, rest.1 h.1))
