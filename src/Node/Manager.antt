-- ===== src/Node/Manager.antt =====
-- src/slave_node/slave_node_manager.{h,cpp}: the list of all slave nodes.
use mo_driver_pc_ether_cat.Common.{
  length, ℕ, Bool, true, ◌&&◌, Option, none, some, List, [], ◌∷◌, map, if◌then◌else◌, get_elem?,
}
use mo_driver_pc_ether_cat.Common.Text.{Text, text_eq}
use mo_driver_pc_ether_cat.Types.{SlaveInfo}
use mo_driver_pc_ether_cat.Soem.{Soem}
use mo_driver_pc_ether_cat.Master.{Master}
use mo_driver_pc_ether_cat.Axis.{Floats}
use mo_driver_pc_ether_cat.Node.Config.{SlaveConfig}
use mo_driver_pc_ether_cat.Node.Detector.{new_detector, detect}
use mo_driver_pc_ether_cat.Node.Factory.{new_factory, create_config}
use mo_driver_pc_ether_cat.Node.Slave
use mo_driver_pc_ether_cat.Node.Slave.{SlaveNode, placeholder}

-- `nodes_`
abbrev pub Nodes : Type 0 → Type 0
Nodes F = List (SlaveNode F)

module _ {F : Type 0} where
  -- Clear(), then a placeholder for each slave. It always succeeds.
  unfoldable pub initialize : List SlaveInfo → Nodes F → Bool × Nodes F
  initialize infos nodes = (true, map placeholder infos)

  abbrev pub clear : Nodes F → Nodes F
  clear nodes = []

  abbrev pub get_node_count : Nodes F → ℕ
  get_node_count nodes = length nodes

  abbrev pub get_node : Nodes F → ℕ → Option (SlaveNode F)
  get_node = get_elem?

  unfoldable pub get_node_by_name : Text → Nodes F → Option (SlaveNode F)
  get_node_by_name name [] = none
  get_node_by_name name (n ∷ ns) =
      if text_eq n.info.name name then some n else get_node_by_name name ns

module _ {F : Type 0} ⦃fl : Floats F⦄ where
  -- The configuration that ConfigureAll makes for a node.
  unfoldable pub config_for : SlaveInfo → SlaveConfig F
  config_for info = create_config new_factory info (detect new_detector info)

  unfoldable pub configure_all : Nodes F → Bool × Nodes F
  configure_all [] = (true, [])
  configure_all (n ∷ ns) =
      let (rest_ok, rest) = configure_all ns in
      let (ok, n') = Slave.configure (config_for n.info) n in
      if n.configured then (rest_ok, n ∷ rest) else (ok && rest_ok, n' ∷ rest)

  module _ {B : Type 0} where
    unfoldable pub update_all_outputs : Nodes F → Master B → Nodes F × Master B
    update_all_outputs [] m = ([], m)
    update_all_outputs (n ∷ ns) m =
        let (n', m') = if n.configured then Slave.update_pdo_output n m else (n, m) in
        let (ns', m'') = update_all_outputs ns m' in (n' ∷ ns', m'')

    unfoldable pub update_all_inputs : Nodes F → Master B → Nodes F
    update_all_inputs [] m = []
    update_all_inputs (n ∷ ns) m =
        (if n.configured then Slave.update_pdo_input n m else n) ∷ update_all_inputs ns m

module _ {B F : Type 0} ⦃soem : Soem B⦄ where
  -- Every node is asked, also after one has failed.
  unfoldable pub request_all_state : ℕ → Nodes F → Master B → Bool × Nodes F × Master B
  request_all_state state [] m = (true, [], m)
  request_all_state state (n ∷ ns) m =
      let (ok, n', m') = Slave.request_state state n m in
      let (rest_ok, ns', m'') = request_all_state state ns m' in (ok && rest_ok, n' ∷ ns', m'')
