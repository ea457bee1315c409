-- ===== src/Controller/Queries.antt =====
-- The methods of src/ec_controller/ec_controller.cpp that give access to the slaves.
use mo_driver_pc_ether_cat.Common.{
  ℕ, zero, suc, ◌≡◌, refl, ap, none, some, [], ◌∷◌, ◌++◌, map, length, arith,
}
use mo_driver_pc_ether_cat.Node.Slave.{SlaveNode}
use mo_driver_pc_ether_cat.Node.Manager.{Nodes, get_node}
use mo_driver_pc_ether_cat.Master.{Master}
use mo_driver_pc_ether_cat.Controller.States.{ControllerState}
use mo_driver_pc_ether_cat.Controller.Actions.{Controller}

-- The nodes after a change of the object that GetNode(i) points to.
unfoldable pub change_node : {F : Type 0} → (SlaveNode F → SlaveNode F) → ℕ → Nodes F → Nodes F
change_node f i [] = []
change_node f zero (n ∷ nodes) = f n ∷ nodes
change_node f (suc i) (n ∷ nodes) = n ∷ change_node f i nodes

-- for (i = i; i < count; ++i), by the number of nodes left; a null pointer is passed over.
unfoldable pub visit_nodes :
    {F : Type 0} → (SlaveNode F → SlaveNode F) → (left i : ℕ) → Nodes F → Nodes F
unfolding change_node
visit_nodes f zero i nodes = nodes
visit_nodes f (suc left) i nodes = elim (get_node nodes i) [
  | none ↦ visit_nodes f left (suc i) nodes
  | some n ↦ visit_nodes f left (suc i) (change_node f i nodes)
]

module _ {B F : Type 0} where
  -- ForEachSlaveNode, with a callback that changes the node it is given.
  unfoldable pub for_each_slave_node : (SlaveNode F → SlaveNode F) → Controller B F → Controller B F
  unfolding visit_nodes
  for_each_slave_node f c = record c { nodes = visit_nodes f (length c.nodes) 0 c.nodes }

  unfoldable pub get_slave_count : Controller B F → ℕ
  get_slave_count c = length c.slave_infos

abbrev pub get_state : {B F : Type 0} → Controller B F → ControllerState
get_state c = c.state

abbrev pub get_ec_master : {B F : Type 0} → Controller B F → Master B
get_ec_master c = c.master

abbrev pub get_slave_node_manager : {B F : Type 0} → Controller B F → Nodes F
get_slave_node_manager c = c.nodes

get_node-append :
    {F : Type 0} (done : Nodes F) (n : SlaveNode F) (nodes : Nodes F)
    → get_node (done ++ (n ∷ nodes)) (length done) ≡ some n
get_node-append [] n nodes = refl
get_node-append (_ ∷ done) n nodes = get_node-append done n nodes

change_node-append :
    {F : Type 0} (f : SlaveNode F → SlaveNode F) (done : Nodes F) (n : SlaveNode F)
    (nodes : Nodes F)
    → change_node f (length done) (done ++ (n ∷ nodes)) ≡ done ++ (f n ∷ nodes)
unfolding change_node
change_node-append f [] n nodes = refl
change_node-append f (d ∷ done) n nodes = ap (◌∷◌ d) (change_node-append f done n nodes)

length-snoc :
    {F : Type 0} (done : Nodes F) (n : SlaveNode F) → length (done ++ (n ∷ [])) ≡ suc (length done)
length-snoc [] n = refl
length-snoc (_ ∷ done) n = ap suc (length-snoc done n)

append-snoc :
    {F : Type 0} (done : Nodes F) (n : SlaveNode F) (nodes : Nodes F)
    → (done ++ (n ∷ [])) ++ nodes ≡ done ++ (n ∷ nodes)
append-snoc [] n nodes = refl
append-snoc (d ∷ done) n nodes = ap (◌∷◌ d) (append-snoc done n nodes)

-- From `done` on, the loop changes every node once and those before not at all.
visit_nodes-map :
    {F : Type 0} (f : SlaveNode F → SlaveNode F) (done nodes : Nodes F)
    → visit_nodes f (length nodes) (length done) (done ++ nodes) ≡ done ++ map f nodes
unfolding visit_nodes
visit_nodes-map f done [] = refl
visit_nodes-map f done (n ∷ nodes) = cc (
  step_at,
  visit_nodes-map f (done ++ (f n ∷ [])) nodes,
  length-snoc done (f n),
  append-snoc done (f n) nodes,
  append-snoc done (f n) (map f nodes),
)
  where
    step_at :
        visit_nodes f (suc (length nodes)) (length done) (done ++ (n ∷ nodes))
        ≡ visit_nodes f (length nodes) (suc (length done)) (done ++ (f n ∷ nodes))
    step_at = ground (arith, get_node-append done n nodes, change_node-append f done n nodes)

module _ {B F : Type 0} where
  -- The walk of ForEachSlaveNode over the indices of the nodes gives each node to the callback
  -- exactly once, and in this way equals a map over the list.
  pub for_each_slave_node-map :
      (f : SlaveNode F → SlaveNode F) (c : Controller B F)
      → for_each_slave_node f c ≡ record c { nodes = map f c.nodes }
  unfolding for_each_slave_node
  for_each_slave_node-map f c =
      ap (λ (nodes : Nodes F). record c { nodes = nodes }) (visit_nodes-map f [] c.nodes)
