-- ===== src/Engine/Exchange.antt =====
-- One round of src/cyclic/process_data_engine.cpp from the commands to the feedback.
use mo_driver_pc_ether_cat.Common.{
  ℕ, ◌≡◌, refl, sym, ap, ◌∙◌, true, some, [], ◌∷◌, map, arith, if◌then◌else◌, get_elem?, subst,
  length, get_elem?-map, All-get,
}
use mo_driver_pc_ether_cat.Common.Bytes.{read_range}
use mo_driver_pc_ether_cat.Soem.{Slave, Port, Soem}
use mo_driver_pc_ether_cat.Master
use mo_driver_pc_ether_cat.Master.{Master}
use mo_driver_pc_ether_cat.Axis.{Floats, ServoAxis}
use mo_driver_pc_ether_cat.Node.Slave.{SlaveNode, encoded, update_pdo_input}
use mo_driver_pc_ether_cat.Node.Profile.{Profile}
use mo_driver_pc_ether_cat.Node.Image.{AllApart, lay, lay-Holds, Holds}
use mo_driver_pc_ether_cat.Node.Exchange.{share, sent, update_all_outputs-lay}
use mo_driver_pc_ether_cat.Node.Answer.{
  IsDrive, update_pdo_input-answered, IsDrive-configured, length-encoded,
}
use mo_driver_pc_ether_cat.Node.Layout.{CommandsFit, answered}
use mo_driver_pc_ether_cat.Node.Sound.{IsSound}
use mo_driver_pc_ether_cat.Node.Manager.{Nodes, update_all_outputs, update_all_inputs}
use mo_driver_pc_ether_cat.Controller.States.{ControllerState}
use mo_driver_pc_ether_cat.Controller.Actions.{Controller}
use mo_driver_pc_ether_cat.Controller.Invariant.{IsWellFormed}
use mo_driver_pc_ether_cat.Engine.{run_once}

module _ {B : Type 0} ⦃soem : Soem B⦄ where
  -- The port after the exchange of process data.
  abbrev pub exchanged : Port B → Port B
  exchanged p = (soem.ecx_receive_processdata (soem.ecx_send_processdata p)).1

  -- In the exchange from the port `p` the slave puts the first `len` bytes of its outputs, which
  -- start at `base`, into its inputs, which then start at `inputs`.
  pub record Mirrors (p : Port B) (slave base len : ℕ) : Type 0 where
    pub inputs : ℕ
    pub has_outputs : (p.slavelist slave).outputs ≡ some base
    pub has_inputs : ((exchanged p).slavelist slave).inputs ≡ some inputs
    pub mirrored : read_range (exchanged p).iomap inputs len ≡ read_range p.iomap base len

module _ {F : Type 0} ⦃fl : Floats F⦄ where
  share-drive :
      (slaves : ℕ → Slave) (n : SlaveNode F) (base : ℕ)
      → n.configured ≡ true
      → (slaves n.info.slave_id).outputs ≡ some base
      → share slaves n ≡ record { at = base; bytes = encoded n }
  share-drive slaves n base h e = ground arith

  module _ {B : Type 0} where
    -- What UpdateAllInputs does to one node.
    abbrev served : Master B → SlaveNode F → SlaveNode F
    served m n = if n.configured then update_pdo_input n m else n

    update_all_inputs-map :
        (ns : Nodes F) (m : Master B) → update_all_inputs ns m ≡ map (served m) ns
    unfolding update_all_inputs
    update_all_inputs-map [] m = refl
    update_all_inputs-map (n ∷ ns) m = ap (◌∷◌ (served m n)) (update_all_inputs-map ns m)

    -- The IOmap holds the buffer of a node that is served.
    update_all_outputs-holds :
        (ns : Nodes F) (m : Master B) (i base : ℕ) (n : SlaveNode F)
        → AllApart (map (share m.port.slavelist) ns)
        → get_elem? ns i ≡ some n
        → n.configured ≡ true
        → (m.port.slavelist n.info.slave_id).outputs ≡ some base
        → read_range (update_all_outputs ns m).1.port.iomap base (length (encoded n)) ≡ encoded n
    update_all_outputs-holds ns m i base n h e c o =
        let shares = map (share m.port.slavelist) ns in
        let memory = lay shares m.port.iomap in
        rw (update_all_outputs-lay ns m) (
          subst (Holds memory) (share-drive m.port.slavelist n base c o) (
            All-get (Holds memory) shares i (share m.port.slavelist n)
              (lay-Holds shares m.port.iomap h) (get_elem?-map (share m.port.slavelist) ns i n e)))

module _ {B F : Type 0} ⦃soem : Soem B⦄ ⦃fl : Floats F⦄ where
  -- The master once the outputs of the nodes are in the IOmap, and after the exchange.
  abbrev pub loaded : Controller B F → Master B
  loaded c = (update_all_outputs c.nodes c.master).1

  cycled : ℕ → Controller B F → Master B
  cycled now c = Master.run_one_cycle now (loaded c)

  run_once-nodes :
      (now : ℕ) (c : Controller B F)
      → c.state ≡ ControllerState.operational
      → (run_once now c).nodes ≡ map (served (cycled now c)) (map sent c.nodes)
  unfolding run_once cycled
  run_once-nodes now c o = simp o (
      ap (λ (r : Nodes F × Master B). update_all_inputs r.0 (cycled now c))
        (update_all_outputs-lay c.nodes c.master)
      ∙ update_all_inputs-map (map sent c.nodes) (cycled now c))

  loaded-slavelist : (c : Controller B F) → (loaded c).port.slavelist ≡ c.master.port.slavelist
  loaded-slavelist c =
      ap (λ (r : Nodes F × Master B). r.1.port.slavelist) (update_all_outputs-lay c.nodes c.master)

  -- The bytes that a mirroring drive returns are those of its node.
  mirrored-encoded :
      (i base : ℕ) (c : Controller B F) (n : SlaveNode F) (a : ServoAxis F)
      → AllApart (map (share c.master.port.slavelist) c.nodes)
      → get_elem? c.nodes i ≡ some n
      → IsDrive a n
      → IsSound n
      → (k : Mirrors (loaded c).port n.info.slave_id base (length n.output_buffer))
      → read_range (exchanged (loaded c).port).iomap k.inputs (length n.output_buffer) ≡ encoded n
  mirrored-encoded i base c n a h e d s k =
      let outputs =
        subst (λ l. (l n.info.slave_id).outputs ≡ some base) (loaded-slavelist c) k.has_outputs in
      k.mirrored
      ∙ ap (read_range (loaded c).port.iomap base) (sym (length-encoded a n d s))
      ∙ update_all_outputs-holds c.nodes c.master i base n h e (IsDrive-configured a n d s) outputs

  -- In Operational, with outputs that nowhere overlap, one RunOnce closes the loop of every drive
  -- that returns its outputs as its inputs, under any mapping that has the fields of a servo: the
  -- node that stands for it ends with the commands of its axis, converted to raw values and back, as its feedback, if the raw values fit their
  -- fields.
  pub run_once-answered :
      (now i base : ℕ) (c : Controller B F) (n : SlaveNode F) (a : ServoAxis F)
      → c.state ≡ ControllerState.operational
      → IsWellFormed c
      → AllApart (map (share c.master.port.slavelist) c.nodes)
      → get_elem? c.nodes i ≡ some n
      → IsDrive a n
      → CommandsFit a
      → Mirrors (loaded c).port n.info.slave_id base (length n.output_buffer)
      → (n' : SlaveNode F) × (get_elem? (run_once now c).nodes i ≡ some n')
        × (n'.profile ≡ some (Profile.servo (answered a)))
  unfolding cycled Master.run_one_cycle
  run_once-answered now i base c n a o w h e d f k =
      let sound = All-get IsSound c.nodes i n w.sound e in
      (
        served (cycled now c) (sent n),
        ap (λ ns. get_elem? ns i) (run_once-nodes now c o)
            ∙ get_elem?-map (served (cycled now c)) (map sent c.nodes) i (sent n)
                (get_elem?-map sent c.nodes i n e),
        ground (
          arith,
          IsDrive-configured a n d sound,
          update_pdo_input-answered a n (cycled now c) k.inputs d sound f k.has_inputs
              (mirrored-encoded i base c n a h e d sound k),
        ),
      )
