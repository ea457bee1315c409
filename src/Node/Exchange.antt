-- ===== src/Node/Exchange.antt =====
-- The process data of all nodes at once: UpdateAllOutputs and UpdateAllInputs of
-- src/slave_node/slave_node_manager.cpp on the process image.
use mathlib.Core.List.{Perm}
use mathlib.Core.List.Perm
use mo_driver_pc_ether_cat.Common.{
  ℕ, ◌≡◌, refl, sym, ap, ◌∙◌, Option, none, some, List, [], ◌∷◌, map, arith, if◌then◌else◌, All,
}
use mo_driver_pc_ether_cat.Common.Text.{is_empty}
use mo_driver_pc_ether_cat.Common.Bytes.{write_range}
use mo_driver_pc_ether_cat.Soem.{Slave}
use mo_driver_pc_ether_cat.Master.{Master, write_output}
use mo_driver_pc_ether_cat.Axis.{Floats}
use mo_driver_pc_ether_cat.Node.Slave.{SlaveNode, encoded, update_pdo_output}
use mo_driver_pc_ether_cat.Node.Manager.{Nodes, update_all_outputs}
use mo_driver_pc_ether_cat.Node.Image.{Share, AllApart, Holds, lay, image, lay-Holds}
use mo_driver_pc_ether_cat.Node.Image.Order.{lay-perm}
use mo_driver_pc_ether_cat.Node.Image.Described.{lay-image}

abbrev pub with_iomap : {B : Type 0} → Master B → (ℕ → ℕ) → Master B
with_iomap m iomap = record m { port = record (m.port) { iomap = iomap } }

-- Bytes at the outputs of a slave, or nothing if it has none.
abbrev pub placed : Option ℕ → List ℕ → Share
placed none bytes = record { at = 0; bytes = [] }
placed (some base) bytes = record { at = base; bytes = bytes }

abbrev pub put : {B : Type 0} → Share → Master B → Master B
put s m = with_iomap m (write_range m.port.iomap s.at s.bytes)

-- What the call of WriteOutput in UpdatePdoOutput does.
write-put :
    {B : Type 0} (bytes : List ℕ) (slave : ℕ) (m : Master B)
    → (if is_empty bytes then m else write_output slave 0 bytes m)
      ≡ put (placed (m.port.slavelist slave).outputs bytes) m
unfolding write_output write_range
write-put [] slave m = ground arith
write-put (b ∷ bs) slave m = ground arith

module _ {F : Type 0} ⦃fl : Floats F⦄ where
  -- The share of a node: its encoded buffer at the outputs of its slave, and nothing if it is not
  -- configured or its slave has no outputs.
  abbrev pub share : (ℕ → Slave) → SlaveNode F → Share
  share slaves n =
      if n.configured
      then placed (slaves n.info.slave_id).outputs (encoded n)
      else record { at = 0; bytes = [] }

  -- The node after its outputs were sent.
  abbrev pub sent : SlaveNode F → SlaveNode F
  sent n = if n.configured then record n { output_buffer = encoded n } else n

  module _ {B : Type 0} where
    update_one :
        (n : SlaveNode F) (m : Master B)
        → (if n.configured then update_pdo_output n m else (n, m))
          ≡ (sent n, put (share m.port.slavelist n) m)
    unfolding update_pdo_output write_range
    update_one n m = ground (arith, write-put (encoded n) n.info.slave_id m)

    -- UpdateAllOutputs lays the shares of the nodes into the IOmap, and keeps each encoded buffer.
    pub update_all_outputs-lay :
        (ns : Nodes F) (m : Master B)
        → update_all_outputs ns m
          ≡ (map sent ns, with_iomap m (lay (map (share m.port.slavelist) ns) m.port.iomap))
    unfolding update_all_outputs lay
    update_all_outputs-lay [] m = refl
    update_all_outputs-lay (n ∷ ns) m =
        cc (update_one n m, update_all_outputs-lay ns (put (share m.port.slavelist n) m))

    -- With outputs that nowhere overlap, UpdateAllOutputs makes the IOmap what it should be: each
    -- address has the byte of the one node, configured and with outputs at its slave, whose encoded
    -- buffer covers it, and its old byte where there is none; so the whole buffer of every such node
    -- can be read at those outputs, also after the nodes behind it have been served. Of the nodes,
    -- only the output buffers change, to what was sent.
    pub update_all_outputs-image :
        (ns : Nodes F) (m : Master B)
        → AllApart (map (share m.port.slavelist) ns)
        → let shares = map (share m.port.slavelist) ns in
          let (ns', m') = update_all_outputs ns m in
          (m' ≡ with_iomap m (image shares m.port.iomap))
          × All (Holds m'.port.iomap) shares
          × (ns' ≡ map sent ns)
    update_all_outputs-image ns m h =
        let shares = map (share m.port.slavelist) ns in
        rw (update_all_outputs-lay ns m) (
          ap (with_iomap m) (lay-image shares m.port.iomap h),
          lay-Holds shares m.port.iomap h,
          refl,
        )

    -- With outputs that nowhere overlap, the order of the nodes does not matter: any permutation of
    -- them leaves the same memory and the same master.
    pub update_all_outputs-perm :
        (ns ns' : Nodes F) (m : Master B)
        → Perm ns ns'
        → AllApart (map (share m.port.slavelist) ns)
        → (update_all_outputs ns m).1 ≡ (update_all_outputs ns' m).1
    update_all_outputs-perm ns ns' m p h =
        ap (λ x. x.1) (update_all_outputs-lay ns m)
        ∙ ap (with_iomap m) (lay-perm (Perm.map (share m.port.slavelist) p) m.port.iomap h)
        ∙ sym (ap (λ x. x.1) (update_all_outputs-lay ns' m))
