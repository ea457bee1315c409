-- ===== src/Node/Transfer.antt =====
-- The copy of a node's output buffer into the IOmap: UpdatePdoOutput of
-- src/slave_node/slave_node.cpp and WriteOutput of src/ec_master/ec_master.cpp.
use mo_driver_pc_ether_cat.Common.{
  ℕ, ◌+◌, ◌≤◌, ◌<◌, ◌≡◌, refl, subst, ◌⊎◌, true, some, List, [], ◌∷◌, arith, length, if◌then◌else◌,
}
use mo_driver_pc_ether_cat.Common.Text.{is_empty}
use mo_driver_pc_ether_cat.Common.Bytes.{
  write_range, read_range, write_range_outside, read_range-write_range,
}
use mo_driver_pc_ether_cat.Master.{Master, write_output}
use mo_driver_pc_ether_cat.Axis.{Floats}
use mo_driver_pc_ether_cat.Node.Slave.{SlaveNode, encoded, update_pdo_output}

-- The memory from the IOmap on, once `bytes` stand at the outputs of a slave.
pub record Sent (bytes : List ℕ) (base : ℕ) (before after : ℕ → ℕ) : Type 0 where
  pub holds : read_range after base (length bytes) ≡ bytes
  pub spared : (a : ℕ) → (a < base) ⊎ (base + length bytes ≤ a) → after a ≡ before a

write-Sent :
    {B : Type 0} (bytes : List ℕ) (slave base : ℕ) (m : Master B)
    → (m.port.slavelist slave).outputs ≡ some base
    → Sent bytes base m.port.iomap
        (if is_empty bytes then m else write_output slave 0 bytes m).port.iomap
unfolding write_output
write-Sent [] slave base m e = record { holds = unfold read_range in refl; spared = λ a h. refl }
write-Sent (b ∷ bs) slave base m e =
    rw (e, write_output)
      (subst (λ at. Sent (b ∷ bs) base m.port.iomap (write_range m.port.iomap at (b ∷ bs)))
        (omega arith)
        (record {
          holds = read_range-write_range m.port.iomap base (b ∷ bs);
          spared = λ a h. write_range_outside m.port.iomap base a (b ∷ bs) h;
        }))

module _ {B F : Type 0} ⦃fl : Floats F⦄ where
  -- For a configured node whose slave has its outputs mapped, UpdatePdoOutput copies the whole
  -- encoded buffer to where those outputs start, and touches nothing else. The length of the
  -- slave's output area plays no part.
  pub update_pdo_output-Sent :
      (n : SlaveNode F) (m : Master B) (base : ℕ)
      → n.configured ≡ true
      → (m.port.slavelist n.info.slave_id).outputs ≡ some base
      → Sent (encoded n) base m.port.iomap (update_pdo_output n m).1.port.iomap
  unfolding update_pdo_output
  update_pdo_output-Sent n m base c e = rw c (write-Sent (encoded n) n.info.slave_id base m e)
