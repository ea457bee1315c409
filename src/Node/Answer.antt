-- ===== src/Node/Answer.antt =====
-- What a drive that returns its outputs makes of a node: UpdatePdoInput of
-- src/slave_node/slave_node.cpp after UpdatePdoOutput.
use mathlib.Core.List.{append-nil}
use mo_driver_pc_ether_cat.Common.{
  ℕ, ◌<◌, ◌≡◌, sym, ap, subst, is_some, ◌∙◌, true, some, List, arith, length,
}
use mo_driver_pc_ether_cat.Common.Bytes.{read_range}
use mo_driver_pc_ether_cat.Master.{Master, read_input}
use mo_driver_pc_ether_cat.Axis.{Floats, ServoAxis}
use mo_driver_pc_ether_cat.Node.Config.{SlaveConfig}
use mo_driver_pc_ether_cat.Node.Profile.{Profile, encode_pdo_output, decode_pdo_input}
use mo_driver_pc_ether_cat.Node.Layout.{Layout, CommandsFit, answered, decode-encode_any}
use mo_driver_pc_ether_cat.Node.Slave.{SlaveNode, encoded, decoded, received, update_pdo_input}
use mo_driver_pc_ether_cat.Node.Sound.{Sized, IsSound, encoded-size, drop-length}
use mo_driver_pc_ether_cat.Node.Exchange.{sent}

-- The node stands for a drive with the axis `a`, under a mapping that has the fields of a servo in
-- both of its buffers, which are of the same length.
pub record IsDrive {F : Type 0} (a : ServoAxis F) (n : SlaveNode F) : Type 0 where
  pub config : SlaveConfig F
  pub has_config : n.config ≡ some config
  pub has_axis : n.profile ≡ some (Profile.servo a)
  pub layout : Layout config.mapping (length n.output_buffer)
  pub same_length : length n.input_buffer ≡ length n.output_buffer

read_whole :
    {B : Type 0} (slave base : ℕ) (buffer : List ℕ) (m : Master B)
    → (m.port.slavelist slave).inputs ≡ some base
    → read_input slave 0 (length buffer) buffer m ≡ read_range m.port.iomap base (length buffer)
unfolding read_input
read_whole slave base buffer m e =
    rw (e, read_input)
      (rw (drop-length buffer)
        (simp append-nil (ap (λ at. read_range m.port.iomap at (length buffer)) (omega arith))))

pub IsDrive-configured :
    {F : Type 0} (a : ServoAxis F) (n : SlaveNode F) → IsDrive a n → IsSound n → n.configured ≡ true
IsDrive-configured a n d s = s.has_config ∙ ap is_some d.has_config

module _ {F : Type 0} ⦃fl : Floats F⦄ where
  encoded-drive :
      (a : ServoAxis F) (n : SlaveNode F) (d : IsDrive a n)
      → encoded n ≡ encode_pdo_output d.config.mapping (Profile.servo a) n.output_buffer
  unfolding encoded
  encoded-drive a n d = ground (arith, d.has_config, d.has_axis)

  decoded-drive :
      (a : ServoAxis F) (n : SlaveNode F) (buffer : List ℕ) (d : IsDrive a n)
      → decoded (sent n) buffer ≡ some (decode_pdo_input d.config.mapping buffer (Profile.servo a))
  unfolding decoded
  decoded-drive a n buffer d = ground (arith, d.has_config, d.has_axis)

  -- The whole buffer is sent.
  pub length-encoded :
      (a : ServoAxis F) (n : SlaveNode F)
      → IsDrive a n
      → IsSound n
      → length (encoded n) ≡ length n.output_buffer
  length-encoded a n d s =
      let sized = subst (λ c. Sized c n.output_buffer n.input_buffer) d.has_config s.sized in
      encoded-size n d.config d.has_config sized.0 ∙ sym sized.0

module _ {B F : Type 0} ⦃fl : Floats F⦄ where
  received-drive :
      (n : SlaveNode F) (m : Master B) (base : ℕ)
      → 0 < length n.input_buffer
      → (m.port.slavelist n.info.slave_id).inputs ≡ some base
      → received (sent n) m ≡ read_range m.port.iomap base (length n.input_buffer)
  unfolding received
  received-drive n m base h e = ground (arith, read_whole n.info.slave_id base n.input_buffer m e)

  pub update_pdo_input-answered :
      (a : ServoAxis F) (n : SlaveNode F) (m : Master B) (base : ℕ)
      → IsDrive a n
      → IsSound n
      → CommandsFit a
      → (m.port.slavelist n.info.slave_id).inputs ≡ some base
      → read_range m.port.iomap base (length n.output_buffer) ≡ encoded n
      → (update_pdo_input (sent n) m).profile ≡ some (Profile.servo (answered a))
  unfolding update_pdo_input
  update_pdo_input-answered a n m base d s f e r =
      let long : 0 < length n.input_buffer = omega (arith, d.same_length, d.layout.torque_inside) in
      let arrived =
        received-drive n m base long e
        ∙ ap (read_range m.port.iomap base) d.same_length
        ∙ r
        ∙ encoded-drive a n d in
      ground (
        arith,
        IsDrive-configured a n d s,
        decoded-drive a n (received (sent n) m) d,
        arrived,
        decode-encode_any a d.config.mapping n.output_buffer d.layout f,
      )
