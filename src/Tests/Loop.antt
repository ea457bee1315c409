-- ===== src/Tests/Loop.antt =====
-- One cycle with two slaves that return what they are sent.
use mathlib.Core.List.Perm
use mo_driver_pc_ether_cat.Common.{
  ℕ, ◌-◌, ◌≡◌, refl, true, some, [], ◌∷◌, map, arith, inl, ltb, if◌then◌else◌, get_elem?, All,
}
use mo_driver_pc_ether_cat.Common.Int.{ℤ, pos}
use mo_driver_pc_ether_cat.Common.Text.{codes}
use mo_driver_pc_ether_cat.Common.Bytes.{read_range, write_range, copy_to, le_bytes, to_word}
use mo_driver_pc_ether_cat.Types.{empty_info, default_config}
use mo_driver_pc_ether_cat.Soem.{Soem}
use mo_driver_pc_ether_cat.Master.{write_output}
use mo_driver_pc_ether_cat.Node.Factory.{new_factory, make_servo_config, make_digital_io_config}
use mo_driver_pc_ether_cat.Node.Profile.{Profile, encode_pdo_output, write_raw, find_entry}
use mo_driver_pc_ether_cat.Node.Slave.{
  SlaveNode, placeholder, encoded, update_pdo_output, compute_output_size, compute_input_size,
  extent,
}
use mo_driver_pc_ether_cat.Node.Manager.{Nodes, update_all_outputs}
use mo_driver_pc_ether_cat.Node.All.{infos_of}
use mo_driver_pc_ether_cat.Node.Image.{AllApart, Holds, image}
use mo_driver_pc_ether_cat.Node.Exchange.{
  share, sent, with_iomap, update_all_outputs-image, update_all_outputs-perm,
}
use mo_driver_pc_ether_cat.Node.Sound.{IsSound}
use mo_driver_pc_ether_cat.Node.Layout.{Field, Layout, CommandsFit, answered}
use mo_driver_pc_ether_cat.Node.Factory.{entry, servo_mapping}
use mo_driver_pc_ether_cat.Node.Answer.{IsDrive}
use mo_driver_pc_ether_cat.Controller.States.{ControllerState}
use mo_driver_pc_ether_cat.Controller.Actions.{Controller}
use mo_driver_pc_ether_cat.Controller.Invariant.{IsWellFormed}
use mo_driver_pc_ether_cat.Engine.Exchange.{Mirrors, loaded}
use mo_driver_pc_ether_cat.Api.{Impl}
use mo_driver_pc_ether_cat.Api.Service.{service}
use mo_driver_pc_ether_cat.Api.Feedback.{service-answered}
use mo_driver_pc_ether_cat.Tests.Facade.{around}
use mo_driver_pc_ether_cat.Tests.Bus.{whole, simulated_bus, lit_port, master_on}
use mo_driver_pc_ether_cat.Tests.Exchange.{moving, ready_drive}

-- The outputs of the two slaves are at 0 and 10, their inputs at 20 and 30.
instance abbrev mirrors : Soem ℕ
mirrors = record (simulated_bus 2) {
  ecx_receive_processdata =
      λ p. (pos 6, record p { iomap = λ a. if ltb a 20 then p.iomap a else p.iomap (a - 20) });
}

-- A configured module with one byte of outputs, which are on.
abbrev ready_module : SlaveNode ℤ
ready_module = record (placeholder (record empty_info { slave_id = 2 })) {
  config = some (make_digital_io_config (codes "EL2008"));
  profile = some Profile.digital_io;
  output_buffer = 255 ∷ [];
  input_buffer = 0 ∷ [];
  configured = true;
}

abbrev nodes : Nodes ℤ
nodes = ready_drive ∷ ready_module ∷ []

abbrev swapped : Nodes ℤ
swapped = ready_module ∷ ready_drive ∷ []

abbrev running : Controller ℕ ℤ
running = record {
  state = ControllerState.operational;
  master = master_on lit_port;
  nodes = nodes;
  config = default_config;
  slave_infos = infos_of nodes;
}

ready_drive-IsSound : IsSound ready_drive
unfolding compute_output_size compute_input_size extent make_servo_config
ready_drive-IsSound = record {
  has_config = refl;
  has_profile = refl;
  sized = (refl, refl);
  typed = (refl, refl);
}

ready_module-IsSound : IsSound ready_module
unfolding compute_output_size compute_input_size extent make_digital_io_config
ready_module-IsSound = record {
  has_config = refl;
  has_profile = refl;
  sized = (refl, refl);
  typed = (refl, tt);
}

running-IsWellFormed : IsWellFormed running
running-IsWellFormed = record {
  idle_closed = λ e. absurd cc;
  open_adapter = λ e. refl;
  bare = λ e. absurd cc;
  matched = λ e. refl;
  prepared = λ e. (refl, (refl, tt));
  sound = (ready_drive-IsSound, (ready_module-IsSound, tt));
}

nodes-AllApart : AllApart (map (share lit_port.slavelist) nodes)
unfolding encoded encode_pdo_output write_raw find_entry copy_to le_bytes to_word make_servo_config
    make_digital_io_config
nodes-AllApart = ((inl (omega arith), tt), (tt, tt))

update_all_outputs-image_example :
    let shares = map (share lit_port.slavelist) nodes in
    let (ns', m') = update_all_outputs nodes (master_on lit_port) in
    (m' ≡ with_iomap (master_on lit_port) (image shares lit_port.iomap))
    × All (Holds m'.port.iomap) shares
    × (ns' ≡ map sent nodes)
update_all_outputs-image_example =
    update_all_outputs-image nodes (master_on lit_port) nodes-AllApart

update_all_outputs-perm_example :
    (update_all_outputs nodes (master_on lit_port)).1
    ≡ (update_all_outputs swapped (master_on lit_port)).1
update_all_outputs-perm_example =
    update_all_outputs-perm nodes swapped (master_on lit_port) (Perm.swap _ _ _) nodes-AllApart

-- The mapping that the factory makes.
position : Field servo_mapping (codes "target_position") (codes "position_actual_value") 4
unfolding find_entry
position = record {
  out_entry = entry (codes "target_position") 0 4;
  in_entry = entry (codes "position_actual_value") 0 4;
  has_output = refl;
  has_input = refl;
  out_size = refl;
  in_size = refl;
  same_place = refl;
}

velocity : Field servo_mapping (codes "target_velocity") (codes "velocity_actual_value") 4
unfolding find_entry
velocity = record {
  out_entry = entry (codes "target_velocity") 4 4;
  in_entry = entry (codes "velocity_actual_value") 4 4;
  has_output = refl;
  has_input = refl;
  out_size = refl;
  in_size = refl;
  same_place = refl;
}

torque : Field servo_mapping (codes "target_torque") (codes "torque_actual_value") 2
unfolding find_entry
torque = record {
  out_entry = entry (codes "target_torque") 8 2;
  in_entry = entry (codes "torque_actual_value") 8 2;
  has_output = refl;
  has_input = refl;
  out_size = refl;
  in_size = refl;
  same_place = refl;
}

servo_mapping-Layout : Layout servo_mapping 10
unfolding position velocity torque
servo_mapping-Layout = record {
  position = position;
  velocity = velocity;
  torque = torque;
  position_inside = omega arith;
  velocity_inside = omega arith;
  torque_inside = omega arith;
  position_velocity = inl (omega arith);
  position_torque = inl (omega arith);
  velocity_torque = inl (omega arith);
}

moving-IsDrive : IsDrive moving ready_drive
unfolding make_servo_config
moving-IsDrive = record {
  config = make_servo_config new_factory (codes "MT-Device");
  has_config = refl;
  has_axis = refl;
  layout = servo_mapping-Layout;
  same_length = refl;
}

pub moving-CommandsFit : CommandsFit moving
moving-CommandsFit = record { position = omega arith; velocity = omega arith; torque = omega arith }

drive-Mirrors : Mirrors (loaded running).port 1 0 10
unfolding update_all_outputs update_pdo_output write_output write_range read_range encoded
    encode_pdo_output write_raw find_entry copy_to le_bytes to_word make_servo_config
    make_digital_io_config
drive-Mirrors = record { inputs = 20; has_outputs = refl; has_inputs = refl; mirrored = refl }

-- The library in operation.
abbrev served : Impl ℕ ℤ
served = around running

service-answered_example :
    (n' : SlaveNode ℤ) × (get_elem? (service 1000 2000 served).controller.nodes 0 ≡ some n')
    × (n'.profile ≡ some (Profile.servo (answered moving)))
service-answered_example =
    service-answered 1000 2000 0 0 served ready_drive moving refl refl running-IsWellFormed
      nodes-AllApart refl moving-IsDrive moving-CommandsFit drive-Mirrors
