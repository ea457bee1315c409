-- ===== src/Tests/Layout.antt =====
-- A servo with its fields in another order than the factory gives them.
use mo_driver_pc_ether_cat.Common.{refl, [], ◌∷◌}
use mo_driver_pc_ether_cat.Common.Text.{codes}
use mo_driver_pc_ether_cat.Node.Config.{PdoMapping}
use mo_driver_pc_ether_cat.Node.Factory.{entry}
use mo_driver_pc_ether_cat.Node.Profile.{Profile, find_entry}
use mo_driver_pc_ether_cat.Node.Layout.{Field, Layout}
use mo_driver_pc_ether_cat.Tests.Bus.{whole}

-- The torque comes first.
abbrev torque_first : PdoMapping
torque_first = record {
  output_bytes = 0;
  outputs =
      entry (codes "target_torque") 0 2
      ∷ entry (codes "target_velocity") 6 4
      ∷ entry (codes "target_position") 2 4
      ∷ [];
  input_bytes = 0;
  inputs =
      entry (codes "position_actual_value") 2 4
      ∷ entry (codes "torque_actual_value") 0 2
      ∷ entry (codes "velocity_actual_value") 6 4
      ∷ [];
}

position : Field torque_first (codes "target_position") (codes "position_actual_value") 4
unfolding find_entry
position = record {
  out_entry = entry (codes "target_position") 2 4;
  in_entry = entry (codes "position_actual_value") 2 4;
  has_output = refl;
  has_input = refl;
  out_size = refl;
  in_size = refl;
  same_place = refl;
}

velocity : Field torque_first (codes "target_velocity") (codes "velocity_actual_value") 4
unfolding find_entry
velocity = record {
  out_entry = entry (codes "target_velocity") 6 4;
  in_entry = entry (codes "velocity_actual_value") 6 4;
  has_output = refl;
  has_input = refl;
  out_size = refl;
  in_size = refl;
  same_place = refl;
}

torque : Field torque_first (codes "target_torque") (codes "torque_actual_value") 2
unfolding find_entry
torque = record {
  out_entry = entry (codes "target_torque") 0 2;
  in_entry = entry (codes "torque_actual_value") 0 2;
  has_output = refl;
  has_input = refl;
  out_size = refl;
  in_size = refl;
  same_place = refl;
}
