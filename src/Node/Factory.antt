-- ===== src/Node/Factory.antt =====
-- src/slave_node/slave_config_factory.{h,cpp}: the configuration that goes with a slave type.
use mo_driver_pc_ether_cat.Common.{ℕ, [], ◌∷◌, ◌++◌, if◌then◌else◌}
use mo_driver_pc_ether_cat.Common.Text.{Text, codes, is_empty, to_text}
use mo_driver_pc_ether_cat.Types.{SlaveInfo}
use mo_driver_pc_ether_cat.Axis.{Floats, AxisConfig, default_axis_config}
use mo_driver_pc_ether_cat.Node.Config.{SlaveType, PdoEntry, PdoMapping, SlaveConfig}

pub record SlaveConfigFactory (F : Type 0) : Type 0 where
  pub servo_position_scale : F
  pub servo_velocity_scale : F
  pub servo_torque_scale : F

abbrev pub entry : Text → ℕ → ℕ → PdoEntry
entry name offset size = record { name = name; offset = offset; size = size }

abbrev pub servo_mapping : PdoMapping
servo_mapping = record {
  output_bytes = 10;
  outputs =
      entry (codes "target_position") 0 4
      ∷ entry (codes "target_velocity") 4 4
      ∷ entry (codes "target_torque") 8 2
      ∷ [];
  input_bytes = 10;
  inputs =
      entry (codes "position_actual_value") 0 4
      ∷ entry (codes "velocity_actual_value") 4 4
      ∷ entry (codes "torque_actual_value") 8 2
      ∷ [];
}

-- A mapping with a size and no entries.
abbrev pub plain_mapping : ℕ → PdoMapping
plain_mapping n = record { output_bytes = n; input_bytes = n; outputs = []; inputs = [] }

module _ {F : Type 0} where
  unfoldable pub set_servo_default_scale :
      (position_scale velocity_scale torque_scale : F) → SlaveConfigFactory F → SlaveConfigFactory F
  set_servo_default_scale position_scale velocity_scale torque_scale factory = record factory {
    servo_position_scale = position_scale;
    servo_velocity_scale = velocity_scale;
    servo_torque_scale = torque_scale;
  }

module _ {F : Type 0} ⦃fl : Floats F⦄ where
  abbrev pub new_factory : SlaveConfigFactory F
  new_factory = record {
    servo_position_scale = fl.milli;
    servo_velocity_scale = fl.milli;
    servo_torque_scale = fl.milli;
  }

  abbrev pub named : Text → AxisConfig F
  named name = record (default_axis_config {F = F}) { name = name }

  unfoldable pub make_servo_config : SlaveConfigFactory F → Text → SlaveConfig F
  make_servo_config factory name = record {
    type = SlaveType.servo;
    axis_config = record (named name) {
      position_scale = factory.servo_position_scale;
      velocity_scale = factory.servo_velocity_scale;
      torque_scale = factory.servo_torque_scale;
    };
    mapping = servo_mapping;
  }

  unfoldable pub make_digital_io_config : Text → SlaveConfig F
  make_digital_io_config name = record {
    type = SlaveType.digital_io;
    axis_config = named name;
    mapping = plain_mapping 1;
  }

  unfoldable pub make_analog_io_config : Text → SlaveConfig F
  make_analog_io_config name = record {
    type = SlaveType.analog_io;
    axis_config = named name;
    mapping = plain_mapping 4;
  }

  unfoldable pub make_unknown_config : Text → SlaveConfig F
  make_unknown_config name = record {
    type = SlaveType.unknown;
    axis_config = named name;
    mapping = plain_mapping 0;
  }

  make_config : SlaveConfigFactory F → Text → SlaveType → SlaveConfig F
  unfolding make_servo_config make_digital_io_config make_analog_io_config make_unknown_config
  make_config factory name SlaveType.servo = make_servo_config factory name
  make_config factory name SlaveType.digital_io = make_digital_io_config name
  make_config factory name SlaveType.analog_io = make_analog_io_config name
  make_config factory name SlaveType.unknown = make_unknown_config name

  unfoldable pub create_config : SlaveConfigFactory F → SlaveInfo → SlaveType → SlaveConfig F
  unfolding make_config
  create_config factory info type =
      make_config factory
        (if is_empty info.name then codes "slave_" ++ to_text info.slave_id else info.name) type
