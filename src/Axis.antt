-- ===== src/Axis.antt =====
-- src/servo_axis/servo_axis.{h,cpp}: commands and feedback of a motor. The mutex is left out: each
-- method is one atomic step. `F` is the type `double`.
use mo_driver_pc_ether_cat.Common.{Bool, false, []}
use mo_driver_pc_ether_cat.Common.Int.{ℤ, pos}
use mo_driver_pc_ether_cat.Common.Text.{Text}

-- What the code uses of `double`: the constants 0.0 and 0.001, the test against 0.0, the two
-- operations, and the casts from and to an integer.
pub record Floats (F : Type 0) : Type 0 where
  pub zero : F
  pub milli : F
  pub is_zero : F → Bool
  pub mul : F → F → F
  pub div : F → F → F
  pub of_int : ℤ → F
  pub to_int : F → ℤ

-- `ServoAxis::Config`
pub record AxisConfig (F : Type 0) : Type 0 where
  pub name : Text
  pub position_scale : F
  pub velocity_scale : F
  pub torque_scale : F
  pub direction : ℤ

pub record ServoAxis (F : Type 0) : Type 0 where
  pub config : AxisConfig F
  pub target_position : F
  pub target_velocity : F
  pub target_torque : F
  pub enable_command : Bool
  pub actual_position : F
  pub actual_velocity : F
  pub actual_torque : F
  pub enabled : Bool
  pub fault : Bool

module _ {F : Type 0} where
  abbrev pub set_target_position : F → ServoAxis F → ServoAxis F
  set_target_position rad a = record a { target_position = rad }

  abbrev pub set_target_velocity : F → ServoAxis F → ServoAxis F
  set_target_velocity rad_per_s a = record a { target_velocity = rad_per_s }

  abbrev pub set_target_torque : F → ServoAxis F → ServoAxis F
  set_target_torque nm a = record a { target_torque = nm }

  abbrev pub set_enable : Bool → ServoAxis F → ServoAxis F
  set_enable enable a = record a { enable_command = enable }

  abbrev pub get_config : ServoAxis F → AxisConfig F
  get_config a = a.config

  abbrev pub get_actual_position : ServoAxis F → F
  get_actual_position a = a.actual_position

  abbrev pub get_actual_velocity : ServoAxis F → F
  get_actual_velocity a = a.actual_velocity

  abbrev pub get_actual_torque : ServoAxis F → F
  get_actual_torque a = a.actual_torque

  abbrev pub is_enabled : ServoAxis F → Bool
  is_enabled a = a.enabled

  abbrev pub has_fault : ServoAxis F → Bool
  has_fault a = a.fault

  abbrev pub get_target_position : ServoAxis F → F
  get_target_position a = a.target_position

  abbrev pub get_target_velocity : ServoAxis F → F
  get_target_velocity a = a.target_velocity

  abbrev pub get_target_torque : ServoAxis F → F
  get_target_torque a = a.target_torque

  abbrev pub get_enable_command : ServoAxis F → Bool
  get_enable_command a = a.enable_command

  unfoldable pub update_command_readback :
      (position velocity torque : F) (enabled fault : Bool) → ServoAxis F → ServoAxis F
  update_command_readback position velocity torque enabled fault a = record a {
    actual_position = position;
    actual_velocity = velocity;
    actual_torque = torque;
    enabled = enabled;
    fault = fault;
  }

module _ {F : Type 0} ⦃fl : Floats F⦄ where
  abbrev pub default_axis_config : AxisConfig F
  default_axis_config = record {
    name = [];
    position_scale = fl.milli;
    velocity_scale = fl.milli;
    torque_scale = fl.milli;
    direction = pos 1;
  }

  abbrev pub new_axis : AxisConfig F → ServoAxis F
  new_axis config = record {
    config = config;
    target_position = fl.zero;
    target_velocity = fl.zero;
    target_torque = fl.zero;
    enable_command = false;
    actual_position = fl.zero;
    actual_velocity = fl.zero;
    actual_torque = fl.zero;
    enabled = false;
    fault = false;
  }
