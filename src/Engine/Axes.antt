-- ===== src/Engine/Axes.antt =====
-- The axes that the nodes hand out, GetServoAxis of src/slave_node/slave_node.cpp, in any history of a
-- controller.
use mathlib.Core.Option
use mo_driver_pc_ether_cat.Common.{
  ◌≡◌, Option, none, List, arith, if◌then◌else◌, All, All-map, is_some,
}
use mo_driver_pc_ether_cat.Node.Config.{SlaveConfig}
use mo_driver_pc_ether_cat.Soem.{Port, Soem}
use mo_driver_pc_ether_cat.Axis.{Floats, ServoAxis, AxisConfig}
use mo_driver_pc_ether_cat.Node.Slave.{SlaveNode, is_servo, get_type, get_servo_axis}
use mo_driver_pc_ether_cat.Node.Sound.{IsSound}
use mo_driver_pc_ether_cat.Controller.Invariant.{new_controller}
use mo_driver_pc_ether_cat.Engine.History.{Occurrence, after, after-IsWellFormed}

module _ {F : Type 0} where
  -- The configuration of a node's axis, by its own configuration.
  abbrev pub axis_config_of : SlaveNode F → Option (AxisConfig F)
  axis_config_of n =
      if is_servo (get_type n)
      then Option.map (λ (c : SlaveConfig F). c.axis_config) n.config
      else none

  abbrev pub HasItsAxis : SlaveNode F → Type 0
  HasItsAxis n =
      (is_some (get_servo_axis n) ≡ is_servo (get_type n))
      × (Option.map (λ (a : ServoAxis F). a.config) (get_servo_axis n) ≡ axis_config_of n)

  IsSound-HasItsAxis : (n : SlaveNode F) → IsSound n → HasItsAxis n
  unfolding get_servo_axis get_type is_servo
  IsSound-HasItsAxis n s = (ground arith, ground arith)

-- Whatever happened to a new controller, the cast in GetServoAxis fails for no node: a node has an
-- axis exactly when its type is that of a servo, and the axis has the configuration that the
-- node was given for it.
pub after-HasItsAxis :
    {B : Type 0} (F : Type 0) ⦃soem : Soem B⦄ ⦃fl : Floats F⦄ (port : Port B)
    (os : List (Occurrence B))
    → All HasItsAxis (after os (new_controller {F = F} port)).nodes
after-HasItsAxis F port os =
    All-map IsSound-HasItsAxis (after os (new_controller port)).nodes
      (after-IsWellFormed port os).sound
