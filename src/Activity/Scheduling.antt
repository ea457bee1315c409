-- ===== src/Activity/Scheduling.antt =====
-- What the scheduler of src/activity/activity_scheduler.cpp lets an activity do to the master.
use mo_driver_pc_ether_cat.Common.{
  ℕ, ◌≡◌, refl, ◌⊎◌, inl, inr, Bool, true, false, some, arith, Option-cases, get_elem?,
}
use mo_driver_pc_ether_cat.Types.{MasterRuntimeState}
use mo_driver_pc_ether_cat.Runtime.{can_run_maintenance_activity}
use mo_driver_pc_ether_cat.Soem.{Soem}
use mo_driver_pc_ether_cat.Master.{Master}
use mo_driver_pc_ether_cat.Axis.{Floats}
use mo_driver_pc_ether_cat.Node.Slave
use mo_driver_pc_ether_cat.Controller.{request_fault, dispatch}
use mo_driver_pc_ether_cat.Controller.Actions.{Controller, enter_fault}
use mo_driver_pc_ether_cat.Controller.States.{ControllerState}
use mo_driver_pc_ether_cat.Activity.{
  EcatActivity, sdo_parameter, get_failure_policy, schedule, execute, apply_policy,
}

-- The activities whose failure is a fault of the master.
abbrev pub is_severe : EcatActivity → Bool
is_severe (sdo_parameter index subindex value verify) = true
is_severe _ = false

module _ {B F : Type 0} ⦃soem : Soem B⦄ ⦃fl : Floats F⦄ where
  -- An activity is refused, and nothing is touched, while another one runs and outside stable
  -- maintenance.
  pub schedule-refused :
      (fuel k : ℕ) (a : EcatActivity) (running : Bool) (s : MasterRuntimeState) (c : Controller B F)
      → (running ≡ true) ⊎ (can_run_maintenance_activity s ≡ false)
      → schedule fuel (some (a, k)) running s c ≡ some (false, running, c)
  unfolding schedule
  schedule-refused fuel k a true s c h = refl
  schedule-refused fuel k a false s c h = ground (arith, h)

  -- An activity that has run leaves the scheduler free, and the controller in its state, unless it
  -- is a parameter write that failed, which ends in `fault`.
  pub schedule-state :
      (fuel k : ℕ) (a : EcatActivity) (s : MasterRuntimeState) (c : Controller B F)
      (ok running : Bool) (d : Controller B F)
      → schedule fuel (some (a, k)) false s c ≡ some (ok, running, d)
      → (running ≡ false)
        × ((d.state ≡ c.state)
            ⊎ ((is_severe a ≡ true) × (ok ≡ false) × (d.state ≡ ControllerState.fault)))
  unfolding schedule get_failure_policy apply_policy request_fault dispatch enter_fault
  schedule-state fuel k a s c ok running d h = elim (Option-cases (get_elem? c.nodes k)) [
    | inl e ↦ ground (arith, h, e)
    | inr n ↦
        let e = n.1 in
        elim (Option-cases (execute fuel a n.0 c.master)) [
          | inl x ↦ ground (arith, h, e, x)
          | inr r ↦ let x = r.1 in ground (arith, h, e, x)
        ]
  ]
