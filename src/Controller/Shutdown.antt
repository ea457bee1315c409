-- ===== src/Controller/Shutdown.antt =====
-- What Stop of src/ec_controller/ec_controller.cpp does to the bus: DoShutdown, call by call.
pub mod Retries
use mo_driver_pc_ether_cat.Common.{
  ◌+◌, ◌≤◌, ◌≡◌, refl, sym, ap, ◌∙◌, subst, Bool, true, false, List, ◌∷◌, arith, length,
  if◌then◌else◌,
}
use mo_driver_pc_ether_cat.Soem.{Soem, state_init, state_pre_op, state_safe_op}
use mo_driver_pc_ether_cat.Soem.Calls.{Call, Recorded, recorded, calls_of}
use mo_driver_pc_ether_cat.Master
use mo_driver_pc_ether_cat.Master.{Master}
use mo_driver_pc_ether_cat.Axis.{Floats}
use mo_driver_pc_ether_cat.Controller.States.{ControllerState, is_allowed, allowed_actions}
use mo_driver_pc_ether_cat.Controller.{stop, dispatch, do_action}
use mo_driver_pc_ether_cat.Controller.Actions.{Controller, do_shutdown, roll_back}
use Retries.{Rounds, Rounds-length, asked, request_pre_op-Rounds, request_safe_op-asked}

-- The end of a shutdown: the adapter is closed if it was open.
abbrev pub ended : (closed : Bool) → List Call → List Call
ended closed cs = if closed then cs else Call.closes ∷ cs

-- The record of the bus before and after a shutdown from a state, with the adapter closed or open.
abbrev pub Descends : ControllerState → (closed : Bool) → (before after : List Call) → Type 0
Descends ControllerState.operational closed cs ds =
    (mid : List Call) × Rounds state_pre_op 4 (asked state_safe_op cs) mid
    × (ds ≡ ended closed (asked state_init mid))
Descends ControllerState.ready_to_run closed cs ds =
    (mid : List Call) × Rounds state_pre_op 4 cs mid × (ds ≡ ended closed (asked state_init mid))
Descends ControllerState.maintenance closed cs ds =
    (mid : List Call) × Rounds state_pre_op 4 cs mid × (ds ≡ ended closed (asked state_init mid))
Descends ControllerState.adapter_ready closed cs ds = ds ≡ ended closed cs
Descends ControllerState.scanned closed cs ds = ds ≡ ended closed cs
Descends ControllerState.uninitialized closed cs ds = ds ≡ cs
Descends _ closed cs ds = ds ≡ ended closed (asked state_init cs)

module _ {B : Type 0} (soem : Soem B) where
  close-ended :
      (m : Master (Recorded B))
      → calls_of (Master.close ⦃soem = recorded soem⦄ m).port ≡ ended m.closed (calls_of m.port)
  unfolding Master.close
  close-ended m = ground arith

  request_pre_op-closed :
      (m : Master (Recorded B))
      → (Master.request_pre_op_state ⦃soem = recorded soem⦄ m).1.closed ≡ m.closed
  unfolding Master.request_pre_op_state Master.request_state_with_retry
  request_pre_op-closed m = refl

  -- INIT, and the end.
  init_and_close : Master (Recorded B) → Master (Recorded B)
  init_and_close m =
      Master.close ⦃soem = recorded soem⦄ (Master.request_init_state ⦃soem = recorded soem⦄ m).1

  init_and_close-ended :
      (m : Master (Recorded B))
      → calls_of (init_and_close m).port ≡ ended m.closed (asked state_init (calls_of m.port))
  unfolding init_and_close Master.request_init_state Master.request_state
  init_and_close-ended m = close-ended (Master.request_init_state ⦃soem = recorded soem⦄ m).1

  request_safe_op-closed :
      (m : Master (Recorded B))
      → (Master.request_safe_op_state ⦃soem = recorded soem⦄ m).1.closed ≡ m.closed
  unfolding Master.request_safe_op_state Master.request_state
  request_safe_op-closed m = refl

  pre_op_and_close :
      (m : Master (Recorded B))
      → let m' = (Master.request_pre_op_state ⦃soem = recorded soem⦄ m).1 in
        calls_of (init_and_close m').port ≡ ended m.closed (asked state_init (calls_of m'.port))
  pre_op_and_close m =
      let m' = (Master.request_pre_op_state ⦃soem = recorded soem⦄ m).1 in
      init_and_close-ended m'
      ∙ ap (λ b. ended b (asked state_init (calls_of m'.port))) (request_pre_op-closed m)

  -- The master after Stop, by the state.
  stopped : ControllerState → Master (Recorded B) → Master (Recorded B)
  stopped ControllerState.operational m =
      init_and_close
        (Master.request_pre_op_state ⦃soem = recorded soem⦄
          (Master.request_safe_op_state ⦃soem = recorded soem⦄ m).1).1
  stopped ControllerState.ready_to_run m =
      init_and_close (Master.request_pre_op_state ⦃soem = recorded soem⦄ m).1
  stopped ControllerState.maintenance m =
      init_and_close (Master.request_pre_op_state ⦃soem = recorded soem⦄ m).1
  stopped ControllerState.adapter_ready m = Master.close ⦃soem = recorded soem⦄ m
  stopped ControllerState.scanned m = Master.close ⦃soem = recorded soem⦄ m
  stopped ControllerState.uninitialized m = m
  stopped _ m = init_and_close m

  stopped-Descends :
      (s : ControllerState) (m : Master (Recorded B))
      → Descends s m.closed (calls_of m.port) (calls_of (stopped s m).port)
  unfolding stopped
  stopped-Descends ControllerState.operational m =
      let m1 = (Master.request_safe_op_state ⦃soem = recorded soem⦄ m).1 in
      let m2 = (Master.request_pre_op_state ⦃soem = recorded soem⦄ m1).1 in
      (
        calls_of m2.port,
        subst (λ cs. Rounds state_pre_op 4 cs (calls_of m2.port)) (request_safe_op-asked soem m)
            (request_pre_op-Rounds soem m1),
        pre_op_and_close m1
            ∙ ap (λ b. ended b (asked state_init (calls_of m2.port))) (request_safe_op-closed m),
      )
  stopped-Descends ControllerState.ready_to_run m = (
    calls_of (Master.request_pre_op_state ⦃soem = recorded soem⦄ m).1.port,
    request_pre_op-Rounds soem m,
    pre_op_and_close m,
  )
  stopped-Descends ControllerState.maintenance m = (
    calls_of (Master.request_pre_op_state ⦃soem = recorded soem⦄ m).1.port,
    request_pre_op-Rounds soem m,
    pre_op_and_close m,
  )
  stopped-Descends ControllerState.adapter_ready m = close-ended m
  stopped-Descends ControllerState.scanned m = close-ended m
  stopped-Descends ControllerState.uninitialized m = refl
  stopped-Descends ControllerState.fault m = init_and_close-ended m
  stopped-Descends ControllerState.emergency_stop m = init_and_close-ended m

ended-length : (closed : Bool) (cs : List Call) → length (ended closed cs) ≤ length cs + 1
ended-length true cs = omega arith
ended-length false cs = omega arith

Descends-length :
    (s : ControllerState) (closed : Bool) (cs ds : List Call)
    → Descends s closed cs ds
    → length ds ≤ length cs + 17
Descends-length ControllerState.operational closed cs ds (mid, r, e) =
    rw e (omega (arith, ended-length closed (asked state_init mid), Rounds-length r))
Descends-length ControllerState.ready_to_run closed cs ds (mid, r, e) =
    rw e (omega (arith, ended-length closed (asked state_init mid), Rounds-length r))
Descends-length ControllerState.maintenance closed cs ds (mid, r, e) =
    rw e (omega (arith, ended-length closed (asked state_init mid), Rounds-length r))
Descends-length ControllerState.adapter_ready closed cs ds e =
    rw e (omega (arith, ended-length closed cs))
Descends-length ControllerState.scanned closed cs ds e =
    rw e (omega (arith, ended-length closed cs))
Descends-length ControllerState.uninitialized closed cs ds e = rw e (omega arith)
Descends-length ControllerState.fault closed cs ds e =
    rw e (omega (arith, ended-length closed (asked state_init cs)))
Descends-length ControllerState.emergency_stop closed cs ds e =
    rw e (omega (arith, ended-length closed (asked state_init cs)))

module _ {B F : Type 0} (soem : Soem B) ⦃fl : Floats F⦄ where
  stop-stopped :
      (s : ControllerState) (c : Controller (Recorded B) F)
      → (stop ⦃soem = recorded soem⦄ (record c { state = s })).master ≡ stopped soem s c.master
  unfolding stop dispatch do_action is_allowed do_shutdown roll_back stopped init_and_close
      allowed_actions
  stop-stopped ControllerState.operational c = refl
  stop-stopped ControllerState.ready_to_run c = refl
  stop-stopped ControllerState.maintenance c = refl
  stop-stopped ControllerState.adapter_ready c = refl
  stop-stopped ControllerState.scanned c = refl
  stop-stopped ControllerState.uninitialized c = refl
  stop-stopped ControllerState.fault c = refl
  stop-stopped ControllerState.emergency_stop c = refl

  -- Stop brings the bus down in the announced order, whatever the slaves answer: from
  -- `operational` all slaves are asked for SAFE_OP, then for PRE_OP in at most four rounds, then for
  -- INIT, and the adapter is closed; from `ready_to_run` and `maintenance` without SAFE_OP; from
  -- `adapter_ready` and `scanned` it is only closed; from `uninitialized` there is no call. After a
  -- fault or an emergency stop INIT is asked for, also where the adapter is closed, and then
  -- closed if it was open. At most 17 calls are made.
  pub stop-Descends :
      (c : Controller (Recorded B) F)
      → let before = calls_of c.master.port in
        let after = calls_of (stop ⦃soem = recorded soem⦄ c).master.port in
        Descends c.state c.master.closed before after × (length after ≤ length before + 17)
  stop-Descends c =
      let before = calls_of c.master.port in
      let after = calls_of (stop ⦃soem = recorded soem⦄ c).master.port in
      let descent : Descends c.state c.master.closed before after =
        subst
          (λ (m : Master (Recorded B)). Descends c.state c.master.closed before (calls_of m.port))
          (sym (stop-stopped c.state c)) (stopped-Descends soem c.state c.master) in
      (descent, Descends-length c.state c.master.closed before after descent)
