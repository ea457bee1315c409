-- ===== src/Engine/Payload.antt =====
-- The calls that carry data, process data and SDO, in the histories of src/cyclic and
-- src/ec_controller.
use mo_driver_pc_ether_cat.Common.{
  ℕ, ◌≡◌, refl, ap, ◌∙◌, Bool, true, false, List, [], ◌∷◌, ◌++◌, arith, if◌then◌else◌,
}
use mo_driver_pc_ether_cat.Soem.{Port, Soem, state_pre_op, state_operational}
use mo_driver_pc_ether_cat.Soem.Calls.{Call, Recorded, recorded, calls_of}
use mo_driver_pc_ether_cat.Master
use mo_driver_pc_ether_cat.Master.{Master}
use mo_driver_pc_ether_cat.Master.Frame.{Unseen, check_all-unseen}
use mo_driver_pc_ether_cat.Axis.{Floats}
use mo_driver_pc_ether_cat.Node.Manager.{Nodes}
use mo_driver_pc_ether_cat.Node.Exchange.{update_all_outputs-lay}
use mo_driver_pc_ether_cat.Controller.{request_fault, dispatch}
use mo_driver_pc_ether_cat.Controller.Actions.{Controller, with_master, is_operational}
use mo_driver_pc_ether_cat.Controller.Frame.{enter_fault-unseen, control-unseen}
use mo_driver_pc_ether_cat.Engine.{run_once, demand, check_slave_states}
use mo_driver_pc_ether_cat.Engine.History.{Occurrence, after}

-- Whether a call carries process data or an SDO.
abbrev pub carries : Call → Bool
carries Call.sends = true
carries Call.receives = true
carries (Call.reads_sdo slave index subindex) = true
carries (Call.writes_sdo slave index subindex) = true
carries _ = false

abbrev pub payload : List Call → List Call
payload [] = []
payload (c ∷ cs) = if carries c then c ∷ payload cs else payload cs

abbrev pub payload_of : {B : Type 0} → Port (Recorded B) → List Call
payload_of p = payload (calls_of p)

payload-Unseen : {B : Type 0} (soem : Soem B) → Unseen (recorded soem) payload_of
payload-Unseen soem = record {
  set = λ i s p. refl;
  init = λ name p. refl;
  close = λ p. refl;
  scan = λ p. refl;
  mapped = λ p. refl;
  clocked = λ p. refl;
  readstate = λ p. refl;
  writestate = λ i p. refl;
  statecheck = λ i s p. refl;
}

module _ {B A F : Type 0} ⦃soem : Soem B⦄ ⦃fl : Floats F⦄ {f : Port B → A} (u : Unseen soem f) where
  demand-unseen :
      (state : ℕ) (c : Controller B F) → f (demand state c).master.port ≡ f c.master.port
  unfolding demand request_fault dispatch
  demand-unseen state c =
      let m = (Master.check_all_slaves_in_state state c.master).1 in
      ground (arith, check_all-unseen u state c.master, enter_fault-unseen u (with_master c m))

  check_slave_states-unseen :
      (now last : ℕ) (c : Controller B F)
      → f (check_slave_states now last c).1.master.port ≡ f c.master.port
  unfolding check_slave_states
  check_slave_states-unseen now last c =
      ground (arith, demand-unseen state_pre_op c, demand-unseen state_operational c)

module _ {B F : Type 0} (soem : Soem B) ⦃fl : Floats F⦄ where
  run_once-payload :
      (now : ℕ) (c : Controller (Recorded B) F)
      → payload_of (run_once ⦃soem = recorded soem⦄ now c).master.port ≡ (
          if is_operational c
          then Call.receives ∷ Call.sends ∷ payload_of c.master.port
          else payload_of c.master.port)
  unfolding run_once Master.run_one_cycle
  run_once-payload now c = ground (
    arith,
    ap (λ (r : Nodes F × Master (Recorded B)). r.1.port.bus)
        (update_all_outputs-lay c.nodes c.master),
  )

-- A history in which nothing but the controller and the engine uses the bus.
abbrev pub Undisturbed : {B : Type 0} → List (Occurrence B) → Type 0
Undisturbed [] = Unit
Undisturbed (Occurrence.traffic p ∷ os) = ⊥
Undisturbed (_ ∷ os) = Undisturbed os

module _ {B F : Type 0} (soem : Soem B) ⦃fl : Floats F⦄ where
  -- A send and a receive for each cycle that found the controller in `operational`, and nothing for
  -- anything else, the last call first.
  unfoldable pub cycles_of : List (Occurrence (Recorded B)) → Controller (Recorded B) F → List Call
  cycles_of [] c = []
  cycles_of (Occurrence.cycle now ∷ os) c =
      if is_operational (after ⦃soem = recorded soem⦄ os c)
      then Call.receives ∷ Call.sends ∷ cycles_of os c
      else cycles_of os c
  cycles_of (_ ∷ os) c = cycles_of os c

  -- However the methods of the controller, the cycles and the watch are interleaved, the calls that
  -- carry data are a send and then a receive for each cycle that finds the controller in
  -- `operational`, in the order of the cycles, and no other.
  pub after-payload :
      (os : List (Occurrence (Recorded B))) (c : Controller (Recorded B) F)
      → Undisturbed os
      → payload_of (after ⦃soem = recorded soem⦄ os c).master.port
        ≡ cycles_of os c ++ payload_of c.master.port
  unfolding after cycles_of
  after-payload [] c h = refl
  after-payload (Occurrence.cycle now ∷ os) c h =
      ground
        (arith, run_once-payload soem now (after ⦃soem = recorded soem⦄ os c), after-payload os c h)
  after-payload (Occurrence.request r ∷ os) c h =
      control-unseen ⦃soem = recorded soem⦄ (payload-Unseen soem) r
        (after ⦃soem = recorded soem⦄ os c)
      ∙ after-payload os c h
  after-payload (Occurrence.watch now last ∷ os) c h =
      check_slave_states-unseen ⦃soem = recorded soem⦄ (payload-Unseen soem) now last
        (after ⦃soem = recorded soem⦄ os c)
      ∙ after-payload os c h
  after-payload (Occurrence.traffic p ∷ os) c h = elim h [ ]
