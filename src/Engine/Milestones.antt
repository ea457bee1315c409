-- ===== src/Engine/Milestones.antt =====
-- The order in which src/ec_controller/ec_controller.cpp lets the life cycle climb.
use mo_driver_pc_ether_cat.Common.{
  ℕ, ◌≡◌, refl, sym, subst, Bool, ◌⊎◌, inl, inr, zero, suc, List, [], ◌∷◌, drop, arith,
}
use mo_driver_pc_ether_cat.Soem.{Soem}
use mo_driver_pc_ether_cat.Axis.{Floats}
use mo_driver_pc_ether_cat.Controller.Actions.{Controller}
use mo_driver_pc_ether_cat.Controller.States.{ControllerState, MasterAction}
use mo_driver_pc_ether_cat.Controller.Machine.{next}
use mo_driver_pc_ether_cat.Controller.Requests.{action_of, control-next}
use mo_driver_pc_ether_cat.Engine.Watch.{run_once-state, check_slave_states-state}
use mo_driver_pc_ether_cat.Engine.History.{
  Occurrence, request, cycle, watch, traffic, actions_of, after,
}

-- `xs` is a part of `ys`, in the same order.
unfoldable pub Within : {A : Type 0} → List A → List A → Type 0
Within [] ys = Unit
Within (x ∷ xs) [] = ⊥
Within (x ∷ xs) (y ∷ ys) = ((x ≡ y) × Within xs ys) ⊎ Within (x ∷ xs) ys

abbrev to_maintenance : List MasterAction
to_maintenance =
    MasterAction.enter_maintenance ∷ MasterAction.scan_slaves ∷ MasterAction.initialize_adapter ∷ []

-- The actions that a state takes, the last one first.
pub path_to : ControllerState → List MasterAction
path_to ControllerState.adapter_ready = MasterAction.initialize_adapter ∷ []
path_to ControllerState.scanned = MasterAction.scan_slaves ∷ MasterAction.initialize_adapter ∷ []
path_to ControllerState.maintenance =
    MasterAction.enter_maintenance ∷ MasterAction.scan_slaves ∷ MasterAction.initialize_adapter ∷ []
path_to ControllerState.ready_to_run = MasterAction.prepare_run ∷ to_maintenance
path_to ControllerState.operational =
    MasterAction.start_operation ∷ MasterAction.prepare_run ∷ to_maintenance
path_to _ = []

pub Within-later :
    {A : Type 0} (xs : List A) (y : A) (ys : List A) → Within xs ys → Within xs (y ∷ ys)
unfolding Within
Within-later [] y ys w = tt
Within-later (x ∷ xs) y ys w = inr w

Within-rest : {A : Type 0} (x : A) (xs ys : List A) → Within (x ∷ xs) ys → Within xs ys
unfolding Within
Within-rest x xs [] w = absurd w
Within-rest x xs (y ∷ ys) (inl w) = Within-later xs y ys w.1
Within-rest x xs (y ∷ ys) (inr w) = Within-later xs y ys (Within-rest x xs ys w)

pub Within-drop : {A : Type 0} (n : ℕ) (xs ys : List A) → Within xs ys → Within (drop n xs) ys
Within-drop zero xs ys w = w
Within-drop (suc n) [] ys w = w
Within-drop (suc n) (x ∷ xs) ys w = Within-drop n xs ys (Within-rest x xs ys w)

-- A step of the machine makes the path one longer by its own action, or leaves a part of it.
path_to-next :
    (s : ControllerState) (a : MasterAction) (ok : Bool)
    → (path_to (next s a ok) ≡ a ∷ path_to s)
      ⊎ ((path_to (next s a ok) ≡ drop 0 (path_to s))
          ⊎ ((path_to (next s a ok) ≡ drop 1 (path_to s))
              ⊎ ((path_to (next s a ok) ≡ drop 2 (path_to s))
                  ⊎ (path_to (next s a ok) ≡ drop 5 (path_to s)))))
unfolding path_to next
path_to-next s a ok = ground arith

Within-path :
    (s : ControllerState) (a : MasterAction) (ok : Bool) (ys : List MasterAction)
    → Within (path_to s) ys
    → Within (path_to (next s a ok)) (a ∷ ys)
unfolding Within
Within-path s a ok ys w = elim (path_to-next s a ok) [
  | inl e ↦ subst (λ xs. Within xs (a ∷ ys)) (sym e) (inl (refl, w))
  | inr (inl e) ↦ dropped 0 e
  | inr (inr (inl e)) ↦ dropped 1 e
  | inr (inr (inr (inl e))) ↦ dropped 2 e
  | inr (inr (inr (inr e))) ↦ dropped 5 e
]
  where
    dropped :
        (n : ℕ)
        → path_to (next s a ok) ≡ drop n (path_to s)
        → Within (path_to (next s a ok)) (a ∷ ys)
    dropped n e =
        subst (λ xs. Within xs (a ∷ ys)) (sym e)
          (Within-later (drop n (path_to s)) a ys (Within-drop n (path_to s) ys w))

module _ {B F : Type 0} ⦃soem : Soem B⦄ ⦃fl : Floats F⦄ where
  -- From `uninitialized` a controller comes to a state by the actions of that state's path alone,
  -- requested in that order: it is operational only if InitializeAdapter, Scan, EnterMaintenance,
  -- PrepareRun and StartOperation were called one after the other, with whatever in between.
  pub after-Within :
      (os : List (Occurrence B)) (c : Controller B F)
      → c.state ≡ ControllerState.uninitialized
      → Within (path_to (after os c).state) (actions_of os)
  unfolding after actions_of path_to Within
  after-Within [] c e = subst (λ s. Within (path_to s) []) (sym e) tt
  after-Within (request r ∷ os) c e =
      let d = after os c in
      let (ok, n) = control-next r d in
      subst (λ s. Within (path_to s) (action_of r ∷ actions_of os)) (sym n)
        (Within-path d.state (action_of r) ok (actions_of os) (after-Within os c e))
  after-Within (cycle now ∷ os) c e =
      let d = after os c in
      subst (λ s. Within (path_to s) (actions_of os)) (sym (run_once-state now d))
        (after-Within os c e)
  after-Within (watch now last ∷ os) c e =
      let d = after os c in
      elim (check_slave_states-state now last d) [
        | inl k ↦ subst (λ s. Within (path_to s) (actions_of os)) (sym k) (after-Within os c e)
        | inr k ↦ subst (λ s. Within (path_to s) (actions_of os)) (sym k.0) tt
      ]
  after-Within (traffic p ∷ os) c e = after-Within os c e
