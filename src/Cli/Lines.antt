-- ===== src/Cli/Lines.antt =====
-- The lines of examples/cli/ecat_application.cpp that lead to a state.
use mo_driver_pc_ether_cat.Common.{
  ℕ, ◌≡◌, refl, sym, subst, Bool, some, List, [], ◌∷◌, arith, drop, ◌⊎◌, inl, inr,
}
use mo_driver_pc_ether_cat.Common.Text.{Text, codes, text_eq_iff}
use mo_driver_pc_ether_cat.Controller.States.{ControllerState, MasterAction}
use mo_driver_pc_ether_cat.Controller.Machine.{next}
use mo_driver_pc_ether_cat.Controller.Requests.{Request, action_of}
use mo_driver_pc_ether_cat.Engine.Milestones.{Within, Within-later, Within-drop}
use mo_driver_pc_ether_cat.Api.{to_master_state}
use mo_driver_pc_ether_cat.Cli.{ReadResult}
use mo_driver_pc_ether_cat.Cli.Orders.{request_of, forward}
use mo_driver_pc_ether_cat.Cli.Histories.{Input}

-- The line that asks for an action; the other actions are not asked for by a line.
unfoldable pub word_of : MasterAction → Text
word_of MasterAction.scan_slaves = codes "scan"
word_of MasterAction.enter_maintenance = codes "config"
word_of MasterAction.prepare_run = codes "prepare"
word_of MasterAction.start_operation = codes "start"
word_of MasterAction.back_to_maintenance = codes "back"
word_of MasterAction.stop = codes "stop"
word_of _ = []

-- The lines that a state takes from adapter_ready on, the last one first.
unfoldable pub lines_to : ControllerState → List Text
lines_to ControllerState.scanned = codes "scan" ∷ []
lines_to ControllerState.maintenance = codes "config" ∷ codes "scan" ∷ []
lines_to ControllerState.ready_to_run = codes "prepare" ∷ codes "config" ∷ codes "scan" ∷ []
lines_to ControllerState.operational =
    codes "start" ∷ codes "prepare" ∷ codes "config" ∷ codes "scan" ∷ []
lines_to _ = []

pub request_of-word_of :
    (s : ControllerState) (c : Text) (r : Request)
    → request_of (to_master_state s) c ≡ some r
    → c ≡ word_of (action_of r)
unfolding request_of forward to_master_state word_of action_of
request_of-word_of s c r h = ground (
  arith,
  (text_eq_iff c (codes "scan")).0,
  (text_eq_iff c (codes "config")).0,
  (text_eq_iff c (codes "prepare")).0,
  (text_eq_iff c (codes "start")).0,
  (text_eq_iff c (codes "back")).0,
  (text_eq_iff c (codes "stop")).0,
)

lines_to-next :
    (s : ControllerState) (a : MasterAction) (ok : Bool)
    → (lines_to (next s a ok) ≡ word_of a ∷ lines_to s)
      ⊎ ((lines_to (next s a ok) ≡ drop 0 (lines_to s))
          ⊎ ((lines_to (next s a ok) ≡ drop 1 (lines_to s))
              ⊎ ((lines_to (next s a ok) ≡ drop 2 (lines_to s))
                  ⊎ (lines_to (next s a ok) ≡ drop 4 (lines_to s)))))
unfolding lines_to next word_of
lines_to-next s a ok = ground arith

pub Within-next :
    (s : ControllerState) (a : MasterAction) (ok : Bool) (ys : List Text)
    → Within (lines_to s) ys
    → Within (lines_to (next s a ok)) (word_of a ∷ ys)
unfolding Within
Within-next s a ok ys w = elim (lines_to-next s a ok) [
  | inl e ↦ subst (λ xs. Within xs (word_of a ∷ ys)) (sym e) (inl (refl, w))
  | inr (inl e) ↦ dropped 0 e
  | inr (inr (inl e)) ↦ dropped 1 e
  | inr (inr (inr (inl e))) ↦ dropped 2 e
  | inr (inr (inr (inr e))) ↦ dropped 4 e
]
  where
    dropped :
        (n : ℕ)
        → lines_to (next s a ok) ≡ drop n (lines_to s)
        → Within (lines_to (next s a ok)) (word_of a ∷ ys)
    dropped n e =
        subst (λ xs. Within xs (word_of a ∷ ys)) (sym e)
          (Within-later (drop n (lines_to s)) (word_of a) ys (Within-drop n (lines_to s) ys w))

-- A line that was read, in front of those before it.
abbrev pub put_line : ReadResult → Text → List Text → List Text
put_line ReadResult.ok c before = c ∷ before
put_line _ c before = before

-- The lines of the inputs, the last one first.
abbrev pub typed : List Input → List Text → List Text
typed [] before = before
typed (x ∷ inputs) before = typed inputs (put_line x.result x.line before)

pub Within-put_line :
    (result : ReadResult) (c : Text) (xs before : List Text)
    → Within xs before
    → Within xs (put_line result c before)
Within-put_line ReadResult.ok c xs before w = Within-later xs c before w
Within-put_line ReadResult.timeout c xs before w = w
Within-put_line ReadResult.eof c xs before w = w
Within-put_line ReadResult.error c xs before w = w

pub Within-typed :
    (inputs : List Input) (xs before : List Text)
    → Within xs before
    → Within xs (typed inputs before)
Within-typed [] xs before w = w
Within-typed (x ∷ inputs) xs before w =
    Within-typed inputs xs (put_line x.result x.line before)
      (Within-put_line x.result x.line xs before w)
