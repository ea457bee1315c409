-- ===== src/Cli/Orders.antt =====
-- Which request of the life cycle a command of examples/cli/ecat_application.cpp makes.
use mo_driver_pc_ether_cat.Common.{
  ◌≡◌, sym, subst, Bool, true, false, ◌||◌, Option, none, some, arith, if◌then◌else◌,
}
use mo_driver_pc_ether_cat.Common.Text.{Text, codes, text_eq, text_eq_iff, starts_with}
use mo_driver_pc_ether_cat.Types.{MasterState}
use mo_driver_pc_ether_cat.Controller.States.{ControllerState, is_allowed, allowed_actions}
use mo_driver_pc_ether_cat.Controller.Requests
use mo_driver_pc_ether_cat.Controller.Requests.{Request, action_of}
use mo_driver_pc_ether_cat.Api.{to_master_state}
use mo_driver_pc_ether_cat.Cli.{ReadResult}

-- A text that equals one word is not another.
pub apart : (u v c : Text) → text_eq u v ≡ false → text_eq c u ≡ true → text_eq c v ≡ false
apart u v c h e = subst (λ t. text_eq t v ≡ false) (sym ((text_eq_iff c u).0 e)) h

starts_apart :
    (p u c : Text) → starts_with p u ≡ false → text_eq c u ≡ true → starts_with p c ≡ false
starts_apart p u c h e = subst (λ t. starts_with p t ≡ false) (sym ((text_eq_iff c u).0 e)) h

-- The table of the help text, for the life cycle: the command that takes the master on from a state,
-- and what it asks for.
unfoldable pub forward : MasterState → Text → Option Request
forward MasterState.adapter_ready c = if text_eq c (codes "scan") then some Requests.scan else none
forward MasterState.scanned c =
    if text_eq c (codes "config") then some Requests.enter_maintenance else none
forward MasterState.maintenance c =
    if text_eq c (codes "prepare") then some Requests.prepare_run else none
forward MasterState.ready_to_run c =
    if text_eq c (codes "start")
    then some Requests.start_operation
    else if text_eq c (codes "back")
    then some Requests.back_to_maintenance
    else none
forward _ c = none

-- The same with stop. No command is looked at while the class is uninitialised.
unfoldable pub request_of : MasterState → Text → Option Request
unfolding forward
request_of MasterState.uninitialized c = none
request_of s c = if text_eq c (codes "stop") then some Requests.stop else forward s c

pub quiet_word :
    (u c : Text)
    → text_eq u (codes "stop") ≡ false
    → text_eq u (codes "prepare") ≡ false
    → text_eq c u ≡ true
    → request_of MasterState.maintenance c ≡ none
unfolding request_of forward
quiet_word u c h k e = ground (arith, apart u (codes "stop") c h e, apart u (codes "prepare") c k e)

pub quiet_prefix :
    (p c : Text)
    → starts_with p (codes "stop") ≡ false
    → starts_with p (codes "prepare") ≡ false
    → starts_with p c ≡ true
    → request_of MasterState.maintenance c ≡ none
unfolding request_of forward
quiet_prefix p c h k e =
    ground (arith, starts_apart p (codes "stop") c h, starts_apart p (codes "prepare") c k)

-- No command asks for what the table kAllowedActions refuses in the state.
pub request_of-allowed :
    (s : ControllerState) (c : Text) (r : Request)
    → request_of (to_master_state s) c ≡ some r
    → is_allowed s (action_of r) ≡ true
unfolding request_of forward to_master_state is_allowed allowed_actions action_of
request_of-allowed s c r h = ground arith

-- What a result of the reader asks for.
unfoldable pub order : ReadResult → Text → MasterState → Option Request
unfolding request_of
order ReadResult.ok c s = request_of s c
order _ c s = none

-- The inputs that end the program, and those that set the level of its log.
unfoldable pub asks_exit : ReadResult → Text → Bool
asks_exit ReadResult.eof c = true
asks_exit ReadResult.ok c = text_eq c (codes "exit") || text_eq c (codes "quit")
asks_exit _ c = false

unfoldable pub sets_level : ReadResult → Text → Bool
sets_level ReadResult.ok c = starts_with (codes "loglevel") c
sets_level _ c = false
