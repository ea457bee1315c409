-- ===== src/Runtime/Display.antt =====
-- ToDisplayString of src/core/runtime_state.cpp. A text is here a list of code points.
use mo_driver_pc_ether_cat.Common.{
  ◌≡◌, ap, true, Option, none, some, List, [], ◌∷◌, ◌++◌, arith, if◌then◌else◌, not,
}
use mo_driver_pc_ether_cat.Common.Text.{Text, codes, is_empty, text_eq, starts_with, contains}
use mo_driver_pc_ether_cat.Types.{
  MasterMode, TransitionStage, PrepareStage, MasterRuntimeState, runtime,
}
use mo_driver_pc_ether_cat.Runtime.{is_valid_runtime_state}

unfoldable transition_prefix : TransitionStage → Text
transition_prefix TransitionStage.entering = codes "进入"
transition_prefix TransitionStage.exiting = codes "退出"
transition_prefix TransitionStage.stable = []

unfoldable stage_text : PrepareStage → Text
stage_text PrepareStage.adapter_ready = codes "网卡就绪"
stage_text PrepareStage.topology_discovered = codes "拓扑已发现"
stage_text PrepareStage.pre_op_maintenance = codes "PREOP维护"
stage_text PrepareStage.safe_op_ready = codes "SAFEOP就绪"
stage_text PrepareStage.none = []

-- The `switch` over the mode.
unfoldable mode_text : MasterMode → PrepareStage → Text
unfolding stage_text
mode_text MasterMode.init stage = codes "初始化态"
mode_text MasterMode.prepare stage =
    codes "准备态" ++ (if is_empty (stage_text stage) then [] else codes " / " ++ stage_text stage)
mode_text MasterMode.run stage = codes "运行态"
mode_text MasterMode.fault stage = codes "故障态"
mode_text MasterMode.emergency_stop stage = codes "紧急停止态"

unfoldable pub to_display_string : MasterRuntimeState → Text
unfolding transition_prefix mode_text
to_display_string s =
    transition_prefix s.transition
    ++ mode_text s.mode s.prepare_stage
    ++ (if is_valid_runtime_state s then [] else codes "（非法组合）")

-- The states that a text can stand for, tried in order.
abbrev first_shown : Text → List MasterRuntimeState → Option MasterRuntimeState
first_shown t [] = none
first_shown t (s ∷ states) =
    if text_eq t (to_display_string s) then some s else first_shown t states

abbrev stages_of : TransitionStage → List MasterRuntimeState
stages_of t =
    runtime MasterMode.prepare t PrepareStage.none
    ∷ runtime MasterMode.prepare t PrepareStage.adapter_ready
    ∷ runtime MasterMode.prepare t PrepareStage.topology_discovered
    ∷ runtime MasterMode.prepare t PrepareStage.pre_op_maintenance
    ∷ runtime MasterMode.prepare t PrepareStage.safe_op_ready
    ∷ runtime MasterMode.init t PrepareStage.none
    ∷ runtime MasterMode.run t PrepareStage.none
    ∷ runtime MasterMode.fault t PrepareStage.none
    ∷ runtime MasterMode.emergency_stop t PrepareStage.none
    ∷ []

abbrev legal_states : List MasterRuntimeState
legal_states =
    stages_of TransitionStage.entering
    ++ stages_of TransitionStage.stable
    ++ stages_of TransitionStage.exiting

-- A legal state is found again by its text.
first_shown-to_display_string :
    (s : MasterRuntimeState)
    → is_valid_runtime_state s ≡ true
    → first_shown (to_display_string s) legal_states ≡ some s
unfolding to_display_string is_valid_runtime_state transition_prefix mode_text stage_text
first_shown-to_display_string s h = ground arith

-- Two legal runtime states are shown by the same text only if they are the same.
pub to_display_string_injective :
    (s t : MasterRuntimeState)
    → is_valid_runtime_state s ≡ true
    → is_valid_runtime_state t ≡ true
    → to_display_string s ≡ to_display_string t
    → s ≡ t
to_display_string_injective s t h k e = cc (
  first_shown-to_display_string s h,
  first_shown-to_display_string t k,
  ap (λ u. first_shown u legal_states) e,
)

-- The text contains the mark of an illegal combination exactly where the state is not legal.
pub to_display_string-marked :
    (s : MasterRuntimeState)
    → contains (codes "（非法组合）") (to_display_string s) ≡ not (is_valid_runtime_state s)
unfolding to_display_string is_valid_runtime_state transition_prefix mode_text stage_text contains
    starts_with
to_display_string-marked s = ground arith
