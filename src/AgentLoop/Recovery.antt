-- ===== src/AgentLoop/Recovery.antt =====
-- agent_loop.py: the recovery policy, what it does after a failed step, and how a loop ends in
-- failure, at a budget or by a cancel request.
use across_orchestrator.Base.{
  ℕ, suc, ◌+◌, String, Bool, true, false, not, ◌&&◌, ◌||◌, Option, none, some, List, [], ◌∷◌, ◌++◌,
  leb, if◌then◌else◌, ◌==◌, nat_Eq, string_Eq, get_or,
}
use across_orchestrator.AgentLoop.{
  remediation_dispatch, action_type_Eq, FailureType, failure_type_Eq, Reason, StepStatus,
  LoopStatus, ApprovalStatus, Payload, LoopStep, RecoveryAction, stop, retry, remediation,
  require_human, recovery_action_Eq,
}
use across_orchestrator.AgentLoop.State.{
  Setting, RawRule, bare, table, RecoveryPolicy, LoopRun, LoopEvent, approval_required,
  recovery_decision, step_recovered, loop_budget_exceeded, loop_stopped, loop_failed, LoopState,
  emit, Input, count_checkpoints,
}
use across_orchestrator.AgentLoop.{
  FailureType, Reason, StepStatus, LoopStatus, ApprovalStatus, LoopStep, RecoveryAction, Payload,
}
use across_orchestrator.Findings.{QualityReport}

pub record Rule : Type 0 where
  pub action : RecoveryAction
  pub max_retries : ℕ

-- `action or "stop"`, if it is one of SUPPORTED_RECOVERY_ACTIONS. Texts are in lower case.
recovery_action_of : Option String → Option RecoveryAction
recovery_action_of none = some stop
recovery_action_of (some text) =
    if text == "" || text == "stop"
    then some stop
    else if text == "retry"
    then some retry
    else if text == "remediation"
    then some remediation
    else if text == "require_human"
    then some require_human
    else none

abbrev default_max_retries : RecoveryAction → ℕ
default_max_retries stop = 0
default_max_retries _ = 1

rule_of : Option String → Setting → Option Rule
unfolding recovery_action_of
rule_of text setting = elim (recovery_action_of text) [
  | none ↦ none
  | some action ↦ some (record {
    action = action;
    max_retries = get_or (get_or setting none) (default_max_retries action);
  })
]

abbrev own_or : Setting → Setting → Setting
own_or none other = other
own_or (some value) other = some value

read_rule : RecoveryPolicy → RawRule → Option Rule
unfolding rule_of
read_rule policy (bare text) = rule_of (some text) policy.max_retries
read_rule policy (table text setting) = rule_of text (own_or setting policy.max_retries)

raw_rule : List (FailureType × RawRule) → FailureType → Option RawRule
raw_rule [] f = none
raw_rule ((g, rule) ∷ rules) f = if g == f then some rule else raw_rule rules f

default_rule : RecoveryPolicy → Option Rule
unfolding rule_of
default_rule policy = elim policy.default_action [
  | none ↦ none
  | some text ↦ rule_of (some text) policy.max_retries
]

policy_rule : RecoveryPolicy → FailureType → Option Rule
unfolding read_rule default_rule raw_rule
policy_rule policy f = elim (raw_rule policy.by_failure f) [
  | some rule ↦ read_rule policy rule
  | none ↦ default_rule policy
]

unfoldable pub recovery_rule : Option RecoveryPolicy → FailureType → Option Rule
unfolding policy_rule
recovery_rule none f = none
recovery_rule (some policy) f = policy_rule policy f

unfoldable pub recovery_attempt_count : FailureType → RecoveryAction → List LoopEvent → ℕ
recovery_attempt_count f action [] = 0
recovery_attempt_count f action (step_recovered g done ∷ events) =
    let rest = recovery_attempt_count f action events in
    if g == f && done == action then suc rest else rest
recovery_attempt_count f action (_ ∷ events) = recovery_attempt_count f action events

-- The steps before the first one with an id, or `none` if there is no such step.
unfoldable pub steps_before : String → List LoopStep → Option (List LoopStep)
steps_before id [] = none
steps_before id (step ∷ steps) =
    let rest = steps_before id steps in
    if step.step_id == id
    then some []
    else elim rest [ none ↦ none | some before ↦ some (step ∷ before) ]

unfoldable pub last_turn : List LoopStep → ℕ
last_turn [] = 0
last_turn (step ∷ []) = step.turn
last_turn (step ∷ other ∷ steps) = last_turn (other ∷ steps)

unfoldable pub rolled_back : List LoopStep → LoopRun → LoopRun
rolled_back before loop = record loop {
  steps = before;
  turn_count = last_turn before;
  checkpoint_count = count_checkpoints before;
  final_output = none;
  error = none;
  status = LoopStatus.running;
}

unfoldable pub rollback_loop_to_step : String → LoopRun → LoopRun
unfolding rolled_back
rollback_loop_to_step id loop = elim (steps_before id loop.steps) [
  | none ↦ loop
  | some before ↦ rolled_back before loop
]

abbrev pub empty_report : QualityReport
empty_report = record {
  finding_state = none;
  findings = none;
  normalized_findings = none;
  passed = none;
  status = none;
}

-- A payload in which the loop finds at most a failure type.
abbrev pub plain_payload : Option FailureType → Payload
plain_payload f = record { report = empty_report; failure_type = f; output = none }

unfoldable pub recovery_approval_step : Input → ℕ → LoopStep → FailureType → LoopStep
recovery_approval_step i turn failed_step f = record {
  step_id = i.approval_step_id;
  turn = turn + 1;
  status = StepStatus.waiting_approval;
  action = record {
    action_id = i.approval_action_id;
    action_type = failed_step.action.action_type;
    requires_approval = true;
    approval_status = some ApprovalStatus.pending;
  };
  observed_cancelled = false;
  payload = plain_payload (some f);
  checkpoint = none;
}

unfoldable pub append_recovery_approval_step :
    Input → LoopStep → FailureType → LoopState → LoopState
unfolding recovery_approval_step
append_recovery_approval_step i failed_step f s =
    let step = recovery_approval_step i s.loop.turn_count failed_step f in
    emit (approval_required step) (record s {
      loop = record s.loop {
        steps = s.loop.steps ++ step ∷ [];
        turn_count = step.turn;
        status = LoopStatus.awaiting_approval;
        error = none;
        final_output = none;
        checkpoint_count = count_checkpoints (s.loop.steps ++ step ∷ []);
      };
    })

-- What an applied decision does. A decision to stop is never applied.
unfoldable pub recover : Input → LoopStep → FailureType → RecoveryAction → LoopState → LoopState
unfolding rollback_loop_to_step append_recovery_approval_step emit
recover i failed_step f stop s = s
recover i failed_step f retry s =
    emit (step_recovered f retry)
      (record s { loop = rollback_loop_to_step failed_step.step_id s.loop })
recover i failed_step f remediation s = emit (step_recovered f remediation) (record s {
  loop = record s.loop {
    status = LoopStatus.running;
    error = none;
    final_output = none;
    metadata = record s.loop.metadata { recovery_next_action = some remediation_dispatch };
  };
})
recover i failed_step f require_human s =
    emit (step_recovered f require_human) (append_recovery_approval_step i failed_step f s)

abbrev pub is_applied : Rule → ℕ → Bool
is_applied rule attempt = not (rule.action == stop) && leb attempt rule.max_retries

-- `return True` after what was done, or `return False`.
abbrev pub dealt_with : Bool → LoopState → LoopState → Bool × LoopState
dealt_with true after undone = (true, after)
dealt_with false after undone = (false, undone)

unfoldable pub apply_rule : Input → LoopStep → FailureType → Rule → ℕ → LoopState → Bool × LoopState
unfolding recover emit
apply_rule i failed_step f rule attempt s =
    let applied = is_applied rule attempt in
    let decided = emit (recovery_decision f rule.action attempt rule.max_retries applied) s in
    let after = recover i failed_step f rule.action decided in dealt_with applied after decided

unfoldable pub apply_found :
    Input → LoopStep → FailureType → Option Rule → LoopState → Bool × LoopState
unfolding apply_rule
apply_found i failed_step f none s = (false, s)
apply_found i failed_step f (some rule) s =
    apply_rule i failed_step f rule (recovery_attempt_count f rule.action s.events + 1) s

-- Whether the failure was dealt with, and the state then.
unfoldable pub apply_recovery_policy : Input → LoopStep → FailureType → LoopState → Bool × LoopState
unfolding recovery_rule apply_found
apply_recovery_policy i failed_step f s =
    apply_found i failed_step f (recovery_rule s.loop.metadata.recovery_policy f) s

unfoldable pub fail_loop : Reason → LoopState → LoopState
unfolding emit
fail_loop reason s =
    emit (loop_failed reason)
      (record s { loop = record s.loop { status = LoopStatus.failed; error = some reason } })

unfoldable pub stop_loop_for_budget : Reason → LoopState → LoopState
unfolding emit
stop_loop_for_budget reason s = emit (loop_stopped reason) (
    emit (loop_budget_exceeded reason)
      (record s { loop = record s.loop { status = LoopStatus.stopped; error = some reason } }))
