-- ===== src/AgentLoop/Host.antt =====
-- agent_loop.py: the calls by which a host starts a loop, answers an approval, retries a step and
-- cancels the loop. `none` stands for the error that a call raises.
use across_orchestrator.AgentLoop.Rounds.{run_loop}
use across_orchestrator.Base.{
  ℕ, zero, suc, ◌+◌, max, String, Bool, true, false, not, ◌&&◌, Option, none, some, List, [], ◌∷◌,
  ltb, if◌then◌else◌, ◌==◌, nat_Eq, string_Eq, is_some, get_or, length, all,
}
use across_orchestrator.AgentLoop.{
  ActionType, quality_gate, action_type_Eq, is_dispatch, FailureType, failure_type_Eq, Reason,
  action_failed, rejected_by_human, failure_type_for_reason, StepStatus, LoopStatus, ApprovalStatus,
  is_terminal_loop, is_waiting_step, Payload, LoopStep, recovery_action_Eq,
}
use across_orchestrator.AgentLoop.State.{
  Metadata, LoopRun, step_completed, action_failed_event, action_approved, action_rejected,
  retry_requested, cancel_requested, loop_stopped, loop_started, LoopState, emit, Outcome, returned,
  raised, action_cancelled, Input,
}
use across_orchestrator.AgentLoop.Selection.{supported_actions}
use across_orchestrator.AgentLoop.Recovery.{
  steps_before, rolled_back, plain_payload, apply_recovery_policy, fail_loop,
}
use across_orchestrator.AgentLoop.Steps.{
  end_step, counted, started_step, mark_step_running, save_step, mark_running_step_failed,
  mark_running_step_cancelled, take_output, cancel_loop_state,
}

-- `failure_type_for_loop`: the failure of the last step that has one, or else the reason's.
unfoldable pub failure_type_of_step : LoopStep → Option FailureType
failure_type_of_step step = elim step.payload.failure_type [
  | some f ↦ some f
  | none ↦ elim step.checkpoint [ none ↦ none | some c ↦ c.failure_type ]
]

unfoldable pub last_failure : List LoopStep → Option FailureType
unfolding failure_type_of_step
last_failure [] = none
last_failure (step ∷ steps) = elim (last_failure steps) [
  | some f ↦ some f
  | none ↦ failure_type_of_step step
]

unfoldable pub failure_type_for_loop : LoopRun → Reason → FailureType
unfolding last_failure
failure_type_for_loop loop reason =
    get_or (last_failure loop.steps) (failure_type_for_reason reason)

-- The first step with an action id.
unfoldable pub find_action : String → List LoopStep → Option LoopStep
find_action id [] = none
find_action id (step ∷ steps) =
    if step.action.action_id == id then some step else find_action id steps

unfoldable pub approved_step : LoopStep → LoopStep
approved_step step = record step {
  action = record step.action { approval_status = some ApprovalStatus.approved };
}

unfoldable pub complete_approved : Input → Payload → LoopStep → LoopState → LoopState
unfolding end_step save_step counted take_output emit
complete_approved i p step s =
    let done = end_step i.now StepStatus.completed p step in
    let t = save_step done s in
    emit (step_completed done) (
      emit (action_approved done) (record t {
        loop =
            take_output step.action.action_type p
              (counted (record t.loop { status = LoopStatus.running }));
      }))

unfoldable pub fail_unless : Reason → Bool × LoopState → LoopState
fail_unless reason (true, t) = t
fail_unless reason (false, t) = fail_loop reason t

unfoldable pub fail_approved : Input → LoopStep → LoopState → LoopState
unfolding save_step counted emit fail_unless failure_type_for_loop
fail_approved i failed_step s =
    let reason = action_failed failed_step.action.action_type in
    let t = save_step failed_step s in
    let f = get_or failed_step.payload.failure_type (failure_type_for_loop t.loop reason) in
    fail_unless reason (
      apply_recovery_policy i failed_step f
        (emit (action_failed_event failed_step) (record t { loop = counted t.loop })))

-- The adapter's call for an approved step, which is running.
unfoldable pub execute_approved : Input → LoopStep → Outcome → LoopState → LoopState
unfolding complete_approved fail_approved
execute_approved i step (returned p) s = complete_approved i p step s
execute_approved i step (raised e) s =
    fail_approved i (get_or (mark_running_step_failed i step.action.action_type e s) step) s
execute_approved i step (action_cancelled reason) s =
    cancel_loop_state i.now reason (mark_running_step_cancelled i step.action.action_type s)

unfoldable pub approve_step : Input → LoopStep → LoopState → LoopState
unfolding approved_step execute_approved
approve_step i step s =
    execute_approved i (started_step i s.loop (approved_step step)) i.outcome
      (mark_step_running i (approved_step step) s)

unfoldable pub answer :
    (LoopStep → LoopState → LoopState) → Option LoopStep → LoopState → Option LoopState
answer change none s = none
answer change (some step) s = some (if is_waiting_step step.status then change step s else s)

unfoldable pub approve_action : Input → String → LoopState → Option LoopState
unfolding answer approve_step find_action
approve_action i id s =
    if is_terminal_loop s.loop.status
    then some s
    else answer (approve_step i) (find_action id s.loop.steps) s

unfoldable pub rejected_step : LoopStep → LoopStep
rejected_step step = record step {
  status = StepStatus.rejected;
  action = record step.action { approval_status = some ApprovalStatus.rejected };
  observed_cancelled = false;
  payload = plain_payload (some (failure_type_for_reason rejected_by_human));
}

unfoldable pub reject_step : LoopStep → LoopState → LoopState
unfolding rejected_step save_step emit
reject_step step s =
    let t = save_step (rejected_step step) s in
    emit (loop_stopped rejected_by_human) (
      emit (action_rejected (rejected_step step)) (record t {
        loop = record t.loop { status = LoopStatus.stopped; error = some rejected_by_human };
      }))

unfoldable pub reject_action : String → LoopState → Option LoopState
unfolding answer reject_step find_action
reject_action id s =
    if is_terminal_loop s.loop.status
    then some s
    else answer reject_step (find_action id s.loop.steps) s

unfoldable pub retry_from : String → Option (List LoopStep) → LoopState → Option LoopState
unfolding rolled_back emit
retry_from id none s = none
retry_from id (some before) s =
    some (emit (retry_requested id) (record s { loop = rolled_back before s.loop }))

unfoldable pub retry_step : String → LoopState → Option LoopState
unfolding retry_from
retry_step id s = retry_from id (steps_before id s.loop.steps) s

-- `locked` says whether a run holds the loop's lock; the run then finds the request.
unfoldable pub cancel_loop : ℕ → Bool → String → LoopState → LoopState
unfolding emit
cancel_loop now locked reason s =
    if is_terminal_loop s.loop.status
    then record s { cancel_request = none }
    else let asked = emit (cancel_requested reason) (record s { cancel_request = some reason }) in
      if locked then asked else cancel_loop_state now reason asked

-- A dispatch that no planned quality gate follows is given one.
unfoldable pub implicit_quality_turn_count : List ActionType → ℕ
implicit_quality_turn_count [] = 0
implicit_quality_turn_count (type ∷ []) = if is_dispatch type then 1 else 0
implicit_quality_turn_count (type ∷ next ∷ plan) =
    let rest = implicit_quality_turn_count (next ∷ plan) in
    if is_dispatch type && not (next == quality_gate) then suc rest else rest

unfoldable pub effective_max_turns : List ActionType → ℕ → ℕ
unfolding implicit_quality_turn_count
effective_max_turns [] requested = max 1 requested
effective_max_turns (type ∷ plan) requested =
    max (max 1 requested) (length (type ∷ plan) + implicit_quality_turn_count (type ∷ plan))

-- What a host asks for. The turns of the budget are positive where they are there.
pub record Request : Type 0 where
  pub loop_id : String
  pub goal : String
  pub budget_turns : Option ℕ
  pub max_turns : ℕ
  pub max_concurrent_loops : Option ℕ
  pub read_memory : Bool
  pub write_candidates : Bool
  pub require_approval_for : List ActionType
  pub metadata : Metadata

abbrev requested_turns : ℕ → ℕ
requested_turns zero = 8
requested_turns (suc n) = suc n

unfoldable pub new_loop : ℕ → Request → LoopRun
unfolding effective_max_turns supported_actions
new_loop now r = record {
  loop_id = r.loop_id;
  goal = r.goal;
  status = LoopStatus.pending;
  max_turns =
      effective_max_turns (supported_actions r.metadata.action_plan)
        (requested_turns (get_or r.budget_turns r.max_turns));
  turn_count = 0;
  read_memory = r.read_memory;
  write_candidates = r.write_candidates;
  require_approval_for = r.require_approval_for;
  metadata = r.metadata;
  steps = [];
  checkpoint_count = 0;
  final_output = none;
  error = none;
  created_at = now;
}

abbrev pub has_place : Option ℕ → ℕ → Bool
has_place none active = true
has_place (some most) active = ltb active most

abbrev pub may_start : ℕ → Request → Bool
may_start active r =
    not (r.goal == "")
    && all is_some r.metadata.action_plan
    && has_place r.max_concurrent_loops active

unfoldable pub begun : ℕ → Request → LoopState
unfolding new_loop
begun now r = record { loop = new_loop now r; events = loop_started ∷ []; cancel_request = none }

-- `active` is the number of loops in the store that are not terminal.
unfoldable pub start_loop : ℕ → ℕ → Request → Option LoopState
unfolding begun
start_loop now active r = if may_start active r then some (begun now r) else none

-- The calls that a host makes of one loop. A call that raises leaves the loop as it was.
pub data HostCall : Type 0 where
  run : ℕ → (ℕ → Input) → HostCall
  approve : Input → String → HostCall
  reject retry_from_step : String → HostCall
  cancel : ℕ → Bool → String → HostCall

unfoldable pub host_call : HostCall → LoopState → LoopState
unfolding run_loop approve_action reject_action retry_step cancel_loop
host_call (run fuel inputs) s = get_or (run_loop fuel inputs s) s
host_call (approve i id) s = get_or (approve_action i id s) s
host_call (reject id) s = get_or (reject_action id s) s
host_call (retry_from_step id) s = get_or (retry_step id s) s
host_call (cancel now locked reason) s = cancel_loop now locked reason s

unfoldable pub host_calls : List HostCall → LoopState → LoopState
unfolding host_call
host_calls [] s = s
host_calls (call ∷ calls) s = host_calls calls (host_call call s)
