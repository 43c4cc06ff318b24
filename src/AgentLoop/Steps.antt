-- ===== src/AgentLoop/Steps.antt =====
-- agent_loop.py: how a step is built, started, completed, failed and cancelled. A step object that the
-- source changes stands in the loop's list of steps under its id, and ids are fresh.
use across_orchestrator.Base.{
  ℕ, ◌+◌, max, String, Bool, true, false, not, ◌&&◌, Option, none, some, List, [], ◌∷◌, ◌++◌, map,
  if◌then◌else◌, ◌==◌, nat_Eq, string_Eq, get_or, any,
}
use across_orchestrator.AgentLoop.{
  ActionType, action_type_Eq, is_check, is_final, quality_failed, failure_type_Eq, cancelled_for,
  Exception, failure_type_for_exception, StepStatus, LoopStatus, ApprovalStatus, is_running_step,
  is_cancelled_step, is_waiting_step, is_pending_approval, Payload, Execution, Checkpoint, LoopStep,
  recovery_action_Eq,
}
use across_orchestrator.AgentLoop.State.{
  LoopRun, LoopEvent, step_started, step_heartbeat, step_cancelled, loop_cancelled, LoopState, emit,
  Input, count_checkpoints, update_step, latest, of_type,
}
use across_orchestrator.AgentLoop.{
  ActionType, StepStatus, LoopStatus, ApprovalStatus, LoopStep, Payload, Exception, Execution,
}
use across_orchestrator.AgentLoop.Recovery.{plain_payload}
use across_orchestrator.Findings.{quality_report_passed}

-- `execution or {}`, with the time of completion.
unfoldable pub complete_execution : ℕ → LoopStep → Option Execution
complete_execution now step = elim step.checkpoint [
  | none ↦ none
  | some c ↦ elim c.execution [ none ↦ none | some e ↦ some (record e { completed_at = some now }) ]
]

-- `_checkpoint` of an observation.
unfoldable pub checkpoint_of : StepStatus → Payload → Option Execution → Option Checkpoint
checkpoint_of status payload execution =
    some (record { status = status; failure_type = payload.failure_type; execution = execution })

-- A step that ends with a status, an observation and a checkpoint.
unfoldable pub end_step : ℕ → StepStatus → Payload → LoopStep → LoopStep
unfolding complete_execution checkpoint_of
end_step now status payload step = record step {
  status = status;
  observed_cancelled = is_cancelled_step status;
  payload = payload;
  checkpoint = checkpoint_of status payload (complete_execution now step);
}

unfoldable pub with_steps : List LoopStep → LoopRun → LoopRun
with_steps steps loop = record loop { steps = steps }

unfoldable pub counted : LoopRun → LoopRun
counted loop = record loop { checkpoint_count = count_checkpoints loop.steps }

abbrev pub latest_running_step : LoopRun → Option LoopStep
latest_running_step loop = latest (λ step. is_running_step step.status) loop.steps

-- `_latest_running_step`, if it is of the given type.
unfoldable pub running_step_of : ActionType → LoopRun → Option LoopStep
running_step_of type loop = elim (latest_running_step loop) [
  | none ↦ none
  | some step ↦ if of_type type step then some step else none
]

unfoldable pub start_execution_lease : Input → LoopRun → Execution
start_execution_lease i loop = record {
  lease_id = i.lease_id;
  started_at = i.now;
  lease_expires_at = i.now + loop.metadata.action_lease_seconds;
  completed_at = none;
}

unfoldable pub started_step : Input → LoopRun → LoopStep → LoopStep
unfolding start_execution_lease checkpoint_of
started_step i loop step = record step {
  status = StepStatus.running;
  observed_cancelled = false;
  payload = plain_payload none;
  checkpoint =
      checkpoint_of StepStatus.running (plain_payload none) (some (start_execution_lease i loop));
}

abbrev pub has_step : String → List LoopStep → Bool
has_step id steps = any (λ (item : LoopStep). item.step_id == id) steps

unfoldable pub add_step : LoopStep → List LoopStep → List LoopStep
add_step step steps =
    if any (λ item. item.step_id == step.step_id) steps
    then update_step step.step_id (λ item. step) steps
    else steps ++ step ∷ []

unfoldable pub mark_step_running : Input → LoopStep → LoopState → LoopState
unfolding started_step add_step counted emit
mark_step_running i step s =
    let started = started_step i s.loop step in
    emit (step_heartbeat started) (
      emit (step_started started) (record s {
        loop = counted (record s.loop {
          status = LoopStatus.running;
          turn_count = max s.loop.turn_count step.turn;
          steps = add_step started s.loop.steps;
        });
      }))

-- The payload that a raised exception leaves.
abbrev pub failed_payload : Exception → Payload
failed_payload e = plain_payload (some (failure_type_for_exception e))

unfoldable pub save_step : LoopStep → LoopState → LoopState
unfolding with_steps
save_step step s = record s {
  loop = with_steps (update_step step.step_id (λ item. step) s.loop.steps) s.loop;
}

unfoldable pub mark_running_step_failed :
    Input → ActionType → Exception → LoopState → Option LoopStep
unfolding running_step_of end_step
mark_running_step_failed i type e s = elim (running_step_of type s.loop) [
  | none ↦ none
  | some step ↦ some (end_step i.now StepStatus.failed (failed_payload e) step)
]

unfoldable pub mark_running_step_cancelled : Input → ActionType → LoopState → LoopState
unfolding running_step_of end_step save_step
mark_running_step_cancelled i type s = elim (running_step_of type s.loop) [
  | none ↦ s
  | some step ↦ save_step (end_step i.now StepStatus.cancelled (plain_payload none) step) s
]

unfoldable pub new_step : Input → LoopRun → ActionType → Bool → LoopStep
new_step i loop type approval = record {
  step_id = i.step_id;
  turn = loop.turn_count + 1;
  status = if approval then StepStatus.waiting_approval else StepStatus.running;
  action = record {
    action_id = i.action_id;
    action_type = type;
    requires_approval = approval;
    approval_status = if approval then some ApprovalStatus.pending else none;
  };
  observed_cancelled = false;
  payload = plain_payload none;
  checkpoint = none;
}

unfoldable pub build_failed_step : Input → LoopRun → ActionType → Exception → LoopStep
unfolding new_step checkpoint_of
build_failed_step i loop type e = record (new_step i loop type false) {
  status = StepStatus.failed;
  payload = failed_payload e;
  checkpoint = checkpoint_of StepStatus.failed (failed_payload e) none;
}

-- `_host_declared_check_failed`
unfoldable pub host_declared_check_failed : Payload → Bool
host_declared_check_failed p = not (quality_report_passed p.report)

-- `observation_payload.setdefault("failure_type", ...)`
unfoldable pub default_failure : Payload → Payload
default_failure p = record p { failure_type = some (get_or p.failure_type quality_failed) }

unfoldable pub take_output : ActionType → Payload → LoopRun → LoopRun
take_output type p loop = if is_final type then record loop { final_output = p.output } else loop

-- The end of `_build_step`, when the adapter has returned.
unfoldable pub finished_step : Input → ActionType → Payload → LoopStep → LoopStep
unfolding end_step host_declared_check_failed default_failure
finished_step i type p step =
    if is_check type && host_declared_check_failed p
    then end_step i.now StepStatus.failed (default_failure p) step
    else end_step i.now StepStatus.completed p step

-- What becomes of the steps when a loop is cancelled.
unfoldable pub cancel_step : ℕ → LoopStep → LoopStep
unfolding end_step
cancel_step now step =
    if is_running_step step.status
    then end_step now StepStatus.cancelled (plain_payload none) step
    else if is_waiting_step step.status && is_pending_approval step.action.approval_status
    then record step {
      status = StepStatus.cancelled;
      action = record step.action { approval_status = some ApprovalStatus.cancelled };
      observed_cancelled = true;
      payload = plain_payload none;
    }
    else step

-- One event for each step that is now, or was before, cancelled.
unfoldable pub cancelled_events : List LoopStep → List LoopEvent → List LoopEvent
cancelled_events [] events = events
cancelled_events (step ∷ steps) events =
    let after = cancelled_events steps (step_cancelled step ∷ events) in
    if is_cancelled_step step.status && step.observed_cancelled
    then after
    else cancelled_events steps events

unfoldable pub cancel_loop_state : ℕ → String → LoopState → LoopState
unfolding cancel_step cancelled_events counted emit
cancel_loop_state now reason s =
    let steps = map (cancel_step now) s.loop.steps in
    emit (loop_cancelled (cancelled_for reason)) (record s {
      loop = counted (record s.loop {
        steps = steps;
        status = LoopStatus.cancelled;
        error = some (cancelled_for reason);
      });
      events = cancelled_events steps s.events;
      cancel_request = none;
    })
