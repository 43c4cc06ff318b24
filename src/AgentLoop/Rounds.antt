-- ===== src/AgentLoop/Rounds.antt =====
-- agent_loop.py: `run_loop`. One round of its `while True` is a function of its own, and the loop runs
-- on fuel; `none` means that the fuel ran out.
use across_orchestrator.Base.{
  ℕ, zero, suc, ◌+◌, max, String, Bool, true, false, ◌||◌, Option, none, some, ltb, leb,
  if◌then◌else◌, nat_Eq, string_Eq, is_some, get_or, contains,
}
use Prim.Native.String.{◌++◌ as text_append}
use across_orchestrator.AgentLoop.{
  ActionType, quality_gate, action_type_Eq, FailureType, quality_failed, failure_type_Eq, Reason,
  action_failed, quality_gate_failed, action_lease_expired, turns_over, failure_type_for_reason,
  StepStatus, LoopStatus, is_terminal_loop, is_awaiting, is_failed_step, is_waiting_step, LoopStep,
  recovery_action_Eq,
}
use across_orchestrator.AgentLoop.State.{
  next_action_selected, step_completed, step_failed, approval_required, step_lease_expired,
  cancel_requested, loop_completed, LoopState, emit, Outcome, returned, raised, action_cancelled,
  Input, latest, of_type,
}
use across_orchestrator.AgentLoop.{
  ActionType, quality_gate, action_type_Eq, FailureType, quality_failed, failure_type_Eq, Reason,
  action_failed, quality_gate_failed, action_lease_expired, turns_over, failure_type_for_reason,
  StepStatus, LoopStatus, is_terminal_loop, is_awaiting, is_failed_step, is_waiting_step, LoopStep,
  recovery_action_Eq,
}
use across_orchestrator.AgentLoop.Selection.{
  quality_failed_step, peek_next_action, budget_exceeded_reason, pending_approval_step,
}
use across_orchestrator.AgentLoop.Recovery.{
  plain_payload, apply_recovery_policy, fail_loop, stop_loop_for_budget,
}
use across_orchestrator.AgentLoop.Steps.{
  end_step, counted, latest_running_step, started_step, add_step, mark_step_running, save_step,
  mark_running_step_failed, mark_running_step_cancelled, new_step, build_failed_step, take_output,
  finished_step, cancel_loop_state,
}

-- `loop.metadata.pop(RECOVERY_NEXT_ACTION_METADATA_KEY, None)`
unfoldable pub pop_recovery : LoopState → LoopState
pop_recovery s = record s {
  loop = record s.loop { metadata = record s.loop.metadata { recovery_next_action = none } };
}

-- The action that a recovery asked for, or else the one that `otherwise` finds.
unfoldable pub recovered_or :
    LoopState → Option ActionType × LoopState → Option ActionType × LoopState
unfolding pop_recovery
recovered_or s otherwise = elim s.loop.metadata.recovery_next_action [
  | some type ↦ (some type, pop_recovery s)
  | none ↦ otherwise
]

-- After the policy was asked: go on with what it left, or fail.
unfoldable pub continue_or_fail : Bool × LoopState → Option ActionType × LoopState
unfolding recovered_or
continue_or_fail (true, t) =
    if is_awaiting t.loop.status then (none, t) else recovered_or t (peek_next_action t.loop, t)
continue_or_fail (false, t) = (none, fail_loop quality_gate_failed t)

unfoldable pub after_exhaustion : Input → LoopStep → LoopState → Option ActionType × LoopState
unfolding continue_or_fail
after_exhaustion i gate s =
    continue_or_fail (apply_recovery_policy i gate (failure_type_for_reason quality_gate_failed) s)

unfoldable pub without_action : Input → LoopState → Option ActionType × LoopState
unfolding after_exhaustion
without_action i s = elim (latest (of_type quality_gate) s.loop.steps) [
  | none ↦ (none, s)
  | some gate ↦ if quality_failed_step gate then after_exhaustion i gate s else (none, s)
]

unfoldable pub select_next_action : Input → LoopState → Option ActionType × LoopState
unfolding recovered_or without_action
select_next_action i s =
    recovered_or s
      (elim (peek_next_action s.loop) [ some type ↦ (some type, s) | none ↦ without_action i s ])

-- A round ends the call, or the loop goes on.
pub data Round : Type 0 where
  continues returns : LoopState → Round

unfoldable pub take_step : LoopStep → LoopState → LoopState
unfolding counted add_step
take_step step s = record s {
  loop = counted (record s.loop { turn_count = step.turn; steps = add_step step s.loop.steps });
}

-- After the policy was asked: wait, go on, or fail.
unfoldable pub settle : Reason → Bool × LoopState → Round
settle reason (true, t) = if is_awaiting t.loop.status then returns t else continues t
settle reason (false, t) = returns (fail_loop reason t)

unfoldable pub after_failure : Input → LoopStep → Reason → FailureType → LoopState → Round
unfolding settle
after_failure i step reason f s = settle reason (apply_recovery_policy i step f s)

unfoldable pub fail_step : Input → ActionType → LoopStep → LoopState → Round
unfolding after_failure take_step emit
fail_step i type step s =
    after_failure i step (action_failed type) (get_or step.payload.failure_type quality_failed)
      (emit (step_failed step) (take_step step s))

unfoldable pub await_approval : LoopState → LoopState
await_approval s = record s { loop = record s.loop { status = LoopStatus.awaiting_approval } }

unfoldable pub after_step : Input → ActionType → LoopStep → LoopState → Round
unfolding fail_step take_step await_approval emit
after_step i type step s =
    if is_failed_step step.status
    then fail_step i type step s
    else if is_waiting_step step.status
    then returns (emit (approval_required step) (await_approval (take_step step s)))
    else continues (emit (step_completed step) (take_step step s))

-- The adapter's call, for a step that is running.
unfoldable pub execute_action : Input → ActionType → LoopStep → Outcome → LoopState → Round
unfolding after_step fail_step finished_step take_output
execute_action i type step (returned p) s =
    after_step i type (finished_step i type p step) (record s { loop = take_output type p s.loop })
execute_action i type step (raised e) s =
    fail_step i type
      (get_or (mark_running_step_failed i type e s) (build_failed_step i s.loop type e)) s
execute_action i type step (action_cancelled reason) s =
    returns (cancel_loop_state i.now reason (mark_running_step_cancelled i type s))

unfoldable pub build_step : Input → ActionType → LoopState → Round
unfolding after_step execute_action
build_step i type s =
    if contains s.loop.require_approval_for type
    then after_step i type (new_step i s.loop type true) s
    else execute_action i type (started_step i s.loop (new_step i s.loop type false)) i.outcome
        (mark_step_running i (new_step i s.loop type false) s)

unfoldable pub complete_loop : LoopState → LoopState
unfolding emit
complete_loop s =
    let output =
      get_or s.loop.final_output (text_append "Agent loop completed for: " s.loop.goal) in
    emit (loop_completed (some output)) (record s {
      loop = record s.loop { status = LoopStatus.completed; final_output = some output };
    })

unfoldable pub act : Input → Option ActionType × LoopState → Round
unfolding complete_loop build_step emit
act i (none, s) =
    returns
      (if is_terminal_loop s.loop.status || is_awaiting s.loop.status then s else complete_loop s)
act i (some type, s) =
    if leb s.loop.max_turns s.loop.turn_count
    then returns (stop_loop_for_budget turns_over s)
    else build_step i type (emit (next_action_selected type (s.loop.turn_count + 1)) s)

-- A concurrent `cancel_loop`, which leaves its request in the store.
unfoldable pub receive_request : Input → LoopState → LoopState
unfolding emit
receive_request i s = elim i.new_request [
  | none ↦ s
  | some reason ↦ emit (cancel_requested reason) (record s { cancel_request = some reason })
]

unfoldable pub stop_or : Option Reason → LoopState → Round → Round
stop_or none s rest = rest
stop_or (some reason) s rest = returns (stop_loop_for_budget reason s)

unfoldable pub cancel_or : Input → Option String → LoopState → Round → Round
cancel_or i none s rest = rest
cancel_or i (some reason) s rest = returns (cancel_loop_state i.now reason s)

-- The budget and the cancel request come first, before anything else is done.
unfoldable pub checked : Input → LoopState → Round → Round
unfolding stop_or cancel_or
checked i s rest =
    stop_or (budget_exceeded_reason i.now s.loop) s (cancel_or i s.cancel_request s rest)

unfoldable pub round : Input → LoopState → Round
unfolding receive_request checked act select_next_action
round i s = let t = receive_request i s in checked i t (act i (select_next_action i t))

unfoldable pub run_rounds : ℕ → ℕ → (ℕ → Input) → LoopState → Option LoopState
unfolding round
run_rounds zero n inputs s = none
run_rounds (suc fuel) n inputs s = elim (round (inputs n) s) [
  | continues t ↦ run_rounds fuel (n + 1) inputs t
  | returns t ↦ some t
]

-- `lease_expires_at` of the execution in the checkpoint.
unfoldable pub lease_expiry : LoopStep → Option ℕ
lease_expiry step = elim step.checkpoint [
  | none ↦ none
  | some c ↦ elim c.execution [ none ↦ none | some e ↦ some e.lease_expires_at ]
]

unfoldable pub expire_running_step : Input → LoopStep → LoopState → Round
unfolding after_failure end_step save_step counted emit
expire_running_step i step s =
    let failed_step =
      end_step i.now StepStatus.failed
        (plain_payload (some (failure_type_for_reason action_lease_expired))) step in
    let t = save_step failed_step s in
    after_failure i failed_step action_lease_expired (failure_type_for_reason action_lease_expired)
      (emit (step_lease_expired failed_step) (record t {
        loop = counted (record t.loop { turn_count = max t.loop.turn_count step.turn });
      }))

unfoldable pub holds_lease : ℕ → Option ℕ → Bool
holds_lease now none = true
holds_lease now (some expiry) = ltb now expiry

unfoldable pub recover_or_hold_running_action : Input → LoopState → Round
unfolding lease_expiry holds_lease expire_running_step
recover_or_hold_running_action i s = elim (latest_running_step s.loop) [
  | none ↦ continues s
  | some step ↦
      if holds_lease i.now (lease_expiry step)
      then returns (record s { loop = record s.loop { status = LoopStatus.running } })
      else expire_running_step i step s
]

-- What follows when no action is held: a pending approval is waited for, or the rounds begin.
unfoldable pub run_unheld : ℕ → (ℕ → Input) → Round → Option LoopState
unfolding run_rounds await_approval
run_unheld fuel inputs (returns s) = some s
run_unheld fuel inputs (continues s) =
    if is_some (pending_approval_step s.loop.steps)
    then some (await_approval s)
    else run_rounds fuel 1 inputs
        (record s { loop = record s.loop { status = LoopStatus.running; error = none } })

unfoldable pub run_loop : ℕ → (ℕ → Input) → LoopState → Option LoopState
unfolding run_unheld receive_request checked recover_or_hold_running_action
run_loop fuel inputs s =
    if is_terminal_loop s.loop.status
    then some (record s { cancel_request = none })
    else let t = receive_request (inputs 0) s in
      run_unheld fuel inputs (checked (inputs 0) t (recover_or_hold_running_action (inputs 0) t))
