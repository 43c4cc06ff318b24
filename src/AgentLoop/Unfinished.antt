-- ===== src/AgentLoop/Unfinished.antt =====
-- The rounds of an agent loop that do not complete it.
use across_orchestrator.AgentLoop.{
  ActionType, action_type_Eq, is_final, FailureType, quality_failed, failure_type_Eq, Reason,
  action_failed, LoopStatus, is_awaiting, is_failed_step, is_waiting_step, Payload, LoopStep,
  RecoveryAction, stop, retry, remediation, require_human, recovery_action_Eq,
}
use across_orchestrator.AgentLoop.State.{
  step_completed, step_failed, approval_required, LoopState, emit, Outcome, returned, raised,
  action_cancelled, Input,
}
use across_orchestrator.AgentLoop.Recovery.{
  Rule, recovery_rule, steps_before, rolled_back, rollback_loop_to_step,
  append_recovery_approval_step, recover, dealt_with, apply_rule, apply_found,
  apply_recovery_policy, fail_loop,
}
use across_orchestrator.AgentLoop.Steps.{
  counted, started_step, mark_step_running, mark_running_step_cancelled, new_step, take_output,
  finished_step, cancel_loop_state,
}
use across_orchestrator.AgentLoop.Rounds.{
  Round, continues, returns, take_step, settle, after_failure, fail_step, await_approval,
  after_step, execute_action, build_step,
}
use across_orchestrator.Base.{
  String, ◌≡◌, refl, inl, inr, Bool, true, false, Option, none, some, nat_Eq, string_Eq, get_or,
  Bool-cases, Option-cases, contains,
}

abbrev pub is_completed : LoopStatus → Bool
is_completed LoopStatus.completed = true
is_completed _ = false

abbrev pub Live : LoopState → Type 0
Live s = is_completed s.loop.status ≡ false

-- A round that does not complete the loop.
pub record Unfinished (r : Round) : Type 0 where
  pub open_still : (t : LoopState) → r ≡ returns t → Live t
  pub live_still : (t : LoopState) → r ≡ continues t → Live t

pub Unfinished-returns : (s : LoopState) → Live s → Unfinished (returns s)
Unfinished-returns s h = record {
  open_still = λ t e. let same : s ≡ t = cc in rw (← same) h;
  live_still = λ t e. cc;
}

pub Unfinished-continues : (s : LoopState) → Live s → Unfinished (continues s)
Unfinished-continues s h = record {
  open_still = λ t e. cc;
  live_still = λ t e. let same : s ≡ t = cc in rw (← same) h;
}

rollback-Live :
    (id : String) (s : LoopState)
    → Live s
    → Live (record s { loop = rollback_loop_to_step id s.loop })
unfolding rollback_loop_to_step rolled_back
rollback-Live id s h = elim (Option-cases (steps_before id s.loop.steps)) [
  | inl missing ↦ rw (rollback_loop_to_step, missing) h
  | inr (before, found) ↦ rw (rollback_loop_to_step, found) refl
]

recover-Live :
    (i : Input) (step : LoopStep) (f : FailureType) (action : RecoveryAction) (s : LoopState)
    → Live s
    → Live (recover i step f action s)
unfolding recover append_recovery_approval_step emit
recover-Live i step f stop s h = h
recover-Live i step f retry s h = rollback-Live step.step_id s h
recover-Live i step f remediation s h = refl
recover-Live i step f require_human s h = refl

dealt_with-Live : (b : Bool) (s t : LoopState) → Live s → Live t → Live (dealt_with b s t).1
dealt_with-Live true s t h k = h
dealt_with-Live false s t h k = k

apply_found-Live :
    (i : Input) (step : LoopStep) (f : FailureType) (found : Option Rule) (s : LoopState)
    → Live s
    → Live (apply_found i step f found s).1
unfolding apply_found apply_rule emit
apply_found-Live i step f none s h = h
apply_found-Live i step f (some rule) s h =
    dealt_with-Live _ _ _ (recover-Live i step f rule.action _ h) h

pub apply_recovery_policy-Live :
    (i : Input) (step : LoopStep) (f : FailureType) (s : LoopState)
    → Live s
    → Live (apply_recovery_policy i step f s).1
unfolding apply_recovery_policy
apply_recovery_policy-Live i step f s =
    apply_found-Live i step f (recovery_rule s.loop.metadata.recovery_policy f) s

Unfinished-settle :
    (reason : Reason) (result : Bool × LoopState)
    → Live result.1
    → Unfinished (settle reason result)
unfolding settle fail_loop emit
Unfinished-settle reason (false, t) h = Unfinished-returns (fail_loop reason t) refl
Unfinished-settle reason (true, t) h = elim (Bool-cases (is_awaiting t.loop.status)) [
  | inl waits ↦ rw waits (Unfinished-returns t h)
  | inr quiet ↦ rw quiet (Unfinished-continues t h)
]

pub Unfinished-after_failure :
    (i : Input) (step : LoopStep) (reason : Reason) (f : FailureType) (s : LoopState)
    → Live s
    → Unfinished (after_failure i step reason f s)
unfolding after_failure
Unfinished-after_failure i step reason f s h =
    Unfinished-settle reason (apply_recovery_policy i step f s)
      (apply_recovery_policy-Live i step f s h)

Unfinished-fail_step :
    (i : Input) (type : ActionType) (step : LoopStep) (s : LoopState)
    → Live s
    → Unfinished (fail_step i type step s)
unfolding fail_step take_step counted emit
Unfinished-fail_step i type step s h =
    Unfinished-after_failure i step (action_failed type)
      (get_or step.payload.failure_type quality_failed) (emit (step_failed step) (take_step step s))
      h

Unfinished-after_step :
    (i : Input) (type : ActionType) (step : LoopStep) (s : LoopState)
    → Live s
    → Unfinished (after_step i type step s)
unfolding after_step take_step await_approval counted emit
Unfinished-after_step i type step s h = elim (Bool-cases (is_failed_step step.status)) [
  | inl bad ↦ rw bad (Unfinished-fail_step i type step s h)
  | inr well ↦ elim (Bool-cases (is_waiting_step step.status)) [
    | inl waits ↦
        rw (well, waits)
          (Unfinished-returns (emit (approval_required step) (await_approval (take_step step s)))
            refl)
    | inr done ↦
        rw (well, done) (Unfinished-continues (emit (step_completed step) (take_step step s)) h)
  ]
]

output-Live :
    (type : ActionType) (p : Payload) (s : LoopState)
    → Live s
    → Live (record s { loop = take_output type p s.loop })
unfolding take_output
output-Live type p s h = elim (Bool-cases (is_final type)) [
  | inl final ↦ rw final h
  | inr other ↦ rw other h
]

Unfinished-execute_action :
    (i : Input) (type : ActionType) (step : LoopStep) (outcome : Outcome) (s : LoopState)
    → Live s
    → Unfinished (execute_action i type step outcome s)
unfolding execute_action cancel_loop_state counted emit
Unfinished-execute_action i type step (returned p) s h =
    Unfinished-after_step i type (finished_step i type p step)
      (record s { loop = take_output type p s.loop }) (output-Live type p s h)
Unfinished-execute_action i type step (raised e) s h = Unfinished-fail_step i type _ s h
Unfinished-execute_action i type step (action_cancelled reason) s h =
    Unfinished-returns (cancel_loop_state i.now reason (mark_running_step_cancelled i type s)) refl

pub Unfinished-build_step :
    (i : Input) (type : ActionType) (s : LoopState) → Live s → Unfinished (build_step i type s)
unfolding build_step mark_step_running counted emit
Unfinished-build_step i type s h = elim (Bool-cases (contains s.loop.require_approval_for type)) [
  | inl asks ↦ rw asks (Unfinished-after_step i type (new_step i s.loop type true) s h)
  | inr free ↦ rw free (
      Unfinished-execute_action i type (started_step i s.loop (new_step i s.loop type false))
        i.outcome (mark_step_running i (new_step i s.loop type false) s) refl)
]
