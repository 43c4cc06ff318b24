-- ===== src/AgentLoop/Ends.antt =====
-- What a step that is built leaves of an agent loop, whether the loop goes on or not.
use across_orchestrator.AgentLoop.Steps.{
  end_step, counted, started_step, has_step, mark_step_running, failed_payload,
  mark_running_step_cancelled, new_step, take_output, finished_step, cancel_loop_state,
}
use across_orchestrator.AgentLoop.Turns.{
  emit-Progress, take-Progress, mark-Progress, opened, started, mark_running_step_failed-mark,
}
use across_orchestrator.AgentLoop.{
  ActionType, action_type_Eq, is_final, FailureType, quality_failed, failure_type_Eq, Reason,
  action_failed, Exception, StepStatus, LoopStatus, is_terminal_loop, is_awaiting, is_failed_step,
  is_waiting_step, Payload, LoopStep, recovery_action_Eq,
}
use across_orchestrator.AgentLoop.State.{
  step_completed, step_failed, approval_required, LoopState, emit, Outcome, returned, raised,
  action_cancelled, Input,
}
use across_orchestrator.AgentLoop.Recovery.{apply_recovery_policy, fail_loop}
use across_orchestrator.AgentLoop.Rounds.{
  Round, continues, returns, take_step, settle, after_failure, fail_step, await_approval,
  after_step, execute_action, build_step,
}
use across_orchestrator.AgentLoop.Measure.{pending_retries, Progress, Progress-then}
use across_orchestrator.AgentLoop.Retries.{Progress-refl, apply_recovery-Progress}
use across_orchestrator.Base.{
  ℕ, ◌+◌, ◌≤◌, String, ◌≡◌, refl, sym, ◌∙◌, subst, inl, inr, Bool, true, false, ◌||◌, Option, some,
  arith, nat_Eq, string_Eq, get_or, Bool-cases, contains,
}

-- A status in which a call of `run_loop` leaves the loop to its host.
abbrev pub is_settled : LoopStatus → Bool
is_settled status = is_terminal_loop status || is_awaiting status

-- A round that goes on has used up a retry or a turn, and one that does not leaves the loop settled.
pub record Ends (n : ℕ) (new : Option String) (s : LoopState) (r : Round) : Type 0 where
  pub went : (t : LoopState) → r ≡ continues t → Progress n new s t
  pub rests : (t : LoopState) → r ≡ returns t → is_settled t.loop.status ≡ true

pub Ends-returns :
    {n : ℕ} {new : Option String} (s t : LoopState)
    → is_settled t.loop.status ≡ true
    → Ends n new s (returns t)
Ends-returns s t h = record {
  went = λ u e. cc;
  rests = λ u e. let same : t ≡ u = cc in rw (← same) h;
}

pub Ends-continues :
    {n : ℕ} {new : Option String} (s t : LoopState)
    → Progress n new s t
    → Ends n new s (continues t)
Ends-continues {n} {new} s t p = record {
  went = λ u e. let same : t ≡ u = cc in subst (λ v. Progress n new s v) same p;
  rests = λ u e. cc;
}

settle-Ends :
    {n : ℕ} {new : Option String} (s : LoopState) (reason : Reason) (result : Bool × LoopState)
    → (result.0 ≡ true → is_awaiting result.1.loop.status ≡ false → Progress n new s result.1)
    → Ends n new s (settle reason result)
unfolding settle fail_loop emit
settle-Ends s reason (false, t) h = Ends-returns s (fail_loop reason t) refl
settle-Ends s reason (true, t) h = elim (Bool-cases (is_awaiting t.loop.status)) [
  | inl waits ↦ rw waits (Ends-returns s t (ground arith))
  | inr quiet ↦ rw quiet (Ends-continues s t (h refl quiet))
]

pub after_failure-Ends :
    {n : ℕ} {new : Option String} (i : Input) (s t : LoopState) (step : LoopStep) (reason : Reason)
    (f : FailureType)
    → Progress n new s t
    → Ends n new s (after_failure i step reason f t)
unfolding after_failure
after_failure-Ends i s t step reason f p =
    settle-Ends s reason (apply_recovery_policy i step f t)
      λ dealt quiet. Progress-then p (apply_recovery-Progress i step f t dealt quiet)

fail_step-Ends :
    (i : Input) (s t : LoopState) (type : ActionType) (step : LoopStep)
    → s.loop.turn_count + 1 ≤ step.turn
    → Progress 0 (some step.step_id) s t
    → Ends 1 (some step.step_id) s (fail_step i type step t)
unfolding fail_step
fail_step-Ends i s t type step h p =
    after_failure-Ends i s (emit (step_failed step) (take_step step t)) step (action_failed type)
      (get_or step.payload.failure_type quality_failed)
      (emit-Progress (step_failed step) s (take_step step t) refl (take-Progress s t step h p))

after_step-Ends :
    (i : Input) (s t : LoopState) (type : ActionType) (step : LoopStep)
    → s.loop.turn_count + 1 ≤ step.turn
    → Progress 0 (some step.step_id) s t
    → Ends 1 (some step.step_id) s (after_step i type step t)
unfolding after_step await_approval emit
after_step-Ends i s t type step h p = elim (Bool-cases (is_failed_step step.status)) [
  | inl bad ↦ rw bad (fail_step-Ends i s t type step h p)
  | inr well ↦ elim (Bool-cases (is_waiting_step step.status)) [
    | inl waits ↦
        rw (well, waits)
          (Ends-returns s (emit (approval_required step) (await_approval (take_step step t)))
            (settled_waiting step (take_step step t)))
    | inr done ↦
        rw (well, done)
          (Ends-continues s (emit (step_completed step) (take_step step t)) (
            emit-Progress (step_completed step) s (take_step step t) refl
              (take-Progress s t step h p)))
  ]
]
  where
    settled_waiting :
        (x : LoopStep) (u : LoopState)
        → is_settled (emit (approval_required x) (await_approval u)).loop.status ≡ true
    settled_waiting x u = refl

output-Progress :
    {new : Option String} (s t : LoopState) (type : ActionType) (p : Payload)
    → Progress 0 new s t
    → Progress 0 new s (record t { loop = take_output type p t.loop })
unfolding take_output pending_retries
output-Progress s t type p h = elim (Bool-cases (is_final type)) [
  | inl final ↦ rw final (record {
    turns_kept = h.turns_kept;
    policy_kept = h.policy_kept;
    fewer = h.fewer;
    later = h.later;
    ids_kept = h.ids_kept;
  })
  | inr other ↦ rw other h
]

-- A step that is finished keeps its turn and id.
finished_turn :
    (i : Input) (type : ActionType) (p : Payload) (step : LoopStep)
    → ((finished_step i type p step).turn ≡ step.turn)
      × ((finished_step i type p step).step_id ≡ step.step_id)
unfolding finished_step end_step
finished_turn i type p step = ground arith

fail_named :
    {new : String} (i : Input) (s t : LoopState) (type : ActionType) (step : LoopStep)
    → step.step_id ≡ new
    → s.loop.turn_count + 1 ≤ step.turn
    → Progress 0 (some new) s t
    → Ends 1 (some new) s (fail_step i type step t)
fail_named i s t type step e h p =
    subst (λ id. Ends 1 (some id) s (fail_step i type step t)) e
      (fail_step-Ends i s t type step h (subst (λ id. Progress 0 (some id) s t) (sym e) p))

after_named :
    {new : String} (i : Input) (s t : LoopState) (type : ActionType) (step : LoopStep)
    → step.step_id ≡ new
    → s.loop.turn_count + 1 ≤ step.turn
    → Progress 0 (some new) s t
    → Ends 1 (some new) s (after_step i type step t)
after_named i s t type step e h p =
    subst (λ id. Ends 1 (some id) s (after_step i type step t)) e
      (after_step-Ends i s t type step h (subst (λ id. Progress 0 (some id) s t) (sym e) p))

started_turn :
    (i : Input) (s : LoopState) (type : ActionType)
    → ((started i s type).turn ≡ s.loop.turn_count + 1) × ((started i s type).step_id ≡ i.step_id)
unfolding new_step started_step
started_turn i s type = (refl, refl)

end_step_turn :
    (now : ℕ) (status : StepStatus) (p : Payload) (step : LoopStep)
    → ((end_step now status p step).turn ≡ step.turn)
      × ((end_step now status p step).step_id ≡ step.step_id)
unfolding end_step
end_step_turn now status p step = (refl, refl)

raised-Ends :
    (i : Input) (s : LoopState) (type : ActionType) (e : Exception)
    → has_step i.step_id s.loop.steps ≡ false
    → Ends 1 (some i.step_id) s (
        execute_action i type
          (started i s type)
          (raised e)
          (mark_step_running i (opened i s type) s))
unfolding execute_action
raised-Ends i s type e h = rw (mark_running_step_failed-mark i s type e h) (
    fail_named i s (mark_step_running i (opened i s type) s) type
      (end_step i.now StepStatus.failed (failed_payload e) (started i s type))
      ((end_step_turn i.now StepStatus.failed (failed_payload e) (started i s type)).1
        ∙ (started_turn i s type).1)
      (omega (
        arith,
        (end_step_turn i.now StepStatus.failed (failed_payload e) (started i s type)).0,
        (started_turn i s type).0,
      ))
      (mark-Progress i s type))

execute_action-Ends :
    (i : Input) (s : LoopState) (type : ActionType) (outcome : Outcome)
    → has_step i.step_id s.loop.steps ≡ false
    → Ends 1
        (some i.step_id)
        s
        (execute_action i type (started i s type) outcome (mark_step_running i (opened i s type) s))
unfolding execute_action cancel_loop_state emit counted
execute_action-Ends i s type (raised e) h = raised-Ends i s type e h
execute_action-Ends i s type (action_cancelled reason) h =
    Ends-returns s
      (cancel_loop_state i.now reason
        (mark_running_step_cancelled i type (mark_step_running i (opened i s type) s)))
      refl
execute_action-Ends i s type (returned p) h =
    after_named i s (record t { loop = take_output type p t.loop }) type
      (finished_step i type p (started i s type))
      ((finished_turn i type p (started i s type)).1 ∙ (started_turn i s type).1)
      (omega (arith, (finished_turn i type p (started i s type)).0, (started_turn i s type).0))
      (output-Progress s t type p (mark-Progress i s type))
  where
    t : LoopState
    t = mark_step_running i (new_step i s.loop type false) s

pub build_step-Ends :
    (i : Input) (s : LoopState) (type : ActionType)
    → has_step i.step_id s.loop.steps ≡ false
    → Ends 1 (some i.step_id) s (build_step i type s)
unfolding build_step new_step
build_step-Ends i s type h = elim (Bool-cases (contains s.loop.require_approval_for type)) [
  | inl asks ↦ rw asks (
      after_named i s s type (new_step i s.loop type true) (approval_turn i s).1
        (omega (arith, (approval_turn i s).0)) (Progress-refl s))
  | inr free ↦ rw free (execute_action-Ends i s type i.outcome h)
]
  where
    approval_turn :
        (j : Input) (u : LoopState)
        → ((new_step j u.loop type true).turn ≡ u.loop.turn_count + 1)
          × ((new_step j u.loop type true).step_id ≡ j.step_id)
    approval_turn j u = (refl, refl)
