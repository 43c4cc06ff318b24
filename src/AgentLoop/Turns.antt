-- ===== src/AgentLoop/Turns.antt =====
-- What the building of a step leaves of the retries and turns of an agent loop.
use across_orchestrator.AgentLoop.{
  ActionType, memory_search, task_dispatch, remediation_dispatch, quality_gate,
  memory_write_candidate, final_output, check, same_type, action_type_Eq, FailureType,
  failure_type_Eq, Exception, StepStatus, is_running_step, LoopStep, RecoveryAction, retry,
  recovery_action_Eq,
}
use across_orchestrator.AgentLoop.State.{
  RecoveryPolicy, LoopRun, LoopEvent, step_recovered, LoopState, emit, Input, update_step, latest,
  of_type,
}
use across_orchestrator.AgentLoop.Recovery.{recovery_attempt_count}
use across_orchestrator.AgentLoop.Steps.{
  end_step, counted, latest_running_step, running_step_of, started_step, has_step, add_step,
  mark_step_running, failed_payload, mark_running_step_failed, new_step,
}
use across_orchestrator.AgentLoop.Rounds.{take_step}
use across_orchestrator.AgentLoop.Measure.{
  retries_left, all_failures, left_of, pending_retries, Progress,
}
use across_orchestrator.Base.{
  ℕ, ◌+◌, ◌≤◌, String, ◌≡◌, refl, inl, inr, Bool, true, false, Option, some, List, [], ◌∷◌, ◌++◌,
  arith, eq_iff, ◌==◌, nat_Eq, string_Eq, Bool-cases,
}

-- A recovery that the log counts.
abbrev pub is_recovered : LoopEvent → Bool
is_recovered (step_recovered f action) = true
is_recovered _ = false

count_other :
    (f : FailureType) (action : RecoveryAction) (e : LoopEvent) (events : List LoopEvent)
    → is_recovered e ≡ false
    → recovery_attempt_count f action (e ∷ events) ≡ recovery_attempt_count f action events
unfolding recovery_attempt_count
count_other f action e events h = ground arith

left_of_other :
    (fs : List FailureType) (policy : Option RecoveryPolicy) (e : LoopEvent)
    (events : List LoopEvent)
    → is_recovered e ≡ false
    → left_of fs policy (e ∷ events) ≡ left_of fs policy events
unfolding left_of retries_left
left_of_other [] policy e events h = refl
left_of_other (f ∷ fs) policy e events h =
    omega (arith, count_other f retry e events h, left_of_other fs policy e events h)

pub emit-Progress :
    {n : ℕ} {new : Option String} (e : LoopEvent) (s t : LoopState)
    → is_recovered e ≡ false
    → Progress n new s t
    → Progress n new s (emit e t)
unfolding emit pending_retries
emit-Progress e s t h p = record {
  turns_kept = p.turns_kept;
  policy_kept = p.policy_kept;
  fewer =
      omega
        (arith, p.fewer, left_of_other all_failures t.loop.metadata.recovery_policy e t.events h);
  later =
      ground
        (arith, p.later, left_of_other all_failures t.loop.metadata.recovery_policy e t.events h);
  ids_kept = p.ids_kept;
}

has_step-update_step :
    (id : String) (step : LoopStep) (steps : List LoopStep)
    → has_step id steps ≡ false
    → step.step_id == id ≡ false
    → has_step id (update_step step.step_id (λ item. step) steps) ≡ false
unfolding update_step
has_step-update_step id step [] h k = refl
has_step-update_step id step (x ∷ steps) h k = ground (arith, has_step-update_step id step steps)

pub has_step-replaced :
    (id other : String) (step : LoopStep) (steps : List LoopStep)
    → step.step_id ≡ other
    → has_step id steps ≡ false
    → has_step id (update_step other (λ item. step) steps) ≡ false
unfolding update_step
has_step-replaced id other step [] e h = refl
has_step-replaced id other step (x ∷ steps) e h = ground (
  arith,
  has_step-replaced id other step steps e,
  eq_iff x.step_id other,
  eq_iff x.step_id id,
  eq_iff step.step_id id,
)

has_step-snoc :
    (id : String) (step : LoopStep) (steps : List LoopStep)
    → has_step id steps ≡ false
    → step.step_id == id ≡ false
    → has_step id (steps ++ step ∷ []) ≡ false
has_step-snoc id step [] h k = ground arith
has_step-snoc id step (x ∷ steps) h k = ground (arith, has_step-snoc id step steps)

has_step-add_step :
    (id : String) (step : LoopStep) (steps : List LoopStep)
    → has_step id steps ≡ false
    → step.step_id == id ≡ false
    → has_step id (add_step step steps) ≡ false
unfolding add_step
has_step-add_step id step steps h k = elim (Bool-cases (has_step step.step_id steps)) [
  | inl known ↦ rw known (has_step-update_step id step steps h k)
  | inr unknown ↦ rw unknown (has_step-snoc id step steps h k)
]

pub take-Progress :
    (s t : LoopState) (step : LoopStep)
    → s.loop.turn_count + 1 ≤ step.turn
    → Progress 0 (some step.step_id) s t
    → Progress 1 (some step.step_id) s (take_step step t)
unfolding take_step counted pending_retries
take-Progress s t step h p = record {
  turns_kept = p.turns_kept;
  policy_kept = p.policy_kept;
  fewer = p.fewer;
  later = inr h;
  ids_kept =
      λ id none other. has_step-add_step id step t.loop.steps (p.ids_kept id none other) other;
}

pub mark-Progress :
    (i : Input) (s : LoopState) (type : ActionType)
    → Progress 0 (some i.step_id) s (mark_step_running i (new_step i s.loop type false) s)
unfolding mark_step_running started_step new_step counted pending_retries
mark-Progress i s type = emit-Progress _ s _ refl (
    emit-Progress _ s _ refl (record {
      turns_kept = refl;
      policy_kept = refl;
      fewer = omega arith;
      later = inr (omega arith);
      ids_kept = λ id none other.
          has_step-add_step id (started_step i s.loop (new_step i s.loop type false)) s.loop.steps
            none other;
    }))

latest-snoc :
    (test : LoopStep → Bool) (step : LoopStep) (steps : List LoopStep)
    → test step ≡ true
    → latest test (steps ++ step ∷ []) ≡ some step
unfolding latest
latest-snoc test step [] h = rw h refl
latest-snoc test step (x ∷ steps) h = rw (latest-snoc test step steps h) refl

same_type_refl : (type : ActionType) → same_type type type ≡ true
same_type_refl (check name) = ground (arith, eq_iff name name)
same_type_refl memory_search = refl
same_type_refl task_dispatch = refl
same_type_refl remediation_dispatch = refl
same_type_refl quality_gate = refl
same_type_refl memory_write_candidate = refl
same_type_refl final_output = refl

steps_of_mark :
    (i : Input) (s : LoopState) (step : LoopStep)
    → has_step step.step_id s.loop.steps ≡ false
    → (mark_step_running i step s).loop.steps ≡ s.loop.steps ++ started_step i s.loop step ∷ []
unfolding mark_step_running started_step counted add_step emit
steps_of_mark i s step h = rw h refl

running_step_of-latest :
    (type : ActionType) (loop : LoopRun) (step : LoopStep)
    → latest_running_step loop ≡ some step
    → of_type type step ≡ true
    → running_step_of type loop ≡ some step
unfolding running_step_of
running_step_of-latest type loop step h k = rw (running_step_of, h, k) refl

failed_of_running :
    (i : Input) (type : ActionType) (e : Exception) (s : LoopState) (step : LoopStep)
    → running_step_of type s.loop ≡ some step
    → mark_running_step_failed i type e s
      ≡ some (end_step i.now StepStatus.failed (failed_payload e) step)
unfolding mark_running_step_failed
failed_of_running i type e s step h = rw (mark_running_step_failed, h) refl

-- The step that a round starts.
abbrev pub opened : Input → LoopState → ActionType → LoopStep
opened i s type = new_step i s.loop type false

abbrev pub started : Input → LoopState → ActionType → LoopStep
started i s type = started_step i s.loop (opened i s type)

step_id-opened :
    (i : Input) (s : LoopState) (type : ActionType) → (opened i s type).step_id ≡ i.step_id
unfolding new_step
step_id-opened i s type = refl

started-runs :
    (i : Input) (s : LoopState) (type : ActionType)
    → is_running_step (started i s type).status ≡ true
unfolding started_step
started-runs i s type = refl

of_type-started :
    (i : Input) (s : LoopState) (type : ActionType) → of_type type (started i s type) ≡ true
unfolding new_step started_step
of_type-started i s type = same_type_refl type

latest_running-mark :
    (i : Input) (s : LoopState) (type : ActionType)
    → has_step i.step_id s.loop.steps ≡ false
    → latest_running_step (mark_step_running i (opened i s type) s).loop ≡ some (started i s type)
latest_running-mark i s type h =
    rw (steps_of_mark i s (opened i s type) (rw (step_id-opened i s type) h)) (
      latest-snoc (λ item. is_running_step item.status) (started i s type) s.loop.steps
        (started-runs i s type))

-- The step that was just started is the one that a raised exception fails.
pub mark_running_step_failed-mark :
    (i : Input) (s : LoopState) (type : ActionType) (e : Exception)
    → has_step i.step_id s.loop.steps ≡ false
    → mark_running_step_failed i type e (mark_step_running i (opened i s type) s)
      ≡ some (end_step i.now StepStatus.failed (failed_payload e) (started i s type))
mark_running_step_failed-mark i s type e h =
    failed_of_running i type e (mark_step_running i (opened i s type) s) (started i s type) (
      running_step_of-latest type (mark_step_running i (opened i s type) s).loop (started i s type)
        (latest_running-mark i s type h) (of_type-started i s type))
