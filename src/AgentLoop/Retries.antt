-- ===== src/AgentLoop/Retries.antt =====
-- What a recovery leaves of the retries and turns of an agent loop.
use across_orchestrator.AgentLoop.{
  action_type_Eq, FailureType, failure_type_Eq, is_awaiting, LoopStep, RecoveryAction, stop, retry,
  remediation, require_human, recovery_action_Eq,
}
use across_orchestrator.AgentLoop.State.{
  LoopRun, LoopEvent, recovery_decision, LoopState, emit, Input,
}
use across_orchestrator.AgentLoop.Recovery.{
  Rule, recovery_rule, recovery_attempt_count, steps_before, rolled_back, rollback_loop_to_step,
  append_recovery_approval_step, recover, is_applied, dealt_with, apply_rule, apply_found,
  apply_recovery_policy,
}
use across_orchestrator.AgentLoop.Steps.{has_step}
use across_orchestrator.AgentLoop.Measure.{
  retries_of, retries_left, all_failures, left_of, pending_retries, all_failures-all, left_of-le,
  left_of-lt, Progress, Progress-trans,
}
use across_orchestrator.Base.{
  ℕ, ◌+◌, ◌<◌, String, ◌≡◌, refl, sym, ap, inl, inr, Bool, true, false, Option, none, some, List,
  [], ◌∷◌, arith, nat_Eq, string_Eq, get_or, Option-cases,
}

steps_before-has_step :
    (id other : String) (steps : List LoopStep)
    → has_step other steps ≡ false
    → has_step other (get_or (steps_before id steps) []) ≡ false
unfolding steps_before
steps_before-has_step id other [] k = refl
steps_before-has_step id other (step ∷ steps) k =
    ground (arith, steps_before-has_step id other steps)

-- What a rollback keeps of the loop.
record RollsBack (before after : LoopRun) : Type 0 where
  pub turns : after.max_turns ≡ before.max_turns
  pub policy : after.metadata.recovery_policy ≡ before.metadata.recovery_policy
  pub ids : (id : String) → has_step id before.steps ≡ false → has_step id after.steps ≡ false

rollback-RollsBack :
    (step_id : String) (loop : LoopRun) → RollsBack loop (rollback_loop_to_step step_id loop)
unfolding rollback_loop_to_step rolled_back
rollback-RollsBack step_id loop = elim (Option-cases (steps_before step_id loop.steps)) [
  | inl missing ↦
      rw (rollback_loop_to_step, missing)
        (record { turns = refl; policy = refl; ids = λ other h. h })
  | inr (before, found) ↦
      rw (rollback_loop_to_step, found)
        (record {
          turns = refl;
          policy = refl;
          ids = λ other h.
              rw (ap (λ o. get_or o []) (sym found))
                (steps_before-has_step step_id other loop.steps h);
        })
]

pub Progress-refl : {new : Option String} (s : LoopState) → Progress 0 new s s
Progress-refl s = record {
  turns_kept = refl;
  policy_kept = refl;
  fewer = omega arith;
  later = inr (omega arith);
  ids_kept = λ id h k. h;
}

retry-Progress :
    {new : Option String} (i : Input) (step : LoopStep) (f : FailureType) (s : LoopState)
    → recovery_attempt_count f retry s.events
      < retries_of (recovery_rule s.loop.metadata.recovery_policy f)
    → Progress 0 new s (recover i step f retry s)
unfolding recover emit pending_retries
retry-Progress i step f s h =
    let same = rollback-RollsBack step.step_id s.loop in
    let drop =
      left_of-lt all_failures s.loop.metadata.recovery_policy f s.events (all_failures-all f) h in
    record {
      turns_kept = same.turns;
      policy_kept = same.policy;
      fewer = rw same.policy (omega (arith, drop));
      later = inl (rw same.policy drop);
      ids_kept = λ id none _. same.ids id none;
    }

remediation-Progress :
    {new : Option String} (i : Input) (step : LoopStep) (f : FailureType) (s : LoopState)
    → Progress 0 new s (recover i step f remediation s)
unfolding recover emit pending_retries
remediation-Progress i step f s = record {
  turns_kept = refl;
  policy_kept = refl;
  fewer = left_of-le all_failures s.loop.metadata.recovery_policy f remediation s.events;
  later = inr (omega arith);
  ids_kept = λ id h k. h;
}

pub awaits-not_false : {A : Type 0} → true ≡ false → A
awaits-not_false h = cc

recover-Progress :
    {new : Option String} (i : Input) (step : LoopStep) (f : FailureType) (action : RecoveryAction)
    (s : LoopState)
    → (action ≡ retry
        → recovery_attempt_count f retry s.events
          < retries_of (recovery_rule s.loop.metadata.recovery_policy f))
    → is_awaiting (recover i step f action s).loop.status ≡ false
    → Progress 0 new s (recover i step f action s)
unfolding recover append_recovery_approval_step emit
recover-Progress i step f stop s h k = Progress-refl s
recover-Progress i step f retry s h k = retry-Progress i step f s (h refl)
recover-Progress i step f remediation s h k = remediation-Progress i step f s
recover-Progress i step f require_human s h k = awaits-not_false k

pub pick :
    (P : LoopState → Type 0) (b : Bool) (x y : LoopState)
    → (b ≡ true → is_awaiting x.loop.status ≡ false → P x)
    → (dealt_with b x y).0 ≡ true
    → is_awaiting (dealt_with b x y).1.loop.status ≡ false
    → P (dealt_with b x y).1
pick P true x y h e k = h refl k
pick P false x y h e k = awaits-not_false (sym e)

decided-Progress :
    {new : Option String} (f : FailureType) (action : RecoveryAction) (attempt most : ℕ) (b : Bool)
    (s : LoopState)
    → Progress 0 new s (emit (recovery_decision f action attempt most b) s)
unfolding emit pending_retries left_of retries_left recovery_attempt_count
decided-Progress f action attempt most b s = record {
  turns_kept = refl;
  policy_kept = refl;
  fewer = omega arith;
  later = inr (omega arith);
  ids_kept = λ id h k. h;
}

applied_lt :
    (rule : Rule) (f : FailureType) (events : List LoopEvent)
    → is_applied rule (recovery_attempt_count f rule.action events + 1) ≡ true
    → rule.action ≡ retry
    → recovery_attempt_count f retry events < retries_of (some rule)
applied_lt rule f events h e = ground (arith, ap (λ a. recovery_attempt_count f a events) e)

apply_rule-Progress :
    {new : Option String} (i : Input) (step : LoopStep) (f : FailureType) (rule : Rule)
    (s : LoopState)
    → recovery_rule s.loop.metadata.recovery_policy f ≡ some rule
    → (apply_rule i step f rule (recovery_attempt_count f rule.action s.events + 1) s).0 ≡ true
    → is_awaiting
        (apply_rule i step f rule
          (recovery_attempt_count f rule.action s.events + 1)
          s).1.loop.status
      ≡ false
    → Progress 0 new s
        (apply_rule i step f rule (recovery_attempt_count f rule.action s.events + 1) s).1
unfolding apply_rule emit recovery_attempt_count
apply_rule-Progress {new} i step f rule s found =
    pick (Progress 0 new s) (is_applied rule attempt) (recover i step f rule.action decided) decided
      λ applied quiet.
        Progress-trans
          (decided-Progress f rule.action attempt rule.max_retries (is_applied rule attempt) s)
          (recover-Progress i step f rule.action decided
            (λ retried. rw found (applied_lt rule f s.events applied retried)) quiet)
  where
    attempt : ℕ
    attempt = recovery_attempt_count f rule.action s.events + 1

    decided : LoopState
    decided =
        emit (recovery_decision f rule.action attempt rule.max_retries (is_applied rule attempt)) s

apply_found-Progress :
    {new : Option String} (i : Input) (step : LoopStep) (f : FailureType) (found : Option Rule)
    (s : LoopState)
    → recovery_rule s.loop.metadata.recovery_policy f ≡ found
    → (apply_found i step f found s).0 ≡ true
    → is_awaiting (apply_found i step f found s).1.loop.status ≡ false
    → Progress 0 new s (apply_found i step f found s).1
unfolding apply_found
apply_found-Progress i step f none s e h k = Progress-refl s
apply_found-Progress i step f (some rule) s e h k = apply_rule-Progress i step f rule s e h k

pub apply_recovery-Progress :
    {new : Option String} (i : Input) (step : LoopStep) (f : FailureType) (s : LoopState)
    → (apply_recovery_policy i step f s).0 ≡ true
    → is_awaiting (apply_recovery_policy i step f s).1.loop.status ≡ false
    → Progress 0 new s (apply_recovery_policy i step f s).1
unfolding apply_recovery_policy
apply_recovery-Progress i step f s =
    apply_found-Progress i step f (recovery_rule s.loop.metadata.recovery_policy f) s refl
