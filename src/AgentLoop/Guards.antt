-- ===== src/AgentLoop/Guards.antt =====
-- What a call of an agent loop keeps: which actions have been started, and under which approval.
use across_orchestrator.AgentLoop.{
  ActionType, action_type_Eq, FailureType, failure_type_Eq, Reason, is_approved, LoopStep,
  RecoveryAction, stop, retry, remediation, require_human, recovery_action_Eq,
}
use across_orchestrator.AgentLoop.State.{
  LoopRun, LoopEvent, step_started, step_cancelled, LoopState, emit, Input,
}
use across_orchestrator.AgentLoop.Recovery.{
  Rule, recovery_rule, steps_before, rolled_back, rollback_loop_to_step,
  append_recovery_approval_step, recover, dealt_with, apply_rule, apply_found,
  apply_recovery_policy, fail_loop, stop_loop_for_budget,
}
use across_orchestrator.AgentLoop.Steps.{counted, cancel_step, cancelled_events, cancel_loop_state}
use across_orchestrator.Base.{
  ℕ, String, ◌≡◌, refl, ◌∙◌, Bool, true, false, not, ◌&&◌, ◌||◌, Option, none, some, List, [], ◌∷◌,
  map, arith, leb, nat_Eq, string_Eq, all, contains,
}

-- A step is started only if it is approved, or if its type needs no approval and its turn is one of
-- the loop's.
abbrev pub is_guarded : List ActionType → ℕ → LoopEvent → Bool
is_guarded policy most (step_started step) =
    is_approved step.action.approval_status
    || (not (contains policy step.action.action_type) && leb step.turn most)
is_guarded policy most _ = true

pub record Guards (policy : List ActionType) (most : ℕ) (s : LoopState) : Type 0 where
  pub policy_kept : s.loop.require_approval_for ≡ policy
  pub most_kept : s.loop.max_turns ≡ most
  pub guarded : all (is_guarded policy most) s.events ≡ true

pub record LoopGuards (policy : List ActionType) (most : ℕ) (loop : LoopRun) : Type 0 where
  pub policy_kept : loop.require_approval_for ≡ policy
  pub most_kept : loop.max_turns ≡ most

cancelled_events-guarded :
    (policy : List ActionType) (most : ℕ) (steps : List LoopStep) (events : List LoopEvent)
    → all (is_guarded policy most) events ≡ true
    → all (is_guarded policy most) (cancelled_events steps events) ≡ true
unfolding cancelled_events
cancelled_events-guarded policy most [] events h = h
cancelled_events-guarded policy most (step ∷ steps) events h = ground (
  arith,
  cancelled_events-guarded policy most steps (step_cancelled step ∷ events) h,
  cancelled_events-guarded policy most steps events h,
)

module _ {policy : List ActionType} {most : ℕ} where
  pub Guards-emit :
      (e : LoopEvent) (s : LoopState)
      → is_guarded policy most e ≡ true
      → Guards policy most s
      → Guards policy most (emit e s)
  unfolding emit
  Guards-emit e s h g = record {
    policy_kept = g.policy_kept;
    most_kept = g.most_kept;
    guarded = rw h g.guarded;
  }

  -- A change of the loop that leaves its policy, its turns and what was started.
  pub Guards-kept :
      (s t : LoopState)
      → t.loop.require_approval_for ≡ s.loop.require_approval_for
      → t.loop.max_turns ≡ s.loop.max_turns
      → (all (is_guarded policy most) s.events ≡ true
          → all (is_guarded policy most) t.events ≡ true)
      → Guards policy most s
      → Guards policy most t
  Guards-kept s t p m h g = record {
    policy_kept = p ∙ g.policy_kept;
    most_kept = m ∙ g.most_kept;
    guarded = h g.guarded;
  }

  rollback-guards :
      (id : String) (loop : LoopRun) (found : Option (List LoopStep))
      → steps_before id loop.steps ≡ found
      → LoopGuards policy most loop
      → LoopGuards policy most (rollback_loop_to_step id loop)
  unfolding rollback_loop_to_step rolled_back
  rollback-guards id loop none e g = rw (rollback_loop_to_step, e) g
  rollback-guards id loop (some before) e g =
      rw (rollback_loop_to_step, e)
        (record { policy_kept = g.policy_kept; most_kept = g.most_kept })

  pub to_loop : (s : LoopState) → Guards policy most s → LoopGuards policy most s.loop
  to_loop s g = record { policy_kept = g.policy_kept; most_kept = g.most_kept }

  Guards-recover :
      (i : Input) (step : LoopStep) (f : FailureType) (action : RecoveryAction) (s : LoopState)
      → Guards policy most s
      → Guards policy most (recover i step f action s)
  unfolding recover append_recovery_approval_step emit
  Guards-recover i step f stop s g = g
  Guards-recover i step f retry s g =
      let kept =
        rollback-guards step.step_id s.loop (steps_before step.step_id s.loop.steps) refl
          (to_loop s g) in
      record { policy_kept = kept.policy_kept; most_kept = kept.most_kept; guarded = g.guarded }
  Guards-recover i step f remediation s g = Guards-kept s _ refl refl (λ h. h) g
  Guards-recover i step f require_human s g = Guards-kept s _ refl refl (λ h. h) g

  Guards-dealt_with :
      (b : Bool) (s t : LoopState)
      → Guards policy most s
      → Guards policy most t
      → Guards policy most (dealt_with b s t).1
  Guards-dealt_with true s t g h = g
  Guards-dealt_with false s t g h = h

  Guards-apply_found :
      (i : Input) (step : LoopStep) (f : FailureType) (found : Option Rule) (s : LoopState)
      → Guards policy most s
      → Guards policy most (apply_found i step f found s).1
  unfolding apply_found apply_rule
  Guards-apply_found i step f none s g = g
  Guards-apply_found i step f (some rule) s g =
      let decided = Guards-emit _ s refl g in
      Guards-dealt_with _ _ _ (Guards-recover i step f rule.action _ decided) decided

  pub Guards-apply_recovery_policy :
      (i : Input) (step : LoopStep) (f : FailureType) (s : LoopState)
      → Guards policy most s
      → Guards policy most (apply_recovery_policy i step f s).1
  unfolding apply_recovery_policy
  Guards-apply_recovery_policy i step f s g =
      Guards-apply_found i step f (recovery_rule s.loop.metadata.recovery_policy f) s g

  pub Guards-fail_loop :
      (reason : Reason) (s : LoopState)
      → Guards policy most s
      → Guards policy most (fail_loop reason s)
  unfolding fail_loop emit
  Guards-fail_loop reason s g = Guards-kept s _ refl refl (λ h. h) g

  pub Guards-stop_loop_for_budget :
      (reason : Reason) (s : LoopState)
      → Guards policy most s
      → Guards policy most (stop_loop_for_budget reason s)
  unfolding stop_loop_for_budget emit
  Guards-stop_loop_for_budget reason s g = Guards-kept s _ refl refl (λ h. h) g

  pub Guards-cancel_loop_state :
      (now : ℕ) (reason : String) (s : LoopState)
      → Guards policy most s
      → Guards policy most (cancel_loop_state now reason s)
  unfolding cancel_loop_state counted emit
  Guards-cancel_loop_state now reason s g =
      Guards-kept s _ refl refl
        (cancelled_events-guarded policy most (map (cancel_step now) s.loop.steps) s.events) g
