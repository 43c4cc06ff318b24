-- ===== src/AgentLoop/Approval.antt =====
-- No action that needs approval is started without one, whatever a host and its adapters do.
use across_orchestrator.AgentLoop.{
  ActionType, action_type_Eq, failure_type_Eq, Reason, action_failed, StepStatus, LoopStatus,
  is_terminal_loop, is_waiting_step, Payload, LoopStep, recovery_action_Eq,
}
use across_orchestrator.AgentLoop.State.{
  cancel_requested, LoopState, emit, Outcome, returned, raised, action_cancelled, Input,
}
use across_orchestrator.AgentLoop.Recovery.{steps_before, rolled_back}
use across_orchestrator.AgentLoop.Steps.{end_step, with_steps, counted, save_step, take_output}
use across_orchestrator.AgentLoop.Guards.{
  Guards, Guards-kept, Guards-apply_recovery_policy, Guards-fail_loop, Guards-cancel_loop_state,
}
use across_orchestrator.AgentLoop.RoundGuards.{
  Guards-output, Guards-mark_cancelled, Guards-mark_step_running,
}
use across_orchestrator.AgentLoop.Host.{
  find_action, approved_step, complete_approved, fail_unless, fail_approved, execute_approved,
  approve_step, answer, approve_action, reject_step, reject_action, retry_from, retry_step,
  cancel_loop, Request, new_loop, may_start, begun, start_loop, HostCall, run, approve, reject,
  retry_from_step, cancel, host_call, host_calls,
}
use across_orchestrator.Base.{
  ℕ, String, ◌≡◌, refl, subst, inl, inr, Bool, true, false, Option, none, some, List, [], ◌∷◌,
  nat_Eq, string_Eq, Bool-cases,
}
use across_orchestrator.AgentLoop.RunGuards.{GuardsResult, GuardsResult-get_or, Guards-run_loop}

module _ {policy : List ActionType} {most : ℕ} where
  Guards-fail_unless :
      (reason : Reason) (result : Bool × LoopState)
      → Guards policy most result.1
      → Guards policy most (fail_unless reason result)
  unfolding fail_unless
  Guards-fail_unless reason (true, t) g = g
  Guards-fail_unless reason (false, t) g = Guards-fail_loop reason t g

  Guards-fail_approved :
      (i : Input) (step : LoopStep) (s : LoopState)
      → Guards policy most s
      → Guards policy most (fail_approved i step s)
  unfolding fail_approved save_step with_steps counted emit
  Guards-fail_approved i step s g =
      Guards-fail_unless (action_failed step.action.action_type) _
        (Guards-apply_recovery_policy i step _ _ (Guards-kept s _ refl refl (λ k. k) g))

  Guards-complete_approved :
      (i : Input) (p : Payload) (step : LoopStep) (s : LoopState)
      → Guards policy most s
      → Guards policy most (complete_approved i p step s)
  unfolding complete_approved save_step with_steps counted emit
  Guards-complete_approved i p step s g =
      let t = save_step (end_step i.now StepStatus.completed p step) s in
      let u = record t { loop = counted (record t.loop { status = LoopStatus.running }) } in
      let v = record u { loop = take_output step.action.action_type p u.loop } in
      Guards-kept v _ refl refl (λ k. k)
        (Guards-output step.action.action_type p u (Guards-kept s u refl refl (λ k. k) g))

  Guards-execute_approved :
      (i : Input) (step : LoopStep) (outcome : Outcome) (s : LoopState)
      → Guards policy most s
      → Guards policy most (execute_approved i step outcome s)
  unfolding execute_approved
  Guards-execute_approved i step (returned p) s g = Guards-complete_approved i p step s g
  Guards-execute_approved i step (raised e) s g = Guards-fail_approved i _ s g
  Guards-execute_approved i step (action_cancelled reason) s g =
      Guards-cancel_loop_state i.now reason _ (Guards-mark_cancelled i step.action.action_type s g)

  Guards-approve_step :
      (i : Input) (step : LoopStep) (s : LoopState)
      → Guards policy most s
      → Guards policy most (approve_step i step s)
  unfolding approve_step approved_step
  Guards-approve_step i step s g =
      Guards-execute_approved i _ i.outcome _ (Guards-mark_step_running i _ s refl g)

  Guards-answer :
      (change : LoopStep → LoopState → LoopState) (found : Option LoopStep) (s : LoopState)
      → ((step : LoopStep) → Guards policy most (change step s))
      → Guards policy most s
      → GuardsResult policy most (answer change found s)
  unfolding answer
  Guards-answer change none s h g = tt
  Guards-answer change (some step) s h g = elim (Bool-cases (is_waiting_step step.status)) [
    | inl waits ↦ rw waits (h step)
    | inr other ↦ rw other g
  ]

  Guards-approve_action :
      (i : Input) (id : String) (s : LoopState)
      → Guards policy most s
      → GuardsResult policy most (approve_action i id s)
  unfolding approve_action
  Guards-approve_action i id s g = elim (Bool-cases (is_terminal_loop s.loop.status)) [
    | inl over ↦ rw over g
    | inr live ↦ rw live (
        Guards-answer (approve_step i) (find_action id s.loop.steps) s
          (λ step. Guards-approve_step i step s g) g)
  ]

  Guards-reject_action :
      (id : String) (s : LoopState)
      → Guards policy most s
      → GuardsResult policy most (reject_action id s)
  unfolding reject_action reject_step save_step with_steps emit
  Guards-reject_action id s g = elim (Bool-cases (is_terminal_loop s.loop.status)) [
    | inl over ↦ rw over g
    | inr live ↦ rw live (
        Guards-answer reject_step (find_action id s.loop.steps) s
          (λ step. Guards-kept s _ refl refl (λ k. k) g) g)
  ]

  Guards-retry_from :
      (id : String) (found : Option (List LoopStep)) (s : LoopState)
      → Guards policy most s
      → GuardsResult policy most (retry_from id found s)
  unfolding retry_from rolled_back emit
  Guards-retry_from id none s g = tt
  Guards-retry_from id (some before) s g = Guards-kept s _ refl refl (λ k. k) g

  Guards-cancel_loop :
      (now : ℕ) (locked : Bool) (reason : String) (s : LoopState)
      → Guards policy most s
      → Guards policy most (cancel_loop now locked reason s)
  unfolding cancel_loop emit
  Guards-cancel_loop now locked reason s g = elim (Bool-cases (is_terminal_loop s.loop.status)) [
    | inl over ↦ rw over (Guards-kept s _ refl refl (λ k. k) g)
    | inr live ↦
        let asked = emit (cancel_requested reason) (record s { cancel_request = some reason }) in
        let h = Guards-kept s asked refl refl (λ k. k) g in
        elim (Bool-cases locked) [
          | inl held ↦ rw (live, held) h
          | inr free ↦ rw (live, free) (Guards-cancel_loop_state now reason asked h)
        ]
  ]

  Guards-host_call :
      (call : HostCall) (s : LoopState)
      → Guards policy most s
      → Guards policy most (host_call call s)
  unfolding host_call retry_step
  Guards-host_call (run fuel inputs) s g =
      GuardsResult-get_or policy most _ s (Guards-run_loop fuel inputs s g) g
  Guards-host_call (approve i id) s g =
      GuardsResult-get_or policy most _ s (Guards-approve_action i id s g) g
  Guards-host_call (reject id) s g =
      GuardsResult-get_or policy most _ s (Guards-reject_action id s g) g
  Guards-host_call (retry_from_step id) s g =
      GuardsResult-get_or policy most _ s (Guards-retry_from id (steps_before id s.loop.steps) s g)
        g
  Guards-host_call (cancel now locked reason) s g = Guards-cancel_loop now locked reason s g

  Guards-host_calls :
      (calls : List HostCall) (s : LoopState)
      → Guards policy most s
      → Guards policy most (host_calls calls s)
  unfolding host_calls
  Guards-host_calls [] s g = g
  Guards-host_calls (call ∷ calls) s g =
      Guards-host_calls calls (host_call call s) (Guards-host_call call s g)

Guards-begun :
    (now : ℕ) (r : Request)
    → Guards r.require_approval_for (begun now r).loop.max_turns (begun now r)
unfolding begun new_loop
Guards-begun now r = record { policy_kept = refl; most_kept = refl; guarded = refl }

some_injective : (a b : LoopState) → some a ≡ some b → a ≡ b
some_injective a b e = cc

-- From the start of a loop on, whatever calls its host makes and whatever the adapters do, every step
-- that was ever started was approved, or is of a type that needs no approval and has a turn within
-- the loop's turns.
pub host_calls-Guards :
    (now active : ℕ) (r : Request) (calls : List HostCall) (s : LoopState)
    → start_loop now active r ≡ some s
    → Guards r.require_approval_for s.loop.max_turns (host_calls calls s)
unfolding start_loop
host_calls-Guards now active r calls s h = elim (Bool-cases (may_start active r)) [
  | inl may ↦
      subst (λ t. Guards r.require_approval_for t.loop.max_turns (host_calls calls t))
        (some_injective (begun now r) s (rw may at h))
        (Guards-host_calls calls (begun now r) (Guards-begun now r))
  | inr refused ↦ absurd (none_not (rw refused at h))
]
  where
    none_not : none ≡ some s → ⊥
    none_not e = cc
