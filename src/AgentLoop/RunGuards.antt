-- ===== src/AgentLoop/RunGuards.antt =====
-- What `run_loop` keeps of what may be started.
use across_orchestrator.AgentLoop.{
  ActionType, action_type_Eq, failure_type_Eq, action_lease_expired, failure_type_for_reason,
  LoopStatus, is_terminal_loop, LoopStep, recovery_action_Eq,
}
use across_orchestrator.AgentLoop.State.{LoopState, emit, Input}
use across_orchestrator.AgentLoop.Selection.{pending_approval_step}
use across_orchestrator.AgentLoop.Steps.{with_steps, counted, latest_running_step, save_step}
use across_orchestrator.AgentLoop.Rounds.{
  Round, continues, returns, await_approval, receive_request, checked, round, run_rounds,
  lease_expiry, expire_running_step, holds_lease, recover_or_hold_running_action, run_unheld,
  run_loop,
}
use across_orchestrator.AgentLoop.Guards.{Guards, Guards-kept}
use across_orchestrator.AgentLoop.RoundGuards.{
  state_of, Guards-after_failure, Guards-checked, Guards-receive_request, Guards-round,
}
use across_orchestrator.AgentLoop.Termination.{Round-cases}
use across_orchestrator.Base.{
  ℕ, zero, suc, ◌+◌, refl, subst, inl, inr, Option, none, some, List, nat_Eq, string_Eq, is_some,
  get_or, Bool-cases, Option-cases,
}

-- A result that may be missing.
abbrev pub GuardsResult : List ActionType → ℕ → Option LoopState → Type 0
GuardsResult policy most none = Unit
GuardsResult policy most (some s) = Guards policy most s

pub GuardsResult-get_or :
    (policy : List ActionType) (most : ℕ) (found : Option LoopState) (s : LoopState)
    → GuardsResult policy most found
    → Guards policy most s
    → Guards policy most (get_or found s)
GuardsResult-get_or policy most none s h g = g
GuardsResult-get_or policy most (some t) s h g = h

module _ {policy : List ActionType} {most : ℕ} where
  Guards-run_rounds :
      (fuel n : ℕ) (inputs : ℕ → Input) (s : LoopState)
      → Guards policy most s
      → GuardsResult policy most (run_rounds fuel n inputs s)
  unfolding run_rounds
  Guards-run_rounds zero n inputs s g = tt
  Guards-run_rounds (suc fuel) n inputs s g =
      let kept = Guards-round (inputs n) s g in
      elim (Round-cases (round (inputs n) s)) [
        | inl (t, went) ↦
            rw (run_rounds, went)
              (Guards-run_rounds fuel (n + 1) inputs t
                (subst (λ r. Guards policy most (state_of r)) went kept))
        | inr (t, ended) ↦
            rw (run_rounds, ended) (subst (λ r. Guards policy most (state_of r)) ended kept)
      ]

  Guards-run_unheld :
      (fuel : ℕ) (inputs : ℕ → Input) (r : Round)
      → Guards policy most (state_of r)
      → GuardsResult policy most (run_unheld fuel inputs r)
  unfolding run_unheld await_approval
  Guards-run_unheld fuel inputs (returns s) g = g
  Guards-run_unheld fuel inputs (continues s) g =
      elim (Bool-cases (is_some (pending_approval_step s.loop.steps))) [
        | inl asks ↦ rw asks (Guards-kept s _ refl refl (λ k. k) g)
        | inr quiet ↦ rw quiet (
            Guards-run_rounds fuel 1 inputs
              (record s { loop = record s.loop { status = LoopStatus.running; error = none } })
              (Guards-kept s _ refl refl (λ k. k) g))
      ]

  Guards-expire :
      (i : Input) (step : LoopStep) (s : LoopState)
      → Guards policy most s
      → Guards policy most (state_of (expire_running_step i step s))
  unfolding expire_running_step save_step with_steps counted emit
  Guards-expire i step s g =
      Guards-after_failure i _ action_lease_expired (failure_type_for_reason action_lease_expired) _
        (Guards-kept s _ refl refl (λ k. k) g)

  Guards-recover_or_hold :
      (i : Input) (s : LoopState)
      → Guards policy most s
      → Guards policy most (state_of (recover_or_hold_running_action i s))
  unfolding recover_or_hold_running_action
  Guards-recover_or_hold i s g = elim (Option-cases (latest_running_step s.loop)) [
    | inl idle ↦ rw (recover_or_hold_running_action, idle) g
    | inr (step, found) ↦ elim (Bool-cases (holds_lease i.now (lease_expiry step))) [
      | inl held ↦
          rw (recover_or_hold_running_action, found, held) (Guards-kept s _ refl refl (λ k. k) g)
      | inr late ↦ rw (recover_or_hold_running_action, found, late) (Guards-expire i step s g)
    ]
  ]

  pub Guards-run_loop :
      (fuel : ℕ) (inputs : ℕ → Input) (s : LoopState)
      → Guards policy most s
      → GuardsResult policy most (run_loop fuel inputs s)
  unfolding run_loop
  Guards-run_loop fuel inputs s g = elim (Bool-cases (is_terminal_loop s.loop.status)) [
    | inl over ↦ rw over (Guards-kept s _ refl refl (λ k. k) g)
    | inr live ↦
        let t = receive_request (inputs 0) s in
        let h = Guards-receive_request (inputs 0) s g in
        rw live (
          Guards-run_unheld fuel inputs
            (checked (inputs 0) t (recover_or_hold_running_action (inputs 0) t))
            (Guards-checked (inputs 0) t (recover_or_hold_running_action (inputs 0) t) h
              (Guards-recover_or_hold (inputs 0) t h)))
  ]
