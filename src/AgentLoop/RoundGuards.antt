-- ===== src/AgentLoop/RoundGuards.antt =====
-- What a round of an agent loop, and a whole `run_loop`, keep of what may be started.
use across_orchestrator.AgentLoop.{
  ActionType, quality_gate, action_type_Eq, is_final, FailureType, quality_failed, failure_type_Eq,
  Reason, action_failed, quality_gate_failed, turns_over, failure_type_for_reason, is_terminal_loop,
  is_awaiting, is_failed_step, is_waiting_step, Payload, LoopStep, recovery_action_Eq,
}
use across_orchestrator.AgentLoop.State.{
  next_action_selected, step_started, LoopState, emit, Outcome, returned, raised, action_cancelled,
  Input, latest, of_type,
}
use across_orchestrator.AgentLoop.Selection.{
  quality_failed_step, peek_next_action, budget_exceeded_reason,
}
use across_orchestrator.AgentLoop.Recovery.{apply_recovery_policy}
use across_orchestrator.AgentLoop.Steps.{
  with_steps, counted, running_step_of, started_step, mark_step_running, save_step,
  mark_running_step_cancelled, new_step, take_output, finished_step,
}
use across_orchestrator.AgentLoop.Rounds.{
  pop_recovery, recovered_or, continue_or_fail, after_exhaustion, without_action,
  select_next_action, Round, continues, returns, take_step, settle, after_failure, fail_step,
  await_approval, after_step, execute_action, build_step, complete_loop, act, receive_request,
  stop_or, cancel_or, checked, round,
}
use across_orchestrator.AgentLoop.Guards.{
  is_guarded, Guards, Guards-emit, Guards-kept, Guards-apply_recovery_policy, Guards-fail_loop,
  Guards-stop_loop_for_budget, Guards-cancel_loop_state,
}
use across_orchestrator.Base.{
  ℕ, ◌+◌, ◌<◌, String, ◌≡◌, refl, subst, inl, inr, Bool, true, false, ◌||◌, Option, none, some,
  List, arith, leb, if◌then◌else◌, nat_Eq, string_Eq, get_or, Bool-cases, Option-cases, contains,
}

abbrev pub state_of : Round → LoopState
state_of (continues s) = s
state_of (returns s) = s

module _ {policy : List ActionType} {most : ℕ} where
  Guards-recovered_or :
      (s : LoopState) (otherwise : Option ActionType × LoopState)
      → Guards policy most s
      → Guards policy most otherwise.1
      → Guards policy most (recovered_or s otherwise).1
  unfolding pop_recovery recovered_or
  Guards-recovered_or s otherwise g h = elim (Option-cases s.loop.metadata.recovery_next_action) [
    | inl missing ↦ rw (recovered_or, missing) h
    | inr (type, found) ↦ rw (recovered_or, found) (Guards-kept s _ refl refl (λ k. k) g)
  ]

  Guards-continue_or_fail :
      (result : Bool × LoopState)
      → Guards policy most result.1
      → Guards policy most (continue_or_fail result).1
  unfolding continue_or_fail
  Guards-continue_or_fail (false, t) g = Guards-fail_loop quality_gate_failed t g
  Guards-continue_or_fail (true, t) g = elim (Bool-cases (is_awaiting t.loop.status)) [
    | inl waits ↦ rw waits g
    | inr quiet ↦ rw quiet (Guards-recovered_or t (peek_next_action t.loop, t) g g)
  ]

  Guards-without_action :
      (i : Input) (s : LoopState) → Guards policy most s → Guards policy most (without_action i s).1
  unfolding after_exhaustion without_action
  Guards-without_action i s g = elim (Option-cases (latest (of_type quality_gate) s.loop.steps)) [
    | inl missing ↦ rw (without_action, missing) g
    | inr (gate, found) ↦ elim (Bool-cases (quality_failed_step gate)) [
      | inl bad ↦
          rw (without_action, found, bad)
            (Guards-continue_or_fail _ (
              Guards-apply_recovery_policy i gate (failure_type_for_reason quality_gate_failed) s
                g))
      | inr good ↦ rw (without_action, found, good) g
    ]
  ]

  Guards-select_next_action :
      (i : Input) (s : LoopState)
      → Guards policy most s
      → Guards policy most (select_next_action i s).1
  unfolding select_next_action
  Guards-select_next_action i s g = elim (Option-cases (peek_next_action s.loop)) [
    | inl missing ↦
        rw (select_next_action, missing)
          (Guards-recovered_or s (without_action i s) g (Guards-without_action i s g))
    | inr (type, found) ↦ rw (select_next_action, found) (Guards-recovered_or s (some type, s) g g)
  ]

  Guards-settle :
      (reason : Reason) (result : Bool × LoopState)
      → Guards policy most result.1
      → Guards policy most (state_of (settle reason result))
  unfolding settle
  Guards-settle reason (false, t) g = Guards-fail_loop reason t g
  Guards-settle reason (true, t) g = elim (Bool-cases (is_awaiting t.loop.status)) [
    | inl waits ↦ rw waits g
    | inr quiet ↦ rw quiet g
  ]

  pub Guards-after_failure :
      (i : Input) (step : LoopStep) (reason : Reason) (f : FailureType) (s : LoopState)
      → Guards policy most s
      → Guards policy most (state_of (after_failure i step reason f s))
  unfolding after_failure
  Guards-after_failure i step reason f s g =
      Guards-settle reason (apply_recovery_policy i step f s)
        (Guards-apply_recovery_policy i step f s g)

  Guards-fail_step :
      (i : Input) (type : ActionType) (step : LoopStep) (s : LoopState)
      → Guards policy most s
      → Guards policy most (state_of (fail_step i type step s))
  unfolding fail_step take_step counted emit
  Guards-fail_step i type step s g =
      Guards-after_failure i step (action_failed type)
        (get_or step.payload.failure_type quality_failed) _ (Guards-kept s _ refl refl (λ k. k) g)

  Guards-after_step :
      (i : Input) (type : ActionType) (step : LoopStep) (s : LoopState)
      → Guards policy most s
      → Guards policy most (state_of (after_step i type step s))
  unfolding after_step take_step await_approval counted emit
  Guards-after_step i type step s g = elim (Bool-cases (is_failed_step step.status)) [
    | inl bad ↦ rw bad (Guards-fail_step i type step s g)
    | inr well ↦ elim (Bool-cases (is_waiting_step step.status)) [
      | inl waits ↦ rw (well, waits) (Guards-kept s _ refl refl (λ k. k) g)
      | inr done ↦ rw (well, done) (Guards-kept s _ refl refl (λ k. k) g)
    ]
  ]

  pub Guards-output :
      (type : ActionType) (p : Payload) (s : LoopState)
      → Guards policy most s
      → Guards policy most (record s { loop = take_output type p s.loop })
  unfolding take_output
  Guards-output type p s g = elim (Bool-cases (is_final type)) [
    | inl final ↦
        rw final
          (record { policy_kept = g.policy_kept; most_kept = g.most_kept; guarded = g.guarded })
    | inr other ↦
        rw other
          (record { policy_kept = g.policy_kept; most_kept = g.most_kept; guarded = g.guarded })
  ]

  pub Guards-mark_cancelled :
      (i : Input) (type : ActionType) (s : LoopState)
      → Guards policy most s
      → Guards policy most (mark_running_step_cancelled i type s)
  unfolding save_step with_steps mark_running_step_cancelled
  Guards-mark_cancelled i type s g = elim (Option-cases (running_step_of type s.loop)) [
    | inl missing ↦ rw (mark_running_step_cancelled, missing) g
    | inr (step, found) ↦
        rw (mark_running_step_cancelled, found) (Guards-kept s _ refl refl (λ k. k) g)
  ]

  Guards-execute_action :
      (i : Input) (type : ActionType) (step : LoopStep) (outcome : Outcome) (s : LoopState)
      → Guards policy most s
      → Guards policy most (state_of (execute_action i type step outcome s))
  unfolding execute_action
  Guards-execute_action i type step (returned p) s g =
      Guards-after_step i type (finished_step i type p step) _ (Guards-output type p s g)
  Guards-execute_action i type step (raised e) s g = Guards-fail_step i type _ s g
  Guards-execute_action i type step (action_cancelled reason) s g =
      Guards-cancel_loop_state i.now reason _ (Guards-mark_cancelled i type s g)

  -- A step may be started that is approved, or that needs no approval and is within the turns.
  pub Guards-mark_step_running :
      (i : Input) (step : LoopStep) (s : LoopState)
      → is_guarded policy most (step_started step) ≡ true
      → Guards policy most s
      → Guards policy most (mark_step_running i step s)
  unfolding mark_step_running started_step counted emit
  Guards-mark_step_running i step s h g = Guards-kept s _ refl refl (λ k. rw h k) g

  free_step :
      (i : Input) (type : ActionType) (s : LoopState)
      → Guards policy most s
      → s.loop.turn_count < s.loop.max_turns
      → contains s.loop.require_approval_for type ≡ false
      → is_guarded policy most (step_started (new_step i s.loop type false)) ≡ true
  unfolding new_step
  free_step i type s g h free =
      let c = subst (λ p. contains p type ≡ false) g.policy_kept free in
      let l = subst (λ n. s.loop.turn_count < n) g.most_kept h in ground arith

  Guards-build_step :
      (i : Input) (type : ActionType) (s : LoopState)
      → s.loop.turn_count < s.loop.max_turns
      → Guards policy most s
      → Guards policy most (state_of (build_step i type s))
  unfolding build_step
  Guards-build_step i type s h g = elim (Bool-cases (contains s.loop.require_approval_for type)) [
    | inl asks ↦ rw asks (Guards-after_step i type (new_step i s.loop type true) s g)
    | inr free ↦ rw free (
        Guards-execute_action i type (started_step i s.loop (new_step i s.loop type false))
          i.outcome (mark_step_running i (new_step i s.loop type false) s)
          (Guards-mark_step_running i (new_step i s.loop type false) s (free_step i type s g h free)
            g))
  ]

  Guards-complete_or_keep :
      (s : LoopState)
      → Guards policy most s
      → Guards policy most (
          if is_terminal_loop s.loop.status || is_awaiting s.loop.status
          then s
          else complete_loop s)
  unfolding complete_loop emit
  Guards-complete_or_keep s g =
      elim (Bool-cases (is_terminal_loop s.loop.status || is_awaiting s.loop.status)) [
        | inl kept ↦ rw kept g
        | inr done ↦ rw done (Guards-kept s _ refl refl (λ k. k) g)
      ]

  Guards-act :
      (i : Input) (found : Option ActionType × LoopState)
      → Guards policy most found.1
      → Guards policy most (state_of (act i found))
  unfolding act
  Guards-act i (none, s) g = Guards-complete_or_keep s g
  Guards-act i (some type, s) g = elim (Bool-cases (leb s.loop.max_turns s.loop.turn_count)) [
    | inl over ↦ rw over (Guards-stop_loop_for_budget turns_over s g)
    | inr room ↦ rw room (
        Guards-build_step i type (emit (next_action_selected type (s.loop.turn_count + 1)) s)
          (has_room s.loop.max_turns s.loop.turn_count room)
          (Guards-emit (next_action_selected type (s.loop.turn_count + 1)) s refl g))
  ]
    where
      has_room : (m n : ℕ) → leb m n ≡ false → n < m
      has_room m n k = ground arith

  Guards-stop_or :
      (reason : Option Reason) (s : LoopState) (r : Round)
      → Guards policy most s
      → Guards policy most (state_of r)
      → Guards policy most (state_of (stop_or reason s r))
  unfolding stop_or
  Guards-stop_or none s r g h = h
  Guards-stop_or (some reason) s r g h = Guards-stop_loop_for_budget reason s g

  Guards-cancel_or :
      (i : Input) (reason : Option String) (s : LoopState) (r : Round)
      → Guards policy most s
      → Guards policy most (state_of r)
      → Guards policy most (state_of (cancel_or i reason s r))
  unfolding cancel_or
  Guards-cancel_or i none s r g h = h
  Guards-cancel_or i (some reason) s r g h = Guards-cancel_loop_state i.now reason s g

  pub Guards-checked :
      (i : Input) (s : LoopState) (r : Round)
      → Guards policy most s
      → Guards policy most (state_of r)
      → Guards policy most (state_of (checked i s r))
  unfolding checked
  Guards-checked i s r g h =
      Guards-stop_or (budget_exceeded_reason i.now s.loop) s (cancel_or i s.cancel_request s r) g
        (Guards-cancel_or i s.cancel_request s r g h)

  pub Guards-receive_request :
      (i : Input) (s : LoopState) → Guards policy most s → Guards policy most (receive_request i s)
  unfolding receive_request emit
  Guards-receive_request i s g = elim (Option-cases i.new_request) [
    | inl quiet ↦ rw (receive_request, quiet) g
    | inr (reason, asked) ↦ rw (receive_request, asked) (Guards-kept s _ refl refl (λ k. k) g)
  ]

  pub Guards-round :
      (i : Input) (s : LoopState) → Guards policy most s → Guards policy most (state_of (round i s))
  unfolding round
  Guards-round i s g =
      let t = receive_request i s in
      let h = Guards-receive_request i s g in
      Guards-checked i t (act i (select_next_action i t)) h
        (Guards-act i (select_next_action i t) (Guards-select_next_action i t h))
