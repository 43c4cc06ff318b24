-- ===== src/AgentLoop/Completion.antt =====
-- What it takes for an agent loop to be completed.
use across_orchestrator.AgentLoop.Termination.{Round-cases}
use across_orchestrator.AgentLoop.Opening.{request_loop}
use across_orchestrator.AgentLoop.{
  ActionType, action_type_Eq, failure_type_Eq, Reason, action_lease_expired, turns_over,
  failure_type_for_reason, LoopStatus, is_terminal_loop, recovery_action_Eq,
}
use across_orchestrator.AgentLoop.State.{next_action_selected, LoopState, emit, Input}
use across_orchestrator.AgentLoop.Selection.{
  next_of_policy, next_of_plan, next_of_steps, peek_next_action, budget_exceeded_reason,
  pending_approval_step,
}
use across_orchestrator.AgentLoop.Recovery.{recovery_attempt_count, stop_loop_for_budget}
use across_orchestrator.AgentLoop.Steps.{
  with_steps, counted, latest_running_step, save_step, cancel_loop_state,
}
use across_orchestrator.AgentLoop.Rounds.{
  select_next_action, Round, continues, returns, await_approval, complete_loop, act,
  receive_request, stop_or, cancel_or, checked, round, run_rounds, lease_expiry,
  expire_running_step, holds_lease, recover_or_hold_running_action, run_unheld, run_loop,
}
use across_orchestrator.AgentLoop.Ends.{is_settled}
use across_orchestrator.Base.{
  ℕ, zero, suc, ◌+◌, String, ◌≡◌, refl, ◌∙◌, subst, inl, inr, true, false, Option, none, some, leb,
  nat_Eq, string_Eq, is_some, Bool-cases, Option-cases,
}
use across_orchestrator.AgentLoop.Unfinished.{
  is_completed, Live, Unfinished, Unfinished-returns, Unfinished-continues,
  Unfinished-after_failure, Unfinished-build_step,
}
use across_orchestrator.AgentLoop.Deciding.{
  Finished, Decides, settled_not_open, Decides-select_next_action,
}

-- A round that ends the call with a completed loop has found nothing left to do.
record Completes (r : Round) : Type 0 where
  pub completes : (t : LoopState) → r ≡ returns t → is_completed t.loop.status ≡ true → Finished t
  pub keeps_live : (t : LoopState) → r ≡ continues t → Live t

Completes-Unfinished : (r : Round) → Unfinished r → Completes r
Completes-Unfinished r h = record {
  completes = λ t e k. absurd (settled_not_open (is_completed t.loop.status) k (h.open_still t e));
  keeps_live = h.live_still;
}

Completes-returns :
    (s : LoopState) → (is_completed s.loop.status ≡ true → Finished s) → Completes (returns s)
Completes-returns s h = record {
  completes = λ t e k. let same : s ≡ t = cc in subst Finished same (h (rw same k));
  keeps_live = λ t e. cc;
}

complete_loop-Finished : (s : LoopState) → Finished s → Finished (complete_loop s)
unfolding complete_loop emit peek_next_action next_of_steps next_of_plan next_of_policy
    recovery_attempt_count
complete_loop-Finished s h = h

Completes-act :
    (i : Input) (found : Option ActionType × LoopState) → Decides found → Completes (act i found)
unfolding act stop_loop_for_budget emit
Completes-act i (none, s) h = elim (Bool-cases (is_settled s.loop.status)) [
  | inl settled ↦ rw settled (Completes-Unfinished (returns s) (Unfinished-returns s h.live))
  | inr goes ↦
      rw goes
        (Completes-returns (complete_loop s) λ k. complete_loop-Finished s (h.decides refl goes))
]
Completes-act i (some type, s) h = elim (Bool-cases (leb s.loop.max_turns s.loop.turn_count)) [
  | inl over ↦
      rw over (Completes-Unfinished _ (Unfinished-returns (stop_loop_for_budget turns_over s) refl))
  | inr room ↦ rw room (
      Completes-Unfinished _ (
        Unfinished-build_step i type (emit (next_action_selected type (s.loop.turn_count + 1)) s)
          h.live))
]

Completes-stop_or :
    (reason : Option Reason) (s : LoopState) (r : Round)
    → Completes r
    → Completes (stop_or reason s r)
unfolding stop_or stop_loop_for_budget emit
Completes-stop_or none s r h = h
Completes-stop_or (some reason) s r h =
    Completes-Unfinished _ (Unfinished-returns (stop_loop_for_budget reason s) refl)

Completes-cancel_or :
    (i : Input) (reason : Option String) (s : LoopState) (r : Round)
    → Completes r
    → Completes (cancel_or i reason s r)
unfolding cancel_or cancel_loop_state counted emit
Completes-cancel_or i none s r h = h
Completes-cancel_or i (some reason) s r h =
    Completes-Unfinished _ (Unfinished-returns (cancel_loop_state i.now reason s) refl)

request-Live : (i : Input) (s : LoopState) → Live s → Live (receive_request i s)
request-Live i s h = rw (request_loop i s i.new_request refl) h

Completes-round : (i : Input) (s : LoopState) → Live s → Completes (round i s)
unfolding round receive_request checked emit
Completes-round i s h =
    let t = receive_request i s in
    Completes-stop_or (budget_exceeded_reason i.now t.loop) t _ (
      Completes-cancel_or i t.cancel_request t _ (
        Completes-act i (select_next_action i t)
          (Decides-select_next_action i t (request-Live i s h))))

run_rounds_completed :
    (fuel n : ℕ) (inputs : ℕ → Input) (s t : LoopState)
    → Live s
    → run_rounds fuel n inputs s ≡ some t
    → is_completed t.loop.status ≡ true
    → Finished t
unfolding run_rounds
run_rounds_completed zero n inputs s t l h k = cc
run_rounds_completed (suc fuel) n inputs s t l h k =
    let r = Completes-round (inputs n) s l in
    elim (Round-cases (round (inputs n) s)) [
      | inl (u, went) ↦
          run_rounds_completed fuel (n + 1) inputs u t (r.keeps_live u went)
            (rw (run_rounds, went) at h) k
      | inr (u, ended) ↦ r.completes t (ended ∙ same_returned u t (rw (run_rounds, ended) at h)) k
    ]
  where
    same_returned : (u v : LoopState) → some u ≡ some v → returns u ≡ returns v
    same_returned u v e = cc

awaits-Live : (s t : LoopState) → some (await_approval s) ≡ some t → Live t
unfolding await_approval
awaits-Live s t e = let same : await_approval s ≡ t = cc in rw (← same) refl

run_unheld_completed :
    (fuel : ℕ) (inputs : ℕ → Input) (r : Round) (t : LoopState)
    → Unfinished r
    → run_unheld fuel inputs r ≡ some t
    → is_completed t.loop.status ≡ true
    → Finished t
unfolding run_unheld await_approval
run_unheld_completed fuel inputs (returns s) t u h k =
    absurd (settled_not_open (is_completed t.loop.status) k (u.open_still t (same_returned s t h)))
  where
    same_returned : (x y : LoopState) → some x ≡ some y → returns x ≡ returns y
    same_returned x y e = cc
run_unheld_completed fuel inputs (continues s) t u h k =
    elim (Bool-cases (is_some (pending_approval_step s.loop.steps))) [
      | inl asks ↦
          absurd (settled_not_open (is_completed t.loop.status) k (awaits-Live s t (rw asks at h)))
      | inr quiet ↦
          run_rounds_completed fuel 1 inputs
            (record s { loop = record s.loop { status = LoopStatus.running; error = none } }) t refl
            (rw quiet at h) k
    ]

Unfinished-hold :
    (i : Input) (s : LoopState) → Live s → Unfinished (recover_or_hold_running_action i s)
unfolding recover_or_hold_running_action expire_running_step save_step with_steps counted emit
Unfinished-hold i s h = elim (Option-cases (latest_running_step s.loop)) [
  | inl idle ↦ rw (recover_or_hold_running_action, idle) (Unfinished-continues s h)
  | inr (step, found) ↦ elim (Bool-cases (holds_lease i.now (lease_expiry step))) [
    | inl held ↦ rw (recover_or_hold_running_action, found, held) (Unfinished-returns _ refl)
    | inr late ↦
        rw (recover_or_hold_running_action, found, late)
          (Unfinished-after_failure i _ action_lease_expired
            (failure_type_for_reason action_lease_expired) _ h)
  ]
]

Unfinished-checked :
    (i : Input) (s : LoopState) (r : Round) → Unfinished r → Unfinished (checked i s r)
unfolding checked stop_or cancel_or stop_loop_for_budget cancel_loop_state counted emit
Unfinished-checked i s r h = elim (Option-cases (budget_exceeded_reason i.now s.loop)) [
  | inr (reason, over) ↦ rw over (Unfinished-returns (stop_loop_for_budget reason s) refl)
  | inl within ↦ rw within (cancelled s.cancel_request)
]
  where
    cancelled : (request : Option String) → Unfinished (cancel_or i request s r)
    cancelled none = h
    cancelled (some reason) = Unfinished-returns (cancel_loop_state i.now reason s) refl

-- If `run_loop` returns a completed loop that was not completed before, then no action is left to do
-- and the latest quality gate passed, if there is one; or else the log has a retry after a failed gate.
pub run_loop_completed :
    (fuel : ℕ) (inputs : ℕ → Input) (s t : LoopState)
    → is_completed s.loop.status ≡ false
    → run_loop fuel inputs s ≡ some t
    → is_completed t.loop.status ≡ true
    → Finished t
unfolding run_loop
run_loop_completed fuel inputs s t l h k = elim (Bool-cases (is_terminal_loop s.loop.status)) [
  | inl over ↦
      absurd (settled_not_open (is_completed t.loop.status) k (returned_live s t l (rw over at h)))
  | inr live ↦
      let u = receive_request (inputs 0) s in
      run_unheld_completed fuel inputs
        (checked (inputs 0) u (recover_or_hold_running_action (inputs 0) u)) t
        (Unfinished-checked (inputs 0) u (recover_or_hold_running_action (inputs 0) u)
          (Unfinished-hold (inputs 0) u (request-Live (inputs 0) s l)))
        (rw live at h) k
]
  where
    returned_live :
        (x y : LoopState) → Live x → some (record x { cancel_request = none }) ≡ some y → Live y
    returned_live x y q e = let same : record x { cancel_request = none } ≡ y = cc in rw (← same) q
