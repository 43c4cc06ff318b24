-- ===== src/AgentLoop/Opening.antt =====
-- That `run_loop` ends, from the checks with which it opens to the last round.
use across_orchestrator.AgentLoop.{
  action_type_Eq, failure_type_Eq, Reason, action_lease_expired, failure_type_for_reason,
  LoopStatus, is_terminal_loop, LoopStep, recovery_action_Eq,
}
use across_orchestrator.AgentLoop.State.{LoopState, emit, Input}
use across_orchestrator.AgentLoop.Selection.{budget_exceeded_reason, pending_approval_step}
use across_orchestrator.AgentLoop.Recovery.{stop_loop_for_budget}
use across_orchestrator.AgentLoop.Steps.{
  with_steps, counted, latest_running_step, save_step, cancel_loop_state,
}
use across_orchestrator.AgentLoop.Rounds.{
  Round, continues, returns, await_approval, receive_request, stop_or, cancel_or, checked,
  lease_expiry, expire_running_step, holds_lease, recover_or_hold_running_action, run_unheld,
  run_loop,
}
use across_orchestrator.AgentLoop.Measure.{
  pending_retries, fuel_for, Progress, Progress-trans, fuel_for-le,
}
use across_orchestrator.AgentLoop.Retries.{Progress-refl}
use across_orchestrator.AgentLoop.Turns.{emit-Progress, has_step-replaced}
use across_orchestrator.AgentLoop.Ends.{
  is_settled, Ends, Ends-returns, Ends-continues, after_failure-Ends,
}
use across_orchestrator.AgentLoop.Termination.{
  Unused, Distinct, request-Progress, Round-cases, run_rounds_ends,
}
use across_orchestrator.Base.{
  ℕ, ◌≤◌, max, String, ◌≡◌, refl, sym, ap, ◌⊎◌, inl, inr, true, Option, none, some, arith, nat_Eq,
  string_Eq, is_some, Bool-cases, Option-cases,
}

-- Opening the call costs no fuel, and where it ends the call, the loop is settled or its action held.
record Opens (s : LoopState) (r : Round) : Type 0 where
  pub costs : (t : LoopState) → r ≡ continues t → Progress 0 none s t
  pub ends :
      (t : LoopState)
      → r ≡ returns t
      → (is_settled t.loop.status ≡ true) ⊎ (is_some (latest_running_step s.loop) ≡ true)

Opens-returns : (s t : LoopState) → is_settled t.loop.status ≡ true → Opens s (returns t)
Opens-returns s t h = record {
  costs = λ u e. cc;
  ends = λ u e. inl ((Ends-returns {n = 0} {new = none} s t h).rests u e);
}

save-Progress :
    (s : LoopState) (step : LoopStep) (turn : ℕ)
    → Progress 0 none s (record (save_step step s) {
      loop = counted (record (save_step step s).loop { turn_count = max s.loop.turn_count turn });
    })
unfolding save_step with_steps counted pending_retries
save-Progress s step turn = record {
  turns_kept = refl;
  policy_kept = refl;
  fewer = omega arith;
  later = inr (omega arith);
  ids_kept = λ id h k. has_step-replaced id step.step_id step s.loop.steps refl h;
}

expire-Ends :
    (i : Input) (s : LoopState) (step : LoopStep) → Ends 0 none s (expire_running_step i step s)
unfolding expire_running_step
expire-Ends i s step =
    after_failure-Ends i s _ _ action_lease_expired (failure_type_for_reason action_lease_expired)
      (emit-Progress _ s _ refl (save-Progress s _ step.turn))

held_or_expired :
    (i : Input) (s : LoopState) (step : LoopStep)
    → latest_running_step s.loop ≡ some step
    → Opens s (recover_or_hold_running_action i s)
unfolding recover_or_hold_running_action
held_or_expired i s step found = elim (Bool-cases (holds_lease i.now (lease_expiry step))) [
  | inl held ↦
      rw (recover_or_hold_running_action, found, held)
        (record { costs = λ u e. cc; ends = λ u e. inr (rw found refl) })
  | inr late ↦
      rw (recover_or_hold_running_action, found, late)
        (record {
          costs = (expire-Ends i s step).went;
          ends = λ u e. inl ((expire-Ends i s step).rests u e);
        })
]

recover_or_hold-Opens : (i : Input) (s : LoopState) → Opens s (recover_or_hold_running_action i s)
unfolding recover_or_hold_running_action
recover_or_hold-Opens i s = elim (Option-cases (latest_running_step s.loop)) [
  | inl idle ↦
      rw (recover_or_hold_running_action, idle)
        (record {
          costs = (Ends-continues s s (Progress-refl {new = none} s)).went;
          ends = (λ u e. cc);
        })
  | inr (step, found) ↦ held_or_expired i s step found
]

stop_or-Opens :
    (reason : Option Reason) (s t : LoopState) (r : Round)
    → Opens s r
    → Opens s (stop_or reason t r)
unfolding stop_or stop_loop_for_budget emit
stop_or-Opens none s t r h = h
stop_or-Opens (some reason) s t r h = Opens-returns s (stop_loop_for_budget reason t) refl

cancel_or-Opens :
    (i : Input) (reason : Option String) (s t : LoopState) (r : Round)
    → Opens s r
    → Opens s (cancel_or i reason t r)
unfolding cancel_or cancel_loop_state counted emit
cancel_or-Opens i none s t r h = h
cancel_or-Opens i (some reason) s t r h = Opens-returns s (cancel_loop_state i.now reason t) refl

pub request_loop :
    (i : Input) (s : LoopState) (request : Option String)
    → i.new_request ≡ request
    → (receive_request i s).loop ≡ s.loop
unfolding receive_request emit
request_loop i s none e = rw e refl
request_loop i s (some reason) e = rw e refl

opening-Opens :
    (i : Input) (s : LoopState)
    → Opens s
        (checked i (receive_request i s) (recover_or_hold_running_action i (receive_request i s)))
unfolding checked
opening-Opens i s =
    let t = receive_request i s in
    let r = recover_or_hold_running_action i t in
    let h = recover_or_hold-Opens i t in
    stop_or-Opens (budget_exceeded_reason i.now t.loop) s t (cancel_or i t.cancel_request t r) (
      cancel_or-Opens i t.cancel_request s t r (record {
        costs = λ u e. Progress-trans (request-Progress i s i.new_request refl) (h.costs u e);
        ends = λ u e.
            rw
              (ap (λ l. is_some (latest_running_step l))
                (sym (request_loop i s i.new_request refl)))
              (h.ends u e);
      }))

run_unheld_ends :
    (fuel : ℕ) (inputs : ℕ → Input) (s : LoopState)
    → Distinct inputs
    → Unused inputs 1 s
    → fuel_for s ≤ fuel
    → (t : LoopState) × (run_unheld fuel inputs (continues s) ≡ some t)
      × (is_settled t.loop.status ≡ true)
unfolding run_unheld await_approval fuel_for pending_retries
run_unheld_ends fuel inputs s d u h =
    elim (Bool-cases (is_some (pending_approval_step s.loop.steps))) [
      | inl asks ↦ (await_approval s, rw asks refl, refl)
      | inr none_asks ↦ rw none_asks (
          run_rounds_ends fuel 1 inputs
            (record s { loop = record s.loop { status = LoopStatus.running; error = none } }) d u h)
    ]

-- With distinct ids for the steps, enough fuel lets `run_loop` return, whatever the adapters do and
-- whenever cancel requests come in. The loop is then completed, failed, stopped, cancelled or
-- awaiting approval, unless an action of it was still running when the call came.
pub run_loop_ends :
    (fuel : ℕ) (inputs : ℕ → Input) (s : LoopState)
    → Distinct inputs
    → Unused inputs 1 s
    → fuel_for s ≤ fuel
    → (t : LoopState) × (run_loop fuel inputs s ≡ some t)
      × ((is_settled t.loop.status ≡ true) ⊎ (is_some (latest_running_step s.loop) ≡ true))
unfolding run_loop run_unheld
run_loop_ends fuel inputs s d u h = elim (Bool-cases (is_terminal_loop s.loop.status)) [
  | inl over ↦ (record s { cancel_request = none }, rw over refl, inl (rw over refl))
  | inr live ↦ rw live (opened_ends (Round-cases _))
]
  where
    r : Round
    r =
        checked (inputs 0) (receive_request (inputs 0) s)
          (recover_or_hold_running_action (inputs 0) (receive_request (inputs 0) s))

    opened_ends :
        ((v : LoopState) × (r ≡ continues v)) ⊎ ((v : LoopState) × (r ≡ returns v))
        → (t : LoopState) × (run_unheld fuel inputs r ≡ some t)
          × ((is_settled t.loop.status ≡ true) ⊎ (is_some (latest_running_step s.loop) ≡ true))
    opened_ends (inr (v, e)) = (v, rw e refl, (opening-Opens (inputs 0) s).ends v e)
    opened_ends (inl (v, e)) =
        let p = (opening-Opens (inputs 0) s).costs v e in
        let (t, ran, settled) =
          run_unheld_ends fuel inputs v d (λ k le. p.ids_kept (inputs k).step_id (u k le) refl)
            (omega (arith, fuel_for-le s v p, h)) in
        (t, rw e ran, inl settled)
