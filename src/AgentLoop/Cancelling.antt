-- ===== src/AgentLoop/Cancelling.antt =====
-- That a cancel request ends the run that finds it.
use across_orchestrator.AgentLoop.Host.{cancel_loop}
use across_orchestrator.AgentLoop.{
  action_type_Eq, failure_type_Eq, Reason, LoopStatus, is_terminal_loop, is_running_step,
  is_waiting_step, is_pending_approval, LoopStep, recovery_action_Eq,
}
use across_orchestrator.AgentLoop.State.{
  LoopEvent, step_started, step_cancelled, LoopState, emit, Input,
}
use across_orchestrator.AgentLoop.Selection.{budget_exceeded_reason}
use across_orchestrator.AgentLoop.Recovery.{stop_loop_for_budget}
use across_orchestrator.AgentLoop.Steps.{
  end_step, counted, cancel_step, cancelled_events, cancel_loop_state,
}
use across_orchestrator.AgentLoop.Rounds.{
  select_next_action, Round, returns, act, receive_request, stop_or, cancel_or, checked, round,
  run_rounds,
}
use across_orchestrator.Base.{
  ℕ, suc, String, ◌≡◌, refl, ◌∙◌, ◌⊎◌, inl, inr, Bool, true, false, not, ◌&&◌, Option, none, some,
  List, [], ◌∷◌, map, arith, if◌then◌else◌, nat_Eq, string_Eq, all,
}

abbrev pub is_idle : LoopStep → Bool
is_idle step =
    not (is_running_step step.status)
    && not (is_waiting_step step.status && is_pending_approval step.action.approval_status)

-- The loop was cancelled, with no step running or waiting and the request gone; or it was stopped
-- for a budget.
abbrev pub Ended : LoopState → Type 0
Ended s =
    ((s.loop.status ≡ LoopStatus.cancelled)
      × (all is_idle s.loop.steps ≡ true)
      × (s.cancel_request ≡ none))
    ⊎ (s.loop.status ≡ LoopStatus.stopped)

abbrev pub is_start : LoopEvent → Bool
is_start (step_started step) = true
is_start _ = false

abbrev pub starts : List LoopEvent → ℕ
starts [] = 0
starts (e ∷ events) = let rest = starts events in if is_start e then suc rest else rest

cancel_step-idle : (now : ℕ) (step : LoopStep) → is_idle (cancel_step now step) ≡ true
unfolding cancel_step end_step
cancel_step-idle now step = ground arith

all_idle : (now : ℕ) (steps : List LoopStep) → all is_idle (map (cancel_step now) steps) ≡ true
all_idle now [] = refl
all_idle now (step ∷ steps) = ground (arith, cancel_step-idle now step, all_idle now steps)

starts-cancelled_events :
    (steps : List LoopStep) (events : List LoopEvent)
    → starts (cancelled_events steps events) ≡ starts events
unfolding cancelled_events
starts-cancelled_events [] events = refl
starts-cancelled_events (step ∷ steps) events = ground (
  arith,
  starts-cancelled_events steps (step_cancelled step ∷ events),
  starts-cancelled_events steps events,
)

-- A round that ends the call with an ended loop and starts no step.
abbrev pub EndsWithout : LoopState → Round → Type 0
EndsWithout s r = (t : LoopState) × (r ≡ returns t) × Ended t × (starts t.events ≡ starts s.events)

cancelled_ends :
    (i : Input) (s : LoopState) (reason : String) (rest : Round)
    → EndsWithout s (cancel_or i (some reason) s rest)
unfolding cancel_or cancel_loop_state counted emit
cancelled_ends i s reason rest = (
  cancel_loop_state i.now reason s,
  refl,
  inl (refl, all_idle i.now s.loop.steps, refl),
  starts-cancelled_events (map (cancel_step i.now) s.loop.steps) s.events,
)

checked_ends :
    (i : Input) (s : LoopState) (reason : String) (over : Option Reason) (request : Option String)
    (rest : Round)
    → request ≡ some reason
    → EndsWithout s (stop_or over s (cancel_or i request s rest))
unfolding stop_or stop_loop_for_budget emit
checked_ends i s reason over none rest h = cc
checked_ends i s reason (some why) (some other) rest h =
    (stop_loop_for_budget why s, refl, inr refl, refl)
checked_ends i s reason none (some other) rest h = cancelled_ends i s other rest

receive_starts :
    (i : Input) (s : LoopState) (request : Option String)
    → i.new_request ≡ request
    → starts (receive_request i s).events ≡ starts s.events
unfolding receive_request emit
receive_starts i s none e = rw e refl
receive_starts i s (some reason) e = rw e refl

-- A round that finds a cancel request in the store is the last of its run: no step is started, and the
-- loop is cancelled with no step left running or waiting, unless its budget stopped it first.
pub round_cancelled :
    (i : Input) (s : LoopState) (reason : String)
    → (receive_request i s).cancel_request ≡ some reason
    → EndsWithout s (round i s)
unfolding round checked
round_cancelled i s reason h =
    let t = receive_request i s in
    let (u, ended, cancelled_, same) =
      checked_ends i t reason (budget_exceeded_reason i.now t.loop) t.cancel_request
        (act i (select_next_action i t)) h in
    (u, ended, cancelled_, same ∙ receive_starts i s i.new_request refl)

still_requested :
    (i : Input) (s : LoopState) (reason : String) (request : Option String)
    → i.new_request ≡ request
    → s.cancel_request ≡ some reason
    → (r : String) × ((receive_request i s).cancel_request ≡ some r)
unfolding receive_request emit
still_requested i s reason none e h = (reason, rw e h)
still_requested i s reason (some newer) e h = (newer, rw e refl)

ends_rounds :
    (fuel n : ℕ) (inputs : ℕ → Input) (s : LoopState) (reason : String)
    → s.cancel_request ≡ some reason
    → (t : LoopState) × (run_rounds (suc fuel) n inputs s ≡ some t)
      × Ended t
      × (starts t.events ≡ starts s.events)
unfolding run_rounds
ends_rounds fuel n inputs s reason h =
    let (r, asked) = still_requested (inputs n) s reason (inputs n).new_request refl h in
    let (t, ended, over, same) = round_cancelled (inputs n) s r asked in
    (t, rw (run_rounds, ended) refl, over, same)

-- When a host cancels a loop that is not terminal while a run holds its lock, the next round of that
-- run is its last: no further step is started, and the loop is cancelled with no step left running or
-- waiting and no request left, unless its budget stops it first.
pub cancel_loop_ends_rounds :
    (now fuel n : ℕ) (inputs : ℕ → Input) (s : LoopState) (reason : String)
    → is_terminal_loop s.loop.status ≡ false
    → (t : LoopState) × (run_rounds (suc fuel) n inputs (cancel_loop now true reason s) ≡ some t)
      × Ended t
      × (starts t.events ≡ starts s.events)
unfolding cancel_loop emit
cancel_loop_ends_rounds now fuel n inputs s reason live =
    let (t, ran, over, same) =
      ends_rounds fuel n inputs (cancel_loop now true reason s) reason (rw live refl) in
    (t, ran, over, same ∙ rw live refl)
