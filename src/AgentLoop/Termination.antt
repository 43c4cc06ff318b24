-- ===== src/AgentLoop/Termination.antt =====
-- That the rounds of an agent loop end: every retry of the recovery policy is counted, and every other
-- round uses up a turn.
use across_orchestrator.AgentLoop.Retries.{Progress-refl}
use across_orchestrator.AgentLoop.{
  ActionType, action_type_Eq, failure_type_Eq, Reason, turns_over, is_terminal_loop, is_awaiting,
  recovery_action_Eq,
}
use across_orchestrator.AgentLoop.State.{
  next_action_selected, cancel_requested, LoopState, emit, Input,
}
use across_orchestrator.AgentLoop.Selection.{budget_exceeded_reason}
use across_orchestrator.AgentLoop.Recovery.{stop_loop_for_budget}
use across_orchestrator.AgentLoop.Steps.{counted, has_step, cancel_loop_state}
use across_orchestrator.AgentLoop.Rounds.{
  select_next_action, Round, continues, returns, complete_loop, act, receive_request, stop_or,
  cancel_or, checked, round, run_rounds,
}
use across_orchestrator.AgentLoop.Measure.{
  pending_retries, fuel_for, Progress, Progress-trans, fuel_for-lt,
}
use across_orchestrator.AgentLoop.Turns.{emit-Progress}
use across_orchestrator.AgentLoop.Selects.{Selects, select_next_action-Selects}
use across_orchestrator.AgentLoop.Ends.{is_settled, Ends, Ends-returns, build_step-Ends}
use across_orchestrator.Base.{
  ℕ, zero, suc, ◌+◌, ◌≤◌, ◌<◌, String, ◌≡◌, refl, ◌⊎◌, inl, inr, true, false, ◌||◌, Option, none,
  some, arith, leb, if◌then◌else◌, ◌==◌, nat_Eq, string_Eq, Bool-cases,
}

-- The ids that the rounds from `n` on take are not in use.
abbrev pub Unused : (ℕ → Input) → ℕ → LoopState → Type 0
Unused inputs n s = (k : ℕ) → n ≤ k → has_step (inputs k).step_id s.loop.steps ≡ false

-- `new_id` never makes the same id twice.
abbrev pub Distinct : (ℕ → Input) → Type 0
Distinct inputs = (m k : ℕ) → m < k → (inputs m).step_id == (inputs k).step_id ≡ false

-- A round that goes on needs less fuel from then on, and one that does not leaves the loop settled.
record Shrinks (new : String) (s : LoopState) (r : Round) : Type 0 where
  pub shrinks : (t : LoopState) → r ≡ continues t → fuel_for t < fuel_for s
  pub fresh :
      (t : LoopState)
      → r ≡ continues t
      → (id : String) → has_step id s.loop.steps ≡ false
      → new == id ≡ false
      → has_step id t.loop.steps ≡ false
  pub settles : (t : LoopState) → r ≡ returns t → is_settled t.loop.status ≡ true

Shrinks-returns :
    {new : String} (s t : LoopState) → is_settled t.loop.status ≡ true → Shrinks new s (returns t)
Shrinks-returns s t h = record {
  shrinks = λ u e. cc;
  fresh = λ u e. cc;
  settles = (Ends-returns {n = 1} {new = none} s t h).rests;
}

Shrinks-Ends :
    {new : String} (s t : LoopState) (r : Round)
    → Progress 0 none s t
    → t.loop.turn_count < t.loop.max_turns
    → Ends 1 (some new) t r
    → Shrinks new s r
Shrinks-Ends s t r p h q = record {
  shrinks = λ u e. fuel_for-lt s t u p h (q.went u e);
  fresh = λ u e id unknown other. (q.went u e).ids_kept id (p.ids_kept id unknown refl) other;
  settles = q.rests;
}

settled_or_complete :
    (s : LoopState)
    → is_settled
        (if is_terminal_loop s.loop.status || is_awaiting s.loop.status
          then s
          else complete_loop s).loop.status
      ≡ true
unfolding complete_loop emit
settled_or_complete s = elim (Bool-cases (is_settled s.loop.status)) [
  | inl settled ↦ rw settled settled
  | inr open_ ↦ rw open_ refl
]

act_selected :
    (i : Input) (s t : LoopState) (type : ActionType)
    → has_step i.step_id s.loop.steps ≡ false
    → Progress 0 none s t
    → Shrinks i.step_id s (act i (some type, t))
unfolding act stop_loop_for_budget
act_selected i s t type h p = elim (Bool-cases (leb t.loop.max_turns t.loop.turn_count)) [
  | inl over ↦ rw over (Shrinks-returns s (stop_loop_for_budget turns_over t) refl)
  | inr room ↦ rw room (
      Shrinks-Ends s (emit (next_action_selected type (t.loop.turn_count + 1)) t) _
        (emit-Progress (next_action_selected type (t.loop.turn_count + 1)) s t refl p)
        (has_room t room)
        (build_step-Ends i (emit (next_action_selected type (t.loop.turn_count + 1)) t) type
          (p.ids_kept i.step_id h refl)))
]
  where
    has_room :
        (u : LoopState)
        → leb u.loop.max_turns u.loop.turn_count ≡ false
        → u.loop.turn_count < u.loop.max_turns
    has_room u k = ground arith

act-Shrinks :
    (i : Input) (s : LoopState) (found : Option ActionType × LoopState)
    → has_step i.step_id s.loop.steps ≡ false
    → Selects none s found
    → Shrinks i.step_id s (act i found)
unfolding act
act-Shrinks i s (none, t) h p =
    Shrinks-returns s
      (if is_terminal_loop t.loop.status || is_awaiting t.loop.status then t else complete_loop t)
      (settled_or_complete t)
act-Shrinks i s (some type, t) h p = act_selected i s t type h (p.selected refl)

stop_or-Shrinks :
    {new : String} (reason : Option Reason) (s t : LoopState) (r : Round)
    → Shrinks new s r
    → Shrinks new s (stop_or reason t r)
unfolding stop_or stop_loop_for_budget emit
stop_or-Shrinks none s t r h = h
stop_or-Shrinks (some reason) s t r h = Shrinks-returns s (stop_loop_for_budget reason t) refl

cancel_or-Shrinks :
    {new : String} (i : Input) (reason : Option String) (s t : LoopState) (r : Round)
    → Shrinks new s r
    → Shrinks new s (cancel_or i reason t r)
unfolding cancel_or cancel_loop_state counted emit
cancel_or-Shrinks i none s t r h = h
cancel_or-Shrinks i (some reason) s t r h =
    Shrinks-returns s (cancel_loop_state i.now reason t) refl

pub request-Progress :
    (i : Input) (s : LoopState) (request : Option String)
    → i.new_request ≡ request
    → Progress 0 none s (receive_request i s)
unfolding pending_retries receive_request
request-Progress i s none e = rw (receive_request, e) (Progress-refl s)
request-Progress i s (some reason) e =
    rw (receive_request, e)
      (emit-Progress (cancel_requested reason) s (record s { cancel_request = some reason }) refl
        (record {
          turns_kept = refl;
          policy_kept = refl;
          fewer = omega arith;
          later = inr (omega arith);
          ids_kept = λ id h k. h;
        }))

Selects-after :
    (s t : LoopState) (found : Option ActionType × LoopState)
    → Progress 0 none s t
    → Selects none t found
    → Selects none s found
Selects-after s t found p h = record { selected = λ e. Progress-trans p (h.selected e) }

round-Shrinks :
    (i : Input) (s : LoopState)
    → has_step i.step_id s.loop.steps ≡ false
    → Shrinks i.step_id s (round i s)
unfolding round checked
round-Shrinks i s h =
    let t = receive_request i s in
    let p = request-Progress i s i.new_request refl in
    let found = select_next_action i t in
    let r = act i found in
    stop_or-Shrinks (budget_exceeded_reason i.now t.loop) s t (cancel_or i t.cancel_request t r) (
      cancel_or-Shrinks i t.cancel_request s t r
        (act-Shrinks i s found h (Selects-after s t found p (select_next_action-Selects i t))))

pub Round-cases :
    (r : Round) → ((t : LoopState) × (r ≡ continues t)) ⊎ ((t : LoopState) × (r ≡ returns t))
Round-cases (continues t) = inl (t, refl)
Round-cases (returns t) = inr (t, refl)

fuel_for-pos : (s : LoopState) → 0 < fuel_for s
unfolding fuel_for
fuel_for-pos s = omega arith

-- With enough fuel the rounds end, in a settled loop.
pub run_rounds_ends :
    (fuel n : ℕ) (inputs : ℕ → Input) (s : LoopState)
    → Distinct inputs
    → Unused inputs n s
    → fuel_for s ≤ fuel
    → (t : LoopState) × (run_rounds fuel n inputs s ≡ some t) × (is_settled t.loop.status ≡ true)
unfolding run_rounds
run_rounds_ends zero n inputs s d u h = absurd (omega (arith, fuel_for-pos s))
run_rounds_ends (suc fuel) n inputs s d u h =
    let shrunk = round-Shrinks (inputs n) s (u n (omega arith)) in
    elim (Round-cases (round (inputs n) s)) [
      | inl (t, went) ↦
          let (v, ran, settled) =
            run_rounds_ends fuel (n + 1) inputs t d
              (λ k le.
                shrunk.fresh t went (inputs k).step_id (u k (omega arith)) (d n k (omega arith)))
              (omega (arith, shrunk.shrinks t went)) in
          (v, rw (run_rounds, went) ran, settled)
      | inr (t, ended) ↦ (t, rw (run_rounds, ended) refl, shrunk.settles t ended)
    ]
