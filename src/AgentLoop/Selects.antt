-- ===== src/AgentLoop/Selects.antt =====
-- What the selection of an action leaves of the retries and turns of an agent loop.
use across_orchestrator.AgentLoop.{
  ActionType, quality_gate, action_type_Eq, failure_type_Eq, quality_gate_failed,
  failure_type_for_reason, is_awaiting, recovery_action_Eq,
}
use across_orchestrator.AgentLoop.State.{LoopState, Input, latest, of_type}
use across_orchestrator.AgentLoop.Selection.{quality_failed_step, peek_next_action}
use across_orchestrator.AgentLoop.Recovery.{apply_recovery_policy, fail_loop}
use across_orchestrator.AgentLoop.Rounds.{
  pop_recovery, recovered_or, continue_or_fail, after_exhaustion, without_action,
  select_next_action,
}
use across_orchestrator.AgentLoop.Measure.{pending_retries, Progress, Progress-trans}
use across_orchestrator.AgentLoop.Retries.{Progress-refl, awaits-not_false, apply_recovery-Progress}
use across_orchestrator.Base.{
  String, ◌≡◌, refl, sym, inl, inr, Bool, true, false, Option, none, some, arith, nat_Eq, string_Eq,
  is_some, Bool-cases, Option-cases,
}

pub record Selects (new : Option String) (s : LoopState) (found : Option ActionType × LoopState)
    : Type 0 where
  pub selected : is_some found.0 ≡ true → Progress 0 new s found.1

Selects-none : {new : Option String} (s t : LoopState) → Selects new s (none, t)
Selects-none s t = record { selected = λ h. awaits-not_false (sym h) }

pop-Progress : {new : Option String} (s : LoopState) → Progress 0 new s (pop_recovery s)
unfolding pop_recovery pending_retries
pop-Progress s = record {
  turns_kept = refl;
  policy_kept = refl;
  fewer = omega arith;
  later = inr (omega arith);
  ids_kept = λ id h k. h;
}

recovered_or-Selects :
    {new : Option String} (s t : LoopState) (otherwise : Option ActionType × LoopState)
    → Progress 0 new s t
    → Selects new s otherwise
    → Selects new s (recovered_or t otherwise)
unfolding recovered_or
recovered_or-Selects s t otherwise p h = elim (Option-cases t.loop.metadata.recovery_next_action) [
  | inl missing ↦ rw (recovered_or, missing) h
  | inr (type, found) ↦
      rw (recovered_or, found) (record { selected = λ _. Progress-trans p (pop-Progress t) })
]

continue_or_fail-Selects :
    {new : Option String} (s : LoopState) (result : Bool × LoopState)
    → (result.0 ≡ true → is_awaiting result.1.loop.status ≡ false → Progress 0 new s result.1)
    → Selects new s (continue_or_fail result)
unfolding continue_or_fail
continue_or_fail-Selects s (false, t) h = Selects-none s (fail_loop quality_gate_failed t)
continue_or_fail-Selects s (true, t) h = elim (Bool-cases (is_awaiting t.loop.status)) [
  | inl waits ↦ rw waits (Selects-none s t)
  | inr quiet ↦ rw quiet (
      recovered_or-Selects s t (peek_next_action t.loop, t) (h refl quiet)
        (record { selected = λ _. h refl quiet }))
]

without_action-Selects :
    {new : Option String} (i : Input) (s : LoopState) → Selects new s (without_action i s)
unfolding without_action after_exhaustion
without_action-Selects i s = elim (Option-cases (latest (of_type quality_gate) s.loop.steps)) [
  | inl missing ↦ rw (without_action, missing) (Selects-none s s)
  | inr (gate, found) ↦ elim (Bool-cases (quality_failed_step gate)) [
    | inl bad ↦
        rw (without_action, found, bad)
          (continue_or_fail-Selects s
            (apply_recovery_policy i gate (failure_type_for_reason quality_gate_failed) s)
            (apply_recovery-Progress i gate (failure_type_for_reason quality_gate_failed) s))
    | inr good ↦ rw (without_action, found, good) (Selects-none s s)
  ]
]

pub select_next_action-Selects :
    {new : Option String} (i : Input) (s : LoopState) → Selects new s (select_next_action i s)
unfolding select_next_action
select_next_action-Selects i s = elim (Option-cases (peek_next_action s.loop)) [
  | inl missing ↦
      rw (select_next_action, missing)
        (recovered_or-Selects s s (without_action i s) (Progress-refl s)
          (without_action-Selects i s))
  | inr (type, found) ↦
      rw (select_next_action, found)
        (recovered_or-Selects s s (some type, s) (Progress-refl s)
          (record { selected = λ _. Progress-refl s }))
]
