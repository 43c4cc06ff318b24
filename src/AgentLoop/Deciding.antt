-- ===== src/AgentLoop/Deciding.antt =====
-- What it takes for the selection to find no action.
use across_orchestrator.AgentLoop.Retries.{pick}
use across_orchestrator.AgentLoop.{
  ActionType, quality_gate, action_type_Eq, quality_failed, failure_type_Eq,
  failure_type_for_reason, is_awaiting, LoopStep, RecoveryAction, stop, retry, remediation,
  require_human, recovery_action_Eq,
}
use across_orchestrator.AgentLoop.State.{recovery_decision, LoopState, emit, Input, latest, of_type}
use across_orchestrator.AgentLoop.Selection.{quality_failed_step, gate_failed, peek_next_action}
use across_orchestrator.AgentLoop.Recovery.{
  Rule, recovery_rule, recovery_attempt_count, append_recovery_approval_step, recover, is_applied,
  apply_rule, apply_found, apply_recovery_policy, fail_loop,
}
use across_orchestrator.AgentLoop.Rounds.{
  pop_recovery, recovered_or, continue_or_fail, after_exhaustion, without_action,
  select_next_action,
}
use across_orchestrator.AgentLoop.Ends.{is_settled}
use across_orchestrator.Base.{
  ℕ, ◌+◌, ◌<◌, ◌≡◌, refl, ◌⊎◌, inl, inr, Bool, true, false, not, Option, none, some, arith, ◌==◌,
  nat_Eq, string_Eq, Bool-cases, Option-cases,
}
use across_orchestrator.AgentLoop.Unfinished.{Live, apply_recovery_policy-Live}

-- There is nothing left to do and the latest quality gate passed, if there is one; or a failed gate
-- was once dropped for another try.
abbrev pub Finished : LoopState → Type 0
Finished s =
    ((peek_next_action s.loop ≡ none)
      × (gate_failed (latest (of_type quality_gate) s.loop.steps) ≡ false))
    ⊎ (0 < recovery_attempt_count quality_failed retry s.events)

-- Where no action is selected and the loop still runs, it is finished.
pub record Decides (found : Option ActionType × LoopState) : Type 0 where
  pub decides : found.0 ≡ none → is_settled found.1.loop.status ≡ false → Finished found.1
  pub live : Live found.1

Decides-some : (type : ActionType) (s : LoopState) → Live s → Decides (some type, s)
Decides-some type s h = record { decides = λ e k. cc; live = h }

Decides-recovered_or :
    (s : LoopState) (otherwise : Option ActionType × LoopState)
    → Live s
    → (s.loop.metadata.recovery_next_action ≡ none → Decides otherwise)
    → Decides (recovered_or s otherwise)
unfolding recovered_or pop_recovery
Decides-recovered_or s otherwise l h = elim (Option-cases s.loop.metadata.recovery_next_action) [
  | inl missing ↦ rw (recovered_or, missing) (h missing)
  | inr (type, found) ↦ rw (recovered_or, found) (Decides-some type (pop_recovery s) l)
]

-- What the recovery of a failed gate leaves: another action, a wait, or the record of a retry.
recover_retried :
    (i : Input) (step : LoopStep) (action : RecoveryAction) (s : LoopState)
    → not (action == stop) ≡ true
    → is_awaiting (recover i step quality_failed action s).loop.status ≡ false
    → (recover i step quality_failed action s).loop.metadata.recovery_next_action ≡ none
    → 0
      < recovery_attempt_count quality_failed retry (recover i step quality_failed action s).events
unfolding recover append_recovery_approval_step recovery_attempt_count emit
recover_retried i step stop s h k m = cc
recover_retried i step retry s h k m = ground arith
recover_retried i step remediation s h k m = cc
recover_retried i step require_human s h k m = cc

apply_found_retried :
    (i : Input) (step : LoopStep) (found : Option Rule) (s : LoopState)
    → (apply_found i step quality_failed found s).0 ≡ true
    → is_awaiting (apply_found i step quality_failed found s).1.loop.status ≡ false
    → (apply_found i step quality_failed found s).1.loop.metadata.recovery_next_action ≡ none
    → 0
      < recovery_attempt_count quality_failed retry
          (apply_found i step quality_failed found s).1.events
unfolding apply_found apply_rule
apply_found_retried i step none s = λ e h m. cc
apply_found_retried i step (some rule) s =
    pick
      (λ t.
        t.loop.metadata.recovery_next_action ≡ none
        → 0 < recovery_attempt_count quality_failed retry t.events)
      (is_applied rule attempt) (recover i step quality_failed rule.action decided) decided
      λ applied quiet. recover_retried i step rule.action decided (ground arith) quiet
  where
    attempt : ℕ
    attempt = recovery_attempt_count quality_failed rule.action s.events + 1

    decided : LoopState
    decided =
        emit
          (recovery_decision quality_failed rule.action attempt rule.max_retries
            (is_applied rule attempt))
          s

pub settled_not_open : (b : Bool) → b ≡ true → b ≡ false → ⊥
settled_not_open b h k = cc

Decides-continue_or_fail :
    (result : Bool × LoopState)
    → Live result.1
    → (result.0 ≡ true
        → is_awaiting result.1.loop.status ≡ false
        → result.1.loop.metadata.recovery_next_action ≡ none
        → 0 < recovery_attempt_count quality_failed retry result.1.events)
    → Decides (continue_or_fail result)
unfolding continue_or_fail fail_loop emit
Decides-continue_or_fail (false, t) l h = record { decides = λ e k. cc; live = refl }
Decides-continue_or_fail (true, t) l h = elim (Bool-cases (is_awaiting t.loop.status)) [
  | inl waits ↦ rw waits (record { decides = λ e k. ground arith; live = l })
  | inr quiet ↦ rw quiet (
      Decides-recovered_or t (peek_next_action t.loop, t) l
        λ missing. record { decides = λ e k. inr (h refl quiet missing); live = l })
]

Decides-without_action :
    (i : Input) (s : LoopState)
    → Live s
    → peek_next_action s.loop ≡ none
    → Decides (without_action i s)
unfolding without_action after_exhaustion apply_recovery_policy failure_type_for_reason gate_failed
Decides-without_action i s l idle =
    elim (Option-cases (latest (of_type quality_gate) s.loop.steps)) [
      | inl missing ↦
          rw (without_action, missing)
            (record { decides = λ e k. inl (idle, rw missing refl); live = l })
      | inr (gate, found) ↦ elim (Bool-cases (quality_failed_step gate)) [
        | inl bad ↦
            rw (without_action, found, bad)
              (Decides-continue_or_fail (apply_recovery_policy i gate quality_failed s)
                (apply_recovery_policy-Live i gate quality_failed s l)
                (apply_found_retried i gate
                  (recovery_rule s.loop.metadata.recovery_policy quality_failed) s))
        | inr good ↦
            rw (without_action, found, good)
              (record { decides = λ e k. inl (idle, rw found good); live = l })
      ]
    ]

pub Decides-select_next_action :
    (i : Input) (s : LoopState) → Live s → Decides (select_next_action i s)
unfolding select_next_action
Decides-select_next_action i s l = elim (Option-cases (peek_next_action s.loop)) [
  | inl missing ↦
      rw (select_next_action, missing)
        (Decides-recovered_or s (without_action i s) l
          λ none_next. Decides-without_action i s l missing)
  | inr (type, found) ↦
      rw (select_next_action, found)
        (Decides-recovered_or s (some type, s) l λ none_next. Decides-some type s l)
]
