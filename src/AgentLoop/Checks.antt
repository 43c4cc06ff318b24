-- ===== src/AgentLoop/Checks.antt =====
-- What becomes of a failing check that was approved.
use across_orchestrator.AgentLoop.{
  ActionType, check, action_type_Eq, failure_type_Eq, is_terminal_loop, is_failed_step,
  is_waiting_step, Payload, LoopStep, recovery_action_Eq,
}
use across_orchestrator.AgentLoop.State.{
  LoopEvent, step_completed, LoopState, emit, Outcome, returned, raised, action_cancelled, Input,
}
use across_orchestrator.AgentLoop.Steps.{end_step, host_declared_check_failed, finished_step}
use across_orchestrator.AgentLoop.Host.{
  find_action, complete_approved, execute_approved, approve_step, answer, approve_action,
}
use across_orchestrator.Base.{
  String, ◌≡◌, refl, true, false, some, List, ◌∷◌, nat_Eq, string_Eq, get_or,
}

-- The newest event completes a step.
abbrev pub CompletesStep : List LoopEvent → Type 0
CompletesStep (step_completed step ∷ events) = is_failed_step step.status ≡ false
CompletesStep _ = ⊥

approved_lem :
    (i : Input) (step : LoopStep) (p : Payload) (s : LoopState) (outcome : Outcome)
    → outcome ≡ returned p
    → CompletesStep (execute_approved i step outcome s).events
unfolding execute_approved complete_approved end_step emit
approved_lem i step p s (returned q) e = refl
approved_lem i step p s (raised x) e = cc
approved_lem i step p s (action_cancelled reason) e = cc

-- For a waiting host-declared check of a loop that is not terminal, whose payload fails the check: the
-- step fails where it is built without an approval, while approving it records a completed step.
pub approve_action_completes :
    (i : Input) (id name : String) (p : Payload) (step : LoopStep) (s : LoopState)
    → is_terminal_loop s.loop.status ≡ false
    → find_action id s.loop.steps ≡ some step
    → is_waiting_step step.status ≡ true
    → step.action.action_type ≡ check name
    → i.outcome ≡ returned p
    → host_declared_check_failed p ≡ true
    → (is_failed_step (finished_step i step.action.action_type p step).status ≡ true)
      × CompletesStep (get_or (approve_action i id s) s).events
unfolding approve_action answer approve_step finished_step end_step
approve_action_completes i id name p step s live found waits type ran bad =
    (failed_check step.action.action_type type, completed_anyway)
  where
    failed_check :
        (t : ActionType) → t ≡ check name → is_failed_step (finished_step i t p step).status ≡ true
    failed_check t e = rw (e, bad) refl

    completed_anyway : CompletesStep (get_or (approve_action i id s) s).events
    completed_anyway = rw (live, found, waits) (approved_lem i _ p _ i.outcome ran)
