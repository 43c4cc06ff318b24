-- ===== src/AgentLoop/Selection.antt =====
-- agent_loop.py: which action comes next: `_peek_next_action` and the reading of the steps, the
-- action plan and the budgets that it rests on.
use across_orchestrator.Base.{
  ℕ, zero, suc, ◌-◌, Bool, false, not, ◌&&◌, Option, none, some, List, [], ◌∷◌, ltb, leb,
  if◌then◌else◌, nat_Eq, string_Eq, is_some, get_or, any,
}
use across_orchestrator.Findings.{quality_report_passed}
use across_orchestrator.AgentLoop.{
  ActionType, memory_search, task_dispatch, remediation_dispatch, quality_gate,
  memory_write_candidate, final_output, action_type_Eq, is_dispatch, failure_type_Eq, Reason,
  runtime_over, turns_over, is_waiting_step, is_pending_approval, LoopStep, recovery_action_Eq,
}
use across_orchestrator.AgentLoop.State.{Metadata, LoopRun, latest, of_type}
use across_orchestrator.AgentLoop.{ActionType, Reason, LoopStep}

-- The index after the last step with a property, 0 where there is none: one more than the source's.
unfoldable pub latest_index : (LoopStep → Bool) → List LoopStep → ℕ
latest_index test [] = 0
latest_index test (step ∷ steps) =
    let rest = latest_index test steps in
    if ltb 0 rest then suc rest else if test step then 1 else 0

abbrev pub drop : {A : Type 0} → ℕ → List A → List A
drop zero xs = xs
drop (suc n) [] = []
drop (suc n) (x ∷ xs) = drop n xs

unfoldable pub action_count : ActionType → List LoopStep → ℕ
action_count type [] = 0
action_count type (step ∷ steps) =
    let rest = action_count type steps in if of_type type step then suc rest else rest

abbrev pub has_action : ActionType → List LoopStep → Bool
has_action type steps = any (of_type type) steps

unfoldable pub quality_failed_step : LoopStep → Bool
quality_failed_step step = not (quality_report_passed step.payload.report)

-- The latest quality gate did not pass.
unfoldable pub gate_failed : Option LoopStep → Bool
gate_failed none = false
gate_failed (some step) = quality_failed_step step

unfoldable pub max_remediation_turns : Metadata → ℕ
max_remediation_turns m = get_or (get_or m.max_remediation_turns none) 1

unfoldable pub supported_actions : List (Option ActionType) → List ActionType
supported_actions [] = []
supported_actions (none ∷ plan) = supported_actions plan
supported_actions (some type ∷ plan) = type ∷ supported_actions plan

-- What is left of the plan after the steps: `_host_action_plan_progress` counts what is gone.
unfoldable pub remaining_plan : List LoopStep → List ActionType → List ActionType
remaining_plan [] plan = plan
remaining_plan (step ∷ steps) [] = []
remaining_plan (step ∷ steps) (type ∷ plan) =
    if of_type type step then remaining_plan steps plan else remaining_plan steps (type ∷ plan)

abbrev pub first : List ActionType → Option ActionType
first [] = none
first (type ∷ plan) = some type

unfoldable pub next_of_policy : LoopRun → Option ActionType
next_of_policy loop =
    if loop.read_memory && not (has_action memory_search loop.steps)
    then some memory_search
    else if not (has_action task_dispatch loop.steps)
    then some task_dispatch
    else if loop.write_candidates
        && not (
            has_action memory_write_candidate
              (drop (latest_index (of_type quality_gate) loop.steps) loop.steps))
    then some memory_write_candidate
    else if not (has_action final_output loop.steps)
    then some final_output
    else none

-- Without a plan, the policy decides.
unfoldable pub next_of_plan : LoopRun → List ActionType → Option ActionType
next_of_plan loop [] = next_of_policy loop
next_of_plan loop (type ∷ plan) = first (remaining_plan loop.steps (type ∷ plan))

abbrev pub is_dispatch_step : LoopStep → Bool
is_dispatch_step step = is_dispatch step.action.action_type

-- `_peek_next_action` when no recovery asks for an action.
unfoldable pub next_of_steps : LoopRun → Option ActionType
unfolding latest_index gate_failed max_remediation_turns next_of_plan
next_of_steps loop =
    if ltb (latest_index (of_type quality_gate) loop.steps)
      (latest_index is_dispatch_step loop.steps)
    then some quality_gate
    else if gate_failed (latest (of_type quality_gate) loop.steps)
    then (if ltb (action_count remediation_dispatch loop.steps)
          (max_remediation_turns loop.metadata)
        then some remediation_dispatch
        else none)
    else next_of_plan loop (supported_actions loop.metadata.action_plan)

unfoldable pub peek_next_action : LoopRun → Option ActionType
unfolding next_of_steps
peek_next_action loop = elim loop.metadata.recovery_next_action [
  | some type ↦ some type
  | none ↦ next_of_steps loop
]

unfoldable pub budget_exceeded_reason : ℕ → LoopRun → Option Reason
unfolding peek_next_action
budget_exceeded_reason now loop =
    if runtime_passed loop.metadata.max_runtime_seconds
    then some runtime_over
    else if leb loop.max_turns loop.turn_count && is_some (peek_next_action loop)
    then some turns_over
    else none
  where
    runtime_passed : Option ℕ → Bool
    runtime_passed none = false
    runtime_passed (some zero) = false
    runtime_passed (some (suc n)) = leb (suc n) (now - loop.created_at)

unfoldable pub pending_approval_step : List LoopStep → Option LoopStep
pending_approval_step [] = none
pending_approval_step (step ∷ steps) =
    if is_waiting_step step.status && is_pending_approval step.action.approval_status
    then some step
    else pending_approval_step steps
