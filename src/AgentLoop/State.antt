-- ===== src/AgentLoop/State.antt =====
-- agent_loop.py: LoopRun with the metadata that steer it, the events of its log, and the state of
-- the store that a loop's operations change.
use across_orchestrator.Base.{
  ℕ, suc, String, Bool, Option, none, some, List, [], ◌∷◌, if◌then◌else◌, ◌==◌, nat_Eq, string_Eq,
  is_some,
}
use across_orchestrator.AgentLoop.{
  ActionType, action_type_Eq, FailureType, failure_type_Eq, Reason, Exception, LoopStatus, Payload,
  LoopStep, RecoveryAction, recovery_action_Eq,
}
use across_orchestrator.AgentLoop.{
  ActionType, FailureType, Reason, LoopStatus, LoopStep, RecoveryAction,
}

-- A number among the metadata: the key may be missing, and its value may not read as a number.
abbrev pub Setting : Type 0
Setting = Option (Option ℕ)

-- A rule of the recovery policy is the text of an action, or a table.
pub data RawRule : Type 0 where
  bare : String → RawRule
  table : Option String → Setting → RawRule

pub record RecoveryPolicy : Type 0 where
  pub by_failure : List (FailureType × RawRule)
  pub default_action : Option String
  pub max_retries : Setting

pub record Metadata : Type 0 where
  -- `none` for an entry that is no supported action type
  pub action_plan : List (Option ActionType)
  pub max_remediation_turns : Setting
  pub recovery_policy : Option RecoveryPolicy
  pub recovery_next_action : Option ActionType
  pub max_runtime_seconds : Option ℕ
  pub action_lease_seconds : ℕ

pub record LoopRun : Type 0 where
  pub loop_id : String
  pub goal : String
  pub status : LoopStatus
  pub max_turns : ℕ
  pub turn_count : ℕ
  pub read_memory : Bool
  pub write_candidates : Bool
  pub require_approval_for : List ActionType
  pub metadata : Metadata
  pub steps : List LoopStep
  pub checkpoint_count : ℕ
  pub final_output : Option String
  pub error : Option Reason
  pub created_at : ℕ

-- The events of the log, without those about findings.
pub data LoopEvent : Type 0 where
  next_action_selected : ActionType → ℕ → LoopEvent
  step_started step_heartbeat step_completed step_failed : LoopStep → LoopEvent
  action_failed_event action_approved action_rejected : LoopStep → LoopEvent
  approval_required step_lease_expired step_cancelled : LoopStep → LoopEvent
  -- the failure, the action, the attempt, the most attempts, and whether it was applied
  recovery_decision : FailureType → RecoveryAction → ℕ → ℕ → Bool → LoopEvent
  step_recovered : FailureType → RecoveryAction → LoopEvent
  retry_requested : String → LoopEvent
  cancel_requested : String → LoopEvent
  loop_budget_exceeded loop_stopped loop_failed loop_cancelled : Reason → LoopEvent
  loop_completed : Option String → LoopEvent
  loop_started : LoopEvent

-- The saved loop, its log with the newest event first, and the reason of a cancel request.
pub record LoopState : Type 0 where
  pub loop : LoopRun
  pub events : List LoopEvent
  pub cancel_request : Option String

unfoldable pub emit : LoopEvent → LoopState → LoopState
emit e s = record s { events = e ∷ s.events }

-- What one round of the loop takes from outside: the clock, a cancel request that came in since the
-- last round, what the adapter does, and fresh ids.
pub data Outcome : Type 0 where
  returned : Payload → Outcome
  raised : Exception → Outcome
  action_cancelled : String → Outcome

pub record Input : Type 0 where
  pub now : ℕ
  pub new_request : Option String
  pub outcome : Outcome
  pub step_id : String
  pub action_id : String
  pub lease_id : String
  pub approval_step_id : String
  pub approval_action_id : String

-- `len([item for item in loop.steps if item.checkpoint])`
unfoldable pub count_checkpoints : List LoopStep → ℕ
count_checkpoints [] = 0
count_checkpoints (step ∷ steps) =
    let rest = count_checkpoints steps in if is_some step.checkpoint then suc rest else rest

unfoldable pub update_step : String → (LoopStep → LoopStep) → List LoopStep → List LoopStep
update_step id f [] = []
update_step id f (step ∷ steps) =
    let rest = update_step id f steps in if step.step_id == id then f step ∷ rest else step ∷ rest

-- The last step with a property.
unfoldable pub latest : (LoopStep → Bool) → List LoopStep → Option LoopStep
latest test [] = none
latest test (step ∷ steps) = elim (latest test steps) [
  | some later ↦ some later
  | none ↦ if test step then some step else none
]

abbrev pub of_type : ActionType → LoopStep → Bool
of_type type step = step.action.action_type == type
