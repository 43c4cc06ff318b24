-- ===== src/AgentLoop.antt =====
-- src/across_orchestrator/agent_loop.py and failures.py: the records of an agent loop, and the state
-- that AgentLoopRuntime works on. The child modules hold its operations and what they guarantee.
pub mod State
pub mod Selection
pub mod Recovery
pub mod Steps
pub mod Rounds
pub mod Measure
pub mod Retries
pub mod Turns
pub mod Selects
pub mod Ends
pub mod Termination
pub mod Opening
pub mod Host
pub mod Guards
pub mod RoundGuards
pub mod RunGuards
pub mod Approval
pub mod Unfinished
pub mod Deciding
pub mod Completion
pub mod Cancelling
pub mod Checks
use across_orchestrator.Base.{
  ℕ, zero, suc, ◌+◌, ◌-◌, ◌*◌, ◌/◌, ◌≤◌, ◌<◌, max, min, String, ◌≡◌, refl, sym, ap, ◌∙◌, subst, ◌≢◌,
  ◌↔◌, ◌⊎◌, inl, inr, Bool, true, false, not, ◌&&◌, ◌||◌, Option, none, some, List, [], ◌∷◌, ◌++◌,
  map, arith, eq_iff, ltb, leb, text_ltb, if◌then◌else◌, Eq, ◌==◌, nat_Eq, string_Eq, holds,
  holds-some, is_some, get_or, Bool-cases, Option-cases, length, any, all, All, contains, subset,
}
use across_orchestrator.Findings.{QualityReport}

-- SUPPORTED_LOOP_ACTION_TYPES, and the checks that a host declares under names of its own.
pub data ActionType : Type 0 where
  memory_search task_dispatch remediation_dispatch quality_gate : ActionType
  memory_write_candidate final_output : ActionType
  check : String → ActionType

abbrev pub same_type : ActionType → ActionType → Bool
same_type memory_search memory_search = true
same_type task_dispatch task_dispatch = true
same_type remediation_dispatch remediation_dispatch = true
same_type quality_gate quality_gate = true
same_type memory_write_candidate memory_write_candidate = true
same_type final_output final_output = true
same_type (check a) (check b) = a == b
same_type _ _ = false

instance abbrev pub action_type_Eq : Eq ActionType
action_type_Eq = record { test = same_type }

-- `action_type in {"task_dispatch", "remediation_dispatch"}`
abbrev pub is_dispatch : ActionType → Bool
is_dispatch task_dispatch = true
is_dispatch remediation_dispatch = true
is_dispatch _ = false

abbrev pub is_check : ActionType → Bool
is_check (check name) = true
is_check _ = false

abbrev pub is_final : ActionType → Bool
is_final final_output = true
is_final _ = false

-- FAILURE_TYPES
pub data FailureType : Type 0 where
  adapter_error approval_rejected budget_exceeded environment_blocked lease_expired : FailureType
  max_runtime_exceeded max_turns_exceeded quality_failed timeout : FailureType

abbrev pub failure_number : FailureType → ℕ
failure_number adapter_error = 0
failure_number approval_rejected = 1
failure_number budget_exceeded = 2
failure_number environment_blocked = 3
failure_number lease_expired = 4
failure_number max_runtime_exceeded = 5
failure_number max_turns_exceeded = 6
failure_number quality_failed = 7
failure_number timeout = 8

instance abbrev pub failure_type_Eq : Eq FailureType
failure_type_Eq = record { test = λ f g. failure_number f == failure_number g }

-- The texts that a loop keeps as its error. `action_failed t` is the text of `t` with `_failed`.
pub data Reason : Type 0 where
  action_failed : ActionType → Reason
  quality_gate_failed action_lease_expired rejected_by_human : Reason
  runtime_over turns_over : Reason
  cancelled_for : String → Reason

unfoldable pub failure_type_for_reason : Reason → FailureType
failure_type_for_reason action_lease_expired = lease_expired
failure_type_for_reason quality_gate_failed = quality_failed
failure_type_for_reason (action_failed quality_gate) = quality_failed
failure_type_for_reason rejected_by_human = approval_rejected
failure_type_for_reason runtime_over = max_runtime_exceeded
failure_type_for_reason turns_over = max_turns_exceeded
failure_type_for_reason _ = adapter_error

-- What an adapter raises, as far as the failure type looks at it.
pub record Exception : Type 0 where
  pub is_timeout : Bool
  pub blocked_by_environment : Bool

unfoldable pub failure_type_for_exception : Exception → FailureType
failure_type_for_exception e =
    if e.is_timeout
    then timeout
    else if e.blocked_by_environment
    then environment_blocked
    else adapter_error

pub data StepStatus : Type 0 where
  running completed failed waiting_approval rejected cancelled : StepStatus

pub data LoopStatus : Type 0 where
  pending running awaiting_approval completed failed stopped cancelled : LoopStatus

pub data ApprovalStatus : Type 0 where
  pending approved rejected cancelled : ApprovalStatus

-- TERMINAL_LOOP_STATUSES
abbrev pub is_terminal_loop : LoopStatus → Bool
is_terminal_loop LoopStatus.completed = true
is_terminal_loop LoopStatus.failed = true
is_terminal_loop LoopStatus.stopped = true
is_terminal_loop LoopStatus.cancelled = true
is_terminal_loop _ = false

abbrev pub is_awaiting : LoopStatus → Bool
is_awaiting LoopStatus.awaiting_approval = true
is_awaiting _ = false

abbrev pub is_running_step : StepStatus → Bool
is_running_step StepStatus.running = true
is_running_step _ = false

abbrev pub is_failed_step : StepStatus → Bool
is_failed_step StepStatus.failed = true
is_failed_step _ = false

abbrev pub is_cancelled_step : StepStatus → Bool
is_cancelled_step StepStatus.cancelled = true
is_cancelled_step _ = false

abbrev pub is_waiting_step : StepStatus → Bool
is_waiting_step StepStatus.waiting_approval = true
is_waiting_step _ = false

abbrev pub is_pending_approval : Option ApprovalStatus → Bool
is_pending_approval (some ApprovalStatus.pending) = true
is_pending_approval _ = false

abbrev pub is_approved : Option ApprovalStatus → Bool
is_approved (some ApprovalStatus.approved) = true
is_approved _ = false

pub record LoopAction : Type 0 where
  pub action_id : String
  pub action_type : ActionType
  pub requires_approval : Bool
  pub approval_status : Option ApprovalStatus

-- An observation's payload, as far as the loop reads it.
pub record Payload : Type 0 where
  pub report : QualityReport
  pub failure_type : Option FailureType
  pub output : Option String

pub record Execution : Type 0 where
  pub lease_id : String
  pub started_at : ℕ
  pub lease_expires_at : ℕ
  pub completed_at : Option ℕ

-- A checkpoint that is not `{}`.
pub record Checkpoint : Type 0 where
  pub status : StepStatus
  pub failure_type : Option FailureType
  pub execution : Option Execution

pub record LoopStep : Type 0 where
  pub step_id : String
  pub turn : ℕ
  pub status : StepStatus
  pub action : LoopAction
  pub observed_cancelled : Bool
  pub payload : Payload
  pub checkpoint : Option Checkpoint

pub data RecoveryAction : Type 0 where
  stop retry remediation require_human : RecoveryAction

abbrev pub same_recovery : RecoveryAction → RecoveryAction → Bool
same_recovery stop stop = true
same_recovery retry retry = true
same_recovery remediation remediation = true
same_recovery require_human require_human = true
same_recovery _ _ = false

instance abbrev pub recovery_action_Eq : Eq RecoveryAction
recovery_action_Eq = record { test = same_recovery }
