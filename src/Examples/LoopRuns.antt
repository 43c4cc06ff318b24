-- ===== src/Examples/LoopRuns.antt =====
-- Runs of agent loops.
use across_orchestrator.AgentLoop.Cancelling.{Ended, starts, cancel_loop_ends_rounds}
use across_orchestrator.AgentLoop.Checks.{CompletesStep, approve_action_completes}
use across_orchestrator.AgentLoop.Selection.{
  action_count, quality_failed_step, supported_actions, remaining_plan, budget_exceeded_reason,
  pending_approval_step,
}
use across_orchestrator.AgentLoop.Recovery.{recovery_rule}
use across_orchestrator.AgentLoop.{
  ActionType, task_dispatch, quality_gate, check, action_type_Eq, adapter_error, failure_type_Eq,
  StepStatus, LoopStatus, ApprovalStatus, is_failed_step, Payload, LoopStep, recovery_action_Eq,
}
use across_orchestrator.AgentLoop.State.{table, LoopState, Outcome, returned, raised, Input, latest}
use across_orchestrator.AgentLoop.Steps.{
  latest_running_step, host_declared_check_failed, finished_step,
}
use across_orchestrator.AgentLoop.Rounds.{complete_loop, run_rounds, run_loop}
use across_orchestrator.AgentLoop.Host.{
  find_action, approve_action, cancel_loop, Request, begun, start_loop, HostCall, run, approve,
  host_calls,
}
use across_orchestrator.AgentLoop.Measure.{retries_left, left_of, pending_retries, fuel_for}
use across_orchestrator.AgentLoop.Termination.{Distinct}
use across_orchestrator.AgentLoop.Ends.{is_settled}
use across_orchestrator.AgentLoop.Opening.{run_loop_ends}
use across_orchestrator.AgentLoop.Guards.{Guards}
use across_orchestrator.AgentLoop.Approval.{host_calls-Guards}
use across_orchestrator.AgentLoop.Deciding.{Finished}
use across_orchestrator.AgentLoop.Completion.{run_loop_completed}
use across_orchestrator.Findings.{finding_state_Eq, QualityReport, quality_report_passed}
use across_orchestrator.Base.{
  ℕ, zero, suc, ◌+◌, String, ◌≡◌, refl, ap, ◌⊎◌, inl, inr, true, false, none, some, List, [], ◌∷◌,
  arith, eq_iff, if◌then◌else◌, ◌==◌, nat_Eq, string_Eq, is_some, get_or, Bool-cases,
}
use Prim.Native.String.{◌++◌ as text_append, len}
use text.Mathlib.TextPositions.{len-append}
use across_orchestrator.AgentLoop.{
  ActionType, task_dispatch, quality_gate, check, action_type_Eq, adapter_error, failure_type_Eq,
  StepStatus, LoopStatus, ApprovalStatus, is_failed_step, Payload, LoopStep, recovery_action_Eq,
}

abbrev tag : ℕ → String
tag zero = "s"
tag (suc n) = text_append "s" (tag n)

len-tag : (n : ℕ) → len (tag n) ≡ n + 1
len-tag zero = refl
len-tag (suc n) = omega (arith, len-append "s" (tag n), len-tag n)

abbrev passing : QualityReport
passing = record {
  finding_state = none;
  findings = none;
  normalized_findings = none;
  passed = some true;
  status = none;
}

abbrev failing : QualityReport
failing = record {
  finding_state = none;
  findings = none;
  normalized_findings = none;
  passed = some false;
  status = none;
}

abbrev input : (ℕ → Outcome) → ℕ → Input
input outcome n = record {
  now = 10 + n;
  new_request = none;
  outcome = outcome n;
  step_id = tag n;
  action_id = text_append "a" (tag n);
  lease_id = text_append "l" (tag n);
  approval_step_id = text_append "p" (tag n);
  approval_action_id = text_append "b" (tag n);
}

-- The adapter raises on its second call, and every other call is well.
abbrev one_error : ℕ → Outcome
one_error n =
    if n == 2
    then raised (record { is_timeout = false; blocked_by_environment = false })
    else returned (record { report = passing; failure_type = none; output = some "done" })

abbrev request : List ActionType → Request
request policy = record {
  loop_id = "loop-1";
  goal = "write the report";
  budget_turns = none;
  max_turns = 8;
  max_concurrent_loops = some 4;
  read_memory = true;
  write_candidates = false;
  require_approval_for = policy;
  metadata = record {
    action_plan = [];
    max_remediation_turns = none;
    recovery_policy = some (record {
      by_failure = (adapter_error, table (some "retry") (some (some 2))) ∷ [];
      default_action = none;
      max_retries = none;
    });
    recovery_next_action = none;
    max_runtime_seconds = none;
    action_lease_seconds = 300;
  };
}

abbrev fresh_loop : LoopState
fresh_loop = begun 10 (request [])

input-Distinct : (outcome : ℕ → Outcome) → Distinct (input outcome)
input-Distinct outcome m k h = elim (Bool-cases (tag m == tag k)) [
  | inl same ↦
      absurd (omega (arith, len-tag m, len-tag k, ap len ((eq_iff (tag m) (tag k)).0 same)))
  | inr other ↦ other
]

run_loop_ends_example :
    (t : LoopState) × (run_loop 100 (input one_error) fresh_loop ≡ some t)
    × ((is_settled t.loop.status ≡ true) ⊎ (is_some (latest_running_step fresh_loop.loop) ≡ true))
unfolding fuel_for pending_retries left_of retries_left begun recovery_rule
run_loop_ends_example =
    run_loop_ends 100 (input one_error) fresh_loop (input-Distinct one_error) (λ k le. refl)
      (omega arith)

-- A loop whose plan is one quality gate, which has passed.
abbrev gate_step : LoopStep
gate_step = record {
  step_id = "q";
  turn = 1;
  status = StepStatus.completed;
  action = record {
    action_id = "qa";
    action_type = quality_gate;
    requires_approval = false;
    approval_status = none;
  };
  observed_cancelled = false;
  payload = record { report = passing; failure_type = none; output = none };
  checkpoint = none;
}

abbrev gated_loop : LoopState
gated_loop =
    let s = fresh_loop in
    record s {
      loop = record s.loop {
        status = LoopStatus.running;
        turn_count = 1;
        steps = gate_step ∷ [];
        metadata = record s.loop.metadata { action_plan = some quality_gate ∷ [] };
      };
    }

abbrev finished_loop : LoopState
finished_loop = complete_loop (record gated_loop { loop = record gated_loop.loop { error = none } })

run_loop_completed_example : Finished finished_loop
unfolding run_loop begun budget_exceeded_reason latest pending_approval_step quality_failed_step
    quality_report_passed remaining_plan supported_actions action_count
run_loop_completed_example =
    run_loop_completed 3 (input one_error) gated_loop finished_loop refl refl refl

abbrev guarded_calls : List HostCall
guarded_calls =
    run 100 (input one_error)
    ∷ approve (input one_error 50) (text_append "a" (tag 2))
    ∷ run 100 (input one_error)
    ∷ []

host_calls-Guards_example :
    Guards
      (task_dispatch ∷ [])
      8
      (host_calls guarded_calls (begun 10 (request (task_dispatch ∷ []))))
unfolding start_loop begun
host_calls-Guards_example =
    host_calls-Guards 10 0 (request (task_dispatch ∷ [])) guarded_calls
      (begun 10 (request (task_dispatch ∷ []))) refl

cancel_loop_ends_rounds_example :
    (t : LoopState) × (run_rounds 4 1 (input one_error) (cancel_loop 20 true "shutdown" gated_loop)
      ≡ some t)
    × Ended t
    × (starts t.events ≡ starts gated_loop.events)
cancel_loop_ends_rounds_example =
    cancel_loop_ends_rounds 20 3 1 (input one_error) gated_loop "shutdown" refl

abbrev failing_payload : Payload
failing_payload = record { report = failing; failure_type = none; output = none }

abbrev check_step : LoopStep
check_step = record gate_step {
  step_id = "c";
  status = StepStatus.waiting_approval;
  action = record {
    action_id = "ca";
    action_type = check "schema_check";
    requires_approval = true;
    approval_status = some ApprovalStatus.pending;
  };
}

abbrev checked_loop : LoopState
checked_loop = record gated_loop { loop = record gated_loop.loop { steps = check_step ∷ [] } }

approve_action_completes_example :
    (is_failed_step
        (finished_step
          (input (λ n. returned failing_payload) 5)
          (check "schema_check")
          failing_payload
          check_step).status
      ≡ true)
    × CompletesStep
        (get_or
          (approve_action (input (λ n. returned failing_payload) 5) "ca" checked_loop)
          checked_loop).events
unfolding find_action host_declared_check_failed quality_report_passed
approve_action_completes_example =
    approve_action_completes (input (λ n. returned failing_payload) 5) "ca" "schema_check"
      failing_payload check_step checked_loop refl refl refl refl refl refl
