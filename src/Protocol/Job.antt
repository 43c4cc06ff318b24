-- ===== src/Protocol/Job.antt =====
-- worker_protocol.py: JobManifest, JobLease, JobEvent and ArtifactDescriptor, with the goal
-- bindings that __post_init__ requires. A revision is a positive integer wherever the source has
-- one; 0 stands for its absence, as `int(x or 0)` reads it. An optional text that the source reads
-- for its truth is `none` when it is empty. Texts of a payload that no operation reads are left
-- out.
use across_orchestrator.Base.{
  ℕ, String, nat_Eq, Bool, true, false, Option, List, [], ◌∷◌, ◌&&◌, ◌||◌, not, ltb, is_some,
}
use across_orchestrator.Protocol.Status.{JobStatus}
use across_orchestrator.Protocol.Capability.{Requirements}

pub record RetryPolicy : Type 0 where
  pub max_attempts : ℕ
  pub retry_safe : Bool
  pub external_side_effects : Bool

pub record JobManifest : Type 0 where
  pub job_id : String
  pub run_id : String
  pub project_id : String
  pub task_id : Option String
  pub workflow_id : String
  pub idempotency_key : String
  pub required_capabilities : Requirements
  pub expected_outputs : List String
  pub executor : String
  pub retry_policy : RetryPolicy
  -- logical names with their SHA-256 digests
  pub input_artifacts : List (String × String)
  pub preferred_labels : List String
  pub quality_gates : List String
  pub goal_id : Option String
  pub goal_revision : ℕ
  pub goal_node_id : Option String
  pub criterion_ids : List String
  pub input_fingerprint : Option String
  pub required_evidence : List String

abbrev pub non_empty {ℓ} : {A : Type ℓ} → List A → Bool
non_empty [] = false
non_empty (x ∷ xs) = true

-- The goal binding of a manifest is all there or all absent (JobManifest.__post_init__).
pub goal_values_present : JobManifest → Bool
goal_values_present m =
    is_some m.goal_id
    || ltb 0 m.goal_revision
    || is_some m.goal_node_id
    || non_empty m.criterion_ids
    || is_some m.input_fingerprint
    || non_empty m.required_evidence

pub goal_values_complete : JobManifest → Bool
goal_values_complete m =
    is_some m.goal_id
    && is_some m.task_id
    && ltb 0 m.goal_revision
    && is_some m.goal_node_id
    && non_empty m.criterion_ids
    && is_some m.input_fingerprint
    && non_empty m.required_evidence

unfoldable pub goal_binding_valid : JobManifest → Bool
unfolding goal_values_present goal_values_complete
goal_binding_valid m = not (goal_values_present m) || goal_values_complete m

pub record JobLease : Type 0 where
  pub lease_id : String
  pub job_id : String
  pub run_id : String
  pub node_id : String
  pub attempt : ℕ
  pub manifest_hash : String
  pub issued_at : ℕ
  pub expires_at : ℕ
  pub heartbeat_interval_seconds : ℕ
  pub goal_id : Option String
  pub goal_revision : ℕ
  pub acknowledged_at : Option ℕ

pub record ArtifactDescriptor : Type 0 where
  pub artifact_id : String
  pub run_id : String
  pub job_id : String
  pub node_id : String
  pub logical_name : String
  pub size : ℕ
  pub sha256 : String

pub record JobEvent : Type 0 where
  pub event_id : String
  pub job_id : String
  pub run_id : String
  pub node_id : String
  pub lease_id : String
  pub attempt : ℕ
  pub sequence : ℕ
  pub state : JobStatus
  pub goal_id : Option String
  pub goal_revision : ℕ
  pub reason_category : Option String
  pub artifacts : List ArtifactDescriptor
  pub cleanup_status : Option String
  pub created_at : ℕ
