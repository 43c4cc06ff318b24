-- ===== src/Store.antt =====
-- worker_store.py: WorkerControlStore, with the records that the coordinator keeps in it
-- (coordinator.py). A collection is a dictionary of its records (Dict.antt), a log collection a
-- dictionary of lists, oldest entry first. The record ids are those that `_safe_record_id` lets
-- pass. An audit entry holds its event and the id of its subject; the rest of its payload, which
-- nothing reads back, is left out. The collections that this development does not use are left out.
use across_orchestrator.Base.{ℕ, String, Bool, Option, List, [], ◌∷◌, ◌++◌, get_or}
use across_orchestrator.Dict
use across_orchestrator.Protocol.Status.{JobStatus, NodeState}
use across_orchestrator.Protocol.Capability.{CapabilityManifest}
use across_orchestrator.Protocol.Job.{JobManifest, JobLease, JobEvent, ArtifactDescriptor}
use across_orchestrator.Protocol.Grant.{ModelGrant}

abbrev pub Collection : Type 0 → Type 0
Collection V = List (String × V)

pub data EnrollmentStatus : Type 0 where
  issued expired rate_limited pending_approval : EnrollmentStatus

pub record Enrollment : Type 0 where
  pub enrollment_id : String
  pub code_hash : String
  pub created_at : ℕ
  pub expires_at : ℕ
  pub used_at : Option ℕ
  pub failed_attempts : ℕ
  pub max_failures : ℕ
  pub status : EnrollmentStatus
  pub node_id : Option String

pub data DirectiveStatus : Type 0 where
  requested downloading applying completed failed : DirectiveStatus

pub record UpdateDirective : Type 0 where
  pub directive_id : String
  pub version : String
  pub url : String
  pub sha256 : String
  pub status : DirectiveStatus
  pub requested_at : ℕ
  pub updated_at : Option ℕ
  pub error : Option String

-- The session that a Worker joins on a relay.
pub record RelayMaterial : Type 0 where
  pub relay_session_id : String
  pub relay_peer_node_id : String
  pub relay_session_key : String

pub record TransportDirective : Type 0 where
  pub directive_id : String
  pub transport : String
  pub endpoint : Option String
  pub server_name : Option String
  pub relay : Option RelayMaterial
  pub status : DirectiveStatus
  pub requested_at : Option ℕ
  pub updated_at : Option ℕ
  pub error : Option String

pub record Node : Type 0 where
  pub node_id : String
  pub state : NodeState
  pub display_name : String
  pub fingerprint : String
  pub certificate_fingerprint : Option String
  pub capability_manifest : CapabilityManifest
  pub verification_code : String
  pub approved_at : Option ℕ
  pub identity_expires_at : Option ℕ
  pub revoked_at : Option ℕ
  pub revocation_reason : Option String
  pub last_seen_at : Option ℕ
  pub last_disconnected_at : Option ℕ
  pub disconnect_reason : Option String
  pub transport : String
  pub session_generation : ℕ
  pub draining : Bool
  pub update_directive : Option UpdateDirective
  pub transport_directive : Option TransportDirective

pub record Job : Type 0 where
  pub job_id : String
  pub run_id : String
  pub manifest : JobManifest
  pub manifest_hash : String
  pub status : JobStatus
  pub attempt : ℕ
  pub node_id : Option String
  pub lease_id : Option String
  pub terminal_event_id : Option String
  pub created_at : ℕ
  pub updated_at : ℕ
  pub cancel_requested_at : Option ℕ
  pub cancel_reason : Option String
  pub recovery_reason : Option String
  pub last_lease_failure : Option String
  pub reason_category : Option String
  pub cleanup_status : Option String

pub record Artifact : Type 0 where
  pub descriptor : ArtifactDescriptor
  pub lease_id : Option String
  pub attempt : ℕ
  pub verified : Bool

pub record Usage : Type 0 where
  pub calls : ℕ
  pub tokens : ℕ
  pub cost_usd : ℕ

pub record Reservation : Type 0 where
  pub requested_tokens : ℕ
  pub started_at : ℕ

-- The record of a grant: the fields of its ModelGrant and further keys. `reservations` is `none`
-- until the first call begins, and `active_calls` says whether that key is there.
pub record Grant : Type 0 where
  pub grant : ModelGrant
  pub open grant use *
  pub usage : Usage
  pub reservations : Option (List (String × Reservation))
  pub active_calls : Bool

pub data TransactionStatus : Type 0 where
  prepared committed : TransactionStatus

pub record Transaction : Type 0 where
  pub event_id : String
  pub job_id : String
  pub job : Job
  pub event : JobEvent
  pub status : TransactionStatus
  pub updated_at : ℕ

pub record Quarantined : Type 0 where
  pub reason_code : String
  pub subject : String
  pub at : ℕ

pub record Audit : Type 0 where
  pub event : String
  pub subject : String
  pub at : ℕ

pub record Store : Type 0 where
  pub nodes : Collection Node
  pub enrollments : Collection Enrollment
  pub jobs : Collection Job
  pub leases : Collection JobLease
  pub artifacts : Collection Artifact
  pub grants : Collection Grant
  pub idempotency : Collection String
  pub goal_revisions : Collection ℕ
  pub terminal_transactions : Collection Transaction
  pub events : Collection (List JobEvent)
  pub quarantine : Collection (List Quarantined)
  pub audit : List Audit

abbrev pub empty : Store
empty = record {
  nodes = [];
  enrollments = [];
  jobs = [];
  leases = [];
  artifacts = [];
  grants = [];
  idempotency = [];
  goal_revisions = [];
  terminal_transactions = [];
  events = [];
  quarantine = [];
  audit = [];
}

-- `read_log`
abbrev pub read_log : {A : Type 0} → String → Collection (List A) → List A
read_log k logs = get_or (Dict.get k logs) []

-- `append`
abbrev pub append : {A : Type 0} → String → A → Collection (List A) → Collection (List A)
append k a logs = Dict.put k (read_log k logs ++ a ∷ []) logs
