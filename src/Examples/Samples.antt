-- ===== src/Examples/Samples.antt =====
-- The sample records that the runs share.
use across_orchestrator.Base.{true, false, none, some, [], ◌∷◌, nat_Eq, string_Eq}
use across_orchestrator.Protocol.Status.{online_idle, revoked, queued, running, verifying}
use across_orchestrator.Protocol.Capability.{protocol_version, CapabilityManifest, Requirements}
use across_orchestrator.Protocol.Job.{JobManifest, JobLease, JobEvent}
use across_orchestrator.Protocol.Grant.{GrantUse}
use across_orchestrator.Store.{
  EnrollmentStatus, Enrollment, DirectiveStatus, UpdateDirective, Node, Job, Grant, Store, empty,
}

abbrev pub capability : CapabilityManifest
capability = record {
  node_id = "n1";
  worker_version = "1.0";
  os = "linux";
  architecture = "x86_64";
  cpu_count = 4;
  memory_bytes = 8_000;
  disk_available_bytes = 9_000;
  executors = "workflow" ∷ [];
  isolation_level = "isolated";
  protocol_versions = protocol_version ∷ [];
  workflow_runtimes = [];
  tools = [];
  agents = [];
  labels = "fast" ∷ [];
  max_concurrency = 1;
  current_load = 0;
  verification_status = "verified";
  capability_source = "local-probe";
  last_verified_at = 1;
}

abbrev pub node : Node
node = record {
  node_id = "n1";
  state = online_idle;
  display_name = "one";
  fingerprint = "f1";
  certificate_fingerprint = none;
  capability_manifest = capability;
  verification_code = "123";
  approved_at = some 2;
  identity_expires_at = none;
  revoked_at = none;
  revocation_reason = none;
  last_seen_at = some 3;
  last_disconnected_at = none;
  disconnect_reason = none;
  transport = "local";
  session_generation = 1;
  draining = false;
  update_directive = none;
  transport_directive = none;
}

abbrev pub directive : UpdateDirective
directive = record {
  directive_id = "d1";
  version = "1.1";
  url = "https://host/worker";
  sha256 = "abc";
  status = DirectiveStatus.requested;
  requested_at = 4;
  updated_at = none;
  error = none;
}

abbrev pub revoked_node : Node
revoked_node = record node {
  state = revoked;
  revoked_at = some 20;
  update_directive = some directive;
}

abbrev pub requirements : Requirements
requirements = record {
  os = some "linux";
  architecture = none;
  executor = none;
  isolation_level = none;
  labels = [];
  tools = [];
  workflow_runtimes = [];
  agents = [];
  memory_bytes = 1_000;
  disk_bytes = 0;
}

abbrev pub manifest : JobManifest
manifest = record {
  job_id = "j1";
  run_id = "r1";
  project_id = "p1";
  task_id = some "t1";
  workflow_id = "w1";
  idempotency_key = "k1";
  required_capabilities = requirements;
  expected_outputs = [];
  executor = "workflow";
  retry_policy = record { max_attempts = 1; retry_safe = false; external_side_effects = true };
  input_artifacts = [];
  preferred_labels = "fast" ∷ [];
  quality_gates = [];
  goal_id = some "g1";
  goal_revision = 2;
  goal_node_id = some "gn";
  criterion_ids = "c1" ∷ [];
  input_fingerprint = some "fp";
  required_evidence = "tests" ∷ [];
}

abbrev pub queued_job : Job
queued_job = record {
  job_id = "j1";
  run_id = "r1";
  manifest = manifest;
  manifest_hash = "h1";
  status = queued;
  attempt = 0;
  node_id = none;
  lease_id = none;
  terminal_event_id = none;
  created_at = 5;
  updated_at = 5;
  cancel_requested_at = none;
  cancel_reason = none;
  recovery_reason = none;
  last_lease_failure = none;
  reason_category = none;
  cleanup_status = none;
}

abbrev pub job : Job
job = record queued_job { status = running; attempt = 1; node_id = some "n1"; lease_id = some "l1" }

abbrev pub lease : JobLease
lease = record {
  lease_id = "l1";
  job_id = "j1";
  run_id = "r1";
  node_id = "n1";
  attempt = 1;
  manifest_hash = "h1";
  issued_at = 10;
  expires_at = 40;
  heartbeat_interval_seconds = 10;
  goal_id = some "g1";
  goal_revision = 2;
  acknowledged_at = some 11;
}

abbrev pub event : JobEvent
event = record {
  event_id = "e1";
  job_id = "j1";
  run_id = "r1";
  node_id = "n1";
  lease_id = "l1";
  attempt = 1;
  sequence = 1;
  state = verifying;
  goal_id = some "g1";
  goal_revision = 2;
  reason_category = none;
  artifacts = [];
  cleanup_status = none;
  created_at = 20;
}

abbrev pub grant : Grant
grant = record {
  grant = record {
    grant_id = "gr1";
    run_id = "r1";
    job_id = "j1";
    node_id = "n1";
    audience = "gateway";
    scopes = "model.invoke" ∷ [];
    model_policy = "host-default";
    purposes = "workflow" ∷ [];
    max_calls = 2;
    max_tokens = 100;
    max_concurrency = 1;
    max_cost_usd = 1_000;
    issued_at = 10;
    expires_at = 300;
    revoked_at = none;
  };
  usage = record { calls = 0; tokens = 0; cost_usd = 0 };
  reservations = none;
  active_calls = false;
}

abbrev pub grant_use : GrantUse
grant_use = record {
  run_id = "r1";
  job_id = "j1";
  node_id = "n1";
  audience = "gateway";
  scope = "model.invoke";
  purpose = "workflow";
}

abbrev pub enrollment : Enrollment
enrollment = record {
  enrollment_id = "en1";
  code_hash = "code";
  created_at = 1;
  expires_at = 100;
  used_at = none;
  failed_attempts = 4;
  max_failures = 5;
  status = EnrollmentStatus.issued;
  node_id = none;
}

abbrev pub sample : Store
sample = record empty {
  nodes = ("n1", node) ∷ [];
  enrollments = ("en1", enrollment) ∷ [];
  jobs = ("j1", job) ∷ [];
  leases = ("l1", lease) ∷ [];
  grants = ("gr1", grant) ∷ [];
  goal_revisions = ("g1", 2) ∷ [];
}
