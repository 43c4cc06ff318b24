-- ===== src/Coordinator/Transports.antt =====
-- coordinator.py: the transport directives of a node, `request_node_transport`,
-- `node_transport_directive` and `record_node_transport`, with `node_update_directive` and
-- `import_approved_node`. `hostname` is the host of an endpoint that is an HTTPS URL without
-- credentials and fragment (urllib), and `key_length` the length of a decoded relay key (base64).
pub mod Erasure
use Prim.Native.String
use across_orchestrator.Base.{
  ℕ, zero, suc, ◌+◌, ◌-◌, ◌*◌, ◌/◌, ◌≤◌, ◌<◌, max, min, String, ◌≡◌, refl, sym, ap, ◌∙◌, subst, ◌≢◌,
  ◌↔◌, ◌⊎◌, inl, inr, Bool, true, false, not, ◌&&◌, ◌||◌, Option, none, some, List, [], ◌∷◌, ◌++◌,
  map, arith, eq_iff, ltb, leb, text_ltb, if◌then◌else◌, Eq, ◌==◌, nat_Eq, string_Eq, holds,
  holds-some, is_some, get_or, Bool-cases, Option-cases, length, any, all, All, contains, subset,
}
use across_orchestrator.Exec.{
  Result, ok, err, Exec, pure, raise, gets, require, lookup, lift, modify, guard, when, branch,
  raise_if, resume, ◌>>=◌, ◌>>◌,
}
use across_orchestrator.Dict
use across_orchestrator.Protocol.Status.{
  NodeState, pending_approval, online_idle, online_busy, draining, offline, incompatible, degraded,
  revoked, JobStatus, queued, leased, preparing, running, waiting_model, uploading, verifying,
  waiting_review, completed, failed, cancelled, lost, expired, stale, is_terminal, is_queued,
  is_revoked, is_online,
}
use across_orchestrator.Protocol.Capability.{
  protocol_version, full_load, CapabilityManifest, Requirements, agrees, within, isolation_met,
  supports,
}
use across_orchestrator.Store.{
  Collection, EnrollmentStatus, issued, expired, rate_limited, pending_approval, Enrollment,
  DirectiveStatus, requested, downloading, applying, completed, failed, UpdateDirective,
  RelayMaterial, TransportDirective, Node, Job, Artifact, Usage, Reservation, Grant,
  TransactionStatus, prepared, committed, Transaction, Quarantined, Audit, Store, empty, read_log,
  append,
}
use across_orchestrator.Coordinator.Action.{
  CoordinatorError, protocol, unexpected_keyword, inputs_mismatch, pairing_rejected,
  pairing_rate_limited, pairing_identity_mismatch, pairing_identity_invalid, node_not_pending,
  verification_code_mismatch, node_not_found, node_not_approved, unsupported_transport,
  peer_identity_mismatch, no_bound_certificate, peer_certificate_mismatch, node_identity_stale,
  protocol_incompatible, node_is_revoked, fingerprint_invalid, update_requires_approved_node,
  update_directive_stale, update_request_invalid, transport_invalid, transport_endpoint_invalid,
  transport_requires_approved_node, relay_key_invalid, relay_material_invalid,
  transport_directive_stale, approved_fingerprint_invalid, job_not_found, lease_not_found,
  grant_not_found, idempotency_conflict, goal_revision_older, goal_id_required,
  goal_revision_not_positive, goal_revision_backwards, lease_expired_before_ack,
  manifest_hash_mismatch, lease_goal_mismatch, lease_goal_older, stale_lease_heartbeat,
  lease_not_acknowledged, lease_expired, upload_needs_active_lease, upload_not_owned,
  artifact_undeclared, artifact_already_bound, upload_not_registered, artifact_descriptor_mismatch,
  upload_stale_attempt, event_goal_mismatch, event_foreign_lease, duplicate_event_conflict,
  event_needs_ack, event_lease_expired, event_sequence_not_increasing, job_already_terminal,
  unverified_artifact, outputs_not_satisfied, job_lock_required, transaction_other_job,
  transaction_conflict, transaction_job_missing, different_terminal_event, log_has_other_terminal,
  transaction_event_conflict, grant_not_owner, grant_budget_exceeded, grant_concurrency_exceeded,
  grant_calls_exceeded, grant_tokens_exceeded, reservation_not_found, grant_final_usage_exceeded,
  Action, as_coordinator_error, demand, audited, node_of, job_of, lease_of, put_job, put_node,
  put_lease, actions,
}
use across_orchestrator.Coordinator.Nodes.{
  Peer, transports, check_peer, connect_node, keeps_state, disconnect_node, is_live, expire_nodes,
  expire_stale_nodes, ignores_heartbeat, heartbeat_node, set_draining, awaits_or_revoked,
  request_node_update, ends_update, is_reportable, record_node_update,
}

-- A session id and a peer are named, and the key decodes to 32 bytes.
unfoldable pub demand_relay :
    (key_length : String → Option ℕ) → String → RelayMaterial → Action (Option RelayMaterial)
demand_relay key_length transport material =
    branch (transport == "relay")
      (do
        length ← require relay_key_invalid (key_length material.relay_session_key)
        guard
            (not (material.relay_session_id == "")
              && not (material.relay_peer_node_id == "")
              && length == 32)
            relay_material_invalid
        pure (some material))
      (pure none)

module _ (hostname : String → Option String) (key_length : String → Option ℕ) where
  unfoldable pub request_node_transport :
      ℕ
      → (directive_id node_id transport endpoint : String) → Option String
      → RelayMaterial
      → Action Node
  request_node_transport now directive_id node_id transport endpoint server_name material = do
    guard (contains ("direct" ∷ "overlay" ∷ "relay" ∷ []) transport) transport_invalid
    host ← require transport_endpoint_invalid (hostname endpoint)
    node ← node_of node_id
    guard (not (awaits_or_revoked node.state)) transport_requires_approved_node
    relay ← demand_relay key_length transport material
    let directive : TransportDirective = record {
      directive_id = directive_id;
      transport = transport;
      endpoint = some endpoint;
      server_name = if is_some server_name then server_name else some host;
      relay = relay;
      status = DirectiveStatus.requested;
      requested_at = some now;
      updated_at = none;
      error = none;
    }
    let asked : Node = record node { transport_directive = some directive }
    put_node node_id asked
    audited now "node.transport_requested" node_id
    pure asked

-- A transport directive that the Worker has to act on.
abbrev pub is_open_transport : DirectiveStatus → Bool
is_open_transport DirectiveStatus.requested = true
is_open_transport DirectiveStatus.applying = true
is_open_transport _ = false

abbrev pub open_transport : Option TransportDirective → Option TransportDirective
open_transport none = none
open_transport (some d) = if is_open_transport d.status then some d else none

unfoldable pub node_transport_directive : String → Action (Option TransportDirective)
node_transport_directive node_id = do
  node ← node_of node_id
  pure (open_transport node.transport_directive)

abbrev pub is_open_update : DirectiveStatus → Bool
is_open_update DirectiveStatus.requested = true
is_open_update DirectiveStatus.downloading = true
is_open_update _ = false

abbrev pub open_update : Option UpdateDirective → Option UpdateDirective
open_update none = none
open_update (some d) = if is_open_update d.status then some d else none

unfoldable pub node_update_directive : String → Action (Option UpdateDirective)
node_update_directive node_id = do node ← node_of node_id; pure (open_update node.update_directive)

abbrev pub is_applying : DirectiveStatus → Bool
is_applying DirectiveStatus.applying = true
is_applying _ = false

abbrev pub is_completed : DirectiveStatus → Bool
is_completed DirectiveStatus.completed = true
is_completed _ = false

abbrev pub is_failed : DirectiveStatus → Bool
is_failed DirectiveStatus.failed = true
is_failed _ = false

-- The directive after a report: one that is being applied is kept, of one that ended only its id,
-- transport and outcome remain.
abbrev pub reported : ℕ → TransportDirective → DirectiveStatus → Option String → TransportDirective
reported now d status error =
    if is_applying status then record d { status = status; updated_at = some now } else record {
      directive_id = d.directive_id;
      transport = d.transport;
      endpoint = none;
      server_name = none;
      relay = none;
      status = status;
      requested_at = none;
      updated_at = some now;
      error = error;
    }

unfoldable pub record_node_transport :
    ℕ → (node_id directive_id : String) → DirectiveStatus → Option String → Action Node
record_node_transport now node_id directive_id status error = do
  guard (is_applying status || is_completed status || is_failed status) transport_invalid
  node ← node_of node_id
  directive ← require transport_directive_stale node.transport_directive
  guard (directive.directive_id == directive_id) transport_directive_stale
  let next : Node = record node {
    transport = if is_completed status then directive.transport else node.transport;
    transport_directive = some (reported now directive status error);
  }
  put_node node_id next
  audited now "node.transport_status" node_id
  pure next

-- The keys that the imported record does not have are `none`, False or the empty text.
unfoldable pub import_approved_node :
    ℕ
    → CapabilityManifest
    → Option String
    → (fingerprint : String) (session_generation : ℕ) → Option ℕ
    → Action Node
import_approved_node now manifest display_name fingerprint session_generation identity_expires_at =
    do
      guard (leb 16 (String.count fingerprint)) approved_fingerprint_invalid
      let imported : Node = record {
        node_id = manifest.node_id;
        state = offline;
        display_name = get_or display_name manifest.node_id;
        fingerprint = fingerprint;
        certificate_fingerprint = some fingerprint;
        capability_manifest = manifest;
        verification_code = "";
        approved_at = some now;
        identity_expires_at = some (get_or identity_expires_at (now + 86_400));
        revoked_at = none;
        revocation_reason = none;
        last_seen_at = none;
        last_disconnected_at = none;
        disconnect_reason = none;
        transport = "pending";
        session_generation = max 1 session_generation;
        draining = false;
        update_directive = none;
        transport_directive = none;
      }
      put_node manifest.node_id imported
      audited now "node.approval_imported" manifest.node_id
      pure imported
