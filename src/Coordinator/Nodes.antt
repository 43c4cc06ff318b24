-- ===== src/Coordinator/Nodes.antt =====
-- coordinator.py: the nodes of WorkerCoordinator: `connect_node`, `disconnect_node`,
-- `heartbeat_node`, `set_draining`, `request_node_update`, `record_node_update` and
-- `expire_stale_nodes`. The patterns that an update request must match (re, urllib) are the
-- argument `well_formed`. The load of a heartbeat is in millionths, and certificate fingerprints
-- are in lower case.
pub mod Revoked
use across_orchestrator.Base.{
  ℕ, ◌+◌, max, min, String, Bool, true, false, not, ◌&&◌, Option, none, some, List, [], ◌∷◌, ltb,
  leb, if◌then◌else◌, ◌==◌, nat_Eq, string_Eq, holds, is_some, get_or, contains,
}
use across_orchestrator.Exec.{pure, raise, gets, require, lookup, guard, when, branch, ◌>>=◌, ◌>>◌}
use across_orchestrator.Dict
use across_orchestrator.Protocol.Status.{
  NodeState, online_idle, online_busy, draining, offline, incompatible, revoked, is_revoked,
}
use across_orchestrator.Protocol.Capability.{protocol_version, full_load, CapabilityManifest}
use across_orchestrator.Store.{DirectiveStatus, UpdateDirective, Node}
use across_orchestrator.Coordinator.Action.{
  node_not_approved, unsupported_transport, peer_identity_mismatch, no_bound_certificate,
  peer_certificate_mismatch, node_identity_stale, protocol_incompatible, node_is_revoked,
  update_requires_approved_node, update_directive_stale, update_request_invalid, Action, audited,
  node_of, put_node,
}

-- What TLS says of the peer, where `require_peer_identity` is set.
pub record Peer : Type 0 where
  pub node_id : Option String
  pub certificate_fingerprint : Option String

abbrev pub transports : List String
transports = "direct" ∷ "overlay" ∷ "relay" ∷ "local" ∷ []

-- The checks that `require_peer_identity` adds. Fingerprints are compared in lower case.
unfoldable pub check_peer : Node → String → Peer → Action (Unit {0})
check_peer node node_id peer = do
  guard (holds peer.node_id node_id) peer_identity_mismatch
  expected ← require no_bound_certificate node.certificate_fingerprint
  guard (holds peer.certificate_fingerprint expected) peer_certificate_mismatch

unfoldable pub connect_node :
    ℕ
    → CapabilityManifest
    → (transport : String) (identity_generation : ℕ) → Option Peer
    → Action Node
connect_node now manifest transport identity_generation peer = do
  guard (contains transports transport) unsupported_transport
  node ← lookup node_not_approved (λ s. Dict.get manifest.node_id s.nodes)
  guard (is_some node.approved_at) node_not_approved
  elim peer [ none ↦ pure tt | some p ↦ check_peer node manifest.node_id p ]
  guard (not (is_revoked node.state) && node.session_generation == identity_generation)
      node_identity_stale
  when (not (contains manifest.protocol_versions protocol_version)) (do
    put_node manifest.node_id (record node { state = incompatible })
    raise protocol_incompatible)
  let connected : Node = record node {
    capability_manifest = manifest;
    state = if node.draining then draining else online_idle;
    last_seen_at = some now;
    transport = transport;
  }
  put_node manifest.node_id connected
  audited now "node.connected" manifest.node_id
  pure connected

-- The states that a disconnect leaves as they are.
abbrev pub keeps_state : NodeState → Bool
keeps_state revoked = true
keeps_state incompatible = true
keeps_state NodeState.pending_approval = true
keeps_state _ = false

unfoldable pub disconnect_node : ℕ → (node_id reason : String) → Action Node
disconnect_node now node_id reason = do
  node ← node_of node_id
  let gone : Node = record node {
    state = if keeps_state node.state then node.state else offline;
    last_disconnected_at = some now;
    disconnect_reason = some reason;
  }
  put_node node_id gone
  audited now "node.disconnected" node_id
  pure gone

abbrev pub is_live : NodeState → Bool
is_live online_idle = true
is_live online_busy = true
is_live draining = true
is_live _ = false

-- The loop of `expire_stale_nodes` over the nodes. A node that was never seen was last seen at 0.
unfoldable pub expire_nodes : (now allowance : ℕ) → List Node → Action (List String)
expire_nodes now allowance [] = pure []
expire_nodes now allowance (node ∷ nodes) =
    let rest = expire_nodes now allowance nodes in
    branch (is_live node.state && leb (get_or node.last_seen_at 0 + allowance) now)
      (do
        _ ← disconnect_node now node.node_id "heartbeat_stale"
        others ← rest
        pure (node.node_id ∷ others))
      rest

unfoldable pub expire_stale_nodes : (now stale_after_seconds : ℕ) → Action (List String)
expire_stale_nodes now stale_after_seconds = do
  nodes ← gets (λ s. Dict.values s.nodes)
  expire_nodes now (max 5 stale_after_seconds) nodes

-- The states that a heartbeat leaves as they are.
abbrev pub ignores_heartbeat : NodeState → Bool
ignores_heartbeat draining = true
ignores_heartbeat incompatible = true
ignores_heartbeat _ = false

unfoldable pub heartbeat_node : ℕ → (node_id : String) (load : ℕ) → Action Node
heartbeat_node now node_id load = do
  node ← node_of node_id
  guard (not (is_revoked node.state)) node_is_revoked
  let seen : Node = record node {
    capability_manifest = record node.capability_manifest {
      current_load = min load full_load;
      last_verified_at = now;
    };
    last_seen_at = some now;
    state =
        if ignores_heartbeat node.state
        then node.state
        else if ltb 0 load
        then online_busy
        else online_idle;
  }
  put_node node_id seen
  pure seen

unfoldable pub set_draining : ℕ → (node_id : String) → Bool → Action Node
set_draining now node_id on = do
  node ← node_of node_id
  let changed : Node = record node { draining = on; state = if on then draining else online_idle }
  put_node node_id changed
  audited now "node.draining_changed" node_id
  pure changed

abbrev pub awaits_or_revoked : NodeState → Bool
awaits_or_revoked revoked = true
awaits_or_revoked NodeState.pending_approval = true
awaits_or_revoked _ = false

unfoldable pub request_node_update :
    ℕ → (directive_id node_id version url sha256 : String) (well_formed : Bool) → Action Node
request_node_update now directive_id node_id version url sha256 well_formed = do
  guard well_formed update_request_invalid
  node ← node_of node_id
  guard (not (awaits_or_revoked node.state)) update_requires_approved_node
  let directive : UpdateDirective = record {
    directive_id = directive_id;
    version = version;
    url = url;
    sha256 = sha256;
    status = DirectiveStatus.requested;
    requested_at = now;
    updated_at = none;
    error = none;
  }
  let asked : Node = record node {
    draining = true;
    state = draining;
    update_directive = some directive;
  }
  put_node node_id asked
  audited now "node.update_requested" node_id
  pure asked

-- `requested` is not a status that a Worker may report, so it is refused.
abbrev pub ends_update : DirectiveStatus → Bool
ends_update DirectiveStatus.completed = true
ends_update DirectiveStatus.failed = true
ends_update _ = false

abbrev pub is_reportable : DirectiveStatus → Bool
is_reportable DirectiveStatus.requested = false
is_reportable DirectiveStatus.applying = false
is_reportable _ = true

unfoldable pub record_node_update :
    ℕ → (node_id directive_id : String) → DirectiveStatus → Option String → Action Node
record_node_update now node_id directive_id status error = do
  guard (is_reportable status) update_request_invalid
  node ← node_of node_id
  directive ← require update_directive_stale node.update_directive
  guard (directive.directive_id == directive_id) update_directive_stale
  let updated : UpdateDirective = record directive {
    status = status;
    updated_at = some now;
    error = if is_some error then error else directive.error;
  }
  let told : Node = record node { update_directive = some updated }
  let next : Node =
      if ends_update status then record told { draining = false; state = offline } else told
  put_node node_id next
  audited now "node.update_status" node_id
  pure next
