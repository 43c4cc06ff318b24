-- ===== src/Coordinator/Nodes/Revoked.antt =====
-- Revoked nodes: what keeps them out, and the two operations that let them back in.
use across_orchestrator.Base.{
  ℕ, String, ◌≡◌, refl, ◌≢◌, ◌⊎◌, inl, inr, true, false, not, ◌&&◌, Option, some, arith, eq_iff,
  if◌then◌else◌, nat_Eq, string_Eq, is_some,
}
use across_orchestrator.Exec.{ok}
use across_orchestrator.Dict
use across_orchestrator.Dict.{
  get, remove, put, values, keys, get_of_absent, get-remove, get-put, put-put, length-put-le,
  length-remove-lt, length-put-known, IsKeyed,
}
use across_orchestrator.Protocol.Status.{online_idle, offline, revoked, is_online}
use across_orchestrator.Protocol.Capability.{CapabilityManifest}
use across_orchestrator.Store.{DirectiveStatus, UpdateDirective, Node, Store}
use across_orchestrator.Coordinator.Action.{actions}
use across_orchestrator.Coordinator.Nodes.{
  Peer, check_peer, connect_node, disconnect_node, heartbeat_node, set_draining, ends_update,
  is_reportable, record_node_update,
}

-- A revoked node can neither connect nor send a heartbeat, and a disconnect leaves it revoked.
pub revoked_stays_out :
    (now : ℕ) (s : Store) (manifest : CapabilityManifest) (node : Node)
    → Dict.get manifest.node_id s.nodes ≡ some node
    → node.state ≡ revoked
    → (transport reason : String) (generation load : ℕ) (peer : Option Peer) (r : Node)
    → let k = manifest.node_id in
      ((connect_node now manifest transport generation peer s).0 ≢ ok r)
      × ((heartbeat_node now k load s).0 ≢ ok r)
      × (Dict.get k (disconnect_node now k reason s).1.nodes
          ≡ some (record node {
            state = revoked;
            last_disconnected_at = some now;
            disconnect_reason = some reason;
          }))
unfolding connect_node check_peer heartbeat_node disconnect_node actions
revoked_stays_out now s manifest node found out transport reason generation load peer r = (
  ground arith,
  ground arith,
  simp (found, out, get-put, (eq_iff manifest.node_id manifest.node_id).1 refl),
)

-- `set_draining` with False on a revoked node puts it online, not draining, so that the scheduler's
-- test on the state of a node lets it through.
pub set_draining_revives :
    (now : ℕ) (k : String) (s : Store) (node : Node)
    → Dict.get k s.nodes ≡ some node
    → node.state ≡ revoked
    → (next : Node) × (Dict.get k (set_draining now k false s).1.nodes ≡ some next)
      × ((is_online next.state && not next.draining) ≡ true)
      × (next.revoked_at ≡ node.revoked_at)
unfolding set_draining actions
set_draining_revives now k s node found out = (
  record node { draining = false; state = online_idle },
  simp (found, get-put, (eq_iff k k).1 refl),
  refl,
  refl,
)

record_ended_update :
    (now : ℕ) (k : String) (s : Store) (node : Node) (d : UpdateDirective)
    (status : DirectiveStatus) (error : Option String)
    → is_reportable status ≡ true
    → ends_update status ≡ true
    → Dict.get k s.nodes ≡ some node
    → node.update_directive ≡ some d
    → Dict.get k (record_node_update now k d.directive_id status error s).1.nodes
      ≡ some (record node {
        update_directive = some (record d {
          status = status;
          updated_at = some now;
          error = if is_some error then error else d.error;
        });
        draining = false;
        state = offline;
      })
unfolding record_node_update actions
record_ended_update now k s node d status error reportable ends found directed = simp (
  reportable,
  ends,
  found,
  directed,
  get-put,
  (eq_iff k k).1 refl,
  (eq_iff d.directive_id d.directive_id).1 refl,
)

-- The report that the update of a revoked node completed or failed puts the node offline, with its
-- time of revocation kept.
pub record_node_update_revives :
    (now : ℕ) (k : String) (s : Store) (node : Node) (d : UpdateDirective)
    (status : DirectiveStatus) (error : Option String)
    → (status ≡ DirectiveStatus.completed) ⊎ (status ≡ DirectiveStatus.failed)
    → Dict.get k s.nodes ≡ some node
    → node.state ≡ revoked
    → node.update_directive ≡ some d
    → (next : Node) × (Dict.get k (record_node_update now k d.directive_id status error s).1.nodes
        ≡ some next)
      × (next.state ≡ offline)
      × (next.revoked_at ≡ node.revoked_at)
record_node_update_revives now k s node d status error ended found out directed = (
  _,
  record_ended_update now k s node d status error
      (elim ended [ inl e ↦ rw e refl | inr e ↦ rw e refl ])
      (elim ended [ inl e ↦ rw e refl | inr e ↦ rw e refl ]) found directed,
  refl,
  refl,
)
