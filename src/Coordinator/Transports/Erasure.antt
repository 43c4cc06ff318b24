-- ===== src/Coordinator/Transports/Erasure.antt =====
-- The relay key of a transport directive does not outlive it.
use across_orchestrator.Base.{
  ℕ, String, ◌≡◌, refl, true, false, ◌||◌, Option, none, some, arith, eq_iff, if◌then◌else◌, ◌==◌,
  nat_Eq, string_Eq,
}
use across_orchestrator.Exec.{ok}
use across_orchestrator.Dict
use across_orchestrator.Dict.{
  get, remove, put, values, keys, get_of_absent, get-remove, get-put, put-put, length-put-le,
  length-remove-lt, IsKeyed,
}
use across_orchestrator.Store.{DirectiveStatus, TransportDirective, Node, Store}
use across_orchestrator.Coordinator.Action.{actions}
use across_orchestrator.Coordinator.Transports.{
  is_open_transport, node_transport_directive, is_applying, is_completed, is_failed, reported,
  record_node_transport,
}

-- The node after the report.
abbrev pub told : ℕ → Node → TransportDirective → DirectiveStatus → Option String → Node
told now node d status error = record node {
  transport = if is_completed status then d.transport else node.transport;
  transport_directive = some (reported now d status error);
}

not_applying :
    (status : DirectiveStatus)
    → (is_completed status || is_failed status) ≡ true
    → (is_applying status ≡ false) × (is_open_transport status ≡ false)
not_applying DirectiveStatus.requested h = ground arith
not_applying DirectiveStatus.downloading h = ground arith
not_applying DirectiveStatus.applying h = ground arith
not_applying DirectiveStatus.completed h = (refl, refl)
not_applying DirectiveStatus.failed h = (refl, refl)

-- When a Worker reports that the transport directive of a node has completed or failed, the report
-- is taken; the stored directive keeps neither relay session and key nor endpoint, and no transport
-- directive is handed to the Worker any more.
pub record_node_transport_erases :
    (now : ℕ) (k : String) (status : DirectiveStatus) (error : Option String) (s : Store)
    (node : Node) (d : TransportDirective)
    → Dict.get k s.nodes ≡ some node
    → node.transport_directive ≡ some d
    → (is_completed status || is_failed status) ≡ true
    → let (r, t) = record_node_transport now k d.directive_id status error s in
      (r ≡ ok (told now node d status error))
      × (Dict.get k t.nodes ≡ some (told now node d status error))
      × ((reported now d status error).relay ≡ none)
      × ((reported now d status error).endpoint ≡ none)
      × ((node_transport_directive k t).0 ≡ ok none)
unfolding record_node_transport node_transport_directive actions
record_node_transport_erases now k status error s node d found directed ended =
    let (settled, shut) = not_applying status ended in
    let same : d.directive_id == d.directive_id ≡ true =
      (eq_iff d.directive_id d.directive_id).1 refl in
    let known : k == k ≡ true = (eq_iff k k).1 refl in
    (
      simp (found, directed, settled, ended, same),
      simp (found, directed, settled, ended, same, get-put, known),
      simp settled,
      simp settled,
      simp (found, directed, settled, ended, same, get-put, known, shut),
    )
