-- ===== src/Examples/NodeRuns.antt =====
-- Runs of pairing and of the life of a node.
use across_orchestrator.Coordinator.Transports.{
  node_transport_directive, reported, record_node_transport,
}
use across_orchestrator.Coordinator.Transports.Erasure.{told, record_node_transport_erases}
use across_orchestrator.Base.{
  ℕ, ◌<◌, String, ◌≡◌, refl, ◌≢◌, inr, true, false, not, ◌&&◌, none, some, List, [], ◌∷◌, arith,
  nat_Eq, string_Eq,
}
use across_orchestrator.Exec.{ok, err}
use across_orchestrator.Dict
use across_orchestrator.Dict.{
  get, remove, put, values, keys, get_of_absent, get-remove, get-put, put-put, length-put-le,
  length-remove-lt, length-put-known, IsKeyed,
}
use across_orchestrator.Protocol.Status.{offline, revoked, is_online}
use across_orchestrator.Store.{DirectiveStatus, TransportDirective, Node, Store}
use across_orchestrator.Coordinator.Action.{pairing_rejected, actions}
use across_orchestrator.Coordinator.Enrollment.{
  put_enrollment, is_issued, PairingRequest, pair, submit_pairing,
}
use across_orchestrator.Coordinator.Enrollment.Pairing.{
  GuessesBounded, submit_all, submit_all-GuessesBounded, waiting_node, used_enrollment,
  submit_pairing_needs,
}
use across_orchestrator.Coordinator.Nodes.{
  connect_node, disconnect_node, heartbeat_node, set_draining, record_node_update,
}
use across_orchestrator.Coordinator.Nodes.Revoked.{
  revoked_stays_out, set_draining_revives, record_node_update_revives,
}
use across_orchestrator.Examples.Samples.{
  capability, node, directive, revoked_node, enrollment, sample,
}

abbrev code_hash : String → String → String
code_hash enrollment_id code = code

abbrev verification_code : String → String → String → String
verification_code enrollment_id node_id fingerprint = "123"

abbrev pairing_request : PairingRequest
pairing_request = record {
  node_id = "n1";
  fingerprint = "0123456789abcdef";
  display_name = "one";
  capability_summary = capability;
}

guesses_bounded : GuessesBounded sample
unfolding Dict.get
guesses_bounded = record { at = λ k e found. ground arith }

abbrev attempts : List (ℕ × String × String × PairingRequest)
attempts = (5, "en1", "wrong", pairing_request) ∷ (6, "en1", "code", pairing_request) ∷ []

submit_all-GuessesBounded_example :
    GuessesBounded (submit_all code_hash verification_code attempts sample)
submit_all-GuessesBounded_example =
    submit_all-GuessesBounded code_hash verification_code attempts sample guesses_bounded

submit_pairing_needs_example :
    let t = (submit_pairing code_hash verification_code 5 "en1" "code" pairing_request sample).1 in
    ((is_issued enrollment.status ≡ true)
      × (enrollment.used_at ≡ none)
      × (5 < enrollment.expires_at)
      × (enrollment.failed_attempts < enrollment.max_failures)
      × (enrollment.code_hash ≡ code_hash "en1" "code")
      × (pairing_request.node_id ≡ pairing_request.capability_summary.node_id)
      × ("123" ≡ verification_code "en1" "n1" pairing_request.fingerprint))
    × (Dict.get "n1" t.nodes
        ≡ some (waiting_node code_hash verification_code "en1" pairing_request))
    × (Dict.get "en1" t.enrollments
        ≡ some (used_enrollment code_hash verification_code 5 enrollment pairing_request))
    × ((later : ℕ) (guess : String) (other : PairingRequest)
        → (submit_pairing code_hash verification_code later "en1" guess other t).0
          ≡ err pairing_rejected)
unfolding Dict.get submit_pairing pair put_enrollment actions
submit_pairing_needs_example =
    submit_pairing_needs code_hash verification_code 5 "en1" "code" pairing_request sample
      enrollment "123" refl refl

abbrev with_revoked : Store
with_revoked = record sample { nodes = ("n1", revoked_node) ∷ [] }

revoked_stays_out_example :
    ((connect_node 30 capability "local" 0 none with_revoked).0 ≢ ok node)
    × ((heartbeat_node 30 "n1" 0 with_revoked).0 ≢ ok node)
    × (Dict.get "n1" (disconnect_node 30 "n1" "gone" with_revoked).1.nodes
        ≡ some (record revoked_node {
          state = revoked;
          last_disconnected_at = some 30;
          disconnect_reason = some "gone";
        }))
unfolding Dict.get
revoked_stays_out_example =
    revoked_stays_out 30 with_revoked capability revoked_node refl refl "local" "gone" 0 0 none node

set_draining_revives_example :
    (next : Node) × (Dict.get "n1" (set_draining 30 "n1" false with_revoked).1.nodes ≡ some next)
    × ((is_online next.state && not next.draining) ≡ true)
    × (next.revoked_at ≡ some 20)
unfolding Dict.get
set_draining_revives_example = set_draining_revives 30 "n1" with_revoked revoked_node refl refl

record_node_update_revives_example :
    (next : Node) × (Dict.get "n1"
        (record_node_update 30 "n1" "d1" DirectiveStatus.failed none with_revoked).1.nodes
      ≡ some next)
    × (next.state ≡ offline)
    × (next.revoked_at ≡ some 20)
unfolding Dict.get
record_node_update_revives_example =
    record_node_update_revives 30 "n1" with_revoked revoked_node directive DirectiveStatus.failed
      none (inr refl) refl refl refl

abbrev relay_directive : TransportDirective
relay_directive = record {
  directive_id = "t1";
  transport = "relay";
  endpoint = some "https://relay";
  server_name = some "relay";
  relay =
      some (record { relay_session_id = "s"; relay_peer_node_id = "p"; relay_session_key = "key" });
  status = DirectiveStatus.requested;
  requested_at = some 4;
  updated_at = none;
  error = none;
}

abbrev relayed_node : Node
relayed_node = record node { transport_directive = some relay_directive }

abbrev relayed : Store
relayed = record sample { nodes = ("n1", relayed_node) ∷ [] }

record_node_transport_erases_example :
    let (r, t) = record_node_transport 30 "n1" "t1" DirectiveStatus.completed none relayed in
    (r ≡ ok (told 30 relayed_node relay_directive DirectiveStatus.completed none))
    × (Dict.get "n1" t.nodes
        ≡ some (told 30 relayed_node relay_directive DirectiveStatus.completed none))
    × ((reported 30 relay_directive DirectiveStatus.completed none).relay ≡ none)
    × ((reported 30 relay_directive DirectiveStatus.completed none).endpoint ≡ none)
    × ((node_transport_directive "n1" t).0 ≡ ok none)
unfolding Dict.get
record_node_transport_erases_example =
    record_node_transport_erases 30 "n1" DirectiveStatus.completed none relayed relayed_node
      relay_directive refl refl refl
