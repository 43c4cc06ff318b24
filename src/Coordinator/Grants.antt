-- ===== src/Coordinator/Grants.antt =====
-- coordinator.py: the model grants. `issue_model_grant`, `consume_model_grant`,
-- `begin_model_grant_call`, `finish_model_grant_call` and `revoke_model_grant`. Ids that
-- `new_protocol_id` makes are arguments. Token and cost arguments are integers, clamped at 0 as the
-- source does; the tolerance 1e-9 on the cost is one unit of 10^-9 US dollars.
pub mod Budget
pub mod Authority
pub mod Revocation
use across_orchestrator.Base.{
  ℕ, zero, suc, ◌+◌, ◌-◌, ◌*◌, ◌/◌, ◌≤◌, ◌<◌, max, min, String, ◌≡◌, refl, sym, ap, ◌∙◌, subst, ◌≢◌,
  ◌↔◌, ◌⊎◌, inl, inr, Bool, true, false, not, ◌&&◌, ◌||◌, Option, none, some, List, [], ◌∷◌, ◌++◌,
  map, arith, eq_iff, ltb, leb, text_ltb, if◌then◌else◌, Eq, ◌==◌, nat_Eq, string_Eq, holds,
  holds-some, is_some, get_or, Bool-cases, Option-cases, length, any, all, All, contains, subset,
}
use across_orchestrator.Exec.{
  Result, ok, err, Exec, pure, raise, gets, require, lookup, lift, modify, guard, when, branch,
  resume, ◌>>=◌, ◌>>◌,
}
use across_orchestrator.Dict
use across_orchestrator.Protocol.Grant.{
  ProtocolError, grant_expired_or_revoked, grant_binding_mismatch, grant_scope_denied,
  grant_limits_invalid, ModelGrant, GrantUse, binding_matches, authorize,
}
use across_orchestrator.Store.{
  Collection, EnrollmentStatus, issued, expired, rate_limited, pending_approval, Enrollment,
  DirectiveStatus, requested, downloading, completed, failed, UpdateDirective, Node, Job, Artifact,
  Usage, Reservation, Grant, TransactionStatus, prepared, committed, Transaction, Quarantined,
  Audit, Store, empty, read_log, append,
}
use across_orchestrator.Coordinator.Action.{
  CoordinatorError, protocol, unexpected_keyword, pairing_rejected, pairing_rate_limited,
  pairing_identity_mismatch, pairing_identity_invalid, node_not_pending, verification_code_mismatch,
  node_not_found, node_not_approved, unsupported_transport, peer_identity_mismatch,
  no_bound_certificate, peer_certificate_mismatch, node_identity_stale, protocol_incompatible,
  node_is_revoked, update_requires_approved_node, update_directive_stale, job_not_found,
  lease_not_found, grant_not_found, idempotency_conflict, goal_revision_older, goal_id_required,
  goal_revision_not_positive, goal_revision_backwards, lease_expired_before_ack,
  manifest_hash_mismatch, lease_goal_mismatch, lease_goal_older, stale_lease_heartbeat,
  lease_not_acknowledged, lease_expired, upload_needs_active_lease, upload_not_owned,
  artifact_undeclared, artifact_already_bound, upload_not_registered, artifact_descriptor_mismatch,
  upload_stale_attempt, event_goal_mismatch, event_foreign_lease, duplicate_event_conflict,
  event_needs_ack, event_lease_expired, event_sequence_not_increasing, job_already_terminal,
  unverified_artifact, outputs_not_satisfied, transaction_other_job, transaction_conflict,
  transaction_job_missing, different_terminal_event, log_has_other_terminal,
  transaction_event_conflict, grant_not_owner, grant_budget_exceeded, grant_concurrency_exceeded,
  grant_calls_exceeded, grant_tokens_exceeded, reservation_not_found, grant_final_usage_exceeded,
  Action, as_coordinator_error, demand, audited, node_of, job_of, lease_of, put_job, put_node,
  put_lease, actions,
}

-- A Python integer argument: `negsuc n` is -(n + 1).
pub data ℤ : Type 0 where
  pos : ℕ → ℤ
  negsuc : ℕ → ℤ

-- `max(0, n)`
abbrev pub clamp_zero : ℤ → ℕ
clamp_zero (pos n) = n
clamp_zero (negsuc n) = 0

-- `max(1, n)`
abbrev pub clamp_one : ℤ → ℕ
clamp_one (pos n) = max 1 n
clamp_one (negsuc n) = 1

unfoldable pub put_grant : String → Grant → Action (Unit {0})
put_grant k g = modify λ s. record s { grants = Dict.put k g s.grants }

abbrev pub grant_of : String → Action Grant
grant_of k = lookup grant_not_found (λ s. Dict.get k s.grants)

-- The keyword arguments of `issue_model_grant`.
pub record GrantTerms : Type 0 where
  pub audience : String
  pub scopes : List String
  pub purposes : List String
  pub model_policy : String
  pub max_calls : ℕ
  pub max_tokens : ℕ
  pub max_concurrency : ℕ
  pub max_cost_usd : ℕ
  pub ttl_seconds : ℕ

unfoldable pub issue_model_grant :
    (now : ℕ) (grant_id job_id node_id : String) → GrantTerms → Action ModelGrant
issue_model_grant now grant_id job_id node_id t = do
  job ← job_of job_id
  guard (holds job.node_id node_id) grant_not_owner
  let grant : ModelGrant = record {
    grant_id = grant_id;
    run_id = job.run_id;
    job_id = job_id;
    node_id = node_id;
    audience = t.audience;
    scopes = t.scopes;
    model_policy = t.model_policy;
    purposes = t.purposes;
    max_calls = t.max_calls;
    max_tokens = t.max_tokens;
    max_concurrency = t.max_concurrency;
    max_cost_usd = t.max_cost_usd;
    issued_at = now;
    expires_at = now + max 30 (min t.ttl_seconds 3600);
    revoked_at = none;
  }
  put_grant grant_id (record {
    grant = grant;
    usage = record { calls = 0; tokens = 0; cost_usd = 0 };
    reservations = none;
    active_calls = false;
  })
  audited now "model_grant.issued" grant_id
  pure grant

-- The usage after one more call.
abbrev pub next_usage : Usage → ℤ → ℤ → Usage
next_usage u tokens cost = record {
  calls = u.calls + 1;
  tokens = u.tokens + clamp_zero tokens;
  cost_usd = u.cost_usd + clamp_zero cost;
}

abbrev pub over_budget : ModelGrant → Usage → Bool
over_budget g u =
    ltb g.max_calls u.calls || ltb g.max_tokens u.tokens || ltb (g.max_cost_usd + 1) u.cost_usd

-- `record.get("reservations") or {}`
abbrev pub open_calls : Grant → List (String × Reservation)
open_calls g = get_or g.reservations []

-- Builds the ModelGrant from every key of the record but `usage`.
unfoldable pub consume_model_grant :
    (now : ℕ) (grant_id : String) → GrantUse → (tokens cost_usd : ℤ) → Action Usage
consume_model_grant now grant_id use_of tokens cost_usd = do
  rec ← grant_of grant_id
  guard (not (is_some rec.reservations || rec.active_calls)) unexpected_keyword
  demand (authorize rec.grant use_of now)
  let next = next_usage rec.usage tokens cost_usd
  branch (over_budget rec.grant next)
      (do audited now "model_grant.budget_denied" grant_id; raise grant_budget_exceeded)
      (do put_grant grant_id (record rec { usage = next }); pure next)

abbrev pub reserved_tokens : List (String × Reservation) → ℕ
reserved_tokens [] = 0
reserved_tokens ((k, r) ∷ rs) = r.requested_tokens + reserved_tokens rs

-- `begin_model_grant_call`; returns the id of the call and the number of active calls.
unfoldable pub begin_model_grant_call :
    (now : ℕ) (call_id grant_id : String) → GrantUse → (requested_tokens : ℤ) → Action (String × ℕ)
begin_model_grant_call now call_id grant_id use_of requested_tokens = do
  rec ← grant_of grant_id
  guard (not rec.active_calls) unexpected_keyword
  demand (authorize rec.grant use_of now)
  let requested = clamp_one requested_tokens
  guard (ltb (length (open_calls rec)) rec.max_concurrency) grant_concurrency_exceeded
  guard (leb (rec.usage.calls + length (open_calls rec) + 1) rec.max_calls) grant_calls_exceeded
  guard (leb (rec.usage.tokens + reserved_tokens (open_calls rec) + requested) rec.max_tokens)
      grant_tokens_exceeded
  let reservations =
      Dict.put call_id (record { requested_tokens = requested; started_at = now }) (open_calls rec)
  put_grant grant_id (record rec { reservations = some reservations })
  audited now "model_grant.call_started" grant_id
  pure (call_id, length reservations)

unfoldable pub finish_model_grant_call :
    (now : ℕ) (grant_id call_id : String) (tokens cost_usd : ℤ) → Action (Usage × ℕ)
finish_model_grant_call now grant_id call_id tokens cost_usd = do
  rec ← grant_of grant_id
  guard (not rec.active_calls) unexpected_keyword
  _ ← require reservation_not_found (Dict.get call_id (open_calls rec))
  let reservations = Dict.remove call_id (open_calls rec)
  let next = next_usage rec.usage tokens cost_usd
  branch (over_budget rec.grant next)
      (do
        put_grant grant_id (record rec { reservations = some reservations })
        raise grant_final_usage_exceeded)
      (do
        put_grant grant_id (record rec { usage = next; reservations = some reservations })
        audited now "model_grant.call_finished" grant_id
        pure (next, length reservations))

unfoldable pub revoke_model_grant : (now : ℕ) (grant_id : String) → Action Grant
revoke_model_grant now grant_id = do
  rec ← grant_of grant_id
  let revoked : Grant = record rec { grant = record rec.grant { revoked_at = some now } }
  put_grant grant_id revoked
  audited now "model_grant.revoked" grant_id
  pure revoked
