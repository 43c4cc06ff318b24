-- ===== src/Coordinator/Leases.antt =====
-- coordinator.py: `acknowledge_lease`, `heartbeat_lease`, `lease_control`,
-- `recover_expired_leases`, `_requeue_expired` and `_quarantine_lease_submission`.
pub mod Sweeping
pub mod Expiry
pub mod Renewal
use across_orchestrator.Base.{
  ℕ, ◌+◌, String, Bool, false, not, ◌&&◌, Option, none, some, List, [], ◌∷◌, ltb, leb,
  if◌then◌else◌, ◌==◌, nat_Eq, string_Eq, holds, is_some,
}
use across_orchestrator.Exec.{pure, raise, gets, modify, guard, when, branch, ◌>>=◌, ◌>>◌}
use across_orchestrator.Dict
use across_orchestrator.Protocol.Status.{JobStatus, queued, waiting_review, stale}
use across_orchestrator.Protocol.Job.{JobLease}
use across_orchestrator.Store.{Job, Store, append}
use across_orchestrator.Coordinator.Action.{
  lease_expired_before_ack, manifest_hash_mismatch, lease_goal_mismatch, lease_goal_older,
  stale_lease_heartbeat, lease_not_acknowledged, lease_expired, Action, audited, job_of, lease_of,
  put_job, put_lease,
}
use across_orchestrator.Coordinator.Jobs.{authorized_goal_revision, goal_stale}

-- An entry of the quarantine log of a job.
unfoldable pub quarantine : ℕ → (job_id reason subject : String) → Action (Unit {0})
quarantine now job_id reason subject = modify λ s. record s {
  quarantine =
      append job_id (record { reason_code = reason; subject = subject; at = now }) s.quarantine;
}

-- `_quarantine_lease_submission`
abbrev pub quarantine_lease : ℕ → JobLease → String → Action (Unit {0})
quarantine_lease now lease reason = quarantine now lease.job_id reason lease.lease_id

abbrev pub released : ℕ → JobStatus → Job → Job
released now next job = record job {
  status = next;
  node_id = none;
  lease_id = none;
  updated_at = now;
}

-- The lease is the one that the unfinished job stands under.
abbrev pub is_current_lease : Job → JobLease → Bool
is_current_lease job lease =
    not (is_some job.terminal_event_id) && holds job.lease_id lease.lease_id

-- `_requeue_expired`
unfoldable pub requeue_expired : ℕ → JobLease → String → Action (Unit {0})
requeue_expired now lease reason = do
  job ← job_of lease.job_id
  outdated ← gets (goal_stale job.manifest)
  when (is_current_lease job lease) (do
    put_job job.job_id (record (released now (if outdated then stale else queued) job) {
      last_lease_failure = some reason;
    })
    audited now "job.requeued" job.job_id)

-- The lease has a goal, and the caller names another goal or revision.
abbrev pub goal_mismatch : JobLease → Option String → ℕ → Bool
goal_mismatch lease goal_id goal_revision = elim lease.goal_id [
  | none ↦ false
  | some goal ↦ not (holds goal_id goal && lease.goal_revision == goal_revision)
]

-- The lease has a goal, and the host has another revision of it.
abbrev pub lease_outdated : JobLease → Store → Bool
lease_outdated lease s =
    is_some lease.goal_id
    && not (lease.goal_revision == authorized_goal_revision lease.goal_id lease.goal_revision s)

module _ (now : ℕ) (lease_id : String) where
  unfoldable pub acknowledge_lease :
      (manifest_hash : String) → Option String → (goal_revision : ℕ) → Action JobLease
  acknowledge_lease manifest_hash goal_id goal_revision = do
    lease ← lease_of lease_id
    when (leb lease.expires_at now)
        (do requeue_expired now lease "expired"; raise lease_expired_before_ack)
    when (not (lease.manifest_hash == manifest_hash))
        (do requeue_expired now lease "manifest_hash_mismatch"; raise manifest_hash_mismatch)
    when (goal_mismatch lease goal_id goal_revision) (do
      quarantine_lease now lease "stale_goal_revision"
      requeue_expired now lease "goal_revision_mismatch"
      raise lease_goal_mismatch)
    outdated ← gets (lease_outdated lease)
    when outdated (do
      quarantine_lease now lease "stale_goal_revision"
      requeue_expired now lease "stale_goal_revision"
      raise lease_goal_older)
    let acknowledged : JobLease = record lease { acknowledged_at = some now }
    put_lease lease_id acknowledged
    pure acknowledged

  unfoldable pub heartbeat_lease :
      (lease_seconds : ℕ) (node_id : String) (attempt : ℕ)
      → Option String
      → (goal_revision : ℕ) → Action JobLease
  heartbeat_lease lease_seconds node_id attempt goal_id goal_revision = do
    lease ← lease_of lease_id
    guard (lease.node_id == node_id && lease.attempt == attempt) stale_lease_heartbeat
    when (goal_mismatch lease goal_id goal_revision)
        (do quarantine_lease now lease "stale_goal_revision"; raise lease_goal_mismatch)
    outdated ← gets (lease_outdated lease)
    when outdated (do quarantine_lease now lease "stale_goal_revision"; raise lease_goal_older)
    guard (is_some lease.acknowledged_at) lease_not_acknowledged
    when (leb lease.expires_at now) (do requeue_expired now lease "expired"; raise lease_expired)
    let renewed : JobLease = record lease { expires_at = now + lease_seconds }
    put_lease lease_id renewed
    pure renewed

  -- Returns the renewed lease, whether cancellation was asked for, and why.
  unfoldable pub lease_control :
      (lease_seconds : ℕ) (node_id : String) (attempt : ℕ)
      → Option String
      → (goal_revision : ℕ) → Action (JobLease × Bool × Option String)
  lease_control lease_seconds node_id attempt goal_id goal_revision = do
    lease ← heartbeat_lease lease_seconds node_id attempt goal_id goal_revision
    job ← job_of lease.job_id
    pure (lease, is_some job.cancel_requested_at, job.cancel_reason)

-- What a job with an expired lease becomes: `max_attempts or 1` attempts are made of a job that may
-- be retried.
abbrev pub recovery_status : Job → (outdated : Bool) → JobStatus
recovery_status job outdated =
    let policy = job.manifest.retry_policy in
    let attempts = if policy.max_attempts == 0 then 1 else policy.max_attempts in
    if outdated
    then stale
    else if policy.retry_safe && not policy.external_side_effects && ltb job.attempt attempts
    then queued
    else waiting_review

-- The body of the loop for a lease that is past its expiry; returns the id of a recovered job.
unfoldable pub recover_lease : ℕ → JobLease → Option Job → Action (Option String)
recover_lease now lease none = pure none
recover_lease now lease (some job) = do
  outdated ← gets (goal_stale job.manifest)
  branch (is_current_lease job lease)
      (do
        put_job job.manifest.job_id (released now (recovery_status job outdated) job)
        audited now "job.lease_recovered" job.manifest.job_id
        pure (if outdated then none else some job.manifest.job_id))
      (pure none)

abbrev pub add_recovered : Option String → List String → List String
add_recovered none rest = rest
add_recovered (some job_id) rest = job_id ∷ rest

-- The loop over `self.store.list("leases")`.
unfoldable pub recover_leases : ℕ → List JobLease → Action (List String)
recover_leases now [] = pure []
recover_leases now (lease ∷ leases) = do
  job ← gets (λ s. Dict.get lease.job_id s.jobs)
  done ← branch (leb lease.expires_at now) (recover_lease now lease job) (pure none)
  rest ← recover_leases now leases
  pure (add_recovered done rest)

unfoldable pub recover_expired_leases : ℕ → Action (List String)
recover_expired_leases now = do leases ← gets (λ s. Dict.values s.leases); recover_leases now leases
