-- ===== src/Coordinator/Leases/Expiry.antt =====
-- What the recovery of expired leases makes of every job.
use across_orchestrator.Coordinator.Leases.Sweeping.{
  ManifestsKeyed, has_expired, expired_job, get-recover_leases,
}
use across_orchestrator.Coordinator.Jobs.Fencing.{has_other_revision, goal_stale-has_other_revision}
use across_orchestrator.Coordinator.Action.{actions}
use across_orchestrator.Base.{
  ℕ, max, String, ◌≡◌, refl, ap, ◌∙◌, Bool, true, false, ◌&&◌, none, some, List, arith, ltb,
  if◌then◌else◌, nat_Eq, string_Eq,
}
use across_orchestrator.Dict.{
  file_ltb, get, remove, put, values, keys, get_of_absent, get-remove, get-put, put-put,
  length-put-le, length-remove-lt, length-put-known, IsKeyed,
}
use across_orchestrator.Dict
use across_orchestrator.Protocol.Status.{JobStatus, queued, waiting_review, stale}
use across_orchestrator.Protocol.Job.{JobLease}
use across_orchestrator.Store.{Job, Store}
use across_orchestrator.Coordinator.Leases.{recovery_status, recover_expired_leases}

-- A job of a goal that the host has another revision of is stale; one that may be retried, has no
-- side effects outside and an attempt left, waits to run again; any other waits for a review.
abbrev pub status_after : Job → (outdated : Bool) → JobStatus
status_after job true = stale
status_after job false =
    let policy = job.manifest.retry_policy in
    if policy.external_side_effects
    then waiting_review
    else if policy.retry_safe && ltb job.attempt (max 1 policy.max_attempts)
    then queued
    else waiting_review

module _ (now : ℕ) (s : Store) where
  -- The job is released if one of the leases counts against it.
  abbrev pub after_expiry : List JobLease → String → Job → Job
  after_expiry leases k job =
      if has_expired now k job leases
      then record job {
        status = status_after job (has_other_revision job.manifest s);
        node_id = none;
        lease_id = none;
        updated_at = now;
      }
      else job

  recovery_status-status_after :
      (job : Job) (outdated : Bool) → recovery_status job outdated ≡ status_after job outdated
  recovery_status-status_after job true = refl
  recovery_status-status_after job false = ground arith

  expired_job-after_expiry :
      (leases : List JobLease) (k : String) (job : Job)
      → expired_job now s leases k job ≡ after_expiry leases k job
  expired_job-after_expiry leases k job =
      rw
        (
          goal_stale-has_other_revision job.manifest s,
          recovery_status-status_after job (has_other_revision job.manifest s),
        )
        refl

  -- In a store whose jobs stand under the ids of their manifests, the recovery of expired leases
  -- takes node and lease from a known job exactly if it is unfinished and stands under a stored
  -- lease of it that is past its expiry. It then becomes stale if its goal has another revision at
  -- the host, queued if it may be retried, has no side effects outside and an attempt left, and else
  -- waits for a review. Otherwise it stays as it was.
  pub recover_expired_leases_lem :
      (k : String) (job : Job)
      → ManifestsKeyed s.jobs
      → Dict.get k s.jobs ≡ some job
      → Dict.get k (recover_expired_leases now s).1.jobs
        ≡ some (after_expiry (Dict.values s.leases) k job)
  unfolding recover_expired_leases actions
  recover_expired_leases_lem k job keyed found =
      get-recover_leases now s (Dict.values s.leases) s k job refl keyed found
      ∙ ap some (expired_job-after_expiry (Dict.values s.leases) k job)
