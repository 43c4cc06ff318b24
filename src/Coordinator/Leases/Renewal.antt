-- ===== src/Coordinator/Leases/Renewal.antt =====
-- Which heartbeats renew a lease, and what an expired lease makes of its job on each of the two
-- paths that find it.
use across_orchestrator.Protocol.Status.{queued, waiting_review}
use across_orchestrator.Coordinator.Jobs.{authorized_goal_revision, goal_stale}
use across_orchestrator.Base.{
  ℕ, ◌+◌, ◌≤◌, ◌<◌, String, ◌≡◌, refl, sym, ap, ◌∙◌, subst, inl, inr, true, false, Option, none,
  some, List, [], ◌∷◌, arith, eq_iff, leb, ◌==◌, nat_Eq, string_Eq, is_some, Bool-cases,
}
use across_orchestrator.Exec.{ok, err}
use across_orchestrator.Dict
use across_orchestrator.Dict.{
  get, remove, put, values, keys, get_of_absent, get-remove, get-put, put-put, length-put-le,
  length-remove-lt, length-put-known, IsKeyed,
}
use across_orchestrator.Protocol.Job.{JobLease}
use across_orchestrator.Store.{Job, Store}
use across_orchestrator.Coordinator.Action.{lease_expired, actions}
use across_orchestrator.Coordinator.Leases.{
  quarantine, is_current_lease, requeue_expired, goal_mismatch, lease_outdated, heartbeat_lease,
  recovery_status, recover_lease,
}

-- What a heartbeat needs: it names the node, attempt and goal of the lease, the host has no other
-- revision of that goal, and the lease is acknowledged and not past its expiry.
pub record Renews (now : ℕ) (node_id : String) (attempt : ℕ) (goal_id : Option String)
    (goal_revision : ℕ) (lease : JobLease) (s : Store) : Type 0 where
  pub of_node : lease.node_id ≡ node_id
  pub of_attempt : lease.attempt ≡ attempt
  pub of_goal : goal_mismatch lease goal_id goal_revision ≡ false
  pub current : lease_outdated lease s ≡ false
  pub acknowledged : is_some lease.acknowledged_at ≡ true
  pub unexpired : now < lease.expires_at

abbrev pub renewed : (now lease_seconds : ℕ) → JobLease → JobLease
renewed now lease_seconds lease = record lease { expires_at = now + lease_seconds }

module _ (now lease_seconds : ℕ) (lease_id node_id : String) (attempt : ℕ) (goal_id : Option String)
    (goal_revision : ℕ) (lease : JobLease) (s : Store)
    (found : Dict.get lease_id s.leases ≡ some lease) where
  heartbeat_lease-Renews :
      Renews now node_id attempt goal_id goal_revision lease s
      → heartbeat_lease now lease_id lease_seconds node_id attempt goal_id goal_revision s ≡ (
        ok (renewed now lease_seconds lease),
        record s { leases = Dict.put lease_id (renewed now lease_seconds lease) s.leases },
      )
  unfolding heartbeat_lease actions
  heartbeat_lease-Renews h =
      let n : lease.node_id == node_id ≡ true = (eq_iff lease.node_id node_id).1 h.of_node in
      let a : lease.attempt == attempt ≡ true = ground (arith, h.of_attempt) in
      let fresh : leb lease.expires_at now ≡ false = ground (arith, h.unexpired) in
      simp (found, n, a, h.of_goal, h.current, h.acknowledged, fresh)

  -- A heartbeat of a known lease succeeds only if all of what `Renews` says holds.
  pub heartbeat_lease_only :
      {r : JobLease}
      → (heartbeat_lease now lease_id lease_seconds node_id attempt goal_id goal_revision s).0
        ≡ ok r
      → Renews now node_id attempt goal_id goal_revision lease s
  unfolding heartbeat_lease requeue_expired quarantine actions
  heartbeat_lease_only h = ground (arith, eq_iff lease.node_id node_id)

module _ (lease_seconds : ℕ) (lease_id node_id : String) (attempt : ℕ) (goal_id : Option String)
    (goal_revision : ℕ) where
  -- Each of the heartbeats comes before the lease that the one before it left has expired.
  abbrev pub InTime : (expires_at : ℕ) → List ℕ → Type 0
  InTime expires_at [] = Unit
  InTime expires_at (now ∷ times) = (now < expires_at) × InTime (now + lease_seconds) times

  -- The store after a heartbeat at each of the times, whatever comes of it.
  abbrev pub heartbeats : List ℕ → Store → Store
  heartbeats [] s = s
  heartbeats (now ∷ times) s =
      heartbeats times
        (heartbeat_lease now lease_id lease_seconds node_id attempt goal_id goal_revision s).1

  -- Every heartbeat at those times returns the lease with the new expiry.
  abbrev pub AllRenew : JobLease → List ℕ → Store → Type 0
  AllRenew lease [] s = Unit
  AllRenew lease (now ∷ times) s =
      let (r, t) =
        heartbeat_lease now lease_id lease_seconds node_id attempt goal_id goal_revision s in
      (r ≡ ok (record lease { expires_at = now + lease_seconds })) × AllRenew lease times t

  abbrev pub last_expiry : (expires_at : ℕ) → List ℕ → ℕ
  last_expiry expires_at [] = expires_at
  last_expiry expires_at (now ∷ times) = last_expiry (now + lease_seconds) times

  lease_outdated-renewed :
      (now : ℕ) (lease : JobLease) (s : Store) (leases : List (String × JobLease))
      → lease_outdated (renewed now lease_seconds lease) (record s { leases = leases })
        ≡ lease_outdated lease s
  unfolding authorized_goal_revision
  lease_outdated-renewed now lease s leases = ground arith

  Renews-renewed :
      (now later : ℕ) (lease : JobLease) (s : Store)
      → Renews now node_id attempt goal_id goal_revision lease s
      → later < now + lease_seconds
      → Renews later node_id attempt goal_id goal_revision
          (renewed now lease_seconds lease)
          (record s { leases = Dict.put lease_id (renewed now lease_seconds lease) s.leases })
  Renews-renewed now later lease s h soon = record {
    of_node = h.of_node;
    of_attempt = h.of_attempt;
    of_goal = h.of_goal;
    current = lease_outdated-renewed now lease s _ ∙ h.current;
    acknowledged = h.acknowledged;
    unexpired = soon;
  }

  -- A Worker keeps its lease: where a heartbeat at the first of some times would find the lease
  -- known, its own, acknowledged, unexpired and of the host's goal revision, and each later one
  -- comes within the lease time after the one before, every one of them succeeds. At the end
  -- the lease expires the lease time after the last, and no job has changed.
  pub heartbeats-AllRenew :
      (now : ℕ) (times : List ℕ) (lease : JobLease) (s : Store)
      → Dict.get lease_id s.leases ≡ some lease
      → Renews now node_id attempt goal_id goal_revision lease s
      → InTime (now + lease_seconds) times
      → AllRenew lease (now ∷ times) s
        × (Dict.get lease_id (heartbeats (now ∷ times) s).leases
            ≡ some (record lease { expires_at = last_expiry (now + lease_seconds) times }))
        × ((heartbeats (now ∷ times) s).jobs ≡ s.jobs)
  heartbeats-AllRenew now [] lease s found h soon =
      let e =
        heartbeat_lease-Renews now lease_seconds lease_id node_id attempt goal_id goal_revision
          lease s found h in
      (
        (ap (λ x. x.0) e, tt),
        ap (λ x. Dict.get lease_id x.1.leases) e
            ∙ simp (get-put, (eq_iff lease_id lease_id).1 refl),
        ap (λ x. x.1.jobs) e,
      )
  heartbeats-AllRenew now (next ∷ times) lease s found h (soon, in_time) =
      let e =
        heartbeat_lease-Renews now lease_seconds lease_id node_id attempt goal_id goal_revision
          lease s found h in
      let (all_renew, last, same) =
        heartbeats-AllRenew next times (renewed now lease_seconds lease)
          (record s { leases = Dict.put lease_id (renewed now lease_seconds lease) s.leases })
          (simp (get-put, (eq_iff lease_id lease_id).1 refl))
          (Renews-renewed now next lease s h soon) in_time in
      (
        (
          ap (λ x. x.0) e,
          subst (λ x. AllRenew lease (next ∷ times) x.1) (sym e)
              (AllRenew-renewed now lease (next ∷ times) _ all_renew),
        ),
        ap (λ x. Dict.get lease_id (heartbeats (next ∷ times) x.1).leases) e ∙ last,
        ap (λ x. (heartbeats (next ∷ times) x.1).jobs) e ∙ same,
      )
    where
      -- The expiry of the lease that is renewed does not matter.
      AllRenew-renewed :
          (at : ℕ) (l : JobLease) (ts : List ℕ) (u : Store)
          → AllRenew (renewed at lease_seconds l) ts u
          → AllRenew l ts u
      AllRenew-renewed at l [] u h = tt
      AllRenew-renewed at l (t ∷ ts) u (r, rest) = (r, AllRenew-renewed at l ts _ rest)

unsafe_is_reviewed :
    (job : Job)
    → job.manifest.retry_policy.external_side_effects ≡ true
    → recovery_status job false ≡ waiting_review
unsafe_is_reviewed job unsafe = elim (Bool-cases job.manifest.retry_policy.retry_safe) [
  | inl safe ↦ simp (safe, unsafe)
  | inr not_safe ↦ simp not_safe
]

module _ (now lease_seconds : ℕ) (lease_id node_id : String) (attempt : ℕ) (goal_id : Option String)
    (goal_revision : ℕ) (lease : JobLease) (job : Job) (s : Store)
    (found : Dict.get lease_id s.leases ≡ some lease)
    (known : Dict.get lease.job_id s.jobs ≡ some job) (named : job.job_id ≡ lease.job_id)
    (in_manifest : job.manifest.job_id ≡ lease.job_id) (current : is_current_lease job lease ≡ true)
    (live_goal : goal_stale job.manifest s ≡ false)
    (unsafe : job.manifest.retry_policy.external_side_effects ≡ true)
    (expired : lease.expires_at ≤ now) where
  -- A job whose retry policy declares side effects outside, under an expired lease with a goal
  -- revision that still stands: a late heartbeat that passes the other checks puts it back in the
  -- queue, to run again, while the recovery of expired leases sets it aside for a review.
  pub heartbeat_lease_ignores_policy :
      lease.node_id ≡ node_id
      → lease.attempt ≡ attempt
      → goal_mismatch lease goal_id goal_revision ≡ false
      → lease_outdated lease s ≡ false
      → is_some lease.acknowledged_at ≡ true
      → let late =
          heartbeat_lease now lease_id lease_seconds node_id attempt goal_id goal_revision s in
        (late.0 ≡ err lease_expired)
        × (Dict.get lease.job_id late.1.jobs
            ≡ some (record job {
              status = queued;
              node_id = none;
              lease_id = none;
              updated_at = now;
              last_lease_failure = some "expired";
            }))
        × (Dict.get lease.job_id (recover_lease now lease (some job) s).1.jobs
            ≡ some (record job {
              status = waiting_review;
              node_id = none;
              lease_id = none;
              updated_at = now;
            }))
  unfolding heartbeat_lease requeue_expired recover_lease actions
  heartbeat_lease_ignores_policy n a g o k =
      let at_node : lease.node_id == node_id ≡ true = (eq_iff lease.node_id node_id).1 n in
      let at_attempt : lease.attempt == attempt ≡ true = ground (arith, a) in
      let past : leb lease.expires_at now ≡ true = ground (arith, expired) in
      let same : lease.job_id == lease.job_id ≡ true = (eq_iff lease.job_id lease.job_id).1 refl in
      (
        simp (found, known, current, live_goal, at_node, at_attempt, g, o, k, past),
        simp (
          found, known, named, current, live_goal, at_node, at_attempt, g, o, k, past, get-put,
          same,
        ),
        simp (current, live_goal, in_manifest, get-put, same, unsafe_is_reviewed job unsafe),
      )
