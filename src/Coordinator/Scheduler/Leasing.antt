-- ===== src/Coordinator/Scheduler/Leasing.antt =====
-- What `lease_next` leases, and to whom.
use across_orchestrator.Base.{
  ℕ, ◌+◌, ◌/◌, min, String, ◌≡◌, refl, sym, ap, ◌∙◌, inl, inr, true, false, not, ◌&&◌, none, some,
  List, [], ◌∷◌, arith, eq_iff, nat_Eq, string_Eq, Bool-cases, Option-cases, All, contains,
}
use across_orchestrator.Exec.{ok}
use across_orchestrator.Dict
use across_orchestrator.Dict.{
  file_ltb, get, remove, put, values, keys, get_of_absent, get-remove, get-put, put-put,
  length-put-le, length-remove-lt, length-put-known, IsKeyed,
}
use across_orchestrator.Protocol.Status.{JobStatus, queued, leased, is_queued, is_online}
use across_orchestrator.Protocol.Capability.{CapabilityManifest, supports}
use across_orchestrator.Protocol.Job.{JobManifest, JobLease}
use across_orchestrator.Store.{Node, Job, Store}
use across_orchestrator.Coordinator.Action.{actions}
use across_orchestrator.Coordinator.Jobs.{authorized_goal_revision, goal_stale}
use across_orchestrator.Coordinator.Jobs.Fencing.{
  JobsKeyed, has_other_revision, goal_stale-has_other_revision,
}
use across_orchestrator.Coordinator.Scheduler.{
  choose_node, is_older, insert_by_age, by_age, new_lease, leased_job, stale_job, suits,
  grant_lease, lease_first, lease_next,
}

is_queued-queued : (status : JobStatus) → is_queued status ≡ true → status ≡ queued
is_queued-queued status h = ground arith

module _ (P : Job → Type 0) where
  All-insert_by_age :
      (job : Job) (jobs : List Job) → P job → All P jobs → All P (insert_by_age job jobs)
  unfolding insert_by_age
  All-insert_by_age job [] p h = (p, tt)
  All-insert_by_age job (other ∷ rest) p (q, h) = elim (Bool-cases (is_older other job)) [
    | inl e ↦ rw e (q, All-insert_by_age job rest p h)
    | inr e ↦ rw e (p, (q, h))
  ]

  All-by_age : (jobs : List Job) → All P jobs → All P (by_age jobs)
  unfolding by_age
  All-by_age [] h = tt
  All-by_age (job ∷ jobs) (p, h) = All-insert_by_age job (by_age jobs) p (All-by_age jobs h)

-- A job of the store, found under its id.
abbrev pub IsStored : List (String × Job) → Job → Type 0
IsStored m job = Dict.get job.job_id m ≡ some job

module _ (manifest_hash : JobManifest → String) (now lease_seconds : ℕ)
    (lease_id node_id : String) where
  -- In the store `s` the job may be leased to the node, and `t` is a store in which it is.
  pub record IsLeasedFrom (lease : JobLease) (job : Job) (s t : Store) : Type 0 where
    pub was_queued : job.status ≡ queued
    pub goal_current : has_other_revision job.manifest s ≡ false
    pub is_lease : lease ≡ record {
      lease_id = lease_id;
      job_id = job.manifest.job_id;
      run_id = job.manifest.run_id;
      node_id = node_id;
      attempt = job.attempt + 1;
      manifest_hash = manifest_hash job.manifest;
      issued_at = now;
      expires_at = now + lease_seconds;
      heartbeat_interval_seconds = min 10 (lease_seconds / 3);
      goal_id = job.manifest.goal_id;
      goal_revision = job.manifest.goal_revision;
      acknowledged_at = none;
    }
    pub lease_stored : Dict.get lease_id t.leases ≡ some lease
    pub job_leased :
        Dict.get job.manifest.job_id t.jobs
        ≡ some (record job {
          status = leased;
          attempt = job.attempt + 1;
          node_id = some node_id;
          lease_id = some lease_id;
          updated_at = now;
        })

  grant_lease_lem :
      (job : Job) (s : Store)
      → let (r, t) = grant_lease manifest_hash now lease_seconds lease_id node_id job s in
        let lease = new_lease now lease_seconds lease_id node_id (manifest_hash job.manifest) job in
        (r ≡ ok lease)
        × (Dict.get lease_id t.leases ≡ some lease)
        × (Dict.get job.manifest.job_id t.jobs ≡ some (leased_job now lease_id node_id job))
  unfolding grant_lease actions
  grant_lease_lem job s = (
    refl,
    simp (get-put, (eq_iff lease_id lease_id).1 refl),
    simp (get-put, (eq_iff job.manifest.job_id job.manifest.job_id).1 refl),
  )

  goal_stale_jobs :
      (m : JobManifest) (s : Store) (jobs : List (String × Job))
      → goal_stale m (record s { jobs = jobs }) ≡ goal_stale m s
  unfolding authorized_goal_revision
  goal_stale_jobs m s jobs = ground arith

  module _ (P : Job → Type 0) (capability : CapabilityManifest) where
    abbrev Outcome : Store → JobLease → Store → Type 0
    Outcome s lease t =
        (job : Job) × P job × (suits node_id capability job s ≡ true) × IsLeasedFrom lease job s t

    -- The loop changes no node and no revision.
    Outcome-before :
        (s : Store) (m : List (String × Job)) (lease : JobLease) (t : Store)
        → Outcome (record s { jobs = m }) lease t
        → Outcome s lease t
    unfolding choose_node
    Outcome-before s m lease t (job, p, suited, h) = (
      job,
      p,
      suited,
      record {
        was_queued = h.was_queued;
        goal_current = h.goal_current;
        is_lease = h.is_lease;
        lease_stored = h.lease_stored;
        job_leased = h.job_leased;
      },
    )

    lease_granted :
        (job : Job) (s : Store) (lease : JobLease)
        → P job
        → is_queued job.status ≡ true
        → goal_stale job.manifest s ≡ false
        → suits node_id capability job s ≡ true
        → (grant_lease manifest_hash now lease_seconds lease_id node_id job s).0 ≡ ok lease
        → Outcome s lease (grant_lease manifest_hash now lease_seconds lease_id node_id job s).1
    lease_granted job s lease p waiting fresh suited h =
        let (r, stored, updated) = grant_lease_lem job s in
        let same : new_lease now lease_seconds lease_id node_id (manifest_hash job.manifest) job
            ≡ lease =
          ground (arith, r) in
        (
          job,
          p,
          suited,
          record {
            was_queued = is_queued-queued job.status waiting;
            goal_current = sym (goal_stale-has_other_revision job.manifest s) ∙ fresh;
            is_lease = sym same;
            lease_stored = stored ∙ ap some same;
            job_leased = updated;
          },
        )

    lease_first_lem :
        (jobs : List Job) (s : Store) (lease : JobLease)
        → All P jobs
        → (lease_first manifest_hash now lease_seconds lease_id node_id capability jobs s).0
          ≡ ok (some lease)
        → Outcome s lease
            (lease_first manifest_hash now lease_seconds lease_id node_id capability jobs s).1
    unfolding lease_first grant_lease actions
    lease_first_lem [] s lease each h = absurd (cc)
    lease_first_lem (job ∷ jobs) s lease (p, each) h = elim (Bool-cases (is_queued job.status)) [
      | inl waiting ↦ elim (Bool-cases (goal_stale job.manifest s)) [
        | inl outdated ↦
            rw (waiting, outdated)
              (Outcome-before s (Dict.put job.job_id (stale_job now job) s.jobs) lease _
                (lease_first_lem jobs _ lease each (rw (waiting, outdated) at h)))
        | inr fresh ↦ elim (Bool-cases (suits node_id capability job s)) [
          | inl suited ↦
              rw (waiting, fresh, suited)
                (lease_granted job s lease p waiting fresh suited (ground arith))
          | inr other ↦
              rw (waiting, fresh, other)
                (lease_first_lem jobs s lease each (rw (waiting, fresh, other) at h))
        ]
      ]
      | inr other ↦ rw other (lease_first_lem jobs s lease each (rw other at h))
    ]

-- The node has what the manifest requires, its executor included.
abbrev pub Supports : Node → JobManifest → Type 0
Supports node m =
    supports node.capability_manifest
      (record m.required_capabilities { executor = some m.executor })
    ≡ true

-- The scheduler's choice for the manifest is the node.
abbrev pub IsPlaced : String → JobManifest → Store → Type 0
IsPlaced node_id m s =
    (chosen : Node) × (choose_node m s ≡ some chosen) × (chosen.node_id ≡ node_id)

suits-Supports :
    (node_id : String) (node : Node) (job : Job) (s : Store)
    → suits node_id node.capability_manifest job s ≡ true
    → Supports node job.manifest
suits-Supports node_id node job s h = ground arith

suits-IsPlaced :
    (node_id : String) (capability : CapabilityManifest) (job : Job) (s : Store)
    → suits node_id capability job s ≡ true
    → IsPlaced node_id job.manifest s
suits-IsPlaced node_id capability job s h = elim (Option-cases (choose_node job.manifest s)) [
  | inl missing ↦ absurd (ground arith)
  | inr (chosen, e) ↦ (chosen, e, ground (arith, eq_iff chosen.node_id node_id))
]

-- The jobs of a keyed store are found under their ids.
values-IsStored :
    (d m : List (String × Job))
    → IsKeyed (λ (job : Job). job.job_id) d
    → ((k : String) → contains (keys d) k ≡ true → Dict.get k d ≡ Dict.get k m)
    → All (IsStored m) (Dict.values d)
unfolding Dict.values Dict.get
values-IsStored [] m h same = tt
values-IsStored ((i, job) ∷ d) m (fresh, named, h) same = (
  rw named (ground (arith, same i, eq_iff i i)),
  values-IsStored d m h (λ k c. ground (arith, same k, eq_iff i k)),
)

module _ (manifest_hash : JobManifest → String) (now lease_seconds : ℕ)
    (lease_id node_id : String) where
  -- In a store whose jobs stand under their own ids, if `lease_next` leases a job to a known node,
  -- then the node is online and not draining, and the job is one of the store that was queued,
  -- of a goal that the host has no other revision of, that the node supports and for which
  -- `choose_node` chooses it. The lease is stored, names the job, the node and the next attempt, and the job stands under
  -- it as leased.
  pub lease_next_lem :
      (s : Store) (node : Node) (lease : JobLease)
      → JobsKeyed s
      → Dict.get node_id s.nodes ≡ some node
      → (lease_next manifest_hash now lease_seconds lease_id node_id s).0 ≡ ok (some lease)
      → (is_online node.state ≡ true)
        × (node.draining ≡ false)
        × (job : Job) × IsStored s.jobs job
        × Supports node job.manifest
        × IsPlaced node_id job.manifest s
        × IsLeasedFrom manifest_hash now lease_seconds lease_id node_id lease job s
            (lease_next manifest_hash now lease_seconds lease_id node_id s).1
  unfolding lease_next actions
  lease_next_lem s node lease keyed found h =
      elim (Bool-cases (is_online node.state && not node.draining)) [
        | inl open_node ↦
            let each : All (IsStored s.jobs) (by_age (Dict.values s.jobs)) =
              All-by_age _ _ (values-IsStored s.jobs s.jobs keyed (λ k c. refl)) in
            let (job, stored, suited, leased_from) =
              lease_first_lem manifest_hash now lease_seconds lease_id node_id (IsStored s.jobs)
                node.capability_manifest _ s lease each (rw (found, open_node) at h) in
            (
              ground arith,
              ground arith,
              job,
              stored,
              suits-Supports node_id node job s suited,
              suits-IsPlaced node_id node.capability_manifest job s suited,
              rw (found, open_node) leased_from,
            )
        | inr shut ↦ absurd (ground arith)
      ]
