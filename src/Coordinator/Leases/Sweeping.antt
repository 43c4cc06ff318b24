-- ===== src/Coordinator/Leases/Sweeping.antt =====
-- The loop of the recovery of expired leases, lease by lease, as a function of the store.
use across_orchestrator.Dict.Keyed.{put-IsKeyed, get-IsKeyed}
use across_orchestrator.Exec.{Result, ok, err, pure, branch, resume}
use across_orchestrator.Coordinator.Action.{CoordinatorError, actions}
use across_orchestrator.Base.{
  ℕ, String, ◌≡◌, refl, ap, ◌∙◌, inl, inr, Bool, true, false, not, ◌&&◌, Option, none, some, List,
  [], ◌∷◌, ◌++◌, arith, eq_iff, leb, if◌then◌else◌, ◌==◌, nat_Eq, string_Eq, holds, is_some, get_or,
  Bool-cases, Option-cases, any,
}
use across_orchestrator.Dict.{
  file_ltb, get, remove, put, values, keys, get_of_absent, get-remove, get-put, put-put,
  length-put-le, length-remove-lt, length-put-known, IsKeyed,
}
use across_orchestrator.Dict
use across_orchestrator.Protocol.Status.{JobStatus}
use across_orchestrator.Protocol.Job.{JobLease}
use across_orchestrator.Store.{Job, Store}
use across_orchestrator.Coordinator.Jobs.{authorized_goal_revision, goal_stale}
use across_orchestrator.Coordinator.Leases.{
  released, is_current_lease, recovery_status, recover_lease, add_recovered, recover_leases,
}

abbrev pub ManifestsKeyed : List (String × Job) → Type 0
ManifestsKeyed m = IsKeyed (λ (job : Job). job.manifest.job_id) m

-- A lease of the list is past its expiry, of the job `k`, and the one that `job` stands under.
abbrev pub has_expired : ℕ → String → Job → List JobLease → Bool
has_expired now k job leases =
    any
      (λ lease.
        leb lease.expires_at now
        && lease.job_id == k
        && not (is_some job.terminal_event_id)
        && holds job.lease_id lease.lease_id)
      leases

module _ (now : ℕ) (s : Store) where
  abbrev pub expired_job : List JobLease → String → Job → Job
  expired_job leases k job =
      if has_expired now k job leases
      then released now (recovery_status job (goal_stale job.manifest s)) job
      else job

  released_stays :
      (leases : List JobLease) (k : String) (status : JobStatus) (job : Job)
      → has_expired now k (released now status job) leases ≡ false
  released_stays [] k status job = refl
  released_stays (lease ∷ leases) k status job = ground (arith, released_stays leases k status job)

  -- One lease of the loop, as a function of the store.
  expire_found : JobLease → Option Job → Store → Store
  expire_found lease none t = t
  expire_found lease (some job) t =
      if leb lease.expires_at now && is_current_lease job lease
      then record t {
        jobs =
            Dict.put job.manifest.job_id
              (released now (recovery_status job (goal_stale job.manifest t)) job) t.jobs;
        audit =
            t.audit
            ++ record { event = "job.lease_recovered"; subject = job.manifest.job_id; at = now }
              ∷ [];
      }
      else t

  abbrev expire_one : JobLease → Store → Store
  expire_one lease t = expire_found lease (Dict.get lease.job_id t.jobs) t

  resumed_state :
      (r : Result CoordinatorError (List String) × Store) (f : List String → List String)
      → (resume r (λ rest. pure (f rest))).1 ≡ r.1
  unfolding pure
  resumed_state (ok a, t) f = refl
  resumed_state (err e, t) f = refl

  recover_one :
      (lease : JobLease) (t : Store)
      → (done : Option String) × (branch
            (leb lease.expires_at now)
            (recover_lease now lease (Dict.get lease.job_id t.jobs))
            (pure none)
            t
          ≡ (ok done, expire_one lease t))
  unfolding recover_lease expire_found actions
  recover_one lease t = elim (Option-cases (Dict.get lease.job_id t.jobs)) [
    | inl absent ↦ elim (Bool-cases (leb lease.expires_at now)) [
      | inl over ↦ (none, simp (absent, over))
      | inr runs ↦ (none, simp (absent, runs))
    ]
    | inr (job, found) ↦ elim (Bool-cases (leb lease.expires_at now)) [
      | inr runs ↦ (none, simp (found, runs))
      | inl over ↦ elim (Bool-cases (is_current_lease job lease)) [
        | inl current ↦ (
          if goal_stale job.manifest t then none else some job.manifest.job_id,
          simp (found, over, current),
        )
        | inr other ↦ (none, simp (found, over, other))
      ]
    ]
  ]

  recover_leases_step :
      (lease : JobLease) (leases : List JobLease) (t : Store)
      → (recover_leases now (lease ∷ leases) t).1
        ≡ (recover_leases now leases (expire_one lease t)).1
  unfolding recover_leases actions
  recover_leases_step lease leases t =
      let (done, e) = recover_one lease t in
      rw e (resumed_state (recover_leases now leases (expire_one lease t)) (add_recovered done))

  revision_same :
      (goal : Option String) (revision : ℕ) (t : Store)
      → t.goal_revisions ≡ s.goal_revisions
      → authorized_goal_revision goal revision t ≡ authorized_goal_revision goal revision s
  unfolding authorized_goal_revision
  revision_same none revision t same = refl
  revision_same (some goal) revision t same = ap (λ r. get_or (Dict.get goal r) revision) same

  get-expire_found :
      (lease : JobLease) (held : Job) (t : Store) (k : String) (job : Job)
      → t.goal_revisions ≡ s.goal_revisions
      → held.manifest.job_id ≡ lease.job_id
      → (lease.job_id == k ≡ true → held ≡ job)
      → Dict.get k t.jobs ≡ some job
      → Dict.get k (expire_found lease (some held) t).jobs ≡ some (expired_job (lease ∷ []) k job)
  unfolding expire_found
  get-expire_found lease held t k job same named is_job found =
      elim (Bool-cases (leb lease.expires_at now)) [
        | inr runs ↦ rw runs found
        | inl over ↦ elim (Bool-cases (lease.job_id == k)) [
          | inl hit ↦ elim (Bool-cases (is_current_lease job lease)) [
            | inl current ↦
                let at_k : job.manifest.job_id == k ≡ true =
                  ground (arith, is_job hit, eq_iff lease.job_id k, eq_iff job.manifest.job_id k) in
                simp (
                  is_job hit,
                  at_k,
                  over,
                  hit,
                  current,
                  get-put,
                  revision_same job.manifest.goal_id job.manifest.goal_revision t same,
                )
            | inr other ↦ simp (is_job hit, over, hit, other, found)
          ]
          | inr miss ↦ elim (Bool-cases (is_current_lease held lease)) [
            | inl current ↦ simp (named, over, miss, current, get-put, found)
            | inr other ↦ simp (over, miss, other, found)
          ]
        ]
      ]

  get-expire_one :
      (lease : JobLease) (t : Store) (k : String) (job : Job)
      → t.goal_revisions ≡ s.goal_revisions
      → ManifestsKeyed t.jobs
      → Dict.get k t.jobs ≡ some job
      → Dict.get k (expire_one lease t).jobs ≡ some (expired_job (lease ∷ []) k job)
  unfolding expire_found
  get-expire_one lease t k job same keyed found =
      elim (Option-cases (Dict.get lease.job_id t.jobs)) [
        | inl absent ↦ rw absent ground (arith, eq_iff lease.job_id k)
        | inr (held, at_job) ↦ rw at_job (
            get-expire_found lease held t k job same (get-IsKeyed _ _ held t.jobs keyed at_job)
              (λ hit. ground (arith, eq_iff lease.job_id k)) found)
      ]

  expire_one-Keyed :
      (lease : JobLease) (t : Store)
      → ManifestsKeyed t.jobs
      → ManifestsKeyed (expire_one lease t).jobs
  unfolding expire_found
  expire_one-Keyed lease t keyed = elim (Option-cases (Dict.get lease.job_id t.jobs)) [
    | inl absent ↦ rw absent keyed
    | inr (held, at_job) ↦
        elim (Bool-cases (leb lease.expires_at now && is_current_lease held lease)) [
          | inl released_now ↦
              rw at_job rw released_now (put-IsKeyed _ held.manifest.job_id _ t.jobs refl keyed)
          | inr kept ↦ rw at_job rw kept keyed
        ]
  ]

  expire_one-goal_revisions :
      (lease : JobLease) (t : Store) → (expire_one lease t).goal_revisions ≡ t.goal_revisions
  unfolding expire_found
  expire_one-goal_revisions lease t = elim (Option-cases (Dict.get lease.job_id t.jobs)) [
    | inl absent ↦ rw absent refl
    | inr (held, at_job) ↦
        elim (Bool-cases (leb lease.expires_at now && is_current_lease held lease)) [
          | inl released_now ↦ rw at_job rw released_now refl
          | inr kept ↦ rw at_job rw kept refl
        ]
  ]

  -- What the first lease makes of the job, the others leave alone.
  expired_job-cons :
      (lease : JobLease) (leases : List JobLease) (k : String) (job : Job)
      → expired_job leases k (expired_job (lease ∷ []) k job) ≡ expired_job (lease ∷ leases) k job
  expired_job-cons lease leases k job =
      elim (Bool-cases (
        leb lease.expires_at now
        && lease.job_id == k
        && not (is_some job.terminal_event_id)
        && holds job.lease_id lease.lease_id)) [
          | inl hit ↦
              simp
                (hit, released_stays leases k (recovery_status job (goal_stale job.manifest s)) job)
          | inr miss ↦ rw miss refl
        ]

  pub get-recover_leases :
      (leases : List JobLease) (t : Store) (k : String) (job : Job)
      → t.goal_revisions ≡ s.goal_revisions
      → ManifestsKeyed t.jobs
      → Dict.get k t.jobs ≡ some job
      → Dict.get k (recover_leases now leases t).1.jobs ≡ some (expired_job leases k job)
  unfolding recover_leases actions
  get-recover_leases [] t k job same keyed found = found
  get-recover_leases (lease ∷ leases) t k job same keyed found =
      ap (λ u. Dict.get k u.jobs) (recover_leases_step lease leases t)
      ∙ get-recover_leases leases (expire_one lease t) k (expired_job (lease ∷ []) k job)
          (expire_one-goal_revisions lease t ∙ same) (expire_one-Keyed lease t keyed)
          (get-expire_one lease t k job same keyed found)
      ∙ ap some (expired_job-cons lease leases k job)
