-- ===== src/Coordinator/Jobs/Submission.antt =====
-- Submitting a job again, and submitting a job under an id that is taken.
use across_orchestrator.Protocol.Status.{queued}
use across_orchestrator.Base.{
  ℕ, String, ◌≡◌, refl, inl, inr, false, none, some, List, [], ◌∷◌, ◌++◌, arith, eq_iff, ◌==◌,
  nat_Eq, string_Eq, Bool-cases, Option-cases,
}
use across_orchestrator.Exec.{Result, ok, err, resume, ◌>>=◌}
use across_orchestrator.Dict
use across_orchestrator.Dict.{
  get, remove, put, values, keys, get_of_absent, get-remove, get-put, put-put, length-put-le,
  length-remove-lt, length-put-known, IsKeyed,
}
use across_orchestrator.Protocol.Job.{JobManifest}
use across_orchestrator.Store.{Job, Store}
use across_orchestrator.Coordinator.Action.{CoordinatorError, idempotency_conflict, actions}
use across_orchestrator.Coordinator.Jobs.{
  inputs_valid, new_job, known_job, admit_goal, record_job, create_job, resubmit, submit_known,
  submit_job,
}

module _ (manifest_hash : JobManifest → String) (sha256 : List ℕ → String) where
  record_job-known :
      (now : ℕ) (m : JobManifest) (inputs : List (String × List ℕ)) (s : Store) (job : Job)
      → (record_job manifest_hash sha256 now m inputs s).0 ≡ ok job
      → (known_job m.idempotency_key (record_job manifest_hash sha256 now m inputs s).1 ≡ some job)
        × (job.manifest_hash ≡ manifest_hash m)
  unfolding record_job actions
  record_job-known now m inputs s job h = elim (Bool-cases (inputs_valid sha256 m inputs)) [
    | inl valid ↦ ground (
      arith,
      get-put m.idempotency_key m.idempotency_key m.job_id s.idempotency,
      eq_iff m.idempotency_key m.idempotency_key,
      get-put m.job_id m.job_id (new_job now (manifest_hash m) m) s.jobs,
      eq_iff m.job_id m.job_id,
    )
    | inr invalid ↦ ground arith
  ]

  create_job-known :
      (now : ℕ) (m : JobManifest) (inputs : List (String × List ℕ)) (s : Store) (job : Job)
      → (create_job manifest_hash sha256 now m inputs s).0 ≡ ok job
      → (known_job m.idempotency_key (create_job manifest_hash sha256 now m inputs s).1 ≡ some job)
        × (job.manifest_hash ≡ manifest_hash m)
  unfolding create_job ◌>>=◌
  create_job-known now m inputs s job = go (admit_goal now m m.goal_id s)
    where
      go :
          (x : Result CoordinatorError (Unit {0}) × Store)
          → (resume x (λ _. record_job manifest_hash sha256 now m inputs)).0 ≡ ok job
          → (known_job m.idempotency_key
                (resume x (λ _. record_job manifest_hash sha256 now m inputs)).1
              ≡ some job)
            × (job.manifest_hash ≡ manifest_hash m)
      go (ok u, t) h = record_job-known now m inputs t job h
      go (err e, t) h = absurd (cc)

  -- A job that was submitted is there under its idempotency key, with the hash of its manifest.
  submit_job-known :
      (now : ℕ) (m : JobManifest) (inputs : List (String × List ℕ)) (s : Store) (job : Job)
      → (submit_job manifest_hash sha256 now m inputs s).0 ≡ ok job
      → (known_job m.idempotency_key (submit_job manifest_hash sha256 now m inputs s).1 ≡ some job)
        × (job.manifest_hash ≡ manifest_hash m)
  unfolding submit_job actions submit_known resubmit
  submit_job-known now m inputs s job h = elim (Option-cases (known_job m.idempotency_key s)) [
    | inl new ↦ rw new (create_job-known now m inputs s job (rw new at h))
    | inr (old, found) ↦ ground (arith, eq_iff old.manifest_hash (manifest_hash m))
  ]

  resubmit_known :
      (now : ℕ) (m : JobManifest) (inputs : List (String × List ℕ)) (s : Store) (job : Job)
      → known_job m.idempotency_key s ≡ some job
      → job.manifest_hash ≡ manifest_hash m
      → submit_job manifest_hash sha256 now m inputs s ≡ (ok job, s)
  unfolding submit_job actions submit_known resubmit
  resubmit_known now m inputs s job found same =
      simp (found, (eq_iff job.manifest_hash (manifest_hash m)).1 same)

  -- After a manifest was submitted, submitting it again, later and with any inputs, returns the
  -- same job and changes nothing.
  pub submit_job-submit_job :
      (now later : ℕ) (m : JobManifest) (inputs again : List (String × List ℕ)) (s : Store)
      (job : Job)
      → (submit_job manifest_hash sha256 now m inputs s).0 ≡ ok job
      → let t = (submit_job manifest_hash sha256 now m inputs s).1 in
        submit_job manifest_hash sha256 later m again t ≡ (ok job, t)
  submit_job-submit_job now later m inputs again s job h =
      let (known, same) = submit_job-known now m inputs s job h in
      resubmit_known later m again _ job known same

  -- The queued job of a manifest.
  abbrev pub fresh_job : ℕ → JobManifest → Job
  fresh_job now m = record {
    job_id = m.job_id;
    run_id = m.run_id;
    manifest = m;
    manifest_hash = manifest_hash m;
    status = queued;
    attempt = 0;
    node_id = none;
    lease_id = none;
    terminal_event_id = none;
    created_at = now;
    updated_at = now;
    cancel_requested_at = none;
    cancel_reason = none;
    recovery_reason = none;
    last_lease_failure = none;
    reason_category = none;
    cleanup_status = none;
  }

  -- The store once it is submitted.
  abbrev with_fresh : ℕ → JobManifest → Store → Store
  with_fresh now m s = record s {
    jobs = Dict.put m.job_id (fresh_job now m) s.jobs;
    idempotency = Dict.put m.idempotency_key m.job_id s.idempotency;
    audit = s.audit ++ record { event = "job.created"; subject = m.job_id; at = now } ∷ [];
  }

  submit_over :
      (now : ℕ) (m : JobManifest) (s : Store)
      → known_job m.idempotency_key s ≡ none
      → m.goal_id ≡ none
      → m.input_artifacts ≡ []
      → submit_job manifest_hash sha256 now m [] s ≡ (ok (fresh_job now m), with_fresh now m s)
  unfolding submit_job submit_known create_job record_job admit_goal inputs_valid actions
  submit_over now m s unknown goalless inputless = simp (unknown, goalless, inputless)

  known_job-found :
      (key id : String) (s : Store) (job : Job)
      → Dict.get key s.idempotency ≡ some id
      → Dict.get id s.jobs ≡ some job
      → known_job key s ≡ some job
  known_job-found key id s job keyed found = ground arith

  conflict_refused :
      (now : ℕ) (m : JobManifest) (inputs : List (String × List ℕ)) (s : Store) (job : Job)
      → known_job m.idempotency_key s ≡ some job
      → job.manifest_hash == manifest_hash m ≡ false
      → submit_job manifest_hash sha256 now m inputs s ≡ (err idempotency_conflict, s)
  unfolding submit_job actions submit_known resubmit
  conflict_refused now m inputs s job found other = simp (found, other)

  -- A finished job is submitted under the key and manifest `first`. When a manifest `m` with the
  -- same job id and another hash, without goal and inputs, is submitted under a key that is not
  -- known, then the finished job is replaced by a queued one with no terminal event, and `first`,
  -- submitted again at any time and with any inputs, is refused as a conflict.
  pub submit_job_overwrites :
      (now : ℕ) (first m : JobManifest) (s : Store) (old : Job) (event_id : String)
      → Dict.get first.idempotency_key s.idempotency ≡ some m.job_id
      → Dict.get m.job_id s.jobs ≡ some old
      → old.terminal_event_id ≡ some event_id
      → known_job m.idempotency_key s ≡ none
      → manifest_hash m == manifest_hash first ≡ false
      → m.goal_id ≡ none
      → m.input_artifacts ≡ []
      → let (r, t) = submit_job manifest_hash sha256 now m [] s in
        (r ≡ ok (fresh_job now m))
        × (Dict.get m.job_id t.jobs ≡ some (fresh_job now m))
        × ((later : ℕ) (inputs : List (String × List ℕ))
            → submit_job manifest_hash sha256 later first inputs t ≡ (err idempotency_conflict, t))
  submit_job_overwrites now first m s old event_id keyed taken ended unknown other goalless
        inputless =
      let at_job : Dict.get m.job_id (Dict.put m.job_id (fresh_job now m) s.jobs)
          ≡ some (fresh_job now m) =
        simp (get-put, (eq_iff m.job_id m.job_id).1 refl) in
      let at_key : Dict.get first.idempotency_key
            (Dict.put m.idempotency_key m.job_id s.idempotency)
          ≡ some m.job_id =
        ground (arith, get-put m.idempotency_key first.idempotency_key m.job_id s.idempotency) in
      rw (submit_over now m s unknown goalless inputless) (
        refl,
        at_job,
        λ later inputs.
            conflict_refused later first inputs (with_fresh now m s) (fresh_job now m)
              (known_job-found first.idempotency_key m.job_id (with_fresh now m s) (fresh_job now m)
                at_key at_job)
              other,
      )
