-- ===== src/Coordinator/Jobs/Watermark.antt =====
-- The host's revision of a goal never falls.
use across_orchestrator.Protocol.Job.{JobManifest}
use across_orchestrator.Base.{
  ℕ, ◌≤◌, String, ◌≡◌, inl, inr, Bool, true, Option, none, some, List, [], ◌∷◌, arith, eq_iff, leb,
  ◌==◌, nat_Eq, string_Eq, get_or, Bool-cases,
}
use across_orchestrator.Exec.{pure, modify, when, ◌>>=◌, ◌>>◌}
use across_orchestrator.Exec.Keeps.{
  Keeps, Keeps-when, Keeps-pure, Keeps-gets, Keeps-lookup, Keeps-branch, Keeps-guard, Keeps-bind,
}
use across_orchestrator.Dict
use across_orchestrator.Dict.{
  get, remove, put, values, keys, get_of_absent, get-remove, get-put, put-put, length-put-le,
  length-remove-lt, IsKeyed,
}
use across_orchestrator.Store.{Job, Store}
use across_orchestrator.Coordinator.Action.{CoordinatorError, audited, put_job}
use across_orchestrator.Coordinator.Jobs.{
  fence_jobs, authorize_goal_revision, admit_goal, record_job, create_job, resubmit, submit_known,
  submit_job, cancel_job,
}

-- The host has revision `n` of the goal, or a newer one.
pub record AtLeast (goal : String) (n : ℕ) (s : Store) : Type 0 where
  pub at : n ≤ get_or (Dict.get goal s.goal_revisions) 0

module _ (g : String) (n : ℕ) where
  put_job-AtLeast : (k : String) (job : Job) → Keeps (AtLeast g n) (put_job k job)
  unfolding put_job modify
  put_job-AtLeast k job = record { at = λ s h. record { at = h.at } }

  audited-AtLeast :
      (now : ℕ) (event subject : String) → Keeps (AtLeast g n) (audited now event subject)
  unfolding audited modify
  audited-AtLeast now event subject = record { at = λ s h. record { at = h.at } }

  fence_jobs-AtLeast :
      (now : ℕ) (goal : String) (revision : ℕ) (jobs : List Job)
      → Keeps (AtLeast g n) (fence_jobs now goal revision jobs)
  unfolding fence_jobs
  fence_jobs-AtLeast now goal revision [] = Keeps-pure _
  fence_jobs-AtLeast now goal revision (job ∷ jobs) =
      Keeps-bind _ _ (Keeps-when _ (λ _. put_job-AtLeast _ _))
        λ _. fence_jobs-AtLeast now goal revision jobs

  -- What follows the write of the revision.
  fencing-AtLeast :
      (now : ℕ) (goal : String) (revision : ℕ) (b : Bool) (jobs : List Job)
      → Keeps (AtLeast g n) (
          when b (fence_jobs now goal revision jobs)
          >> (audited now "goal.revision_authorized" goal >> pure revision))
  fencing-AtLeast now goal revision b jobs =
      Keeps-bind _ _ (Keeps-when b (λ _. fence_jobs-AtLeast now goal revision jobs))
        λ _. Keeps-bind _ _ (audited-AtLeast _ _ _) λ _. Keeps-pure _

  raise-AtLeast :
      (goal : String) (revision : ℕ) (s : Store)
      → leb (get_or (Dict.get goal s.goal_revisions) 0) revision ≡ true
      → AtLeast g n s
      → AtLeast g n (record s { goal_revisions = Dict.put goal revision s.goal_revisions })
  raise-AtLeast goal revision s allowed h = record {
    at = ground (arith, h.at, get-put goal g revision s.goal_revisions, eq_iff goal g);
  }

  authorize-AtLeast :
      (now : ℕ) (goal : String) (revision : ℕ)
      → Keeps (AtLeast g n) (authorize_goal_revision now goal revision)
  unfolding authorize_goal_revision ◌>>=◌
  authorize-AtLeast now goal revision = record {
    at = λ s h. elim (Bool-cases (goal == "")) [
      | inl unnamed ↦ rw unnamed h
      | inr named ↦ elim (Bool-cases (leb 1 revision)) [
        | inr zero_revision ↦ rw (named, zero_revision) h
        | inl positive ↦
            elim (Bool-cases (leb (get_or (Dict.get goal s.goal_revisions) 0) revision)) [
              | inr backwards ↦ rw (named, positive, backwards) h
              | inl allowed ↦
                  rw (named, positive, allowed)
                    ((fencing-AtLeast now goal revision _ (Dict.values s.jobs)).at _
                      (raise-AtLeast goal revision s allowed h))
            ]
      ]
    ];
  }

  admit_goal-AtLeast :
      (now : ℕ) (m : JobManifest) (goal : Option String)
      → Keeps (AtLeast g n) (admit_goal now m goal)
  unfolding admit_goal
  admit_goal-AtLeast now m none = Keeps-pure _
  admit_goal-AtLeast now m (some goal) = Keeps-bind _ _ (Keeps-gets _) λ current.
      Keeps-guard _ _ _ λ _.
        Keeps-when _
          (λ _. Keeps-bind _ _ (authorize-AtLeast now goal m.goal_revision) λ _. Keeps-pure _)

  idempotency-AtLeast :
      (key job_id : String)
      → Keeps (AtLeast g n) (
          modify {E = CoordinatorError}
            (λ (s : Store). record s { idempotency = Dict.put key job_id s.idempotency }))
  unfolding modify
  idempotency-AtLeast key job_id = record { at = λ s h. record { at = h.at } }

  submit_known-AtLeast :
      (manifest_hash : JobManifest → String) (sha256 : List ℕ → String) (now : ℕ) (m : JobManifest)
      (inputs : List (String × List ℕ)) (known : Option Job)
      → Keeps (AtLeast g n) (submit_known manifest_hash sha256 now m inputs known)
  unfolding submit_known create_job record_job resubmit
  submit_known-AtLeast manifest_hash sha256 now m inputs none =
      Keeps-bind _ _ (admit_goal-AtLeast now m m.goal_id) λ _. Keeps-guard _ _ _ λ _.
        Keeps-bind _ _ (put_job-AtLeast _ _) λ _.
          Keeps-bind _ _ (idempotency-AtLeast _ _)
            λ _. Keeps-bind _ _ (audited-AtLeast _ _ _) λ _. Keeps-pure _
  submit_known-AtLeast manifest_hash sha256 now m inputs (some job) =
      Keeps-guard _ _ _ λ _. Keeps-pure _

  submit_job-AtLeast :
      (manifest_hash : JobManifest → String) (sha256 : List ℕ → String) (now : ℕ) (m : JobManifest)
      (inputs : List (String × List ℕ))
      → Keeps (AtLeast g n) (submit_job manifest_hash sha256 now m inputs)
  unfolding submit_job
  submit_job-AtLeast manifest_hash sha256 now m inputs =
      Keeps-bind _ _ (Keeps-gets _)
        λ known. submit_known-AtLeast manifest_hash sha256 now m inputs known

  cancel_job-AtLeast :
      (now : ℕ) (event_id job_id reason : String)
      → Keeps (AtLeast g n) (cancel_job now event_id job_id reason)
  unfolding cancel_job
  cancel_job-AtLeast now event_id job_id reason = Keeps-bind _ _ (Keeps-lookup _ _) λ job.
      Keeps-branch _ _ _ (λ _. Keeps-pure _)
        λ _.
          Keeps-bind _ _ (put_job-AtLeast _ _)
            λ _. Keeps-bind _ _ (audited-AtLeast _ _ _) λ _. Keeps-pure _

-- A call of the host that concerns jobs, at its time.
pub data HostCall : Type 0 where
  authorize : (now : ℕ) (goal : String) (revision : ℕ) → HostCall
  submit : (now : ℕ) (m : JobManifest) → List (String × List ℕ) → HostCall
  cancel : (now : ℕ) (event_id job_id reason : String) → HostCall

module _ (manifest_hash : JobManifest → String) (sha256 : List ℕ → String) where
  unfoldable pub host_call : HostCall → Store → Store
  host_call (authorize now goal revision) s = (authorize_goal_revision now goal revision s).1
  host_call (submit now m inputs) s = (submit_job manifest_hash sha256 now m inputs s).1
  host_call (cancel now event_id job_id reason) s = (cancel_job now event_id job_id reason s).1

  unfoldable pub host_calls : List HostCall → Store → Store
  host_calls [] s = s
  host_calls (c ∷ cs) s = host_calls cs (host_call c s)

  host_call-AtLeast :
      (g : String) (n : ℕ) (c : HostCall) (s : Store) → AtLeast g n s → AtLeast g n (host_call c s)
  unfolding host_call
  host_call-AtLeast g n (authorize now goal revision) s h =
      (authorize-AtLeast g n now goal revision).at s h
  host_call-AtLeast g n (submit now m inputs) s h =
      (submit_job-AtLeast g n manifest_hash sha256 now m inputs).at s h
  host_call-AtLeast g n (cancel now event_id job_id reason) s h =
      (cancel_job-AtLeast g n now event_id job_id reason).at s h

  -- Over every sequence of authorized revisions, submitted jobs and cancellations, whichever of them
  -- raise, the host's revision of a goal never falls.
  pub host_calls-AtLeast :
      (g : String) (n : ℕ) (cs : List HostCall) (s : Store)
      → AtLeast g n s
      → AtLeast g n (host_calls cs s)
  unfolding host_calls
  host_calls-AtLeast g n [] s h = h
  host_calls-AtLeast g n (c ∷ cs) s h =
      host_calls-AtLeast g n cs (host_call c s) (host_call-AtLeast g n c s h)
