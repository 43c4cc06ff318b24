-- ===== src/Coordinator/Jobs.antt =====
-- coordinator.py: `submit_job`, `_validate_inputs`, `authorize_goal_revision`,
-- `_authorized_goal_revision` and `cancel_job`. The digests come from hashlib: `manifest_hash` is
-- `JobManifest.manifest_hash` and `sha256` the digest of a payload. The encoded payloads that
-- `submit_job` also stores are left out of the job record.
pub mod Fencing
pub mod Submission
pub mod Watermark
use across_orchestrator.Base.{
  ℕ, String, Bool, true, not, ◌&&◌, ◌||◌, Option, none, some, List, [], ◌∷◌, ltb, leb,
  if◌then◌else◌, ◌==◌, nat_Eq, string_Eq, holds, is_some, get_or, subset,
}
use across_orchestrator.Exec.{pure, gets, modify, guard, when, branch, ◌>>=◌, ◌>>◌}
use across_orchestrator.Dict
use across_orchestrator.Protocol.Status.{queued, cancelled, stale, is_queued}
use across_orchestrator.Protocol.Job.{JobManifest}
use across_orchestrator.Store.{Job, Store}
use across_orchestrator.Coordinator.Action.{
  inputs_mismatch, idempotency_conflict, goal_revision_older, goal_id_required,
  goal_revision_not_positive, goal_revision_backwards, Action, audited, job_of, put_job,
}

-- `_authorized_goal_revision`
unfoldable pub authorized_goal_revision : Option String → ℕ → Store → ℕ
authorized_goal_revision none fallback s = fallback
authorized_goal_revision (some goal) fallback s = get_or (Dict.get goal s.goal_revisions) fallback

-- The goal of the manifest has another revision at the host.
abbrev pub goal_stale : JobManifest → Store → Bool
goal_stale m s =
    is_some m.goal_id
    && not (m.goal_revision == authorized_goal_revision m.goal_id m.goal_revision s)

-- The jobs that a new revision of `goal` fences.
abbrev pub is_outdated : String → ℕ → Job → Bool
is_outdated goal revision job =
    holds job.manifest.goal_id goal
    && not (leb revision job.manifest.goal_revision || is_some job.terminal_event_id)

abbrev pub fenced : ℕ → Job → Job
fenced now job = record job {
  cancel_requested_at = some now;
  cancel_reason = some "stale_goal_revision";
  status = stale;
  updated_at = now;
}

-- The loop over `self.store.list("jobs")`.
pub fence_jobs : ℕ → String → ℕ → List Job → Action (Unit {0})
fence_jobs now goal revision [] = pure tt
fence_jobs now goal revision (job ∷ jobs) = do
  when (is_outdated goal revision job) (put_job job.job_id (fenced now job))
  fence_jobs now goal revision jobs

-- The goal id is stripped text; the empty id is refused.
unfoldable pub authorize_goal_revision : ℕ → String → ℕ → Action ℕ
authorize_goal_revision now goal revision = do
  guard (not (goal == "")) goal_id_required
  guard (leb 1 revision) goal_revision_not_positive
  current ← gets (λ s. get_or (Dict.get goal s.goal_revisions) 0)
  guard (leb current revision) goal_revision_backwards
  modify (λ s. record s { goal_revisions = Dict.put goal revision s.goal_revisions })
  jobs ← gets (λ s. Dict.values s.jobs)
  when (ltb current revision) (fence_jobs now goal revision jobs)
  audited now "goal.revision_authorized" goal
  pure revision

-- The dictionary of the declared inputs: of two with one name the later counts.
abbrev pub declared_inputs : List (String × String) → List (String × String)
declared_inputs [] = []
declared_inputs ((name, digest) ∷ rest) =
    let later = declared_inputs rest in
    if is_some (Dict.get name later) then later else Dict.put name digest later

-- `set(entries)` of a dictionary is the set of its keys.
abbrev pub names {ℓ} : {A : Type ℓ} → List (String × A) → List String
names [] = []
names ((name, a) ∷ rest) = name ∷ names rest

module _ (sha256 : List ℕ → String) where
  abbrev pub digests_match : List (String × String) → List (String × List ℕ) → Bool
  digests_match declared [] = true
  digests_match declared ((name, payload) ∷ rest) =
      holds (Dict.get name declared) (sha256 payload) && digests_match declared rest

  -- `_validate_inputs`
  unfoldable pub inputs_valid : JobManifest → List (String × List ℕ) → Bool
  inputs_valid m inputs =
      let declared = declared_inputs m.input_artifacts in
      subset (names inputs) (names declared)
      && subset (names declared) (names inputs)
      && digests_match declared inputs

abbrev pub new_job : ℕ → String → JobManifest → Job
new_job now hash m = record {
  job_id = m.job_id;
  run_id = m.run_id;
  manifest = m;
  manifest_hash = hash;
  status = queued;
  attempt = 0;
  node_id = none;
  lease_id = none;
  terminal_event_id = none;
  created_at = now;
  updated_at = now;
  cancel_requested_at = none;
  cancel_reason = none;
  recovery_reason = none;
  last_lease_failure = none;
  reason_category = none;
  cleanup_status = none;
}

-- The job that the idempotency key of a manifest names, if there is one.
abbrev pub known_job : String → Store → Option Job
known_job key s = elim (Dict.get key s.idempotency) [
  | none ↦ none
  | some job_id ↦ Dict.get job_id s.jobs
]

-- The check of the goal revision against the host's, which a newer one raises.
unfoldable pub admit_goal : ℕ → JobManifest → Option String → Action (Unit {0})
admit_goal now m none = pure tt
admit_goal now m (some goal) = do
  current ← gets (λ s. get_or (Dict.get goal s.goal_revisions) 0)
  guard (not (ltb 0 current && ltb m.goal_revision current)) goal_revision_older
  when (ltb current m.goal_revision)
      (do _ ← authorize_goal_revision now goal m.goal_revision; pure tt)

module _ (manifest_hash : JobManifest → String) (sha256 : List ℕ → String) where
  -- `submit_job` from the check of the inputs on.
  unfoldable pub record_job : ℕ → JobManifest → List (String × List ℕ) → Action Job
  record_job now m inputs = do
    guard (inputs_valid sha256 m inputs) inputs_mismatch
    let job = new_job now (manifest_hash m) m
    put_job m.job_id job
    modify (λ s. record s { idempotency = Dict.put m.idempotency_key m.job_id s.idempotency })
    audited now "job.created" m.job_id
    pure job

  unfoldable pub create_job : ℕ → JobManifest → List (String × List ℕ) → Action Job
  create_job now m inputs = do admit_goal now m m.goal_id; record_job now m inputs

  -- A known idempotency key returns its job, if the manifest is the same.
  unfoldable pub resubmit : String → Job → Action Job
  resubmit hash job = do guard (job.manifest_hash == hash) idempotency_conflict; pure job

  unfoldable pub submit_known : ℕ → JobManifest → List (String × List ℕ) → Option Job → Action Job
  submit_known now m inputs none = create_job now m inputs
  submit_known now m inputs (some job) = resubmit (manifest_hash m) job

  unfoldable pub submit_job : ℕ → JobManifest → List (String × List ℕ) → Action Job
  submit_job now m inputs = do
    known ← gets (known_job m.idempotency_key)
    submit_known now m inputs known

-- The id of the event that ends a queued job is an argument.
unfoldable pub cancel_job : ℕ → (event_id job_id reason : String) → Action Job
cancel_job now event_id job_id reason = do
  job ← job_of job_id
  branch (is_some job.terminal_event_id) (pure job) (do
    let asked : Job = record job { cancel_requested_at = some now; cancel_reason = some reason }
    let next : Job =
        if is_queued job.status
        then record asked { status = cancelled; terminal_event_id = some event_id }
        else asked
    put_job job_id next
    audited now "job.cancel_requested" job_id
    pure next)
