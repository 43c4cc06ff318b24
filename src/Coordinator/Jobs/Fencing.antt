-- ===== src/Coordinator/Jobs/Fencing.antt =====
-- A new goal revision fences the older jobs, and the host's revision of a goal never decreases.
use across_orchestrator.Protocol.Job.{JobManifest}
use mathlib.Core.Option
use across_orchestrator.Protocol.Status.{stale}
use across_orchestrator.Dict.Sweep.{sweep, swept, get-sweep}
use across_orchestrator.Base.{
  ℕ, ◌<◌, String, ◌≡◌, refl, ◌∙◌, inl, inr, Bool, true, false, not, ◌&&◌, Option, none, some, List,
  [], ◌∷◌, ◌++◌, arith, eq_iff, ltb, leb, if◌then◌else◌, ◌==◌, nat_Eq, string_Eq, holds, is_some,
  get_or, Bool-cases,
}
use across_orchestrator.Exec.{ok}
use across_orchestrator.Dict
use across_orchestrator.Dict.{
  file_ltb, get, remove, put, values, keys, get_of_absent, get-remove, get-put, put-put,
  length-put-le, length-remove-lt, length-put-known, IsKeyed,
}
use across_orchestrator.Store.{Job, Store}
use across_orchestrator.Coordinator.Action.{actions}
use across_orchestrator.Coordinator.Jobs.{
  authorized_goal_revision, goal_stale, is_outdated, fenced, fence_jobs, authorize_goal_revision,
}

abbrev pub JobsKeyed : Store → Type 0
JobsKeyed s = IsKeyed (λ (job : Job). job.job_id) s.jobs

-- The host has another revision of the manifest's goal.
abbrev pub has_other_revision : JobManifest → Store → Bool
has_other_revision m s = elim m.goal_id [
  | none ↦ false
  | some goal ↦ elim (Dict.get goal s.goal_revisions) [
    | none ↦ false
    | some revision ↦ not (revision == m.goal_revision)
  ]
]

pub goal_stale-has_other_revision :
    (m : JobManifest) (s : Store) → goal_stale m s ≡ has_other_revision m s
unfolding authorized_goal_revision
goal_stale-has_other_revision m s = ground arith

module _ (now : ℕ) (goal : String) (revision : ℕ) where
  -- What becomes of one job.
  abbrev pub fence_one : Job → Job
  fence_one job =
      if holds job.manifest.goal_id goal
        && ltb job.manifest.goal_revision revision
        && not (is_some job.terminal_event_id)
      then record job {
        status = stale;
        cancel_requested_at = some now;
        cancel_reason = some "stale_goal_revision";
        updated_at = now;
      }
      else job

  swept-fence_one :
      (found : Option Job)
      → swept (λ job. job.job_id) (is_outdated goal revision) (fenced now) found
        ≡ Option.map fence_one found
  swept-fence_one none = refl
  swept-fence_one (some job) = ground arith

  fence_jobs-eq-sweep :
      (jobs : List Job) (s : Store)
      → fence_jobs now goal revision jobs s ≡ (
        ok tt,
        record s {
          jobs = sweep (λ job. job.job_id) (is_outdated goal revision) (fenced now) jobs s.jobs;
        },
      )
  unfolding fence_jobs sweep actions
  fence_jobs-eq-sweep [] s = refl
  fence_jobs-eq-sweep (job ∷ jobs) s = elim (Bool-cases (is_outdated goal revision job)) [
    | inl old ↦ rw old (fence_jobs-eq-sweep jobs _)
    | inr kept ↦ rw kept (fence_jobs-eq-sweep jobs s)
  ]

  abbrev raised : Store → Store
  raised s = record s {
    goal_revisions = Dict.put goal revision s.goal_revisions;
    jobs =
        sweep (λ job. job.job_id) (is_outdated goal revision) (fenced now) (Dict.values s.jobs)
          s.jobs;
    audit = s.audit ++ record { event = "goal.revision_authorized"; subject = goal; at = now } ∷ [];
  }

  authorize_raises :
      (s : Store)
      → goal == "" ≡ false
      → get_or (Dict.get goal s.goal_revisions) 0 < revision
      → authorize_goal_revision now goal revision s ≡ (ok revision, raised s)
  unfolding authorize_goal_revision actions
  authorize_raises s named newer =
      let positive : leb 1 revision ≡ true = ground arith in
      let allowed : leb (get_or (Dict.get goal s.goal_revisions) 0) revision ≡ true =
        ground arith in
      let raises : ltb (get_or (Dict.get goal s.goal_revisions) 0) revision ≡ true = ground arith in
      simp (named, positive, allowed, raises, fence_jobs-eq-sweep)

  -- In a store whose jobs stand under their own ids, when the host raises the revision of a named
  -- goal, the call succeeds and records it; every unfinished job of that goal whose manifest has an
  -- older revision becomes stale with its cancellation asked for, and every other job stays as it
  -- was.
  pub authorize_fences :
      (s : Store) (k : String)
      → JobsKeyed s
      → goal == "" ≡ false
      → get_or (Dict.get goal s.goal_revisions) 0 < revision
      → let (r, t) = authorize_goal_revision now goal revision s in
        (r ≡ ok revision)
        × (Dict.get goal t.goal_revisions ≡ some revision)
        × (Dict.get k t.jobs ≡ Option.map fence_one (Dict.get k s.jobs))
  authorize_fences s k keyed named newer = rw (authorize_raises s named newer) (
    refl,
    simp (get-put, (eq_iff goal goal).1 refl),
    get-sweep _ _ _ k s.jobs keyed ∙ swept-fence_one (Dict.get k s.jobs),
  )
