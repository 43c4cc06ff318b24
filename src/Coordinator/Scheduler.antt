-- ===== src/Coordinator/Scheduler.antt =====
-- coordinator.py: `choose_node`, `lease_next` and `_lease_next_locked`. `sorted(..)[0]` is the
-- first candidate whose key no earlier or later one undercuts. The id of the new lease is an
-- argument.
pub mod Choice
pub mod Leasing
use across_orchestrator.Base.{
  ℕ, ◌+◌, ◌/◌, min, String, Bool, false, not, ◌&&◌, ◌||◌, Option, none, some, List, [], ◌∷◌, ltb,
  text_ltb, if◌then◌else◌, ◌==◌, nat_Eq, string_Eq, contains,
}
use across_orchestrator.Exec.{pure, gets, branch, ◌>>=◌, ◌>>◌}
use across_orchestrator.Dict
use across_orchestrator.Protocol.Status.{leased, stale, is_queued, is_online}
use across_orchestrator.Protocol.Capability.{CapabilityManifest, Requirements, supports}
use across_orchestrator.Protocol.Job.{JobManifest, JobLease}
use across_orchestrator.Store.{Node, Job, Store}
use across_orchestrator.Coordinator.Action.{Action, audited, node_of, put_job, put_lease}
use across_orchestrator.Coordinator.Jobs.{goal_stale}

-- `{**required_capabilities, "executor": executor}`
abbrev pub job_requirements : JobManifest → Requirements
job_requirements m = record m.required_capabilities { executor = some m.executor }

-- `len(set(preferred_labels) & set(labels))`
unfoldable pub shared_labels : List String → List String → ℕ
shared_labels [] labels = 0
shared_labels (x ∷ xs) labels =
    let rest = shared_labels xs labels in
    if contains labels x && not (contains xs x) then rest + 1 else rest

-- The key by which candidates are sorted, smallest first: most preferred labels, least load, most
-- disk, smallest id.
abbrev pub before_in_tie : CapabilityManifest → CapabilityManifest → Bool
before_in_tie a b =
    if a.disk_available_bytes == b.disk_available_bytes
    then text_ltb a.node_id b.node_id
    else ltb b.disk_available_bytes a.disk_available_bytes

unfoldable pub ranks_before : JobManifest → CapabilityManifest → CapabilityManifest → Bool
ranks_before m a b =
    let shared = λ (c : CapabilityManifest). shared_labels m.preferred_labels c.labels in
    if shared a == shared b
    then (if a.current_load == b.current_load
        then before_in_tie a b
        else ltb a.current_load b.current_load)
    else ltb (shared b) (shared a)

-- The guards of the loop of `choose_node`.
unfoldable pub is_candidate : JobManifest → Node → Bool
is_candidate m node =
    is_online node.state
    && not node.draining
    && supports node.capability_manifest (job_requirements m)

abbrev pub better_of : JobManifest → Node → Option Node → Option Node
better_of m node none = some node
better_of m node (some best) =
    if ranks_before m best.capability_manifest node.capability_manifest
    then some best
    else some node

-- The first of the smallest candidates.
unfoldable pub best_node : JobManifest → List Node → Option Node
best_node m [] = none
best_node m (node ∷ nodes) =
    let best = best_node m nodes in if is_candidate m node then better_of m node best else best

unfoldable pub choose_node : JobManifest → Store → Option Node
choose_node m s = best_node m (Dict.values s.nodes)

-- The order of the jobs in the loop of `_lease_next_locked`.
abbrev pub is_older : Job → Job → Bool
is_older a b =
    ltb a.created_at b.created_at || (a.created_at == b.created_at && text_ltb a.job_id b.job_id)

unfoldable pub insert_by_age : Job → List Job → List Job
insert_by_age job [] = job ∷ []
insert_by_age job (other ∷ rest) =
    let later = insert_by_age job rest in
    if is_older other job then other ∷ later else job ∷ other ∷ rest

unfoldable pub by_age : List Job → List Job
by_age [] = []
by_age (job ∷ jobs) = insert_by_age job (by_age jobs)

-- The hash is `manifest.manifest_hash`.
abbrev pub new_lease : (now lease_seconds : ℕ) (lease_id node_id hash : String) → Job → JobLease
new_lease now lease_seconds lease_id node_id hash job = record {
  lease_id = lease_id;
  job_id = job.manifest.job_id;
  run_id = job.manifest.run_id;
  node_id = node_id;
  attempt = job.attempt + 1;
  manifest_hash = hash;
  issued_at = now;
  expires_at = now + lease_seconds;
  heartbeat_interval_seconds = min 10 (lease_seconds / 3);
  goal_id = job.manifest.goal_id;
  goal_revision = job.manifest.goal_revision;
  acknowledged_at = none;
}

abbrev pub leased_job : (now : ℕ) (lease_id node_id : String) → Job → Job
leased_job now lease_id node_id job = record job {
  status = leased;
  attempt = job.attempt + 1;
  node_id = some node_id;
  lease_id = some lease_id;
  updated_at = now;
}

abbrev pub stale_job : ℕ → Job → Job
stale_job now job = record job {
  status = stale;
  cancel_reason = some "stale_goal_revision";
  updated_at = now;
}

-- The guards of the loop that skip a job without changing it.
abbrev pub suits : String → CapabilityManifest → Job → Store → Bool
suits node_id capability job s =
    supports capability (job_requirements job.manifest)
    && elim (choose_node job.manifest s) [ none ↦ false | some chosen ↦ chosen.node_id == node_id ]

module _ (manifest_hash : JobManifest → String) (now lease_seconds : ℕ)
    (lease_id node_id : String) where
  unfoldable pub grant_lease : Job → Action JobLease
  grant_lease job = do
    let lease = new_lease now lease_seconds lease_id node_id (manifest_hash job.manifest) job
    put_lease lease_id lease
    put_job job.manifest.job_id (leased_job now lease_id node_id job)
    audited now "job.leased" job.manifest.job_id
    pure lease

  -- The loop of `_lease_next_locked`.
  unfoldable pub lease_first : CapabilityManifest → List Job → Action (Option JobLease)
  lease_first capability [] = pure none
  lease_first capability (job ∷ jobs) =
      let rest = lease_first capability jobs in
      branch (not (is_queued job.status)) rest (do
        outdated ← gets (goal_stale job.manifest)
        branch outdated (do put_job job.job_id (stale_job now job); rest)
            (do
              suited ← gets (suits node_id capability job)
              branch suited (do lease ← grant_lease job; pure (some lease)) rest))

  unfoldable pub lease_next : Action (Option JobLease)
  lease_next = do
    node ← node_of node_id
    branch (is_online node.state && not node.draining)
        (do
          jobs ← gets (λ s. by_age (Dict.values s.jobs))
          lease_first node.capability_manifest jobs)
        (pure none)
