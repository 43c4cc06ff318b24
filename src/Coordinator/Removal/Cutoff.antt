-- ===== src/Coordinator/Removal/Cutoff.antt =====
-- A revoked node keeps no unfinished job and no open grant.
use mathlib.Core.Option
use across_orchestrator.Protocol.Status.{revoked, waiting_review}
use across_orchestrator.Base.{
  ℕ, ◌+◌, String, ◌≡◌, refl, ◌∙◌, inl, inr, true, not, ◌&&◌, Option, none, some, List, [], ◌∷◌,
  eq_iff, if◌then◌else◌, ◌==◌, nat_Eq, string_Eq, holds, is_some, Bool-cases,
}
use across_orchestrator.Exec.{ok}
use across_orchestrator.Dict
use across_orchestrator.Dict.{
  get, remove, put, values, keys, get_of_absent, get-remove, get-put, put-put, length-put-le,
  length-remove-lt, length-put-known, IsKeyed,
}
use across_orchestrator.Dict.Sweep.{sweep, swept, get-sweep}
use across_orchestrator.Store.{Node, Job, Grant, Store}
use across_orchestrator.Coordinator.Action.{actions}
use across_orchestrator.Coordinator.Grants.{put_grant}
use across_orchestrator.Coordinator.Removal.{
  revoked_record, is_affected, orphaned, orphan_jobs, is_open_grant, cut_off, cut_off_grants,
  revoke_node,
}

module _ (now : ℕ) (node_id : String) where
  orphan_jobs-eq-sweep :
      (jobs : List Job) (s : Store)
      → (ids : List String) × (orphan_jobs now node_id jobs s ≡ (
        ok ids,
        record s {
          jobs = sweep (λ job. job.job_id) (is_affected node_id) (orphaned now) jobs s.jobs;
        },
      ))
  unfolding orphan_jobs sweep actions
  orphan_jobs-eq-sweep [] s = ([], refl)
  orphan_jobs-eq-sweep (job ∷ jobs) s = elim (Bool-cases (is_affected node_id job)) [
    | inl hit ↦
        let (ids, e) =
          orphan_jobs-eq-sweep jobs
            (record s { jobs = Dict.put job.job_id (orphaned now job) s.jobs }) in
        (job.job_id ∷ ids, simp (hit, e))
    | inr miss ↦ let (ids, e) = orphan_jobs-eq-sweep jobs s in (ids, simp (miss, e))
  ]

  cut_off_grants-eq-sweep :
      (gs : List Grant) (s : Store)
      → cut_off_grants now node_id gs s ≡ (
        ok tt,
        record s {
          grants = sweep (λ g. g.grant_id) (is_open_grant node_id) (cut_off now) gs s.grants;
        },
      )
  unfolding cut_off_grants sweep put_grant actions
  cut_off_grants-eq-sweep [] s = refl
  cut_off_grants-eq-sweep (g ∷ gs) s = elim (Bool-cases (is_open_grant node_id g)) [
    | inl hit ↦ rw hit (cut_off_grants-eq-sweep gs _)
    | inr miss ↦ rw miss (cut_off_grants-eq-sweep gs s)
  ]

  -- What the revocation makes of a job, and of a grant.
  abbrev pub job_after : Job → Job
  job_after job =
      if holds job.node_id node_id && not (is_some job.terminal_event_id)
      then record job {
        status = waiting_review;
        recovery_reason = some "node_revoked";
        node_id = none;
        lease_id = none;
        updated_at = now;
      }
      else job

  abbrev pub grant_after : Grant → Grant
  grant_after g =
      if g.grant.node_id == node_id && not (is_some g.grant.revoked_at)
      then record g { grant = record g.grant { revoked_at = some now }; active_calls = true }
      else g

  swept-job_after :
      (found : Option Job)
      → swept (λ job. job.job_id) (is_affected node_id) (orphaned now) found
        ≡ Option.map job_after found
  swept-job_after none = refl
  swept-job_after (some job) = refl

  swept-grant_after :
      (found : Option Grant)
      → swept (λ g. g.grant_id) (is_open_grant node_id) (cut_off now) found
        ≡ Option.map grant_after found
  swept-grant_after none = refl
  swept-grant_after (some g) = refl

  -- In a store whose jobs and grants stand under their own ids, when a known node is revoked, its
  -- record becomes revoked and draining, every unfinished job of it is left for a review without
  -- node and lease, every unrevoked grant of it is revoked, and all other jobs and grants stay as
  -- they were.
  pub revoke_node_lem :
      (reason : String) (s : Store) (node : Node) (j k : String)
      → IsKeyed (λ (job : Job). job.job_id) s.jobs
      → IsKeyed (λ (g : Grant). g.grant_id) s.grants
      → Dict.get node_id s.nodes ≡ some node
      → let t = (revoke_node now node_id reason s).1 in
        (Dict.get node_id t.nodes
          ≡ some (record node {
            state = revoked;
            draining = true;
            revoked_at = some now;
            revocation_reason = some reason;
            session_generation = node.session_generation + 1;
          }))
        × (Dict.get j t.jobs ≡ Option.map job_after (Dict.get j s.jobs))
        × (Dict.get k t.grants ≡ Option.map grant_after (Dict.get k s.grants))
  unfolding revoke_node actions
  revoke_node_lem reason s node j k jobs_keyed grants_keyed found =
      let moved : Store = record s {
        nodes = Dict.put node_id (revoked_record now reason node) s.nodes;
      } in
      let (ids, e) = orphan_jobs-eq-sweep (Dict.values s.jobs) moved in
      let same : node_id == node_id ≡ true = (eq_iff node_id node_id).1 refl in
      (
        simp (found, e, cut_off_grants-eq-sweep, get-put, same),
        simp (found, e, cut_off_grants-eq-sweep)
            (get-sweep _ _ _ j s.jobs jobs_keyed ∙ swept-job_after (Dict.get j s.jobs)),
        simp (found, e, cut_off_grants-eq-sweep)
            (get-sweep _ _ _ k s.grants grants_keyed ∙ swept-grant_after (Dict.get k s.grants)),
      )
