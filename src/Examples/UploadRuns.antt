-- ===== src/Examples/UploadRuns.antt =====
-- Runs of artifact uploads and of the revocation of a node with work.
use across_orchestrator.Protocol.Status.{revoked}
use mathlib.Core.Option
use across_orchestrator.Base.{◌+◌, ◌≡◌, refl, true, some, [], ◌∷◌, nat_Eq, string_Eq}
use across_orchestrator.Exec.{ok}
use across_orchestrator.Dict
use across_orchestrator.Dict.{
  get, remove, put, values, keys, get_of_absent, get-remove, get-put, put-put, length-put-le,
  length-remove-lt, length-put-known, IsKeyed,
}
use across_orchestrator.Protocol.Job.{ArtifactDescriptor}
use across_orchestrator.Store.{Artifact, Store}
use across_orchestrator.Coordinator.Action.{actions}
use across_orchestrator.Coordinator.Transactions.{same_option}
use across_orchestrator.Coordinator.Events.{check_artifacts}
use across_orchestrator.Coordinator.Artifacts.{
  put_artifact, new_artifact, register_artifact, begin_artifact_upload, finalize_artifact_upload,
}
use across_orchestrator.Coordinator.Artifacts.Uploads.{
  finalize_artifact_upload_needs, check_artifacts-uploaded,
}
use across_orchestrator.Coordinator.Removal.{revoke_node}
use across_orchestrator.Coordinator.Removal.Cutoff.{job_after, grant_after, revoke_node_lem}
use across_orchestrator.Examples.Samples.{node, job, event, sample}

abbrev report : ArtifactDescriptor
report = record {
  artifact_id = "a1";
  run_id = "r1";
  job_id = "j1";
  node_id = "n1";
  logical_name = "report";
  size = 12;
  sha256 = "abc";
}

abbrev registered : Artifact
registered = new_artifact job report

abbrev begun : Store
begun = record sample { artifacts = ("a1", registered) ∷ [] }

finalize_artifact_upload_needs_example :
    (registered.descriptor.sha256 ≡ "abc")
    × (registered.descriptor.size ≡ 12)
    × (same_option job.lease_id registered.lease_id ≡ true)
    × (job.attempt ≡ registered.attempt)
    × (Dict.get "a1" (finalize_artifact_upload "a1" "abc" 12 begun).1.artifacts
        ≡ some (record registered { verified = true }))
unfolding Dict.get finalize_artifact_upload put_artifact actions
finalize_artifact_upload_needs_example =
    finalize_artifact_upload_needs "a1" "abc" 12 begun registered job refl refl refl

check_artifacts-uploaded_example :
    let t = (begin_artifact_upload report sample).1 in
    let (verified, u) = finalize_artifact_upload "a1" "abc" 12 t in
    (verified ≡ ok (record (new_artifact job report) { verified = true }))
    × (check_artifacts 30 event (report ∷ []) u ≡ (ok tt, u))
unfolding Dict.get begin_artifact_upload register_artifact put_artifact actions
check_artifacts-uploaded_example =
    check_artifacts-uploaded 30 report event sample job refl refl refl refl refl

revoke_node_lem_example :
    let t = (revoke_node 30 "n1" "lost" sample).1 in
    (Dict.get "n1" t.nodes
      ≡ some (record node {
        state = revoked;
        draining = true;
        revoked_at = some 30;
        revocation_reason = some "lost";
        session_generation = node.session_generation + 1;
      }))
    × (Dict.get "j1" t.jobs ≡ Option.map (job_after 30 "n1") (Dict.get "j1" sample.jobs))
    × (Dict.get "gr1" t.grants ≡ Option.map (grant_after 30 "n1") (Dict.get "gr1" sample.grants))
unfolding Dict.get
revoke_node_lem_example =
    revoke_node_lem 30 "n1" "lost" sample node "j1" "gr1" (refl, refl, tt) (refl, refl, tt) refl
