-- ===== src/Coordinator/Artifacts/Uploads.antt =====
-- An upload is verified only with the bytes and under the lease that it was registered with.
use across_orchestrator.Coordinator.Transactions.Recovery.{same_descriptor_refl}
use across_orchestrator.Coordinator.Events.{check_artifacts}
use across_orchestrator.Base.{
  ℕ, String, ◌≡◌, refl, true, none, some, [], ◌∷◌, arith, eq_iff, ◌==◌, nat_Eq, string_Eq,
}
use across_orchestrator.Exec.{ok}
use across_orchestrator.Dict
use across_orchestrator.Dict.{
  get, remove, put, values, keys, get_of_absent, get-remove, get-put, put-put, length-put-le,
  length-remove-lt, IsKeyed,
}
use across_orchestrator.Protocol.Job.{ArtifactDescriptor, JobEvent}
use across_orchestrator.Store.{Job, Artifact, Store}
use across_orchestrator.Coordinator.Action.{actions}
use across_orchestrator.Coordinator.Transactions.{same_option}
use across_orchestrator.Coordinator.Artifacts.{
  put_artifact, new_artifact, register_artifact, begin_artifact_upload, finalize_artifact_upload,
}

-- The finalizing of an upload succeeds only if it was registered with that digest and size, and its
-- job still stands under the lease and attempt of the registration; then the upload is stored as
-- verified.
pub finalize_artifact_upload_needs :
    (artifact_id sha256 : String) (size : ℕ) (s : Store) (upload : Artifact) (job : Job)
    {r : Artifact}
    → Dict.get artifact_id s.artifacts ≡ some upload
    → Dict.get upload.descriptor.job_id s.jobs ≡ some job
    → (finalize_artifact_upload artifact_id sha256 size s).0 ≡ ok r
    → (upload.descriptor.sha256 ≡ sha256)
      × (upload.descriptor.size ≡ size)
      × (same_option job.lease_id upload.lease_id ≡ true)
      × (job.attempt ≡ upload.attempt)
      × (Dict.get artifact_id (finalize_artifact_upload artifact_id sha256 size s).1.artifacts
          ≡ some (record upload { verified = true }))
unfolding finalize_artifact_upload put_artifact actions
finalize_artifact_upload_needs artifact_id sha256 size s upload job found known h = ground (
  arith,
  eq_iff upload.descriptor.sha256 sha256,
  get-put artifact_id artifact_id (record upload { verified = true }) s.artifacts,
  eq_iff artifact_id artifact_id,
)

begin_fresh :
    (d : ArtifactDescriptor) (s : Store) (job : Job) {r : Artifact}
    → Dict.get d.artifact_id s.artifacts ≡ none
    → Dict.get d.job_id s.jobs ≡ some job
    → (begin_artifact_upload d s).0 ≡ ok r
    → begin_artifact_upload d s ≡ (
      ok (new_artifact job d),
      record s { artifacts = Dict.put d.artifact_id (new_artifact job d) s.artifacts },
    )
unfolding begin_artifact_upload register_artifact put_artifact actions
begin_fresh d s job absent known h = ground arith

-- An artifact that is registered under a new id and then finalized with its own digest and size
-- passes the check that a terminal event of the same lease and attempt makes of its artifacts.
pub check_artifacts-uploaded :
    (now : ℕ) (d : ArtifactDescriptor) (event : JobEvent) (s : Store) (job : Job) {r : Artifact}
    → Dict.get d.artifact_id s.artifacts ≡ none
    → Dict.get d.job_id s.jobs ≡ some job
    → job.lease_id ≡ some event.lease_id
    → job.attempt ≡ event.attempt
    → (begin_artifact_upload d s).0 ≡ ok r
    → let t = (begin_artifact_upload d s).1 in
      let (verified, u) = finalize_artifact_upload d.artifact_id d.sha256 d.size t in
      (verified ≡ ok (record (new_artifact job d) { verified = true }))
      × (check_artifacts now event (d ∷ []) u ≡ (ok tt, u))
unfolding finalize_artifact_upload check_artifacts put_artifact actions
check_artifacts-uploaded now d event s job absent known leased_by of_attempt h =
    let begun = begin_fresh d s job absent known h in
    let same : d.artifact_id == d.artifact_id ≡ true =
      (eq_iff d.artifact_id d.artifact_id).1 refl in
    let digest : d.sha256 == d.sha256 ≡ true = (eq_iff d.sha256 d.sha256).1 refl in
    let size : d.size == d.size ≡ true = ground arith in
    let attempt : event.attempt == event.attempt ≡ true = ground arith in
    let lease : event.lease_id == event.lease_id ≡ true =
      (eq_iff event.lease_id event.lease_id).1 refl in
    (
      simp (begun, get-put, same, digest, size, known, leased_by, of_attempt, attempt, lease),
      simp (
        begun, get-put, same, digest, size, known, leased_by, of_attempt, attempt, lease,
        same_descriptor_refl,
      ),
    )
