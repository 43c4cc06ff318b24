-- ===== src/Examples/HostRuns.antt =====
-- Runs of the host's calls that concern goals.
use across_orchestrator.Base.{ℕ, String, List, [], ◌∷◌, arith, nat_Eq, string_Eq}
use across_orchestrator.Dict
use across_orchestrator.Dict.{
  get, remove, put, values, keys, get_of_absent, get-remove, get-put, put-put, length-put-le,
  length-remove-lt, IsKeyed,
}
use across_orchestrator.Protocol.Job.{JobManifest}
use across_orchestrator.Coordinator.Jobs.Watermark.{
  AtLeast, HostCall, authorize, cancel, host_calls, host_calls-AtLeast,
}
use across_orchestrator.Examples.Samples.{sample}

abbrev hash : JobManifest → String
hash m = m.job_id

abbrev digest : List ℕ → String
digest payload = "d"

revision_two : AtLeast "g1" 2 sample
unfolding Dict.get
revision_two = record { at = ground arith }

abbrev host_work : List HostCall
host_work = authorize 30 "g1" 1 ∷ authorize 31 "g1" 3 ∷ cancel 32 "e5" "j1" "user" ∷ []

host_calls-AtLeast_example : AtLeast "g1" 2 (host_calls hash digest host_work sample)
host_calls-AtLeast_example = host_calls-AtLeast hash digest "g1" 2 host_work sample revision_two
