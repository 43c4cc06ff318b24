-- ===== src/Examples/JobRuns.antt =====
-- Runs of jobs, leases and events.
use mathlib.Core.Option
use across_orchestrator.Base.{
  ℕ, String, ◌≡◌, refl, ◌≢◌, true, false, none, some, List, [], ◌∷◌, ◌++◌, arith, if◌then◌else◌,
  nat_Eq, string_Eq, is_some,
}
use across_orchestrator.Exec.{ok, err}
use across_orchestrator.Dict
use across_orchestrator.Dict.{
  get, remove, put, values, keys, get_of_absent, get-remove, get-put, put-put, length-put-le,
  length-remove-lt, length-put-known, IsKeyed,
}
use across_orchestrator.Protocol.Status.{queued, waiting_review, completed, failed, is_online}
use across_orchestrator.Protocol.Job.{JobManifest, JobEvent}
use across_orchestrator.Store.{completed, failed, Node, Job, prepared, Transaction, Store, read_log}
use across_orchestrator.Coordinator.Action.{
  idempotency_conflict, lease_expired, duplicate_event_conflict, actions,
}
use across_orchestrator.Coordinator.Jobs.{
  authorized_goal_revision, authorize_goal_revision, inputs_valid, new_job, admit_goal, record_job,
  create_job, submit_known, submit_job,
}
use across_orchestrator.Coordinator.Jobs.Fencing.{fence_one, authorize_fences}
use across_orchestrator.Coordinator.Jobs.Submission.{
  submit_job-submit_job, fresh_job, submit_job_overwrites,
}
use across_orchestrator.Coordinator.Scheduler.{
  shared_labels, ranks_before, is_candidate, best_node, choose_node, insert_by_age, by_age,
  new_lease, grant_lease, lease_first, lease_next,
}
use across_orchestrator.Coordinator.Scheduler.Choice.{IsChosen, best_node-IsChosen}
use across_orchestrator.Coordinator.Scheduler.Leasing.{
  IsStored, IsLeasedFrom, lease_next_lem, Supports, IsPlaced,
}
use across_orchestrator.Coordinator.Leases.{heartbeat_lease, recover_lease, recover_expired_leases}
use across_orchestrator.Coordinator.Leases.Renewal.{
  Renews, heartbeat_lease_only, heartbeats, AllRenew, heartbeats-AllRenew,
  heartbeat_lease_ignores_policy,
}
use across_orchestrator.Protocol.Capability.{supports}
use across_orchestrator.Coordinator.Leases.Expiry.{after_expiry, recover_expired_leases_lem}
use across_orchestrator.Coordinator.Transactions.{
  find_event, other_terminal, current_sequence, append_event, recover_transaction,
}
use across_orchestrator.Coordinator.Transactions.Recovery.{crashed, all_written, recover-crashed}
use across_orchestrator.Coordinator.Events.{
  accept_event, check_new_event, answer_event, record_event_locked, record_event,
}
use across_orchestrator.Coordinator.Events.Acceptance.{
  Accepts, record_event_progress, record_event_only, finished_job_is_final,
}
use across_orchestrator.Examples.Samples.{
  capability, node, manifest, queued_job, job, lease, event, sample,
}

authorize_fences_example :
    let (r, t) = authorize_goal_revision 30 "g1" 3 sample in
    (r ≡ ok 3)
    × (Dict.get "g1" t.goal_revisions ≡ some 3)
    × (Dict.get "j1" t.jobs ≡ Option.map (fence_one 30 "g1" 3) (Dict.get "j1" sample.jobs))
unfolding Dict.get
authorize_fences_example =
    authorize_fences 30 "g1" 3 sample "j1" (refl, refl, tt) refl (ground arith)

record_event_progress_example :
    let (r, t) = record_event 20 event sample in
    (r ≡ ok event)
    × (Dict.get "j1" t.jobs
        ≡ some (record job {
          status = event.state;
          updated_at = 20;
          reason_category =
              if is_some event.reason_category then event.reason_category else job.reason_category;
        }))
    × (read_log "j1" t.events ≡ read_log "j1" sample.events ++ event ∷ [])
    × ((later : ℕ) → record_event later event t ≡ (err duplicate_event_conflict, t))
unfolding Dict.get authorized_goal_revision find_event current_sequence
record_event_progress_example =
    record_event_progress 20 event job lease sample refl refl refl refl refl (record {
      current_goal = refl;
      owned = refl;
      acknowledged = refl;
      running_lease = ground arith;
      in_order = ground arith;
      unfinished = refl;
    })

record_event_only_example : Accepts 20 event job lease sample
unfolding Dict.get authorized_goal_revision find_event current_sequence record_event
    record_event_locked recover_transaction answer_event check_new_event accept_event actions
    append_event
record_event_only_example =
    record_event_only 20 event job lease sample refl refl refl refl refl refl

abbrev ended_job : Job
ended_job = record job { status = completed; terminal_event_id = some "e0" }

abbrev ended : Store
ended = record sample { jobs = ("j1", ended_job) ∷ [] }

finished_job_is_final_example :
    ((r : JobEvent) → (record_event 20 event ended).0 ≢ ok r)
    × ((record_event 20 event ended).1.jobs ≡ ended.jobs)
    × ((record_event 20 event ended).1.events ≡ ended.events)
unfolding Dict.get Dict.values find_event
finished_job_is_final_example =
    finished_job_is_final 20 event ended_job lease ended "e0" refl refl refl refl refl refl tt

abbrev final_event : JobEvent
final_event = record event { event_id = "e2"; sequence = 2; state = failed }

abbrev transaction : Transaction
transaction = record {
  event_id = "e2";
  job_id = "j1";
  job = record job { status = failed; terminal_event_id = some "e2" };
  event = final_event;
  status = prepared;
  updated_at = 21;
}

abbrev reserved : Store
reserved = record sample { terminal_transactions = ("e2", transaction) ∷ [] }

recover-crashed_example :
    let x = crashed 21 transaction 1 reserved in
    recover_transaction 50 true "j1" (Dict.get "e2" x.terminal_transactions) x
    ≡ (ok tt, all_written 50 transaction reserved)
unfolding Dict.get other_terminal find_event
recover-crashed_example =
    recover-crashed 21 50 transaction job reserved 1
      (record {
        found = refl;
        open_job = refl;
        no_other = refl;
        unlogged = refl;
        ends_job = refl;
        names_event = refl;
      })
      refl refl

abbrev hash : JobManifest → String
hash m = m.job_id

abbrev waiting : Store
waiting = record sample { jobs = ("j1", queued_job) ∷ []; leases = [] }

lease_next_lem_example :
    (is_online node.state ≡ true)
    × (node.draining ≡ false)
    × (j : Job) × IsStored waiting.jobs j
    × Supports node j.manifest
    × IsPlaced "n1" j.manifest waiting
    × IsLeasedFrom hash 10 30 "l1" "n1"
        (new_lease 10 30 "l1" "n1" "j1" queued_job)
        j
        waiting
        (lease_next hash 10 30 "l1" "n1" waiting).1
unfolding Dict.get Dict.values lease_next lease_first grant_lease choose_node best_node is_candidate
    supports by_age insert_by_age authorized_goal_revision actions
lease_next_lem_example =
    lease_next_lem hash 10 30 "l1" "n1" waiting node (new_lease 10 30 "l1" "n1" "j1" queued_job)
      (refl, refl, tt) refl refl

abbrev loaded : Node
loaded = record node {
  node_id = "n0";
  capability_manifest = record capability { node_id = "n0"; current_load = 500_000 };
}

best_node-IsChosen_example : IsChosen manifest (loaded ∷ node ∷ []) node
unfolding best_node is_candidate supports ranks_before shared_labels
best_node-IsChosen_example = best_node-IsChosen manifest (loaded ∷ node ∷ []) node refl

heartbeats-AllRenew_example :
    AllRenew 30 "l1" "n1" 1 (some "g1") 2 lease (20 ∷ 45 ∷ 70 ∷ []) sample
    × (Dict.get "l1" (heartbeats 30 "l1" "n1" 1 (some "g1") 2 (20 ∷ 45 ∷ 70 ∷ []) sample).leases
        ≡ some (record lease { expires_at = 100 }))
    × ((heartbeats 30 "l1" "n1" 1 (some "g1") 2 (20 ∷ 45 ∷ 70 ∷ []) sample).jobs ≡ sample.jobs)
unfolding Dict.get authorized_goal_revision
heartbeats-AllRenew_example =
    heartbeats-AllRenew 30 "l1" "n1" 1 (some "g1") 2 20 (45 ∷ 70 ∷ []) lease sample refl
      (record {
        of_node = refl;
        of_attempt = refl;
        of_goal = refl;
        current = refl;
        acknowledged = refl;
        unexpired = ground arith;
      })
      (ground arith, (ground arith, tt))

heartbeat_lease_only_example : Renews 20 "n1" 1 (some "g1") 2 lease sample
unfolding Dict.get authorized_goal_revision heartbeat_lease actions
heartbeat_lease_only_example =
    heartbeat_lease_only 20 30 "l1" "n1" 1 (some "g1") 2 lease sample refl refl

heartbeat_lease_ignores_policy_example :
    let late = heartbeat_lease 40 "l1" 30 "n1" 1 (some "g1") 2 sample in
    (late.0 ≡ err lease_expired)
    × (Dict.get "j1" late.1.jobs
        ≡ some (record job {
          status = queued;
          node_id = none;
          lease_id = none;
          updated_at = 40;
          last_lease_failure = some "expired";
        }))
    × (Dict.get "j1" (recover_lease 40 lease (some job) sample).1.jobs
        ≡ some (record job {
          status = waiting_review;
          node_id = none;
          lease_id = none;
          updated_at = 40;
        }))
unfolding Dict.get authorized_goal_revision
heartbeat_lease_ignores_policy_example =
    heartbeat_lease_ignores_policy 40 30 "l1" "n1" 1 (some "g1") 2 lease job sample refl refl refl
      refl refl refl refl (ground arith) refl refl refl refl refl

recover_expired_leases_lem_example :
    Dict.get "j1" (recover_expired_leases 40 sample).1.jobs
    ≡ some (after_expiry 40 sample (Dict.values sample.leases) "j1" job)
unfolding Dict.get
recover_expired_leases_lem_example =
    recover_expired_leases_lem 40 sample "j1" job (refl, refl, tt) refl

abbrev plain : JobManifest
plain = record manifest { idempotency_key = "k2"; goal_id = none; goal_revision = 0 }

abbrev digest : List ℕ → String
digest payload = "d"

submit_job-submit_job_example :
    let t = (submit_job hash digest 10 manifest [] (record sample { jobs = [] })).1 in
    submit_job hash digest 12 manifest [] t ≡ (ok (new_job 10 "j1" manifest), t)
unfolding submit_job submit_known create_job record_job admit_goal inputs_valid actions Dict.get
submit_job-submit_job_example =
    submit_job-submit_job hash digest 10 12 manifest [] [] (record sample { jobs = [] })
      (new_job 10 "j1" manifest) refl

abbrev submitted : Store
submitted = record ended { idempotency = (manifest.idempotency_key, "j1") ∷ [] }

abbrev key_hash : JobManifest → String
key_hash m = m.idempotency_key

submit_job_overwrites_example :
    let (r, t) = submit_job key_hash digest 30 plain [] submitted in
    (r ≡ ok (fresh_job key_hash digest 30 plain))
    × (Dict.get "j1" t.jobs ≡ some (fresh_job key_hash digest 30 plain))
    × ((later : ℕ) (inputs : List (String × List ℕ))
        → submit_job key_hash digest later manifest inputs t ≡ (err idempotency_conflict, t))
unfolding Dict.get
submit_job_overwrites_example =
    submit_job_overwrites key_hash digest 30 manifest plain submitted ended_job "e0" refl refl refl
      refl refl refl refl
