-- ===== src/Coordinator/Events/Acceptance.antt =====
-- Which events of a job are accepted, what an accepted event changes, and that a finished job takes
-- no other event.
use across_orchestrator.Coordinator.Jobs.{authorized_goal_revision}
use across_orchestrator.Base.{
  ℕ, ◌<◌, String, ◌≡◌, refl, ◌≢◌, inl, inr, Bool, true, false, not, ◌&&◌, none, some, List, [], ◌∷◌,
  ◌++◌, arith, eq_iff, ltb, leb, if◌then◌else◌, ◌==◌, nat_Eq, string_Eq, is_some, Bool-cases, All,
}
use across_orchestrator.Coordinator.Transactions.Recovery.{find_event-append}
use across_orchestrator.Exec.{ok, err}
use across_orchestrator.Dict
use across_orchestrator.Dict.{
  get, remove, put, values, keys, get_of_absent, get-remove, get-put, put-put, length-put-le,
  length-remove-lt, length-put-known, IsKeyed,
}
use across_orchestrator.Protocol.Status.{is_terminal}
use across_orchestrator.Protocol.Job.{JobLease, JobEvent}
use across_orchestrator.Store.{Job, Transaction, Store, read_log, append}
use across_orchestrator.Coordinator.Action.{duplicate_event_conflict, actions}
use across_orchestrator.Coordinator.Leases.{quarantine, requeue_expired}
use across_orchestrator.Coordinator.Transactions.{
  find_event, current_sequence, append_event, is_committed, recover_transaction, recover_for_job,
}
use across_orchestrator.Coordinator.Events.{
  advanced_job, event_goal_mismatched, owns_job, accept_event, check_new_event, answer_event,
  record_event_locked, record_event,
}

-- What a progress event needs: the job is unfinished and under the lease, node, attempt and goal
-- revision of the event, the lease is acknowledged and runs, and the sequence grows.
pub record Accepts (now : ℕ) (event : JobEvent) (job : Job) (lease : JobLease) (s : Store)
    : Type 0 where
  pub current_goal : event_goal_mismatched job event s ≡ false
  pub owned : owns_job job event ≡ true
  pub acknowledged : is_some lease.acknowledged_at ≡ true
  pub running_lease : now < lease.expires_at
  pub in_order : current_sequence event.attempt (read_log event.job_id s.events) < event.sequence
  pub unfinished : job.terminal_event_id ≡ none

-- The store after a progress event.
abbrev pub progressed : ℕ → JobEvent → Job → Store → Store
progressed now event job s = record s {
  events = append event.job_id event s.events;
  jobs = Dict.put event.job_id (advanced_job now job event) s.jobs;
  audit = s.audit ++ record { event = "job.event"; subject = event.job_id; at = now } ∷ [];
}

-- A progress event whose id is in the log is refused.
duplicate_refused :
    (now : ℕ) (event : JobEvent) (job : Job) (logged : JobEvent) (s : Store)
    → is_terminal event.state ≡ false
    → Dict.get event.job_id s.jobs ≡ some job
    → Dict.get event.event_id s.terminal_transactions ≡ none
    → find_event event.event_id (read_log event.job_id s.events) ≡ some logged
    → event_goal_mismatched job event s ≡ false
    → owns_job job event ≡ true
    → job.terminal_event_id ≡ none
    → record_event now event s ≡ (err duplicate_event_conflict, s)
unfolding record_event record_event_locked recover_transaction answer_event actions
duplicate_refused now event job logged s progress found unreserved seen current owned unfinished =
    simp (progress, found, unreserved, seen, current, owned, unfinished)

module _ (now : ℕ) (event : JobEvent) (job : Job) (lease : JobLease) (s : Store)
    (progress : is_terminal event.state ≡ false) (found : Dict.get event.job_id s.jobs ≡ some job)
    (leased_by : Dict.get event.lease_id s.leases ≡ some lease)
    (unreserved : Dict.get event.event_id s.terminal_transactions ≡ none)
    (unseen : find_event event.event_id (read_log event.job_id s.events) ≡ none) where
  progress_accepted :
      Accepts now event job lease s
      → record_event now event s ≡ (ok event, progressed now event job s)
  unfolding record_event record_event_locked recover_transaction answer_event check_new_event
      accept_event actions append_event
  progress_accepted h =
      let fresh : leb lease.expires_at now ≡ false = ground (arith, h.running_lease) in
      let later : ltb (current_sequence event.attempt (read_log event.job_id s.events))
            event.sequence
          ≡ true =
        ground (arith, h.in_order) in
      simp (
        progress, found, leased_by, unreserved, unseen, h.current_goal, h.owned, h.acknowledged,
        fresh, later, h.unfinished,
      )

  abbrev next_job : Job
  next_job = record job {
    status = event.state;
    updated_at = now;
    reason_category =
        if is_some event.reason_category then event.reason_category else job.reason_category;
  }

  job_after_progress : Dict.get event.job_id (progressed now event job s).jobs ≡ some next_job
  job_after_progress = simp (progress, get-put, (eq_iff event.job_id event.job_id).1 refl)

  log_after_progress :
      read_log event.job_id (progressed now event job s).events
      ≡ read_log event.job_id s.events ++ event ∷ []
  log_after_progress = simp (get-put, (eq_iff event.job_id event.job_id).1 refl)

  found_again :
      find_event event.event_id (read_log event.job_id (progressed now event job s).events)
      ≡ some event
  found_again = rw log_after_progress (
      find_event-append event.event_id _ event unseen
        ((eq_iff event.event_id event.event_id).1 refl))

  repeated_refused :
      Accepts now event job lease s
      → (later : ℕ)
      → record_event later event (progressed now event job s)
        ≡ (err duplicate_event_conflict, progressed now event job s)
  unfolding authorized_goal_revision
  repeated_refused h later =
      duplicate_refused later event next_job event (progressed now event job s) progress
        job_after_progress unreserved found_again h.current_goal h.owned h.unfinished

  -- A progress event (one of a state that is not terminal) that was not seen before, of a known job
  -- and lease, is accepted if `Accepts` holds. The job then takes its state, the event stands last
  -- in the log of the job, and the same event sent again, at any time, is refused as a conflicting
  -- duplicate and changes nothing.
  pub record_event_progress :
      Accepts now event job lease s
      → let (r, t) = record_event now event s in
        (r ≡ ok event)
        × (Dict.get event.job_id t.jobs
            ≡ some (record job {
              status = event.state;
              updated_at = now;
              reason_category =
                  if is_some event.reason_category
                  then event.reason_category
                  else job.reason_category;
            }))
        × (read_log event.job_id t.events ≡ read_log event.job_id s.events ++ event ∷ [])
        × ((later : ℕ) → record_event later event t ≡ (err duplicate_event_conflict, t))
  record_event_progress h =
      rw (progress_accepted h) (refl, job_after_progress, log_after_progress, repeated_refused h)

  -- Under the same conditions it is accepted only if `Accepts` holds.
  pub record_event_only :
      {r : JobEvent} → (record_event now event s).0 ≡ ok r → Accepts now event job lease s
  unfolding record_event record_event_locked recover_transaction answer_event check_new_event
      accept_event actions append_event
  record_event_only h = ground arith

module _ (now : ℕ) (event : JobEvent) (job : Job) (lease : JobLease) (s : Store) (ended_by : String)
    (job_locked : Bool) (found : Dict.get event.job_id s.jobs ≡ some job)
    (leased_by : Dict.get event.lease_id s.leases ≡ some lease)
    (of_job : lease.job_id ≡ event.job_id) (ended : job.terminal_event_id ≡ some ended_by)
    (unreserved : Dict.get event.event_id s.terminal_transactions ≡ none)
    (unseen : find_event event.event_id (read_log event.job_id s.events) ≡ none) where
  finished_refuses : (r : JobEvent) → (record_event_locked now job_locked event s).0 ≢ ok r
  unfolding record_event_locked recover_transaction answer_event check_new_event requeue_expired
      quarantine actions
  finished_refuses r = ground arith

  locked_is_final :
      ((r : JobEvent) → (record_event_locked now job_locked event s).0 ≢ ok r)
      × ((record_event_locked now job_locked event s).1.jobs ≡ s.jobs)
      × ((record_event_locked now job_locked event s).1.events ≡ s.events)
  unfolding record_event_locked recover_transaction answer_event check_new_event quarantine
      requeue_expired actions
  locked_is_final = (finished_refuses, ground arith, ground arith)

-- No transaction of the job waits to be applied.
abbrev pub IsSettled : String → List Transaction → Type 0
IsSettled job_id = All (λ t. (t.job_id == job_id && not (is_committed t.status)) ≡ false)

recover_for_job-IsSettled :
    (now : ℕ) (job_id : String) (ts : List Transaction) (s : Store)
    → IsSettled job_id ts
    → recover_for_job now job_id ts s ≡ (ok tt, s)
unfolding recover_for_job actions
recover_for_job-IsSettled now job_id [] s h = refl
recover_for_job-IsSettled now job_id (t ∷ ts) s (done, h) =
    rw done (recover_for_job-IsSettled now job_id ts s h)

record_event-locked :
    (now : ℕ) (event : JobEvent) (s : Store)
    → IsSettled event.job_id (Dict.values s.terminal_transactions)
    → record_event now event s ≡ record_event_locked now (is_terminal event.state) event s
unfolding record_event actions
record_event-locked now event s h = elim (Bool-cases (is_terminal event.state)) [
  | inl e ↦
      simp (e, recover_for_job-IsSettled now event.job_id (Dict.values s.terminal_transactions) s h)
  | inr e ↦ rw e refl
]

module _ (now : ℕ) (event : JobEvent) (job : Job) (lease : JobLease) (s : Store) (ended_by : String)
    (found : Dict.get event.job_id s.jobs ≡ some job)
    (leased_by : Dict.get event.lease_id s.leases ≡ some lease)
    (of_job : lease.job_id ≡ event.job_id) (ended : job.terminal_event_id ≡ some ended_by)
    (unreserved : Dict.get event.event_id s.terminal_transactions ≡ none)
    (unseen : find_event event.event_id (read_log event.job_id s.events) ≡ none) where
  -- A job with a terminal event, all of whose transactions are committed, takes no other event: one
  -- that is not in its log, has no transaction and names a lease of the job is refused, and all
  -- jobs and event logs stay as they were.
  pub finished_job_is_final :
      IsSettled event.job_id (Dict.values s.terminal_transactions)
      → ((r : JobEvent) → (record_event now event s).0 ≢ ok r)
        × ((record_event now event s).1.jobs ≡ s.jobs)
        × ((record_event now event s).1.events ≡ s.events)
  finished_job_is_final settled = rw (record_event-locked now event s settled) (
      locked_is_final now event job lease s ended_by (is_terminal event.state) found leased_by
        of_job ended unreserved unseen)
