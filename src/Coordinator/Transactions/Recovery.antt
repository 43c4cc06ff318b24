-- ===== src/Coordinator/Transactions/Recovery.antt =====
-- A terminal transaction that a crash interrupts is completed by its recovery.
use across_orchestrator.Base.{
  ℕ, zero, suc, String, ◌≡◌, refl, ap, ◌∙◌, true, false, not, ◌||◌, Option, none, some, List, [],
  ◌∷◌, ◌++◌, arith, eq_iff, ◌==◌, nat_Eq, string_Eq, holds, is_some,
}
use across_orchestrator.Exec.{ok}
use across_orchestrator.Dict
use across_orchestrator.Dict.{
  get, remove, put, values, keys, get_of_absent, get-remove, get-put, put-put, length-put-le,
  length-remove-lt, length-put-known, IsKeyed,
}
use across_orchestrator.Protocol.Job.{ArtifactDescriptor, JobEvent}
use across_orchestrator.Store.{Job, prepared, committed, Transaction, Store, read_log, append}
use across_orchestrator.Coordinator.Action.{Action, actions}
use across_orchestrator.Coordinator.Transactions.{
  same_option, same_descriptor, same_descriptors, same_event, find_event, other_terminal,
  append_event, put_transaction, perform, terminal_writes, apply_terminal_transaction,
  recover_transaction,
}

same_option_refl : (o : Option String) → same_option o o ≡ true
same_option_refl none = refl
same_option_refl (some a) = (eq_iff a a).1 refl

pub same_descriptor_refl : (d : ArtifactDescriptor) → same_descriptor d d ≡ true
unfolding same_descriptor
same_descriptor_refl d = ground (
  arith,
  eq_iff d.artifact_id d.artifact_id,
  eq_iff d.run_id d.run_id,
  eq_iff d.job_id d.job_id,
  eq_iff d.node_id d.node_id,
  eq_iff d.logical_name d.logical_name,
  eq_iff d.sha256 d.sha256,
)

same_descriptors_refl : (ds : List ArtifactDescriptor) → same_descriptors ds ds ≡ true
unfolding same_descriptors
same_descriptors_refl [] = refl
same_descriptors_refl (d ∷ ds) = ground (arith, same_descriptor_refl d, same_descriptors_refl ds)

pub same_event_refl : (e : JobEvent) → same_event e e ≡ true
unfolding same_event
same_event_refl e = ground (
  arith,
  eq_iff e.event_id e.event_id,
  eq_iff e.job_id e.job_id,
  eq_iff e.run_id e.run_id,
  eq_iff e.node_id e.node_id,
  eq_iff e.lease_id e.lease_id,
  same_option_refl e.goal_id,
  same_option_refl e.reason_category,
  same_option_refl e.cleanup_status,
  same_descriptors_refl e.artifacts,
)

pub find_event-append :
    (id : String) (events : List JobEvent) (e : JobEvent)
    → find_event id events ≡ none
    → e.event_id == id ≡ true
    → find_event id (events ++ e ∷ []) ≡ some e
unfolding find_event
find_event-append id [] e h same = ground arith
find_event-append id (x ∷ events) e h same = ground (arith, find_event-append id events e)

other_terminal-append :
    (id : String) (events : List JobEvent) (e : JobEvent)
    → other_terminal id events ≡ false
    → e.event_id == id ≡ true
    → other_terminal id (events ++ e ∷ []) ≡ false
unfolding other_terminal
other_terminal-append id [] e h same = ground arith
other_terminal-append id (x ∷ events) e h same = ground (arith, other_terminal-append id events e)

-- The three writes of a transaction, in their order.
abbrev pub write_job : Transaction → Store → Store
write_job t s = record s { jobs = Dict.put t.job_id t.job s.jobs }

abbrev pub write_event : Transaction → Store → Store
write_event t s = record s { events = append t.job_id t.event s.events }

abbrev pub write_committed : ℕ → Transaction → Store → Store
write_committed now t s = record s {
  terminal_transactions =
      Dict.put t.event_id (record t { status = committed; updated_at = now })
        s.terminal_transactions;
}

-- The transaction has not begun to be applied, and nothing contradicts it.
pub record IsApplicable (t : Transaction) (job : Job) (s : Store) : Type 0 where
  pub found : Dict.get t.job_id s.jobs ≡ some job
  pub open_job : job.terminal_event_id ≡ none
  pub no_other : other_terminal t.event_id (read_log t.job_id s.events) ≡ false
  pub unlogged : find_event t.event_id (read_log t.job_id s.events) ≡ none
  pub ends_job : t.job.terminal_event_id ≡ some t.event_id
  pub names_event : t.event.event_id == t.event_id ≡ true

-- The first writes of a list.
abbrev pub first_of : ℕ → List (Action (Unit {0})) → List (Action (Unit {0}))
first_of n [] = []
first_of zero (write ∷ writes) = []
first_of (suc n) (write ∷ writes) = write ∷ first_of n writes

-- The store that `_apply_terminal_transaction` leaves if the process ends after `n` of its writes.
unfoldable pub crashed : ℕ → Transaction → ℕ → Store → Store
unfolding terminal_writes
crashed now t n s =
    let matching = find_event t.event_id (read_log t.job_id s.events) in
    (perform (first_of n (terminal_writes now t matching)) s).1

-- The job, the event and the committed transaction are in the store.
abbrev pub all_written : ℕ → Transaction → Store → Store
all_written now t s = write_committed now t (write_event t (write_job t s))

module _ (now : ℕ) (t : Transaction) (job : Job) (s : Store)
    (found : Dict.get t.job_id s.jobs ≡ some job)
    (free : (not (is_some job.terminal_event_id) || holds job.terminal_event_id t.event_id) ≡ true)
    (no_other : other_terminal t.event_id (read_log t.job_id s.events) ≡ false) where
  apply_fresh :
      find_event t.event_id (read_log t.job_id s.events) ≡ none
      → apply_terminal_transaction now t s ≡ (ok tt, all_written now t s)
  unfolding apply_terminal_transaction actions append_event put_transaction
  apply_fresh unlogged = simp (found, free, no_other, unlogged)

  apply_logged :
      find_event t.event_id (read_log t.job_id s.events) ≡ some t.event
      → apply_terminal_transaction now t s ≡ (ok tt, write_committed now t (write_job t s))
  unfolding apply_terminal_transaction actions append_event put_transaction
  apply_logged logged = simp (found, free, no_other, logged, same_event_refl)

recover_prepared :
    (now : ℕ) (t : Transaction) (s : Store)
    → t.status ≡ prepared
    → recover_transaction now true t.job_id (some t) s ≡ apply_terminal_transaction now t s
unfolding recover_transaction actions
recover_prepared now t s p = simp (p, (eq_iff t.job_id t.job_id).1 refl) refl

recover_committed :
    (now : ℕ) (job_id : String) (t : Transaction) (s : Store)
    → t.status ≡ committed
    → recover_transaction now true job_id (some t) s ≡ (ok tt, s)
unfolding recover_transaction actions
recover_committed now job_id t s p = simp p

-- The time that the committed transaction bears: that of the recovery, unless it was written.
abbrev pub commit_time : (now later n : ℕ) → ℕ
commit_time now later zero = later
commit_time now later (suc zero) = later
commit_time now later (suc (suc zero)) = later
commit_time now later (suc (suc (suc n))) = now

module _ (now later : ℕ) (t : Transaction) (job : Job) (s : Store) (h : IsApplicable t job s) where
  free_before :
      (not (is_some job.terminal_event_id) || holds job.terminal_event_id t.event_id) ≡ true
  free_before = simp h.open_job

  free_after :
      (not (is_some t.job.terminal_event_id) || holds t.job.terminal_event_id t.event_id) ≡ true
  free_after = simp (h.ends_job, (eq_iff t.event_id t.event_id).1 refl)

  recover_before : apply_terminal_transaction later t s ≡ (ok tt, all_written later t s)
  recover_before = apply_fresh later t job s h.found free_before h.no_other h.unlogged

  found_job : Dict.get t.job_id (Dict.put t.job_id t.job s.jobs) ≡ some t.job
  found_job = simp (get-put, (eq_iff t.job_id t.job_id).1 refl)

  recover_after_job :
      apply_terminal_transaction later t (write_job t s) ≡ (ok tt, all_written later t s)
  recover_after_job =
      apply_fresh later t t.job (write_job t s) found_job free_after h.no_other h.unlogged
      ∙ simp put-put

  log_after :
      read_log t.job_id (append t.job_id t.event s.events)
      ≡ read_log t.job_id s.events ++ t.event ∷ []
  log_after = simp (get-put, (eq_iff t.job_id t.job_id).1 refl)

  recover_after_event :
      apply_terminal_transaction later t (write_event t (write_job t s))
      ≡ (ok tt, all_written later t s)
  recover_after_event =
      apply_logged later t t.job (write_event t (write_job t s)) found_job free_after
        (rw log_after (other_terminal-append t.event_id _ t.event h.no_other h.names_event))
        (rw log_after (find_event-append t.event_id _ t.event h.unlogged h.names_event))
      ∙ simp put-put

  crashed-unlogged :
      (n : ℕ) → crashed now t n s ≡ (perform (first_of n (terminal_writes now t none)) s).1
  unfolding crashed
  crashed-unlogged n =
      ap (λ matching. (perform (first_of n (terminal_writes now t matching)) s).1) h.unlogged

-- A terminal event of an unfinished job, whose transaction is stored and not yet applied: wherever
-- the writes of the commit are cut off by a crash, before the first or after any number of them,
-- the recovery of the transaction returns, and job, event and committed transaction are in the
-- store, each once and nothing else, as the uninterrupted commit leaves it, but for the time of the
-- commit in the transaction.
pub recover-crashed :
    (now later : ℕ) (t : Transaction) (job : Job) (s : Store) (n : ℕ)
    → IsApplicable t job s
    → Dict.get t.event_id s.terminal_transactions ≡ some t
    → t.status ≡ prepared
    → let x = crashed now t n s in
      recover_transaction later true t.job_id (Dict.get t.event_id x.terminal_transactions) x
      ≡ (ok tt, all_written (commit_time now later n) t s)
unfolding terminal_writes actions append_event put_transaction
recover-crashed now later t job s zero h stored p =
    rw (crashed-unlogged now later t job s h 0) rw stored
      (recover_prepared later t s p ∙ recover_before now later t job s h)
recover-crashed now later t job s (suc zero) h stored p =
    rw (crashed-unlogged now later t job s h 1) rw stored
      (recover_prepared later t _ p ∙ recover_after_job now later t job s h)
recover-crashed now later t job s (suc (suc zero)) h stored p =
    rw (crashed-unlogged now later t job s h 2) rw stored
      (recover_prepared later t _ p ∙ recover_after_event now later t job s h)
recover-crashed now later t job s (suc (suc (suc n))) h stored p =
    rw (crashed-unlogged now later t job s h (suc (suc (suc n)))) rw
      (get-put, (eq_iff t.event_id t.event_id).1 refl) (recover_committed later t.job_id _ _ refl)
