-- ===== src/Coordinator/Enrollment/Pairing.antt =====
-- Pairing: what a successful pairing needed and left, and the count of guesses.
use across_orchestrator.Protocol.Status.{NodeState}
use across_orchestrator.Base.{
  ℕ, ◌≤◌, ◌<◌, String, ◌≡◌, refl, true, false, none, some, List, [], ◌∷◌, arith, eq_iff, nat_Eq,
  string_Eq,
}
use across_orchestrator.Exec.{ok, err, modify}
use across_orchestrator.Exec.Keeps.{
  Keeps, Keeps-guard, Keeps-bind, Keeps-found, Keeps-raise_if, keeps_rules,
}
use across_orchestrator.Dict
use across_orchestrator.Dict.{
  get, remove, put, values, keys, get_of_absent, get-remove, get-put, put-put, length-put-le,
  length-remove-lt, length-put-known, IsKeyed,
}
use across_orchestrator.Store.{EnrollmentStatus, Enrollment, Node, Store}
use across_orchestrator.Coordinator.Action.{pairing_rejected, audited, put_node, actions}
use across_orchestrator.Coordinator.Enrollment.{
  put_enrollment, is_issued, PairingRequest, pair, submit_pairing,
}

-- No enrollment has counted more failures than it allows.
pub record GuessesBounded (s : Store) : Type 0 where
  pub at :
      (k : String) (e : Enrollment)
      → Dict.get k s.enrollments ≡ some e
      → e.failed_attempts ≤ e.max_failures

abbrev Fits : Enrollment → Type 0
Fits e = e.failed_attempts ≤ e.max_failures

put_enrollment-Fits :
    (k : String) (e : Enrollment) → Fits e → Keeps GuessesBounded (put_enrollment k e)
unfolding put_enrollment modify
put_enrollment-Fits k e fits = record {
  at = λ s h. record {
    at = λ j x found. ground (arith, get-put k j e s.enrollments, eq_iff k j, h.at j x);
  };
}

put_node-Fits : (k : String) (node : Node) → Keeps GuessesBounded (put_node k node)
unfolding put_node modify
put_node-Fits k node = record { at = λ s h. record { at = h.at } }

audited-Fits : (now : ℕ) (event subject : String) → Keeps GuessesBounded (audited now event subject)
unfolding audited modify
audited-Fits now event subject = record { at = λ s h. record { at = h.at } }

ruleset guess_rules = (keeps_rules, put_node-Fits, audited-Fits)

module _ (code_hash : String → String → String)
    (verification_code : String → String → String → String) where
  pair-Fits :
      (now : ℕ) (k : String) (e : Enrollment) (r : PairingRequest)
      → Fits e
      → Keeps GuessesBounded (pair code_hash verification_code now k e r)
  unfolding pair
  pair-Fits now k e r fits = Keeps-guard _ _ _ λ _.
      Keeps-guard _ _ _ λ _. Keeps-bind _ _ (put_enrollment-Fits k _ fits) λ _. search guess_rules

  submit_pairing-Fits :
      (now : ℕ) (k code : String) (r : PairingRequest)
      → Keeps GuessesBounded (submit_pairing code_hash verification_code now k code r)
  unfolding submit_pairing
  submit_pairing-Fits now k code r =
      Keeps-found Fits _ _ _ (λ s e h found. h.at k e found)
        λ e fits.
          Keeps-raise_if _ _ _ _ (λ _. search guess_rules)
            λ _.
              Keeps-raise_if _ _ _ _
                (λ _. Keeps-bind _ _ (put_enrollment-Fits k _ fits) λ _. search guess_rules)
                λ _.
                  Keeps-raise_if _ _ _ _
                    (λ _. Keeps-bind _ _ (put_enrollment-Fits k _ fits) λ _. search guess_rules)
                    λ room.
                      Keeps-raise_if _ _ _ _
                        (λ _.
                          Keeps-bind _ _ (put_enrollment-Fits k _ (ground arith))
                            λ _. search guess_rules)
                        (λ _. pair-Fits now k e r fits)

  -- The store after a sequence of attempts to pair, each at its time: `submit_pairing` runs for
  -- every one of them, whether the one before succeeded or not.
  unfoldable pub submit_all : List (ℕ × String × String × PairingRequest) → Store → Store
  submit_all [] s = s
  submit_all ((now, k, code, r) ∷ attempts) s =
      submit_all attempts (submit_pairing code_hash verification_code now k code r s).1

  -- From a store in which no enrollment counts more failures than it allows, whatever is submitted,
  -- in whatever order and whatever comes of it, leads to a store in which none does.
  pub submit_all-GuessesBounded :
      (attempts : List (ℕ × String × String × PairingRequest)) (s : Store)
      → GuessesBounded s
      → GuessesBounded (submit_all attempts s)
  unfolding submit_all
  submit_all-GuessesBounded [] s h = h
  submit_all-GuessesBounded ((now, k, code, r) ∷ attempts) s h =
      submit_all-GuessesBounded attempts _ ((submit_pairing-Fits now k code r).at s h)

  -- The record of the node after a pairing.
  abbrev pub waiting_node : String → PairingRequest → Node
  waiting_node k r = record {
    node_id = r.node_id;
    state = NodeState.pending_approval;
    display_name = r.display_name;
    fingerprint = r.fingerprint;
    certificate_fingerprint = none;
    capability_manifest = r.capability_summary;
    verification_code = verification_code k r.node_id r.fingerprint;
    approved_at = none;
    identity_expires_at = none;
    revoked_at = none;
    revocation_reason = none;
    last_seen_at = none;
    last_disconnected_at = none;
    disconnect_reason = none;
    transport = "pending";
    session_generation = 0;
    draining = false;
    update_directive = none;
    transport_directive = none;
  }

  -- The enrollment after a pairing.
  abbrev pub used_enrollment : ℕ → Enrollment → PairingRequest → Enrollment
  used_enrollment now e r = record e {
    used_at = some now;
    status = EnrollmentStatus.pending_approval;
    node_id = some r.node_id;
  }

  pairing_needs :
      (now : ℕ) (k code : String) (r : PairingRequest) (s : Store) (e : Enrollment) (v : String)
      → Dict.get k s.enrollments ≡ some e
      → (submit_pairing code_hash verification_code now k code r s).0 ≡ ok v
      → (is_issued e.status ≡ true)
        × (e.used_at ≡ none)
        × (now < e.expires_at)
        × (e.failed_attempts < e.max_failures)
        × (e.code_hash ≡ code_hash k code)
        × (r.node_id ≡ r.capability_summary.node_id)
        × (v ≡ verification_code k r.node_id r.fingerprint)
  unfolding submit_pairing pair put_enrollment actions
  pairing_needs now k code r s e v found h =
      ground (
        arith,
        eq_iff e.code_hash (code_hash k code),
        eq_iff r.node_id r.capability_summary.node_id,
      )

  pairing_stores :
      (now : ℕ) (k code : String) (r : PairingRequest) (s : Store) (e : Enrollment) (v : String)
      → Dict.get k s.enrollments ≡ some e
      → (submit_pairing code_hash verification_code now k code r s).0 ≡ ok v
      → let t = (submit_pairing code_hash verification_code now k code r s).1 in
        (Dict.get r.node_id t.nodes ≡ some (waiting_node k r))
        × (Dict.get k t.enrollments ≡ some (used_enrollment now e r))
  unfolding submit_pairing pair put_enrollment actions
  pairing_stores now k code r s e v found h = ground (
    arith,
    eq_iff r.node_id r.node_id,
    eq_iff k k,
    get-put r.node_id r.node_id (waiting_node k r) s.nodes,
    get-put k k (used_enrollment now e r) s.enrollments,
  )

  used_refuses :
      (now : ℕ) (k code : String) (r : PairingRequest) (s : Store) (e : Enrollment) (at : ℕ)
      → Dict.get k s.enrollments ≡ some e
      → e.used_at ≡ some at
      → (submit_pairing code_hash verification_code now k code r s).0 ≡ err pairing_rejected
  unfolding submit_pairing actions
  used_refuses now k code r s e at found used = ground arith

  -- A pairing succeeds only with the code of an enrollment that is issued, unused, not expired and
  -- below its limit of failures, for the node that its capability summary names. It returns the
  -- verification code, under which the node of the request waits for approval, and the enrollment
  -- is marked as used: every other pairing under it is rejected.
  pub submit_pairing_needs :
      (now : ℕ) (k code : String) (r : PairingRequest) (s : Store) (e : Enrollment) (v : String)
      → Dict.get k s.enrollments ≡ some e
      → (submit_pairing code_hash verification_code now k code r s).0 ≡ ok v
      → let t = (submit_pairing code_hash verification_code now k code r s).1 in
        ((is_issued e.status ≡ true)
          × (e.used_at ≡ none)
          × (now < e.expires_at)
          × (e.failed_attempts < e.max_failures)
          × (e.code_hash ≡ code_hash k code)
          × (r.node_id ≡ r.capability_summary.node_id)
          × (v ≡ verification_code k r.node_id r.fingerprint))
        × (Dict.get r.node_id t.nodes ≡ some (waiting_node k r))
        × (Dict.get k t.enrollments ≡ some (used_enrollment now e r))
        × ((later : ℕ) (guess : String) (other : PairingRequest)
            → (submit_pairing code_hash verification_code later k guess other t).0
              ≡ err pairing_rejected)
  submit_pairing_needs now k code r s e v found h =
      let (node_stored, used) = pairing_stores now k code r s e v found h in
      (
        pairing_needs now k code r s e v found h,
        node_stored,
        used,
        λ later guess other.
            used_refuses later k guess other _ (used_enrollment now e r) now used refl,
      )
