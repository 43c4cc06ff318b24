-- ===== src/Coordinator/Grants/Revocation.antt =====
-- A revoked grant stays revoked, and no call begins or is consumed under it.
use across_orchestrator.Base.{
  ℕ, String, ◌≡◌, refl, ◌≢◌, inl, inr, Bool, true, false, some, List, [], ◌∷◌, arith, eq_iff, ◌==◌,
  nat_Eq, string_Eq, is_some, Option-cases, any,
}
use across_orchestrator.Exec.{Result, ok, modify, ◌>>=◌}
use across_orchestrator.Exec.Keeps.{
  Keeps, Keeps-lift, Keeps-require, Keeps-lookup, Keeps-branch, Keeps-guard, Keeps-bind,
  Keeps-found, keeps_rules,
}
use across_orchestrator.Dict
use across_orchestrator.Dict.{
  get, put, remove, values, get-put, get-remove, put-put, length-put-le, length-remove-lt,
}
use across_orchestrator.Protocol.Grant.{ProtocolError, GrantUse, authorize}
use across_orchestrator.Store.{Usage, Grant, Store}
use across_orchestrator.Coordinator.Action.{Action, demand, audited, actions}
use across_orchestrator.Coordinator.Grants.{
  ℤ, put_grant, grant_of, GrantTerms, issue_model_grant, consume_model_grant,
  begin_model_grant_call, finish_model_grant_call, revoke_model_grant,
}
use across_orchestrator.Coordinator.Grants.Budget.{
  GrantCall, issue, consume, begin, finish, revoke, run_call, run_calls,
}

record IsCutOff (k : String) (s : Store) : Type 0 where
  at : (g : Grant) → Dict.get k s.grants ≡ some g → is_some g.revoked_at ≡ true

abbrev pub issues : String → GrantCall → Bool
issues k (issue now grant_id job_id node_id t) = grant_id == k
issues k _ = false

module _ (k : String) where
  -- A write to the grant `k` writes a revoked grant.
  abbrev Revoked : String → Grant → Type 0
  Revoked grant_id g = grant_id == k ≡ true → is_some g.revoked_at ≡ true

  put_grant-IsCutOff :
      (grant_id : String) (g : Grant)
      → Revoked grant_id g
      → Keeps (IsCutOff k) (put_grant grant_id g)
  unfolding put_grant modify
  put_grant-IsCutOff grant_id g h = record {
    at = λ s cut. record {
      at = λ x e. ground (arith, get-put grant_id k g s.grants, eq_iff grant_id k, cut.at x);
    };
  }

  audited-IsCutOff :
      (now : ℕ) (event subject : String) → Keeps (IsCutOff k) (audited now event subject)
  unfolding audited modify
  audited-IsCutOff now event subject = record { at = λ s h. record { at = h.at } }

  demand-IsCutOff : (r : Result ProtocolError (Unit {0})) → Keeps (IsCutOff k) (demand r)
  unfolding demand
  demand-IsCutOff r = Keeps-lift _

  grant_of-IsCutOff :
      {A : Type 0} (grant_id : String) (f : Grant → Action A)
      → ((g : Grant) → Revoked grant_id g → Keeps (IsCutOff k) (f g))
      → Keeps (IsCutOff k) (grant_of grant_id >>= f)
  grant_of-IsCutOff grant_id f h =
      Keeps-found (Revoked grant_id) _ _ f
        (λ s g cut found same. cut.at g (ground (arith, eq_iff grant_id k))) h

ruleset cut_rules = (keeps_rules, put_grant-IsCutOff, audited-IsCutOff, demand-IsCutOff)

module _ (k : String) (now : ℕ) (grant_id : String) where
  begin-IsCutOff :
      (call_id : String) (u : GrantUse) (tokens : ℤ)
      → Keeps (IsCutOff k) (begin_model_grant_call now call_id grant_id u tokens)
  unfolding begin_model_grant_call
  begin-IsCutOff call_id u tokens = grant_of-IsCutOff k grant_id _ λ g h. Keeps-guard _ _ _ λ _.
      Keeps-bind _ _ (demand-IsCutOff k _) λ _. Keeps-guard _ _ _ λ _. Keeps-guard _ _ _ λ _.
        Keeps-guard _ _ _
          λ _. Keeps-bind _ _ (put_grant-IsCutOff k grant_id _ h) λ _. search cut_rules

  finish-IsCutOff :
      (call_id : String) (tokens cost : ℤ)
      → Keeps (IsCutOff k) (finish_model_grant_call now grant_id call_id tokens cost)
  unfolding finish_model_grant_call
  finish-IsCutOff call_id tokens cost = grant_of-IsCutOff k grant_id _ λ g h. Keeps-guard _ _ _ λ _.
      Keeps-bind _ _ (Keeps-require _ _) λ _.
        Keeps-branch _ _ _
          (λ _. Keeps-bind _ _ (put_grant-IsCutOff k grant_id _ h) λ _. search cut_rules)
          (λ _. Keeps-bind _ _ (put_grant-IsCutOff k grant_id _ h) λ _. search cut_rules)

  consume-IsCutOff :
      (u : GrantUse) (tokens cost : ℤ)
      → Keeps (IsCutOff k) (consume_model_grant now grant_id u tokens cost)
  unfolding consume_model_grant
  consume-IsCutOff u tokens cost = grant_of-IsCutOff k grant_id _ λ g h. Keeps-guard _ _ _ λ _.
      Keeps-bind _ _ (demand-IsCutOff k _) λ _.
        Keeps-branch _ _ _ (λ _. search cut_rules)
          (λ _. Keeps-bind _ _ (put_grant-IsCutOff k grant_id _ h) λ _. search cut_rules)

  revoke-IsCutOff : Keeps (IsCutOff k) (revoke_model_grant now grant_id)
  unfolding revoke_model_grant
  revoke-IsCutOff =
      grant_of-IsCutOff k grant_id _
        λ g h. Keeps-bind _ _ (put_grant-IsCutOff k grant_id _ (λ _. refl)) λ _. search cut_rules

  issue-IsCutOff :
      (job_id node_id : String) (t : GrantTerms)
      → grant_id == k ≡ false
      → Keeps (IsCutOff k) (issue_model_grant now grant_id job_id node_id t)
  unfolding issue_model_grant
  issue-IsCutOff job_id node_id t other = Keeps-bind _ _ (Keeps-lookup _ _) λ job.
      Keeps-guard _ _ _
        λ _. Keeps-bind _ _ (put_grant-IsCutOff k grant_id _ (λ same. cc)) λ _. search cut_rules

run_call-IsCutOff :
    (k : String) (c : GrantCall) (s : Store)
    → issues k c ≡ false
    → IsCutOff k s
    → IsCutOff k (run_call c s)
unfolding run_call
run_call-IsCutOff k (issue now i job node t) s o h = (issue-IsCutOff k now i job node t o).at s h
run_call-IsCutOff k (consume now i u tokens cost) s o h =
    (consume-IsCutOff k now i u tokens cost).at s h
run_call-IsCutOff k (begin now c i u tokens) s o h = (begin-IsCutOff k now i c u tokens).at s h
run_call-IsCutOff k (finish now i c tokens cost) s o h =
    (finish-IsCutOff k now i c tokens cost).at s h
run_call-IsCutOff k (revoke now i) s o h = (revoke-IsCutOff k now i).at s h

run_calls-IsCutOff :
    (k : String) (cs : List GrantCall) (s : Store)
    → any (issues k) cs ≡ false
    → IsCutOff k s
    → IsCutOff k (run_calls cs s)
unfolding run_calls
run_calls-IsCutOff k [] s o h = h
run_calls-IsCutOff k (c ∷ cs) s o h =
    run_calls-IsCutOff k cs (run_call c s) (ground arith) (run_call-IsCutOff k c s (ground arith) h)

revoke_cuts_off : (now : ℕ) (k : String) (s : Store) → IsCutOff k (revoke_model_grant now k s).1
unfolding revoke_model_grant actions put_grant
revoke_cuts_off now k s = record {
  at = λ g e. elim (Option-cases (Dict.get k s.grants)) [
    | inl missing ↦ ground arith
    | inr (x, found) ↦
        let y : Grant = record x { grant = record x.grant { revoked_at = some now } } in
        ground (arith, get-put k k y s.grants, eq_iff k k)
  ];
}

cut_off_stops :
    (k : String) (s : Store)
    → IsCutOff k s
    → (now : ℕ) (call_id : String) (u : GrantUse) (tokens cost : ℤ) {r : String × ℕ} {x : Usage}
    → ((begin_model_grant_call now call_id k u tokens s).0 ≢ ok r)
      × ((consume_model_grant now k u tokens cost s).0 ≢ ok x)
unfolding begin_model_grant_call consume_model_grant actions authorize
cut_off_stops k s h now call_id u tokens cost = elim (Option-cases (Dict.get k s.grants)) [
  | inl missing ↦ (ground arith, ground arith)
  | inr (g, found) ↦ (ground (arith, h.at g found), ground (arith, h.at g found))
]

-- After a grant is revoked, whatever grant operations follow, as long as none of them issues a
-- grant of the same id, no call begins under it and no usage is consumed from it.
pub revoke_is_final :
    (k : String) (now later : ℕ) (cs : List GrantCall) (s : Store)
    → any (issues k) cs ≡ false
    → (call_id : String) (u : GrantUse) (tokens cost : ℤ) {r : String × ℕ} {x : Usage}
    → let t = run_calls cs (revoke_model_grant now k s).1 in
      ((begin_model_grant_call later call_id k u tokens t).0 ≢ ok r)
      × ((consume_model_grant later k u tokens cost t).0 ≢ ok x)
revoke_is_final k now later cs s o call_id u tokens cost =
    cut_off_stops k _ (run_calls-IsCutOff k cs _ o (revoke_cuts_off now k s)) later call_id u tokens
      cost
