-- ===== src/Coordinator/Grants/Budget.antt =====
-- The budgets of model grants over every sequence of grant operations.
use across_orchestrator.Exec.{Result, modify, ◌>>=◌}
use across_orchestrator.Exec.Keeps.{
  Keeps, Keeps-lift, Keeps-lookup, Keeps-branch, Keeps-guard, Keeps-bind, Keeps-found,
  Keeps-required, keeps_rules,
}
use across_orchestrator.Coordinator.Action.{Action, demand, audited}
use across_orchestrator.Dict.{
  get, put, remove, values, get-put, get-remove, put-put, length-put-le, length-remove-lt,
}
use across_orchestrator.Base.{
  ℕ, ◌+◌, ◌≤◌, String, ◌≡◌, some, List, [], ◌∷◌, arith, eq_iff, nat_Eq, string_Eq, length,
}
use across_orchestrator.Dict
use across_orchestrator.Protocol.Grant.{ProtocolError, GrantUse}
use across_orchestrator.Store.{Grant, Store}
use across_orchestrator.Coordinator.Grants.{
  ℤ, clamp_one, put_grant, grant_of, GrantTerms, issue_model_grant, open_calls, consume_model_grant,
  begin_model_grant_call, finish_model_grant_call, revoke_model_grant,
}

-- What the usage and the open calls of a grant never pass.
pub record IsWithinBudget (g : Grant) : Type 0 where
  pub calls_fit : g.usage.calls + length (open_calls g) ≤ g.max_calls
  pub tokens_fit : g.usage.tokens ≤ g.max_tokens
  pub cost_fits : g.usage.cost_usd ≤ g.max_cost_usd + 1
  pub concurrency_fits : length (open_calls g) ≤ g.max_concurrency

pub record GrantsFit (s : Store) : Type 0 where
  pub at : (k : String) (g : Grant) → Dict.get k s.grants ≡ some g → IsWithinBudget g

put_grant-GrantsFit : (k : String) (g : Grant) → IsWithinBudget g → Keeps GrantsFit (put_grant k g)
unfolding put_grant modify
put_grant-GrantsFit k g fit = record {
  at = λ s h. record { at = λ j x e. ground (arith, get-put k j g s.grants, eq_iff k j, h.at j x) };
}

audited-GrantsFit : (now : ℕ) (event subject : String) → Keeps GrantsFit (audited now event subject)
unfolding audited modify
audited-GrantsFit now event subject = record { at = λ s h. record { at = h.at } }

demand-GrantsFit : (r : Result ProtocolError (Unit {0})) → Keeps GrantsFit (demand r)
unfolding demand
demand-GrantsFit r = Keeps-lift _

ruleset fit_rules = (keeps_rules, audited-GrantsFit, demand-GrantsFit)

-- What follows the lookup of a grant may use that the grant is within its budget.
grant_of-GrantsFit :
    {A : Type 0} (k : String) (f : Grant → Action A)
    → ((g : Grant) → IsWithinBudget g → Keeps GrantsFit (f g))
    → Keeps GrantsFit (grant_of k >>= f)
grant_of-GrantsFit k f h = Keeps-found IsWithinBudget _ _ f (λ s g p found. p.at k g found) h

module _ (now : ℕ) (grant_id : String) where
  begin-GrantsFit :
      (call_id : String) (u : GrantUse) (tokens : ℤ)
      → Keeps GrantsFit (begin_model_grant_call now call_id grant_id u tokens)
  unfolding begin_model_grant_call
  begin-GrantsFit call_id u tokens = grant_of-GrantsFit grant_id _ λ g fit. Keeps-guard _ _ _ λ _.
      Keeps-bind _ _ (demand-GrantsFit _) λ _. Keeps-guard _ _ _ λ room. Keeps-guard _ _ _ λ calls.
        Keeps-guard _ _ _ λ _.
          Keeps-bind _ _
            (put_grant-GrantsFit grant_id _ (
              ground (
                arith,
                length-put-le call_id
                    (record { requested_tokens = clamp_one tokens; started_at = now })
                    (open_calls g),
              )))
            λ _. search fit_rules

  finish-GrantsFit :
      (call_id : String) (tokens cost : ℤ)
      → Keeps GrantsFit (finish_model_grant_call now grant_id call_id tokens cost)
  unfolding finish_model_grant_call
  finish-GrantsFit call_id tokens cost = grant_of-GrantsFit grant_id _ λ g fit.
      Keeps-guard _ _ _ λ _. Keeps-required _ _ _ λ call open_call.
        Keeps-branch _ _ _
          (λ _.
            Keeps-bind _ _
              (put_grant-GrantsFit grant_id _
                (ground (arith, length-remove-lt call_id (open_calls g) call)))
              λ _. search fit_rules)
          (λ room.
            Keeps-bind _ _
              (put_grant-GrantsFit grant_id _
                (ground (arith, length-remove-lt call_id (open_calls g) call)))
              λ _. search fit_rules)

  consume-GrantsFit :
      (u : GrantUse) (tokens cost : ℤ)
      → Keeps GrantsFit (consume_model_grant now grant_id u tokens cost)
  unfolding consume_model_grant
  consume-GrantsFit u tokens cost = grant_of-GrantsFit grant_id _ λ g fit.
      Keeps-guard _ _ _ λ unused. Keeps-bind _ _ (demand-GrantsFit _) λ _.
        Keeps-branch _ _ _ (λ _. search fit_rules)
          (λ room.
            Keeps-bind _ _ (put_grant-GrantsFit grant_id _ (ground arith)) λ _. search fit_rules)

  revoke-GrantsFit : Keeps GrantsFit (revoke_model_grant now grant_id)
  unfolding revoke_model_grant
  revoke-GrantsFit =
      grant_of-GrantsFit grant_id _ λ g fit.
        Keeps-bind _ _ (put_grant-GrantsFit grant_id _ (ground arith)) λ _. search fit_rules

  issue-GrantsFit :
      (job_id node_id : String) (t : GrantTerms)
      → Keeps GrantsFit (issue_model_grant now grant_id job_id node_id t)
  unfolding issue_model_grant
  issue-GrantsFit job_id node_id t = Keeps-bind _ _ (Keeps-lookup _ _) λ job.
      Keeps-guard _ _ _
        λ _. Keeps-bind _ _ (put_grant-GrantsFit grant_id _ (ground arith)) λ _. search fit_rules

-- A call of a grant operation, with the reading of the clock at which it is made.
pub data GrantCall : Type 0 where
  issue : (now : ℕ) (grant_id job_id node_id : String) → GrantTerms → GrantCall
  consume : (now : ℕ) (grant_id : String) → GrantUse → (tokens cost : ℤ) → GrantCall
  begin : (now : ℕ) (call_id grant_id : String) → GrantUse → (tokens : ℤ) → GrantCall
  finish : (now : ℕ) (grant_id call_id : String) (tokens cost : ℤ) → GrantCall
  revoke : (now : ℕ) (grant_id : String) → GrantCall

-- The state after a call, whether it returned or raised.
unfoldable pub run_call : GrantCall → Store → Store
run_call (issue now grant_id job_id node_id t) s =
    (issue_model_grant now grant_id job_id node_id t s).1
run_call (consume now grant_id u tokens cost) s =
    (consume_model_grant now grant_id u tokens cost s).1
run_call (begin now call_id grant_id u tokens) s =
    (begin_model_grant_call now call_id grant_id u tokens s).1
run_call (finish now grant_id call_id tokens cost) s =
    (finish_model_grant_call now grant_id call_id tokens cost s).1
run_call (revoke now grant_id) s = (revoke_model_grant now grant_id s).1

unfoldable pub run_calls : List GrantCall → Store → Store
run_calls [] s = s
run_calls (c ∷ cs) s = run_calls cs (run_call c s)

run_call-GrantsFit : (c : GrantCall) (s : Store) → GrantsFit s → GrantsFit (run_call c s)
unfolding run_call
run_call-GrantsFit (issue now k job node t) s h = (issue-GrantsFit now k job node t).at s h
run_call-GrantsFit (consume now k u tokens cost) s h =
    (consume-GrantsFit now k u tokens cost).at s h
run_call-GrantsFit (begin now c k u tokens) s h = (begin-GrantsFit now k c u tokens).at s h
run_call-GrantsFit (finish now k c tokens cost) s h = (finish-GrantsFit now k c tokens cost).at s h
run_call-GrantsFit (revoke now k) s h = (revoke-GrantsFit now k).at s h

-- From a store whose grants are within their budgets, every sequence of calls of the grant
-- operations, whichever of them raise, leads to a store in which every grant has used at most its
-- tokens and its cost (plus the tolerance), its finished and open calls together are at most its
-- calls, and its open calls are at most its concurrency.
pub run_calls-GrantsFit :
    (cs : List GrantCall) (s : Store) → GrantsFit s → GrantsFit (run_calls cs s)
unfolding run_calls
run_calls-GrantsFit [] s h = h
run_calls-GrantsFit (c ∷ cs) s h = run_calls-GrantsFit cs (run_call c s) (run_call-GrantsFit c s h)
