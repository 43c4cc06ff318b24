-- ===== src/Examples/GrantRuns.antt =====
-- Runs of the model grants.
use across_orchestrator.Exec.{ok, err}
use across_orchestrator.Protocol.Grant.{authorize}
use across_orchestrator.Store.{Reservation, Grant, Store}
use across_orchestrator.Coordinator.Action.{unexpected_keyword, reservation_not_found, actions}
use across_orchestrator.Coordinator.Grants.{
  ℤ, pos, clamp_one, put_grant, open_calls, consume_model_grant, reserved_tokens,
  begin_model_grant_call, finish_model_grant_call, revoke_model_grant,
}
use across_orchestrator.Coordinator.Grants.Authority.{
  Authorizes, begin-Authorizes, consume-begin, finish_over_budget,
}
use across_orchestrator.Coordinator.Grants.Revocation.{revoke_is_final}
use across_orchestrator.Base.{
  ℕ, ◌+◌, ◌≤◌, ◌<◌, ◌≡◌, refl, ◌≢◌, ◌⊎◌, some, List, [], ◌∷◌, arith, nat_Eq, string_Eq, length,
}
use across_orchestrator.Dict
use across_orchestrator.Dict.{
  get, remove, put, values, keys, get_of_absent, get-remove, get-put, put-put, length-put-le,
  length-remove-lt, length-put-known, IsKeyed,
}
use across_orchestrator.Coordinator.Grants.Budget.{
  GrantsFit, GrantCall, begin, finish, run_calls, run_calls-GrantsFit,
}
use across_orchestrator.Examples.Samples.{grant, grant_use, sample}

within_budget : GrantsFit sample
unfolding Dict.get
within_budget = record {
  at = λ k g found. record {
    calls_fit = ground arith;
    tokens_fit = ground arith;
    cost_fits = ground arith;
    concurrency_fits = ground arith;
  };
}

-- A call that begins, one that is refused for the concurrency, and the end of the first.
abbrev calls : List GrantCall
calls =
    begin 20 "c1" "gr1" grant_use (pos 50)
    ∷ begin 21 "c2" "gr1" grant_use (pos 50)
    ∷ finish 22 "gr1" "c1" (pos 40) (pos 10)
    ∷ []

run_calls-GrantsFit_example : GrantsFit (run_calls calls sample)
run_calls-GrantsFit_example = run_calls-GrantsFit calls sample within_budget

begin-Authorizes_example :
    Authorizes grant grant_use 20
    × (grant.usage.calls + length (open_calls grant) + 1 ≤ grant.max_calls)
    × (grant.usage.tokens + reserved_tokens (open_calls grant) + clamp_one (pos 50)
        ≤ grant.max_tokens)
    × (length (open_calls grant) < grant.max_concurrency)
unfolding begin_model_grant_call authorize actions put_grant Dict.get
begin-Authorizes_example = begin-Authorizes 20 "c1" "gr1" grant_use (pos 50) sample grant refl refl

revoke_is_final_example :
    let t = run_calls calls (revoke_model_grant 15 "gr1" sample).1 in
    ((begin_model_grant_call 30 "c3" "gr1" grant_use (pos 5) t).0 ≢ ok ("c3", 5))
    × ((consume_model_grant 30 "gr1" grant_use (pos 5) (pos 1) t).0 ≢ ok grant.usage)
revoke_is_final_example =
    revoke_is_final "gr1" 15 30 calls sample refl "c3" grant_use (pos 5) (pos 1)

consume-begin_example :
    let t = (begin_model_grant_call 20 "c1" "gr1" grant_use (pos 50) sample).1 in
    consume_model_grant 21 "gr1" grant_use (pos 5) (pos 1) t ≡ (err unexpected_keyword, t)
unfolding begin_model_grant_call authorize actions put_grant Dict.get
consume-begin_example =
    consume-begin 20 21 "c1" "gr1" grant_use grant_use (pos 50) (pos 5) (pos 1) sample refl

abbrev call : Reservation
call = record { requested_tokens = 50; started_at = 20 }

abbrev busy : Grant
busy = record grant { reservations = some (("c1", call) ∷ []) }

abbrev with_busy : Store
with_busy = record sample { grants = ("gr1", busy) ∷ [] }

finish_over_budget_example :
    let t = (finish_model_grant_call 22 "gr1" "c1" (pos 500) (pos 10) with_busy).1 in
    (busy.max_calls < busy.usage.calls + 1
      ⊎ (busy.max_tokens < busy.usage.tokens + 500
          ⊎ busy.max_cost_usd + 1 < busy.usage.cost_usd + 10))
    × (Dict.get "gr1" t.grants
        ≡ some (record busy { reservations = some (Dict.remove "c1" (open_calls busy)) }))
    × ((later : ℕ) (less paid : ℤ)
        → finish_model_grant_call later "gr1" "c1" less paid t ≡ (err reservation_not_found, t))
unfolding Dict.get finish_model_grant_call actions put_grant
finish_over_budget_example =
    finish_over_budget 22 "gr1" "c1" (pos 500) (pos 10) with_busy busy refl refl
