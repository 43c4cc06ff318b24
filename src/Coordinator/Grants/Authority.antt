-- ===== src/Coordinator/Grants/Authority.antt =====
-- Who may use a model grant: what a successful call needed, and what revocation stops.
use across_orchestrator.Base.{
  ℕ, ◌+◌, ◌≤◌, ◌<◌, String, ◌≡◌, refl, ◌≢◌, ◌⊎◌, inl, inr, true, false, none, some, arith, eq_iff,
  nat_Eq, string_Eq, is_some, Option-cases, length, contains,
}
use across_orchestrator.Exec.{ok, err}
use across_orchestrator.Dict
use across_orchestrator.Dict.{
  get, remove, put, values, keys, get_of_absent, get-remove, get-put, put-put, length-put-le,
  length-remove-lt, length-put-known, IsKeyed,
}
use across_orchestrator.Protocol.Grant.{GrantUse, binding_matches, authorize}
use across_orchestrator.Store.{Reservation, Grant, Store}
use across_orchestrator.Coordinator.Action.{
  unexpected_keyword, reservation_not_found, grant_final_usage_exceeded, actions,
}
use across_orchestrator.Coordinator.Grants.{
  ℤ, clamp_zero, clamp_one, put_grant, next_usage, over_budget, open_calls, consume_model_grant,
  reserved_tokens, begin_model_grant_call, finish_model_grant_call,
}

-- `g` lets `u` be made at `now`.
pub record Authorizes (g : Grant) (u : GrantUse) (now : ℕ) : Type 0 where
  pub live : g.revoked_at ≡ none
  pub unexpired : now < g.expires_at
  pub bound : binding_matches g.grant u ≡ true
  pub scoped : contains g.scopes u.scope ≡ true
  pub purposed : contains g.purposes u.purpose ≡ true

authorize-Authorizes :
    (g : Grant) (u : GrantUse) (now : ℕ) → authorize g.grant u now ≡ ok tt → Authorizes g u now
unfolding authorize
authorize-Authorizes g u now h = ground arith

-- A call begins only under a live, unexpired grant that names its run, job, node, audience, scope
-- and purpose, and only with room for it in the calls, in the tokens together with those that open
-- calls reserve, and in the concurrency.
pub begin-Authorizes :
    (now : ℕ) (call_id grant_id : String) (u : GrantUse) (tokens : ℤ) (s : Store) (g : Grant)
    {r : String × ℕ}
    → Dict.get grant_id s.grants ≡ some g
    → (begin_model_grant_call now call_id grant_id u tokens s).0 ≡ ok r
    → Authorizes g u now
      × (g.usage.calls + length (open_calls g) + 1 ≤ g.max_calls)
      × (g.usage.tokens + reserved_tokens (open_calls g) + clamp_one tokens ≤ g.max_tokens)
      × (length (open_calls g) < g.max_concurrency)
unfolding begin_model_grant_call actions put_grant
begin-Authorizes now call_id grant_id u tokens s g found h =
    ground (arith, authorize-Authorizes g u now)

begin_stores_reservation :
    (now : ℕ) (call_id grant_id : String) (u : GrantUse) (tokens : ℤ) (s : Store) (g : Grant)
    {r : String × ℕ}
    → Dict.get grant_id s.grants ≡ some g
    → (begin_model_grant_call now call_id grant_id u tokens s).0 ≡ ok r
    → let opened : Reservation = record { requested_tokens = clamp_one tokens; started_at = now } in
      Dict.get grant_id (begin_model_grant_call now call_id grant_id u tokens s).1.grants
      ≡ some (record g { reservations = some (Dict.put call_id opened (open_calls g)) })
unfolding begin_model_grant_call actions put_grant
begin_stores_reservation now call_id grant_id u tokens s g found h =
    let opened : Reservation = record { requested_tokens = clamp_one tokens; started_at = now } in
    let g' : Grant = record g { reservations = some (Dict.put call_id opened (open_calls g)) } in
    ground (arith, get-put grant_id grant_id g' s.grants, eq_iff grant_id grant_id)

consume_refused :
    (now : ℕ) (grant_id : String) (u : GrantUse) (tokens cost : ℤ) (s : Store) (g : Grant)
    → Dict.get grant_id s.grants ≡ some g
    → is_some g.reservations ≡ true
    → consume_model_grant now grant_id u tokens cost s ≡ (err unexpected_keyword, s)
unfolding consume_model_grant actions
consume_refused now grant_id u tokens cost s g found present = ground arith

begin_needs_grant :
    (now : ℕ) (call_id grant_id : String) (u : GrantUse) (tokens : ℤ) (s : Store) {r : String × ℕ}
    → Dict.get grant_id s.grants ≡ none
    → (begin_model_grant_call now call_id grant_id u tokens s).0 ≢ ok r
unfolding begin_model_grant_call actions
begin_needs_grant now call_id grant_id u tokens s missing = ground arith

-- Once a call has begun under a grant, `consume_model_grant` raises a TypeError for that grant and
-- changes nothing, whatever its arguments.
pub consume-begin :
    (now later : ℕ) (call_id grant_id : String) (u v : GrantUse) (asked tokens cost : ℤ) (s : Store)
    {r : String × ℕ}
    → (begin_model_grant_call now call_id grant_id u asked s).0 ≡ ok r
    → let t = (begin_model_grant_call now call_id grant_id u asked s).1 in
      consume_model_grant later grant_id v tokens cost t ≡ (err unexpected_keyword, t)
unfolding begin_model_grant_call consume_model_grant actions put_grant
consume-begin now later call_id grant_id u v asked tokens cost s h =
    elim (Option-cases (Dict.get grant_id s.grants)) [
      | inl missing ↦ absurd (begin_needs_grant now call_id grant_id u asked s missing h)
      | inr (g, found) ↦
          consume_refused later grant_id v tokens cost _ _
            (begin_stores_reservation now call_id grant_id u asked s g found h) refl
    ]

finish_raises :
    (now : ℕ) (grant_id call_id : String) (tokens cost : ℤ) (s : Store) (g : Grant)
    → Dict.get grant_id s.grants ≡ some g
    → (finish_model_grant_call now grant_id call_id tokens cost s).0
      ≡ err grant_final_usage_exceeded
    → (g.active_calls ≡ false)
      × (over_budget g.grant (next_usage g.usage tokens cost) ≡ true)
      × ((finish_model_grant_call now grant_id call_id tokens cost s).1 ≡ record s {
        grants =
            Dict.put grant_id
              (record g { reservations = some (Dict.remove call_id (open_calls g)) })
              s.grants;
      })
unfolding finish_model_grant_call actions put_grant
finish_raises now grant_id call_id tokens cost s g found h = ground arith

finish_unknown :
    (now : ℕ) (grant_id call_id : String) (tokens cost : ℤ) (s : Store) (g : Grant)
    → Dict.get grant_id s.grants ≡ some g
    → g.active_calls ≡ false
    → Dict.get call_id (open_calls g) ≡ none
    → finish_model_grant_call now grant_id call_id tokens cost s ≡ (err reservation_not_found, s)
unfolding finish_model_grant_call actions
finish_unknown now grant_id call_id tokens cost s g found inactive missing =
    simp (found, inactive, missing)

-- When a call is finished and its usage is refused as over the budget of a known grant, the usage
-- did pass the calls, the tokens or the cost with its tolerance; nothing of it is charged and the
-- call is no longer open, so that every further attempt to finish it, with whatever usage, finds no
-- reservation and changes nothing.
pub finish_over_budget :
    (now : ℕ) (grant_id call_id : String) (tokens cost : ℤ) (s : Store) (g : Grant)
    → Dict.get grant_id s.grants ≡ some g
    → (finish_model_grant_call now grant_id call_id tokens cost s).0
      ≡ err grant_final_usage_exceeded
    → let t = (finish_model_grant_call now grant_id call_id tokens cost s).1 in
      (g.max_calls < g.usage.calls + 1
        ⊎ (g.max_tokens < g.usage.tokens + clamp_zero tokens
            ⊎ g.max_cost_usd + 1 < g.usage.cost_usd + clamp_zero cost))
      × (Dict.get grant_id t.grants
          ≡ some (record g { reservations = some (Dict.remove call_id (open_calls g)) }))
      × ((later : ℕ) (less paid : ℤ)
          → finish_model_grant_call later grant_id call_id less paid t
            ≡ (err reservation_not_found, t))
finish_over_budget now grant_id call_id tokens cost s g found h =
    let (inactive, over, left) = finish_raises now grant_id call_id tokens cost s g found h in
    let dropped : Grant = record g { reservations = some (Dict.remove call_id (open_calls g)) } in
    let stored : Dict.get grant_id (Dict.put grant_id dropped s.grants) ≡ some dropped =
      simp (get-put, (eq_iff grant_id grant_id).1 refl) in
    rw left (
      ground arith,
      stored,
      λ later less paid.
          finish_unknown later grant_id call_id less paid _ dropped stored inactive
            (simp (get-remove, (eq_iff call_id call_id).1 refl)),
    )
