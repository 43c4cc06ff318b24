-- ===== src/Relay/Capacity.antt =====
-- That the relay's router never keeps more sessions than it allows.
use across_orchestrator.Relay.Router.{
  RelayFrame, RelaySession, RelayRouter, RelayError, new_router, revoke_session, expired_sessions,
  revoke_all, prune, distinct, is_full, new_session, add_session, register_session, route_error,
  deliver, route, health, RelayCall, register_call, revoke_call, route_call, health_call,
  relay_call, relay_calls,
}
use across_orchestrator.Base.{
  ℕ, ◌≤◌, max, String, ◌≡◌, refl, ◌∙◌, inl, inr, false, Option, none, some, List, [], ◌∷◌, arith,
  ◌==◌, nat_Eq, string_Eq, is_some, Bool-cases, length,
}
use across_orchestrator.Dict.{get, remove, put, length-put-le, length-put-known}

abbrev pub IsWithin : RelayRouter → Type 0
IsWithin r = length r.sessions ≤ r.max_sessions

length-remove : {V : Type 0} (k : String) (m : List (String × V)) → length (remove k m) ≤ length m
unfolding remove
length-remove k [] = omega arith
length-remove k ((i, w) ∷ m) = ground (arith, length-remove k m)

revoke_session-IsWithin :
    (id : String) (r : RelayRouter) → IsWithin r → IsWithin (revoke_session id r).1
unfolding revoke_session
revoke_session-IsWithin id r h = omega (arith, length-remove id r.sessions, h)

revoke_all-IsWithin :
    (ids : List String) (r : RelayRouter) → IsWithin r → IsWithin (revoke_all ids r)
unfolding revoke_all
revoke_all-IsWithin [] r h = h
revoke_all-IsWithin (id ∷ ids) r h =
    revoke_all-IsWithin ids (revoke_session id r).1 (revoke_session-IsWithin id r h)

prune-IsWithin : (now : ℕ) (r : RelayRouter) → IsWithin r → IsWithin (prune now r)
unfolding prune
prune-IsWithin now r h = revoke_all-IsWithin (expired_sessions now r.sessions) r h

add_session-IsWithin :
    (id : String) (session : RelaySession) (r : RelayRouter)
    → IsWithin r
    → IsWithin (add_session id session r).1
unfolding add_session
add_session-IsWithin id session r h = elim (Bool-cases (is_full id r)) [
  | inl full ↦ rw full h
  | inr room ↦ rw room (fits room)
]
  where
    fits : is_full id r ≡ false → length (put id session r.sessions) ≤ r.max_sessions
    fits room = elim (Bool-cases (is_some (get id r.sessions))) [
      | inl known ↦ omega (arith, length-put-known id session r.sessions known, h)
      | inr unknown ↦ ground (arith, length-put-le id session r.sessions)
    ]

register_session-IsWithin :
    (now : ℕ) (id : String) (nodes : List String) (ttl : ℕ) (r : RelayRouter)
    → IsWithin r
    → IsWithin (register_session now id nodes ttl r).1
unfolding register_session
register_session-IsWithin now id nodes ttl r h = elim (Bool-cases (length (distinct nodes) == 2)) [
  | inl two ↦ rw two (
      add_session-IsWithin id (new_session now id (distinct nodes) ttl) (prune now r)
        (prune-IsWithin now r h))
  | inr not_two ↦ rw not_two h
]

deliver-IsWithin :
    (f : RelayFrame) (e : Option RelayError) (r : RelayRouter)
    → IsWithin r
    → IsWithin (deliver f e r).1
unfolding deliver
deliver-IsWithin f none r h = h
deliver-IsWithin f (some e) r h = h

relay_call-IsWithin :
    (size : String → ℕ) (call : RelayCall) (r : RelayRouter)
    → IsWithin r
    → IsWithin (relay_call size call r)
unfolding relay_call route health
relay_call-IsWithin size (register_call now id nodes ttl) r h =
    register_session-IsWithin now id nodes ttl r h
relay_call-IsWithin size (revoke_call id) r h = revoke_session-IsWithin id r h
relay_call-IsWithin size (route_call now f) r h =
    deliver-IsWithin f
      (route_error size now f (get f.session_id (prune now r).sessions) (prune now r)) (prune now r)
      (prune-IsWithin now r h)
relay_call-IsWithin size (health_call now) r h = prune-IsWithin now r h

kept :
    (size : String → ℕ) (calls : List RelayCall) (r : RelayRouter)
    → IsWithin r
    → IsWithin (relay_calls size calls r)
unfolding relay_calls
kept size [] r h = h
kept size (call ∷ calls) r h =
    kept size calls (relay_call size call r) (relay_call-IsWithin size call r h)

-- No call changes what the router allows.
revoke_all-max_sessions :
    (ids : List String) (r : RelayRouter) → (revoke_all ids r).max_sessions ≡ r.max_sessions
unfolding revoke_all revoke_session
revoke_all-max_sessions [] r = refl
revoke_all-max_sessions (id ∷ ids) r = revoke_all-max_sessions ids (revoke_session id r).1

prune-max_sessions : (now : ℕ) (r : RelayRouter) → (prune now r).max_sessions ≡ r.max_sessions
unfolding prune
prune-max_sessions now r = revoke_all-max_sessions (expired_sessions now r.sessions) r

relay_call-max_sessions :
    (size : String → ℕ) (call : RelayCall) (r : RelayRouter)
    → (relay_call size call r).max_sessions ≡ r.max_sessions
unfolding relay_call register_session add_session revoke_session route deliver health
relay_call-max_sessions size (register_call now id nodes ttl) r =
    ground (arith, prune-max_sessions now r)
relay_call-max_sessions size (revoke_call id) r = refl
relay_call-max_sessions size (route_call now f) r = ground (arith, prune-max_sessions now r)
relay_call-max_sessions size (health_call now) r = prune-max_sessions now r

relay_calls-max_sessions :
    (size : String → ℕ) (calls : List RelayCall) (r : RelayRouter)
    → (relay_calls size calls r).max_sessions ≡ r.max_sessions
unfolding relay_calls
relay_calls-max_sessions size [] r = refl
relay_calls-max_sessions size (call ∷ calls) r =
    relay_calls-max_sessions size calls (relay_call size call r)
    ∙ relay_call-max_sessions size call r

-- Whatever is called, a router that is made for `most` sessions never has more than that, or than
-- one if `most` is 0.
pub relay_calls-IsWithin :
    (size : String → ℕ) (limit most bytes : ℕ) (calls : List RelayCall)
    → length (relay_calls size calls (new_router limit most bytes)).sessions ≤ max 1 most
unfolding new_router
relay_calls-IsWithin size limit most bytes calls = omega (
  arith,
  kept size calls (new_router limit most bytes) (omega arith),
  relay_calls-max_sessions size calls (new_router limit most bytes),
)
