-- ===== src/Relay/Replay.antt =====
-- What the relay's router lets through.
use across_orchestrator.Relay.Router.{
  RelayFrame, RelaySession, RelayRouter, RelayError, sequence_of, forget_session, revoke_session,
  expired_sessions, revoke_all, prune, distinct, is_full, new_session, add_session,
  register_session, frame_error, route_error, deliver, route, health, RelayCall, register_call,
  revoke_call, route_call, health_call, relay_call, relay_calls,
}
use across_orchestrator.Base.{
  ℕ, ◌≤◌, ◌<◌, String, ◌≡◌, refl, sym, ◌∙◌, subst, ◌⊎◌, inl, inr, Bool, true, false, not, Option,
  none, some, List, [], ◌∷◌, arith, eq_iff, ◌==◌, nat_Eq, string_Eq, is_some, Bool-cases, length,
  all,
}
use across_orchestrator.Dict.{get, put, get-remove, get-put}
use across_orchestrator.Exec.{Result, ok, err}

abbrev pub is_ok : {A : Type 0} → Result RelayError A → Bool
is_ok (ok a) = true
is_ok (err e) = false

-- The session is gone, or the router remembers a number of at least `n` for the sender.
abbrev Seen : String → String → ℕ → RelayRouter → Type 0
Seen session source n r =
    (get session r.sessions ≡ none) ⊎ (n ≤ sequence_of session source r.last_sequence)

sequence_of-forget_session :
    (id session source : String) (entries : List (String × String × ℕ))
    → id == session ≡ false
    → sequence_of session source (forget_session id entries) ≡ sequence_of session source entries
unfolding sequence_of forget_session
sequence_of-forget_session id session source [] h = refl
sequence_of-forget_session id session source ((s, n, k) ∷ entries) h = ground (
  arith,
  sequence_of-forget_session id session source entries h,
  eq_iff s id,
  eq_iff s session,
  eq_iff id session,
)

Seen-revoke_session :
    (id session source : String) (n : ℕ) (r : RelayRouter)
    → Seen session source n r
    → Seen session source n (revoke_session id r).1
unfolding revoke_session
Seen-revoke_session id session source n r h = elim (Bool-cases (id == session)) [
  | inl same ↦ inl (get-remove id session r.sessions ∙ rw same refl)
  | inr other ↦ kept other h
]
  where
    kept :
        id == session ≡ false
        → Seen session source n r
        → Seen session source n (revoke_session id r).1
    kept other (inl gone) = inl (get-remove id session r.sessions ∙ rw other gone)
    kept other (inr known) =
        inr (rw (sequence_of-forget_session id session source r.last_sequence other) known)

Seen-revoke_all :
    (ids : List String) (session source : String) (n : ℕ) (r : RelayRouter)
    → Seen session source n r
    → Seen session source n (revoke_all ids r)
unfolding revoke_all
Seen-revoke_all [] session source n r h = h
Seen-revoke_all (id ∷ ids) session source n r h =
    Seen-revoke_all ids session source n (revoke_session id r).1
      (Seen-revoke_session id session source n r h)

Seen-prune :
    (now : ℕ) (session source : String) (n : ℕ) (r : RelayRouter)
    → Seen session source n r
    → Seen session source n (prune now r)
unfolding prune
Seen-prune now session source n r =
    Seen-revoke_all (expired_sessions now r.sessions) session source n r

-- What a frame that is delivered went through.
delivered :
    (size : String → ℕ) (now : ℕ) (f : RelayFrame) (found : Option RelaySession) (r : RelayRouter)
    → is_ok (deliver f (route_error size now f found r) r).0 ≡ true
    → (is_some found ≡ true)
      × (sequence_of f.session_id f.source_node_id r.last_sequence < f.sequence)
      × (route_error size now f found r ≡ none)
unfolding deliver route_error frame_error
delivered size now f none r h = cc
delivered size now f (some session) r h = ground arith

deliver-Seen :
    (f : RelayFrame) (e : Option RelayError) (session source : String) (n : ℕ) (r : RelayRouter)
    → (e ≡ none → sequence_of f.session_id f.source_node_id r.last_sequence < f.sequence)
    → Seen session source n r
    → Seen session source n (deliver f e r).1
unfolding deliver sequence_of
deliver-Seen f (some e) session source n r k h = h
deliver-Seen f none session source n r k (inl gone) = inl gone
deliver-Seen f none session source n r k (inr known) =
    inr (ground (arith, k refl, eq_iff f.session_id session, eq_iff f.source_node_id source))

verdict :
    (size : String → ℕ) (now : ℕ) (f : RelayFrame) (found : Option RelaySession) (r : RelayRouter)
    → route_error size now f found r ≡ none
    → sequence_of f.session_id f.source_node_id r.last_sequence < f.sequence
unfolding route_error frame_error
verdict size now f none r h = cc
verdict size now f (some session) r h = ground arith

Seen-route :
    (size : String → ℕ) (now : ℕ) (f : RelayFrame) (session source : String) (n : ℕ)
    (r : RelayRouter)
    → Seen session source n r
    → Seen session source n (route size now f r).1
unfolding route
Seen-route size now f session source n r h =
    let p = prune now r in
    deliver-Seen f (route_error size now f (get f.session_id p.sessions) p) session source n p
      (verdict size now f (get f.session_id p.sessions) p) (Seen-prune now session source n r h)

Seen-add_session :
    (id session source : String) (record_ : RelaySession) (n : ℕ) (r : RelayRouter)
    → id == session ≡ false
    → Seen session source n r
    → Seen session source n (add_session id record_ r).1
unfolding add_session
Seen-add_session id session source record_ n r other h = elim (Bool-cases (is_full id r)) [
  | inl full ↦ rw full h
  | inr room ↦ rw room (put_seen h)
]
  where
    put_seen :
        Seen session source n r
        → Seen session source n (record r { sessions = put id record_ r.sessions })
    put_seen (inl gone) = inl (get-put id session record_ r.sessions ∙ rw other gone)
    put_seen (inr known) = inr known

-- A call that does not open a session of the given id.
abbrev pub opens_other : String → RelayCall → Bool
opens_other session (register_call now id nodes ttl) = not (id == session)
opens_other session _ = true

Seen-register_session :
    (now : ℕ) (id : String) (nodes : List String) (ttl : ℕ) (session source : String) (n : ℕ)
    (r : RelayRouter)
    → id == session ≡ false
    → Seen session source n r
    → Seen session source n (register_session now id nodes ttl r).1
unfolding register_session
Seen-register_session now id nodes ttl session source n r other h =
    elim (Bool-cases (length (distinct nodes) == 2)) [
      | inl two ↦ rw two (
          Seen-add_session id session source (new_session now id (distinct nodes) ttl) n
            (prune now r) other (Seen-prune now session source n r h))
      | inr not_two ↦ rw not_two h
    ]

Seen-relay_call :
    (size : String → ℕ) (call : RelayCall) (session source : String) (n : ℕ) (r : RelayRouter)
    → opens_other session call ≡ true
    → Seen session source n r
    → Seen session source n (relay_call size call r)
unfolding relay_call health
Seen-relay_call size (register_call now id nodes ttl) session source n r k h =
    Seen-register_session now id nodes ttl session source n r (ground arith) h
Seen-relay_call size (revoke_call id) session source n r k h =
    Seen-revoke_session id session source n r h
Seen-relay_call size (route_call now f) session source n r k h =
    Seen-route size now f session source n r h
Seen-relay_call size (health_call now) session source n r k h = Seen-prune now session source n r h

Seen-relay_calls :
    (size : String → ℕ) (calls : List RelayCall) (session source : String) (n : ℕ) (r : RelayRouter)
    → all (opens_other session) calls ≡ true
    → Seen session source n r
    → Seen session source n (relay_calls size calls r)
unfolding relay_calls
Seen-relay_calls size [] session source n r k h = h
Seen-relay_calls size (call ∷ calls) session source n r k h =
    Seen-relay_calls size calls session source n (relay_call size call r) (ground arith)
      (Seen-relay_call size call session source n r (ground arith) h)

-- A frame that was delivered is remembered.
routed-Seen :
    (size : String → ℕ) (now : ℕ) (f : RelayFrame) (r : RelayRouter)
    → is_ok (route size now f r).0 ≡ true
    → Seen f.session_id f.source_node_id f.sequence (route size now f r).1
unfolding route
routed-Seen size now f r h =
    let p = prune now r in remembered (route_error size now f (get f.session_id p.sessions) p) p h
  where
    remembered :
        (e : Option RelayError) (p : RelayRouter)
        → is_ok (deliver f e p).0 ≡ true
        → Seen f.session_id f.source_node_id f.sequence (deliver f e p).1
    remembered (some e) p k = absurd (not_delivered k)
      where
        not_delivered : false ≡ true → ⊥
        not_delivered q = cc
    remembered none p k =
        inr (
          ground
            (arith, eq_iff f.session_id f.session_id, eq_iff f.source_node_id f.source_node_id))

newer :
    (size : String → ℕ) (now : ℕ) (g : RelayFrame) (n : ℕ) (r : RelayRouter)
    → is_ok (route size now g r).0 ≡ true
    → Seen g.session_id g.source_node_id n r
    → n < g.sequence
unfolding route
newer size now g n r h seen =
    let p = prune now r in
    let (there, after, _) = delivered size now g (get g.session_id p.sessions) p h in
    above p there after (Seen-prune now g.session_id g.source_node_id n r seen)
  where
    above :
        (p : RelayRouter)
        → is_some (get g.session_id p.sessions) ≡ true
        → sequence_of g.session_id g.source_node_id p.last_sequence < g.sequence
        → Seen g.session_id g.source_node_id n p
        → n < g.sequence
    above p there after (inl gone) = ground (arith, gone, there)
    above p there after (inr known) = omega (arith, known, after)

-- Between two frames that the router delivers for one sender in one session, whatever is called in
-- between, the sequence number has grown, unless the session was registered again.
pub route_grows :
    (size : String → ℕ) (now later : ℕ) (f g : RelayFrame) (calls : List RelayCall)
    (r : RelayRouter)
    → g.session_id ≡ f.session_id
    → g.source_node_id ≡ f.source_node_id
    → all (opens_other f.session_id) calls ≡ true
    → is_ok (route size now f r).0 ≡ true
    → is_ok (route size later g (relay_calls size calls (route size now f r).1)).0 ≡ true
    → f.sequence < g.sequence
route_grows size now later f g calls r same_session same_source k first second =
    newer size later g f.sequence (relay_calls size calls (route size now f r).1) second (
      subst
        (λ session.
          Seen session g.source_node_id f.sequence (relay_calls size calls (route size now f r).1))
        (sym same_session)
        (subst
          (λ source.
            Seen f.session_id source f.sequence (relay_calls size calls (route size now f r).1))
          (sym same_source)
          (Seen-relay_calls size calls f.session_id f.source_node_id f.sequence
            (route size now f r).1 k (routed-Seen size now f r first))))
