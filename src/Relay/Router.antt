-- ===== src/Relay/Router.antt =====
-- relay.py: RelayRouter. A call reads the clock once. Identifiers are taken as valid, and the length of
-- a ciphertext behind its Base64 text is a parameter.
use across_orchestrator.Base.{
  ℕ, ◌+◌, max, min, String, Bool, not, ◌&&◌, Option, none, some, List, [], ◌∷◌, ltb, leb,
  if◌then◌else◌, ◌==◌, nat_Eq, string_Eq, is_some, length, contains, subset,
}
use across_orchestrator.Dict.{get, remove, put}
use across_orchestrator.Exec.{Result, ok, err}

pub record RelayFrame : Type 0 where
  pub session_id : String
  pub source_node_id : String
  pub target_node_id : String
  pub sequence : ℕ
  pub expires_at : ℕ
  pub ciphertext : String

pub record RelaySession : Type 0 where
  pub session_id : String
  pub node_ids : List String
  pub expires_at : ℕ

-- `_last_sequence` has the newest entry in front; an older one of the same key no longer counts.
pub record RelayRouter : Type 0 where
  pub max_sessions : ℕ
  pub max_frame_bytes : ℕ
  pub sessions : List (String × RelaySession)
  pub last_sequence : List (String × String × ℕ)

pub data RelayError : Type 0 where
  participants_invalid capacity_exceeded session_unavailable : RelayError
  cross_node_rejected frame_expired frame_too_long replay_rejected : RelayError

-- `__init__`, with `limit` for MAX_FRAME_BYTES
unfoldable pub new_router : ℕ → ℕ → ℕ → RelayRouter
new_router limit max_sessions max_frame_bytes = record {
  max_sessions = max 1 max_sessions;
  max_frame_bytes = max 1024 (min max_frame_bytes limit);
  sessions = [];
  last_sequence = [];
}

-- `_last_sequence.get((session_id, source_node_id), 0)`
unfoldable pub sequence_of : String → String → List (String × String × ℕ) → ℕ
sequence_of session source [] = 0
sequence_of session source ((s, n, k) ∷ entries) =
    if s == session && n == source then k else sequence_of session source entries

unfoldable pub forget_session : String → List (String × String × ℕ) → List (String × String × ℕ)
forget_session session [] = []
forget_session session ((s, n, k) ∷ entries) =
    let rest = forget_session session entries in if s == session then rest else (s, n, k) ∷ rest

-- The state that `revoke_session` leaves; it returns whether the session was there.
unfoldable pub revoke_session : String → RelayRouter → Bool × RelayRouter
unfolding remove get forget_session
revoke_session session r = (
  is_some (get session r.sessions),
  record r {
    sessions = remove session r.sessions;
    last_sequence = forget_session session r.last_sequence;
  },
)

unfoldable pub expired_sessions : ℕ → List (String × RelaySession) → List String
expired_sessions now [] = []
expired_sessions now ((id, session) ∷ sessions) =
    let rest = expired_sessions now sessions in
    if leb session.expires_at now then id ∷ rest else rest

unfoldable pub revoke_all : List String → RelayRouter → RelayRouter
unfolding revoke_session
revoke_all [] r = r
revoke_all (id ∷ ids) r = revoke_all ids (revoke_session id r).1

unfoldable pub prune : ℕ → RelayRouter → RelayRouter
unfolding revoke_all expired_sessions
prune now r = revoke_all (expired_sessions now r.sessions) r

-- `{... for node in node_ids}`, less the sorting
unfoldable pub distinct : List String → List String
distinct [] = []
distinct (x ∷ xs) = let rest = distinct xs in if contains xs x then rest else x ∷ rest

abbrev pub is_full : String → RelayRouter → Bool
is_full id r = not (is_some (get id r.sessions)) && leb r.max_sessions (length r.sessions)

unfoldable pub new_session : ℕ → String → List String → ℕ → RelaySession
new_session now id nodes ttl = record {
  session_id = id;
  node_ids = nodes;
  expires_at = now + max 30 (min ttl 3600);
}

unfoldable pub add_session :
    String → RelaySession → RelayRouter → Result RelayError RelaySession × RelayRouter
unfolding put get
add_session id session r =
    if is_full id r
    then (err capacity_exceeded, r)
    else (ok session, record r { sessions = put id session r.sessions })

unfoldable pub register_session :
    ℕ → String → List String → ℕ → RelayRouter → Result RelayError RelaySession × RelayRouter
unfolding add_session new_session distinct prune
register_session now id nodes ttl r =
    let participants = distinct nodes in
    let added = add_session id (new_session now id participants ttl) (prune now r) in
    if length participants == 2 then added else (err participants_invalid, r)

-- `{source, target} == participants`
abbrev pub same_nodes : List String → List String → Bool
same_nodes xs ys = subset xs ys && subset ys xs

unfoldable pub frame_error :
    (String → ℕ) → ℕ → RelayFrame → RelaySession → RelayRouter → Option RelayError
unfolding sequence_of
frame_error size now frame session r =
    if leb session.expires_at now
    then some session_unavailable
    else if not (same_nodes (frame.source_node_id ∷ frame.target_node_id ∷ []) session.node_ids)
    then some cross_node_rejected
    else if leb frame.expires_at now
    then some frame_expired
    else if ltb r.max_frame_bytes (size frame.ciphertext)
    then some frame_too_long
    else if leb frame.sequence (sequence_of frame.session_id frame.source_node_id r.last_sequence)
    then some replay_rejected
    else none

unfoldable pub route_error :
    (String → ℕ) → ℕ → RelayFrame → Option RelaySession → RelayRouter → Option RelayError
unfolding frame_error
route_error size now frame none r = some session_unavailable
route_error size now frame (some session) r = frame_error size now frame session r

unfoldable pub deliver :
    RelayFrame → Option RelayError → RelayRouter → Result RelayError RelayFrame × RelayRouter
deliver frame (some e) r = (err e, r)
deliver frame none r = (
  ok frame,
  record r {
    last_sequence = (frame.session_id, frame.source_node_id, frame.sequence) ∷ r.last_sequence;
  },
)

unfoldable pub route :
    (String → ℕ) → ℕ → RelayFrame → RelayRouter → Result RelayError RelayFrame × RelayRouter
unfolding route_error deliver prune get
route size now frame r =
    let p = prune now r in
    deliver frame (route_error size now frame (get frame.session_id p.sessions) p) p

-- The number of sessions in `health`.
unfoldable pub health : ℕ → RelayRouter → ℕ × RelayRouter
unfolding prune
health now r = let p = prune now r in (length p.sessions, p)

pub data RelayCall : Type 0 where
  register_call : ℕ → String → List String → ℕ → RelayCall
  revoke_call : String → RelayCall
  route_call : ℕ → RelayFrame → RelayCall
  health_call : ℕ → RelayCall

unfoldable pub relay_call : (String → ℕ) → RelayCall → RelayRouter → RelayRouter
unfolding register_session revoke_session route health
relay_call size (register_call now id nodes ttl) r = (register_session now id nodes ttl r).1
relay_call size (revoke_call id) r = (revoke_session id r).1
relay_call size (route_call now frame) r = (route size now frame r).1
relay_call size (health_call now) r = (health now r).1

unfoldable pub relay_calls : (String → ℕ) → List RelayCall → RelayRouter → RelayRouter
unfolding relay_call
relay_calls size [] r = r
relay_calls size (call ∷ calls) r = relay_calls size calls (relay_call size call r)
