-- ===== src/Examples/RelayRuns.antt =====
-- Frames on a stream, and frames that pass the relay.
use across_orchestrator.Dict
use across_orchestrator.Relay.Replay.{route_grows}
use across_orchestrator.Relay.Capacity.{relay_calls-IsWithin}
use across_orchestrator.Base.{
  ℕ, ◌≤◌, ◌<◌, String, ◌≡◌, refl, ◌&&◌, Option, none, some, List, [], ◌∷◌, ◌++◌, arith,
  if◌then◌else◌, ◌==◌, nat_Eq, string_Eq, length,
}
use across_orchestrator.Relay.Framing.{
  Codec, IsFaithful, max_frame_bytes, value, write_framed_json, read_framed_json, read-write,
  Within, read_framed_json-Within,
}
use across_orchestrator.Relay.Router.{
  RelayFrame, RelayRouter, new_router, route, RelayCall, register_call, revoke_call, route_call,
  relay_calls,
}

-- Objects with one number, between braces.
abbrev decode_braced : List ℕ → Option ℕ
decode_braced (a ∷ n ∷ b ∷ []) = if a == 123 && b == 125 then some n else none
decode_braced _ = none

abbrev braced : Codec ℕ
braced = record { encode = λ n. 123 ∷ n ∷ 125 ∷ []; decode = decode_braced }

braced-IsFaithful : IsFaithful braced
braced-IsFaithful = record { braces = λ v. omega arith; decode-encode = λ v. refl }

read-write_example :
    read_framed_json braced ((0 ∷ 0 ∷ 0 ∷ 3 ∷ 123 ∷ 55 ∷ 125 ∷ []) ++ 9 ∷ []) ≡ value 55 (9 ∷ [])
unfolding write_framed_json
read-write_example =
    read-write braced 55 (0 ∷ 0 ∷ 0 ∷ 3 ∷ 123 ∷ 55 ∷ 125 ∷ []) (9 ∷ []) braced-IsFaithful refl

read_framed_json-Within_example :
    Within 4
      (0 ∷ 0 ∷ 0 ∷ 3 ∷ 123 ∷ 55 ∷ 125 ∷ 9 ∷ [])
      (read_framed_json braced (0 ∷ 0 ∷ 0 ∷ 3 ∷ 123 ∷ 55 ∷ 125 ∷ 9 ∷ []))
read_framed_json-Within_example =
    read_framed_json-Within braced (0 ∷ 0 ∷ 0 ∷ 3 ∷ 123 ∷ 55 ∷ 125 ∷ 9 ∷ [])

abbrev frame : ℕ → RelayFrame
frame n = record {
  session_id = "s1";
  source_node_id = "node-a";
  target_node_id = "node-b";
  sequence = n;
  expires_at = 500;
  ciphertext = "sealed";
}

abbrev size : String → ℕ
size text = 4

abbrev opening : List RelayCall
opening = register_call 10 "s1" ("node-a" ∷ "node-b" ∷ []) 300 ∷ []

abbrev router : RelayRouter
router = relay_calls size opening (new_router max_frame_bytes 2 4096)

abbrev between : List RelayCall
between =
    register_call 22 "s2" ("node-a" ∷ "node-c" ∷ []) 60
    ∷ route_call 23 (frame 1)
    ∷ revoke_call "s3"
    ∷ []

route_grows_example : 1 < 5
unfolding relay_calls new_router route Dict.get Dict.put Dict.remove
route_grows_example =
    route_grows size 20 25 (frame 1) (frame 5) between router refl refl refl refl refl

relay_calls-IsWithin_example :
    length (relay_calls size (between ++ opening) (new_router max_frame_bytes 1 4096)).sessions ≤ 1
relay_calls-IsWithin_example = relay_calls-IsWithin size max_frame_bytes 1 4096 (between ++ opening)
