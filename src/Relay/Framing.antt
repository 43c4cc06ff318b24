-- ===== src/Relay/Framing.antt =====
-- relay.py: write_framed_json and read_framed_json. A stream is a list of bytes. The texts of JSON
-- values and their reading are parameters.
use Prim.Native.Nat.{◌%◌, ◌^◌}
use across_orchestrator.Base.{
  ℕ, zero, suc, ◌+◌, ◌*◌, ◌/◌, ◌≤◌, ◌<◌, ◌≡◌, refl, ap, ◌∙◌, subst, inl, inr, false, ◌||◌, Option,
  none, some, List, [], ◌∷◌, ◌++◌, arith, ltb, if◌then◌else◌, nat_Eq, string_Eq, Bool-cases, length,
}

-- What the two functions use of the json library: the UTF-8 bytes of the canonical text of a value,
-- and the object that bytes stand for.
pub record Codec (V : Type 0) : Type 0 where
  pub encode : V → List ℕ
  pub decode : List ℕ → Option V

-- An object's text has at least its braces, and is read back as the object.
pub record IsFaithful {V : Type 0} (codec : Codec V) : Type 0 where
  pub braces : (v : V) → 2 ≤ length (codec.encode v)
  pub decode-encode : (v : V) → codec.decode (codec.encode v) ≡ some v

-- MAX_FRAME_BYTES
abbrev pub max_frame_bytes : ℕ
max_frame_bytes = 16 * 1024 * 1024

-- `struct.pack("!I", n)` and `struct.unpack`
unfoldable pub pack : ℕ → List ℕ
pack n = n / 16777216 % 256 ∷ n / 65536 % 256 ∷ n / 256 % 256 ∷ n % 256 ∷ []

unfoldable pub unpack : List ℕ → ℕ
unpack [] = 0
unpack (a ∷ []) = a
unpack (a ∷ b ∷ []) = a * 256 + b
unpack (a ∷ b ∷ c ∷ []) = a * 65536 + b * 256 + c
unpack (a ∷ b ∷ c ∷ d ∷ rest) = a * 16777216 + b * 65536 + c * 256 + d

-- `reader.readexactly(n)`: the bytes and what stays in the stream, `none` where the stream ends early.
unfoldable pub read_exactly : ℕ → List ℕ → Option (List ℕ × List ℕ)
read_exactly zero stream = some ([], stream)
read_exactly (suc n) [] = none
read_exactly (suc n) (b ∷ stream) = elim (read_exactly n stream) [
  | none ↦ none
  | some (bytes, rest) ↦ some (b ∷ bytes, rest)
]

pub data FrameError : Type 0 where
  incomplete_read length_invalid not_an_object : FrameError

pub data ReadResult (V : Type 0) : Type 0 where
  value : V → List ℕ → ReadResult V
  failure : FrameError → ReadResult V

module _ {V : Type 0} where
  -- `none` is the ProtocolError for a frame that is too long.
  unfoldable pub write_framed_json : Codec V → V → Option (List ℕ)
  unfolding pack
  write_framed_json codec v =
      let payload = codec.encode v in
      if ltb max_frame_bytes (length payload) then none else some (pack (length payload) ++ payload)

  unfoldable pub read_payload : Codec V → Option (List ℕ × List ℕ) → ReadResult V
  read_payload codec none = failure incomplete_read
  read_payload codec (some (payload, rest)) = elim (codec.decode payload) [
    | none ↦ failure not_an_object
    | some v ↦ value v rest
  ]

  unfoldable pub read_body : Codec V → Option (List ℕ × List ℕ) → ReadResult V
  unfolding unpack read_exactly read_payload
  read_body codec none = failure incomplete_read
  read_body codec (some (header, rest)) =
      let size = unpack header in
      if ltb size 2 || ltb max_frame_bytes size
      then failure length_invalid
      else read_payload codec (read_exactly size rest)

  unfoldable pub read_framed_json : Codec V → List ℕ → ReadResult V
  unfolding read_exactly read_body
  read_framed_json codec stream = read_body codec (read_exactly 4 stream)

read_exactly-append :
    (bytes rest : List ℕ) → read_exactly (length bytes) (bytes ++ rest) ≡ some (bytes, rest)
unfolding read_exactly
read_exactly-append [] rest = refl
read_exactly-append (b ∷ bytes) rest = rw (read_exactly-append bytes rest) refl

unpack-pack : (n : ℕ) → n < 2 ^ 32 → unpack (pack n) ≡ n
unfolding pack unpack
unpack-pack n h = omega arith

append_header :
    (n : ℕ) (payload rest : List ℕ)
    → read_exactly 4 ((pack n ++ payload) ++ rest) ≡ some (pack n, payload ++ rest)
unfolding pack read_exactly
append_header n payload rest = refl

module _ {V : Type 0} where
  read_body-pack :
      (codec : Codec V) (payload rest : List ℕ) (v : V)
      → 2 ≤ length payload
      → ltb max_frame_bytes (length payload) ≡ false
      → codec.decode payload ≡ some v
      → read_body codec (some (pack (length payload), payload ++ rest)) ≡ value v rest
  unfolding read_body read_payload
  read_body-pack codec payload rest v two fits read =
      rw
        (
          unpack-pack (length payload) (ground arith),
          in_range (length payload) two fits,
          read_exactly-append payload rest,
        )
        (read_value (codec.decode payload) read)
    where
      in_range :
          (n : ℕ)
          → 2 ≤ n
          → ltb max_frame_bytes n ≡ false
          → (ltb n 2 || ltb max_frame_bytes n) ≡ false
      in_range n h k = ground arith

      read_value :
          (found : Option V)
          → found ≡ some v
          → (elim found as (λ x. ReadResult V) [
            | none ↦ failure not_an_object
            | some w ↦ value w rest
          ])
            ≡ value v rest
      read_value none e = cc
      read_value (some w) e = cc

  -- What is written is read back, and the rest of the stream is left for the next read.
  pub read-write :
      (codec : Codec V) (v : V) (frame rest : List ℕ)
      → IsFaithful codec
      → write_framed_json codec v ≡ some frame
      → read_framed_json codec (frame ++ rest) ≡ value v rest
  unfolding write_framed_json read_framed_json
  read-write codec v frame rest faithful written =
      elim (Bool-cases (ltb max_frame_bytes (length (codec.encode v)))) [
        | inl long ↦ absurd (none_not (rw long at written))
        | inr fits ↦
            subst (λ f. read_body codec (read_exactly 4 (f ++ rest)) ≡ value v rest)
              (same_frame (rw fits at written))
              (ap (read_body codec) (append_header (length (codec.encode v)) (codec.encode v) rest)
                ∙ read_body-pack codec (codec.encode v) rest v (faithful.braces v) fits
                    (faithful.decode-encode v))
      ]
    where
      none_not : none ≡ some frame → ⊥
      none_not e = cc

      same_frame :
          some (pack (length (codec.encode v)) ++ codec.encode v) ≡ some frame
          → pack (length (codec.encode v)) ++ codec.encode v ≡ frame
      same_frame e = cc

-- A read of `n` bytes takes just these from the stream.
abbrev Takes : ℕ → List ℕ → Option (List ℕ × List ℕ) → Type 0
Takes n stream none = Unit
Takes n stream (some (bytes, rest)) = (length bytes ≡ n) × (length stream ≡ n + length rest)

Takes-suc :
    (n b : ℕ) (stream : List ℕ) (found : Option (List ℕ × List ℕ))
    → Takes n stream found
    → Takes (suc n) (b ∷ stream) (elim found as (λ x. Option (List ℕ × List ℕ)) [
      | none ↦ none
      | some (bytes, rest) ↦ some (b ∷ bytes, rest)
    ])
Takes-suc n b stream none h = tt
Takes-suc n b stream (some (bytes, rest)) (h, k) = (omega (arith, h), omega (arith, k))

read_exactly-Takes : (n : ℕ) (stream : List ℕ) → Takes n stream (read_exactly n stream)
unfolding read_exactly
read_exactly-Takes zero stream = (refl, omega arith)
read_exactly-Takes (suc n) [] = tt
read_exactly-Takes (suc n) (b ∷ stream) =
    Takes-suc n b stream (read_exactly n stream) (read_exactly-Takes n stream)

module _ {V : Type 0} where
  -- A value that was read took 4 bytes and between 2 and `max_frame_bytes` more; `n` bytes of the
  -- stream were taken before.
  abbrev pub Within : ℕ → List ℕ → ReadResult V → Type 0
  Within n stream (failure e) = Unit
  Within n stream (value v rest) =
      (n + 2 + length rest ≤ length stream) × (length stream ≤ n + max_frame_bytes + length rest)

  read_payload-Within :
      (codec : Codec V) (n size : ℕ) (stream taken : List ℕ) (found : Option (List ℕ × List ℕ))
      → (ltb size 2 || ltb max_frame_bytes size) ≡ false
      → length stream ≡ n + length taken
      → Takes size taken found
      → Within n stream (read_payload codec found)
  unfolding read_payload
  read_payload-Within codec n size stream taken none h k t = tt
  read_payload-Within codec n size stream taken (some (payload, rest)) h k (l, m) =
      read_value (codec.decode payload)
    where
      read_value :
          (found : Option V)
          → Within n stream (elim found as (λ x. ReadResult V) [
            | none ↦ failure not_an_object
            | some w ↦ value w rest
          ])
      read_value none = tt
      read_value (some w) = (ground arith, ground arith)

  read_body-Within :
      (codec : Codec V) (stream : List ℕ) (found : Option (List ℕ × List ℕ))
      → Takes 4 stream found
      → Within 4 stream (read_body codec found)
  unfolding read_body
  read_body-Within codec stream none t = tt
  read_body-Within codec stream (some (header, rest)) (l, m) =
      elim (Bool-cases (ltb (unpack header) 2 || ltb max_frame_bytes (unpack header))) [
        | inl invalid ↦ rw invalid tt
        | inr valid ↦ rw valid (
            read_payload-Within codec 4 (unpack header) stream rest
              (read_exactly (unpack header) rest) valid m (read_exactly-Takes (unpack header) rest))
      ]

  -- Whatever bytes come in, a value that is read has taken its header of 4 bytes and a body of at
  -- least 2 and at most `max_frame_bytes` bytes from the stream.
  pub read_framed_json-Within :
      (codec : Codec V) (stream : List ℕ) → Within 4 stream (read_framed_json codec stream)
  unfolding read_framed_json
  read_framed_json-Within codec stream =
      read_body-Within codec stream (read_exactly 4 stream) (read_exactly-Takes 4 stream)
