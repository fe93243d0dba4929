-- ===== src/Topic/Reader/Checked.antt =====
-- Which keys come out of the reader.
use robotele.Prelude.{
  ℕ, zero, suc, ◌≡◌, Bool, true, false, List, [], ◌∷◌, ◌++◌, ltb, length, take, drop, Bool-cases,
  inl, inr,
}
use robotele.Prelude.Bytes.{from_be_bytes}
use robotele.Prelude.Result.{Result, ok, err}
use robotele.Topic.Sample.{
  TopicSample, TopicError, decode, decode_rest, decode_key, check_key, is_utf8, is_concrete,
  starts_with, reserved_prefix, max_topic_sample,
}
use robotele.Topic.Reader.{
  TopicStreamReader, Pushed, turn, add, frames_fuel, frames, has_magic, settle, push,
}
use robotele.Topic.Reader.Pieces.{turn-cases}

-- The key is text, is concrete, and is not one of the robot's own.
pub record Republishable (key : List ℕ) : Type 0 where
  pub text : is_utf8 key ≡ true
  pub concrete : is_concrete key ≡ true
  pub not_reserved : starts_with key reserved_prefix ≡ false

abbrev pub AllRepublishable : List TopicSample → Type 0
AllRepublishable [] = Unit {0}
AllRepublishable (s ∷ ss) = Republishable s.key × AllRepublishable ss

abbrev Good : Result TopicError TopicSample → Type 0
Good (ok s) = Republishable s.key
Good (err e) = Unit {0}

decode_rest-Good : (key rest : List ℕ) → Republishable key → Good (decode_rest key rest)
unfolding decode_rest
decode_rest-Good key rest r = elim (Bool-cases (ltb (length rest) 4)) [
  | inl q ↦ rw (q, decode_rest) tt
  | inr q ↦ elim (Bool-cases (ltb (length (drop 4 rest)) (from_be_bytes (take 4 rest)))) [
    | inl m ↦ rw (q, m, decode_rest) tt
    | inr m ↦ rw (q, m, decode_rest) r
  ]
]

decode_key-Good :
    (key rest : List ℕ) → is_utf8 key ≡ true → Good (decode_key (check_key key) key rest)
unfolding check_key
decode_key-Good key rest u = elim (Bool-cases (is_concrete key)) [
  | inr c ↦ rw (c, check_key) tt
  | inl c ↦ elim (Bool-cases (starts_with key reserved_prefix)) [
    | inl p ↦ rw (c, p, check_key) tt
    | inr p ↦
        rw (c, p, check_key)
          (decode_rest-Good key rest (record { text = u; concrete = c; not_reserved = p }))
  ]
]

pub decode-Good : (bytes : List ℕ) → Good (decode bytes)
unfolding decode
decode-Good bytes =
    let key_len = from_be_bytes (take 2 bytes) in
    let key = take key_len (drop 2 bytes) in
    elim (Bool-cases (ltb max_topic_sample (length bytes))) [
      | inl q ↦ rw (q, decode) tt
      | inr q ↦ elim (Bool-cases (ltb (length bytes) 2)) [
        | inl s ↦ rw (q, s, decode) tt
        | inr s ↦ elim (Bool-cases (ltb (length (drop 2 bytes)) key_len)) [
          | inl k ↦ rw (q, s, k, decode) tt
          | inr k ↦ elim (Bool-cases (is_utf8 key)) [
            | inr u ↦ rw (q, s, k, u, decode) tt
            | inl u ↦ rw (q, s, k, u, decode) (decode_key-Good key (drop key_len (drop 2 bytes)) u)
          ]
        ]
      ]
    ]

add-AllRepublishable :
    (d : Result TopicError TopicSample) (p : Pushed)
    → Good d
    → AllRepublishable p.samples
    → AllRepublishable (add d p).samples
add-AllRepublishable (ok s) p g h = (g, h)
add-AllRepublishable (err e) p g h = h

frames-AllRepublishable :
    (fuel : ℕ) (buf : List ℕ) → AllRepublishable (frames_fuel fuel buf).samples
unfolding frames_fuel
frames-AllRepublishable zero buf = tt
frames-AllRepublishable (suc fuel) buf = elim (turn-cases (turn buf)) [
  | inl e ↦ rw (e, frames_fuel) tt
  | inr (inl (len, e)) ↦ rw (e, frames_fuel) tt
  | inr (inr (body, (rest, e))) ↦
      rw (e, frames_fuel)
        (add-AllRepublishable (decode body) (frames_fuel fuel rest) (decode-Good body)
          (frames-AllRepublishable fuel rest))
]

settle-AllRepublishable :
    (header_seen : Bool) (buf : List ℕ) → AllRepublishable (settle header_seen buf).samples
unfolding settle frames
settle-AllRepublishable true buf = frames-AllRepublishable (length buf) buf
settle-AllRepublishable false buf = elim (Bool-cases (ltb (length buf) 2)) [
  | inl q ↦ rw (q, settle) tt
  | inr q ↦ elim (Bool-cases (has_magic buf)) [
    | inl m ↦ rw (q, m, settle) (frames-AllRepublishable (length (drop 2 buf)) (drop 2 buf))
    | inr m ↦ rw (q, m, settle) tt
  ]
]

-- Whatever bytes the peer sends, each sample that the reader returns has a key that is UTF-8, is
-- concrete, and is not under the prefix of the robot's own topics.
pub push-AllRepublishable :
    (r : TopicStreamReader) (bytes : List ℕ) → AllRepublishable (push r bytes).samples
unfolding push
push-AllRepublishable r bytes = elim (Bool-cases r.failed) [
  | inl f ↦ rw (f, push) tt
  | inr f ↦ rw (f, push) (settle-AllRepublishable r.header_seen (r.buf ++ bytes))
]
