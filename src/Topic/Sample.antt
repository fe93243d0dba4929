-- ===== src/Topic/Sample.antt =====
-- crates/roboprotocol-core/src/topic.rs: samples and their keys. A string is its UTF-8 bytes.
pub mod Wire
use robotele.Prelude.{
  ℕ, zero, suc, ◌+◌, ◌%◌, ◌^◌, Bool, true, false, ◌&&◌, ◌||◌, not, Option, none, some, List, [],
  ◌∷◌, ◌++◌, ltb, leb, ◌==◌, if◌then◌else◌, length, take, drop,
}
use robotele.Prelude.Bytes.{to_be_bytes, from_be_bytes}
use robotele.Prelude.Result.{Result, ok, err}

abbrev pub topic_stream_magic : ℕ
topic_stream_magic = 0x54

abbrev pub topic_stream_version : ℕ
topic_stream_version = 1

abbrev pub max_topic_sample : ℕ
max_topic_sample = 16_777_216

-- "robotele/"
abbrev pub reserved_prefix : List ℕ
reserved_prefix = 114 ∷ 111 ∷ 98 ∷ 111 ∷ 116 ∷ 101 ∷ 108 ∷ 101 ∷ 47 ∷ []

abbrev pub slash : ℕ
slash = 47

pub record TopicSample : Type 0 where
  pub key : List ℕ
  pub attachment : List ℕ
  pub payload : List ℕ

pub data TopicError : Type 0 where
  short key_not_utf8 : TopicError
  bad_key reserved_key : List ℕ → TopicError
  too_large : ℕ → TopicError
  bad_stream_header : TopicError

-- The range of the byte behind a lead byte, and how many bytes follow it; none for a byte that
-- leads nothing.
abbrev pub utf8_lead : ℕ → Option (ℕ × (ℕ × ℕ))
utf8_lead b =
    if ltb b 0xC2
    then none
    else if leb b 0xDF
    then some (0x80, (0xBF, 1))
    else if b == 0xE0
    then some (0xA0, (0xBF, 2))
    else if b == 0xED
    then some (0x80, (0x9F, 2))
    else if leb b 0xEF
    then some (0x80, (0xBF, 2))
    else if b == 0xF0
    then some (0x90, (0xBF, 3))
    else if leb b 0xF3
    then some (0x80, (0xBF, 3))
    else if b == 0xF4
    then some (0x80, (0x8F, 3))
    else none

-- UTF-8 from a character's start, or with `left` bytes of one to come, the next of them in a range.
unfoldable pub utf8_from : (lo hi left : ℕ) → List ℕ → Bool
utf8_from lo hi zero [] = true
utf8_from lo hi (suc left) [] = false
utf8_from lo hi (suc left) (b ∷ bs) = leb lo b && leb b hi && utf8_from 0x80 0xBF left bs
utf8_from lo hi zero (b ∷ bs) = elim (utf8_lead b) [
  | none ↦ ltb b 0x80 && utf8_from 0x80 0xBF 0 bs
  | some (lo', (hi', left)) ↦ utf8_from lo' hi' left bs
]

abbrev pub is_utf8 : List ℕ → Bool
is_utf8 bytes = utf8_from 0x80 0xBF 0 bytes

abbrev pub starts_with : List ℕ → List ℕ → Bool
starts_with bytes [] = true
starts_with [] (p ∷ ps) = false
starts_with (b ∷ bs) (p ∷ ps) = b == p && starts_with bs ps

abbrev pub ends_with_slash : List ℕ → Bool
ends_with_slash [] = false
ends_with_slash (b ∷ []) = b == slash
ends_with_slash (b ∷ (c ∷ bs)) = ends_with_slash (c ∷ bs)

-- `key.contains("//")`
abbrev pub has_empty_chunk : List ℕ → Bool
has_empty_chunk [] = false
has_empty_chunk (b ∷ bs) = starts_with (b ∷ bs) (slash ∷ slash ∷ []) || has_empty_chunk bs

-- '*', '$', '?' or '#'
abbrev pub is_wildcard : ℕ → Bool
is_wildcard b = b == 42 || b == 36 || b == 63 || b == 35

abbrev pub any_wildcard : List ℕ → Bool
any_wildcard [] = false
any_wildcard (b ∷ bs) = is_wildcard b || any_wildcard bs

unfoldable pub is_concrete : List ℕ → Bool
is_concrete key =
    not (length key == 0)
    && leb (length key) 65535
    && not (starts_with key (slash ∷ []))
    && not (ends_with_slash key)
    && not (has_empty_chunk key)
    && not (any_wildcard key)

unfoldable pub check_key : List ℕ → Result TopicError (Unit {0})
check_key key =
    if not (is_concrete key)
    then err (bad_key key)
    else if starts_with key reserved_prefix
    then err (reserved_key key)
    else ok tt

abbrev pub encoded_len : TopicSample → ℕ
encoded_len s = 2 + length s.key + 4 + length s.attachment + length s.payload

-- The lengths are cut to their fields' widths (`as u16`, `as u32`).
unfoldable pub encode : TopicSample → List ℕ
encode s =
    to_be_bytes 2 (length s.key % 2 ^ 16)
    ++ (s.key ++ (to_be_bytes 4 (length s.attachment % 2 ^ 32) ++ (s.attachment ++ s.payload)))

-- `decode` behind the key.
unfoldable pub decode_rest : List ℕ → List ℕ → Result TopicError TopicSample
decode_rest key rest =
    let att_len = from_be_bytes (take 4 rest) in
    let body = drop 4 rest in
    if ltb (length rest) 4
    then err short
    else if ltb (length body) att_len
    then err short
    else ok (record { key = key; attachment = take att_len body; payload = drop att_len body })

abbrev pub decode_key :
    Result TopicError (Unit {0}) → List ℕ → List ℕ → Result TopicError TopicSample
decode_key (err e) key rest = err e
decode_key (ok u) key rest = decode_rest key rest

unfoldable pub decode : List ℕ → Result TopicError TopicSample
decode bytes =
    let key_len = from_be_bytes (take 2 bytes) in
    let body = drop 2 bytes in
    let key = take key_len body in
    if ltb max_topic_sample (length bytes)
    then err (too_large (length bytes))
    else if ltb (length bytes) 2
    then err short
    else if ltb (length body) key_len
    then err short
    else if not (is_utf8 key)
    then err key_not_utf8
    else decode_key (check_key key) key (drop key_len body)
