-- ===== src/Topic/Sample/Wire.antt =====
-- A sample is read back as it was written.
use robotele.Prelude.{
  ℕ, ◌+◌, ◌%◌, ◌^◌, ◌≤◌, ◌<◌, ◌≡◌, ◌∙◌, true, List, ◌++◌, arith, length, length-append, take-append,
  drop-append, leb→le,
}
use robotele.Prelude.Bytes.{to_be_bytes, from_be_bytes-to_be_bytes, length-to_be_bytes}
use robotele.Prelude.Result.{ok}
use native.Mathlib.Nat.{mod-eq_of_lt}
use robotele.Topic.Sample.{
  TopicSample, encode, decode, decode_rest, check_key, is_concrete, is_utf8, encoded_len,
  max_topic_sample,
}

key_fits : (key : List ℕ) → check_key key ≡ ok tt → length key < 2 ^ 16
unfolding check_key is_concrete
key_fits key c = ground (arith, leb→le (length key) 65535)

decode_rest-encode :
    (s : TopicSample)
    → length s.attachment < 2 ^ 32
    → decode_rest s.key
        (to_be_bytes 4 (length s.attachment % 2 ^ 32) ++ (s.attachment ++ s.payload))
      ≡ ok s
unfolding decode_rest to_be_bytes
decode_rest-encode s h =
    rw
      (
        from_be_bytes-to_be_bytes 4 (length s.attachment % 2 ^ 32) (omega arith),
        mod-eq_of_lt h,
        take-append s.attachment s.payload,
        drop-append s.attachment s.payload,
        length-append s.attachment s.payload,
      )
      (ground arith)

decode_behind :
    (key rest : List ℕ)
    → is_utf8 key ≡ true
    → check_key key ≡ ok tt
    → 2 + length key + length rest ≤ max_topic_sample
    → decode (to_be_bytes 2 (length key % 2 ^ 16) ++ (key ++ rest)) ≡ decode_rest key rest
unfolding decode to_be_bytes
decode_behind key rest u c k =
    rw
      (
        from_be_bytes-to_be_bytes 2 (length key % 2 ^ 16) (omega arith),
        mod-eq_of_lt (key_fits key c),
        take-append key rest,
        drop-append key rest,
        length-append key rest,
        u,
        c,
      )
      (ground arith)

-- A sample whose key is UTF-8 and passes the check, whose attachment fits its length field, and
-- which is not over the limit is read back as it was written.
pub decode-encode_sample :
    (s : TopicSample)
    → is_utf8 s.key ≡ true
    → check_key s.key ≡ ok tt
    → length s.attachment < 2 ^ 32
    → encoded_len s ≤ max_topic_sample
    → decode (encode s) ≡ ok s
unfolding decode encode
decode-encode_sample s u c h k =
    let rest = to_be_bytes 4 (length s.attachment % 2 ^ 32) ++ (s.attachment ++ s.payload) in
    let size : length rest ≡ 4 + (length s.attachment + length s.payload) =
      length-append (to_be_bytes 4 (length s.attachment % 2 ^ 32)) (s.attachment ++ s.payload)
      ∙ omega (
        arith,
        length-to_be_bytes 4 (length s.attachment % 2 ^ 32),
        length-append s.attachment s.payload,
      ) in
    decode_behind s.key rest u c (omega (arith, size, k)) ∙ decode_rest-encode s h
