-- ===== src/Recording/Record/Torn.antt =====
-- A segment is read back up to the record that a power loss cut off (FR-9.6).
use robotele.Prelude.{
  ℕ, zero, suc, ◌+◌, ◌-◌, ◌%◌, ◌^◌, ◌≤◌, ◌<◌, ◌≡◌, refl, ap, ◌∙◌, none, some, List, [], ◌∷◌, ◌++◌,
  arith, length, length-append, take, take-append, drop-append, length-take,
}
use mathlib.Core.List.{append_assoc}
use native.Mathlib.Decide.{dec_lt}
use robotele.Prelude.Bytes.{to_be_bytes, from_be_bytes-to_be_bytes}
use robotele.Recording.Record.{
  RecordHeader, header_len, encode_record, next, decode_fuel, decode_records,
}

-- A record whose fields fit their widths.
abbrev pub FitsRecord : RecordHeader × List ℕ → Type 0
FitsRecord (h, payload) = (h.capture_us < 256 ^ 8) × (length payload < 256 ^ 4)

abbrev pub AllFit : List (RecordHeader × List ℕ) → Type 0
AllFit [] = Unit {0}
AllFit (r ∷ rs) = FitsRecord r × AllFit rs

abbrev pub encode_all : List (RecordHeader × List ℕ) → List ℕ
encode_all [] = []
encode_all ((h, payload) ∷ rs) = encode_record h payload [] ++ encode_all rs

next-encode_record :
    (h : RecordHeader) (payload rest : List ℕ)
    → FitsRecord (h, payload)
    → next (encode_record h payload [] ++ rest) ≡ some ((h, payload), rest)
unfolding next encode_record to_be_bytes
next-encode_record h payload rest f = ground (
  arith,
  from_be_bytes-to_be_bytes 4 (length payload % 2 ^ 32),
  from_be_bytes-to_be_bytes 8 h.capture_us,
  take-append payload rest,
  drop-append payload rest,
  length-append payload rest,
)

-- The header is 13 bytes, so this many and `m` more.
abbrev past_header : ℕ → ℕ
past_header m = suc (suc (suc (suc (suc (suc (suc (suc (suc (suc (suc (suc (suc m))))))))))))

next-short : (buf : List ℕ) → length buf < header_len → next buf ≡ none
unfolding next
next-short buf h = ground arith

next-cut_payload :
    (h : RecordHeader) (payload : List ℕ) (m : ℕ)
    → FitsRecord (h, payload)
    → m < length payload
    → next (take (past_header m) (encode_record h payload [])) ≡ none
unfolding next encode_record to_be_bytes
next-cut_payload h payload m f short =
    ground (arith, from_be_bytes-to_be_bytes 4 (length payload % 2 ^ 32), length-take m payload)

length-encode_record :
    (h : RecordHeader) (payload : List ℕ)
    → length (encode_record h payload []) ≡ header_len + length payload
unfolding encode_record to_be_bytes
length-encode_record h payload = omega arith

next-torn :
    (h : RecordHeader) (payload : List ℕ) (n : ℕ)
    → FitsRecord (h, payload)
    → n < header_len + length payload
    → next (take n (encode_record h payload [])) ≡ none
next-torn h payload n f short = elim (dec_lt n header_len) [
  | yes few ↦
      next-short (take n (encode_record h payload []))
        (omega (arith, length-take n (encode_record h payload [])))
  | no many ↦
      let at : n ≡ past_header (n - header_len) = omega arith in
      rw at (next-cut_payload h payload (n - header_len) f (omega arith))
]

decode_fuel-step :
    (fuel : ℕ) (buf rest : List ℕ) (r : RecordHeader × List ℕ)
    → next buf ≡ some (r, rest)
    → decode_fuel (suc fuel) buf ≡ r ∷ decode_fuel fuel rest
unfolding decode_fuel
decode_fuel-step fuel buf rest r e = rw (e, decode_fuel)

decode_fuel-end : (fuel : ℕ) (buf : List ℕ) → next buf ≡ none → decode_fuel fuel buf ≡ []
unfolding decode_fuel
decode_fuel-end zero buf e = refl
decode_fuel-end (suc fuel) buf e = rw (e, decode_fuel)

length-encode_all :
    (h : RecordHeader) (payload : List ℕ) (rs : List (RecordHeader × List ℕ)) (tail : List ℕ)
    → length (encode_all ((h, payload) ∷ rs) ++ tail)
      ≡ header_len + length payload + length (encode_all rs ++ tail)
length-encode_all h payload rs tail = omega (
  arith,
  length-append (encode_record h payload [] ++ encode_all rs) tail,
  length-append (encode_record h payload []) (encode_all rs),
  length-append (encode_all rs) tail,
  length-encode_record h payload,
)

decode_fuel-encode_all :
    (fuel : ℕ) (rs : List (RecordHeader × List ℕ)) (tail : List ℕ)
    → AllFit rs
    → next tail ≡ none
    → length (encode_all rs ++ tail) ≤ fuel
    → decode_fuel fuel (encode_all rs ++ tail) ≡ rs
decode_fuel-encode_all fuel [] tail f e b = decode_fuel-end fuel tail e
decode_fuel-encode_all zero ((h, payload) ∷ rs) tail f e b =
    absurd (omega (arith, length-encode_all h payload rs tail))
decode_fuel-encode_all (suc fuel) ((h, payload) ∷ rs) tail f e b =
    ap (decode_fuel (suc fuel)) (append_assoc (encode_record h payload []) (encode_all rs) tail)
    ∙ decode_fuel-step fuel _ _ (h, payload)
        (next-encode_record h payload (encode_all rs ++ tail) f.0)
    ∙ ap (◌∷◌ (h, payload)) (
        decode_fuel-encode_all fuel rs tail f.1 e
          (omega (arith, length-encode_all h payload rs tail)))

-- A segment of whole records, cut off anywhere inside one more, is read back as exactly the whole
-- ones; in particular one that was not cut (at zero bytes) is read back whole.
pub decode_records-torn :
    (rs : List (RecordHeader × List ℕ)) (h : RecordHeader) (payload : List ℕ) (n : ℕ)
    → AllFit rs
    → FitsRecord (h, payload)
    → n < length (encode_record h payload [])
    → decode_records (encode_all rs ++ take n (encode_record h payload [])) ≡ rs
unfolding decode_records
decode_records-torn rs h payload n fs f short =
    decode_fuel-encode_all _ rs (take n (encode_record h payload [])) fs
      (next-torn h payload n f (omega (arith, length-encode_record h payload))) (omega arith)
