-- ===== src/Hello/Agreement.antt =====
-- Both endpoints come to the same session, with what both have.
use robotele.Prelude.{
  ℕ, zero, suc, ◌≤◌, ◌≡◌, ◌↔◌, refl, ap, sym, ◌∙◌, Bool, true, false, ◌&&◌, none, some, List, [],
  ◌∷◌, ◌==◌, min, arith, Bool-cases, inl, inr, ==_iff, length, get_or, suc_not_le,
}
use robotele.Prelude.Result.{Result, ok, err}
use robotele.Hello.{
  HelloCapabilities, NegotiatedSession, IncompatibleVersion, and_mask, not_mask, any_bit, negotiate,
  missing_required_capabilities,
}

-- The bit of a mask.
abbrev pub bit : ℕ → List Bool → Bool
bit i mask = get_or mask i false

abbrev pub Agree :
    Result IncompatibleVersion NegotiatedSession
    → Result IncompatibleVersion NegotiatedSession
    → Type 0
Agree (ok s) (ok t) = s ≡ t
Agree (ok s) (err f) = ⊥
Agree (err e) (ok t) = ⊥
Agree (err e) (err f) = (e.local_major ≡ f.peer_major) × (e.peer_major ≡ f.local_major)

and_mask_comm : (xs ys : List Bool) → and_mask xs ys ≡ and_mask ys xs
and_mask_comm [] [] = refl
and_mask_comm [] (y ∷ ys) = refl
and_mask_comm (x ∷ xs) [] = refl
and_mask_comm (true ∷ xs) (true ∷ ys) = ap (λ m. true ∷ m) (and_mask_comm xs ys)
and_mask_comm (true ∷ xs) (false ∷ ys) = ap (λ m. false ∷ m) (and_mask_comm xs ys)
and_mask_comm (false ∷ xs) (true ∷ ys) = ap (λ m. false ∷ m) (and_mask_comm xs ys)
and_mask_comm (false ∷ xs) (false ∷ ys) = ap (λ m. false ∷ m) (and_mask_comm xs ys)

-- The two endpoints of a handshake agree: both get the same session, or both are refused with the
-- same two versions.
pub negotiate-Agree : (a b : HelloCapabilities) → Agree (negotiate a b) (negotiate b a)
unfolding negotiate
negotiate-Agree a b =
    let v = a.protocol_version in
    let w = b.protocol_version in
    elim (Bool-cases (v.major == w.major)) [
      | inl q ↦
          let same : v.major ≡ w.major = (==_iff v.major w.major).0 q in
          let back : w.major == v.major ≡ true = (==_iff w.major v.major).1 (sym same) in
          let minor : min v.minor w.minor ≡ min w.minor v.minor = omega arith in
          let rate : min a.max_control_rate_hz b.max_control_rate_hz
              ≡ min b.max_control_rate_hz a.max_control_rate_hz =
            omega arith in
          rw (q, back)
            (rw
              (
                same,
                minor,
                rate,
                and_mask_comm a.capability_bitmask b.capability_bitmask,
                and_mask_comm a.supported_task_classes b.supported_task_classes,
                and_mask_comm a.supported_quantization_tiers b.supported_quantization_tiers,
              )
              refl)
      | inr q ↦
          let back : w.major == v.major ≡ false = ground (arith, q) in rw (q, back) (refl, refl)
    ]

-- Nothing is missing, so each required bit is there.
covered-bits :
    (required have : List Bool) (i : ℕ)
    → length required ≤ length have
    → any_bit (and_mask required (not_mask have)) ≡ false
    → bit i required ≡ true
    → bit i have ≡ true
covered-bits [] have i h e b = cc
covered-bits (r ∷ rs) [] i h e b = elim (suc_not_le (length rs) h) [ ]
covered-bits (true ∷ rs) (true ∷ hs) zero h e b = refl
covered-bits (true ∷ rs) (false ∷ hs) zero h e b = cc
covered-bits (false ∷ rs) (x ∷ hs) zero h e b = cc
covered-bits (true ∷ rs) (true ∷ hs) (suc i) h e b = covered-bits rs hs i (omega arith) e b
covered-bits (true ∷ rs) (false ∷ hs) (suc i) h e b = cc
covered-bits (false ∷ rs) (x ∷ hs) (suc i) h e b = covered-bits rs hs i (omega arith) e b

-- Each required bit is there, so nothing is missing.
bits-covered :
    (required have : List Bool)
    → length required ≤ length have
    → ((i : ℕ) → bit i required ≡ true → bit i have ≡ true)
    → any_bit (and_mask required (not_mask have)) ≡ false
bits-covered [] have h b = refl
bits-covered (r ∷ rs) [] h b = elim (suc_not_le (length rs) h) [ ]
bits-covered (false ∷ rs) (x ∷ hs) h b = bits-covered rs hs (omega arith) (λ i. b (suc i))
bits-covered (true ∷ rs) (true ∷ hs) h b = bits-covered rs hs (omega arith) (λ i. b (suc i))
bits-covered (true ∷ rs) (false ∷ hs) h b = sym (b 0 refl)

bit-and_mask : (i : ℕ) (xs ys : List Bool) → bit i (and_mask xs ys) ≡ bit i xs && bit i ys
bit-and_mask i [] ys = refl
bit-and_mask zero (x ∷ xs) [] = ground arith
bit-and_mask (suc i) (x ∷ xs) [] = ground arith
bit-and_mask zero (x ∷ xs) (y ∷ ys) = refl
bit-and_mask (suc i) (x ∷ xs) (y ∷ ys) = bit-and_mask i xs ys

-- Bits that both masks have.
both_iff : (x y : Bool) → (x && y ≡ true) ↔ ((x ≡ true) × (y ≡ true))
both_iff true y = (λ h. (refl, h), λ h. h.1)
both_iff false y = (λ h. cc, λ h. h.0)

length-and_mask : (xs ys : List Bool) → length xs ≡ length ys → length (and_mask xs ys) ≡ length xs
length-and_mask [] ys h = refl
length-and_mask (x ∷ xs) [] h = cc
length-and_mask (x ∷ xs) (y ∷ ys) h = omega (arith, length-and_mask xs ys (omega arith))

true_not_false : true ≡ false → ⊥
true_not_false h = cc

some_not_none : (m : List Bool) → some m ≡ none → ⊥
some_not_none m h = cc

missing-none_iff :
    (required : List Bool) (s : NegotiatedSession)
    → length required ≤ length s.capability_bitmask
    → (missing_required_capabilities required s ≡ none)
      ↔ ((i : ℕ) → bit i required ≡ true → bit i s.capability_bitmask ≡ true)
unfolding missing_required_capabilities
missing-none_iff required s h =
    let missing = and_mask required (not_mask s.capability_bitmask) in
    elim (Bool-cases (any_bit missing)) [
      | inl q ↦ (
        λ e. elim (some_not_none missing (rw (q, missing_required_capabilities) at e)) [ ],
        λ b. elim (true_not_false (sym q ∙ bits-covered required s.capability_bitmask h b)) [ ],
      )
      | inr q ↦ (
        λ e i b. covered-bits required s.capability_bitmask i h q b,
        λ b. rw (q, missing_required_capabilities) refl,
      )
    ]

-- Two endpoints with masks of one width, and a session of theirs: the session lacks no capability of
-- a required set of at most that width exactly when both endpoints have each of the set.
pub negotiated-missing_iff :
    (a b : HelloCapabilities) (s : NegotiatedSession) (required : List Bool)
    → negotiate a b ≡ ok s
    → length a.capability_bitmask ≡ length b.capability_bitmask
    → length required ≤ length a.capability_bitmask
    → (missing_required_capabilities required s ≡ none) ↔ (
        (i : ℕ)
        → bit i required ≡ true
        → (bit i a.capability_bitmask ≡ true) × (bit i b.capability_bitmask ≡ true))
unfolding negotiate
negotiated-missing_iff a b s required e width fits =
    let mask : s.capability_bitmask ≡ and_mask a.capability_bitmask b.capability_bitmask =
      ground (arith, e) in
    let size = length-and_mask a.capability_bitmask b.capability_bitmask width in
    let wide : length required ≤ length s.capability_bitmask =
      omega (arith, ap length mask, size) in
    let iff = missing-none_iff required s wide in
    let at =
      λ (i : ℕ). ap (bit i) mask ∙ bit-and_mask i a.capability_bitmask b.capability_bitmask in
    (
      λ n i r. (both_iff _ _).0 (sym (at i) ∙ iff.0 n i r),
      λ h. iff.1 (λ i r.
          at i ∙ (both_iff (bit i a.capability_bitmask) (bit i b.capability_bitmask)).1 (h i r)),
    )
