-- ===== src/Tests/Hello.antt =====
-- The theorems on the handshake at concrete inputs.
use robotele.Prelude.{ℕ, ◌≡◌, ◌↔◌, refl, true, false, none, [], ◌∷◌, arith}
use robotele.Prelude.Result.{ok}
use robotele.Hello.{HelloCapabilities, NegotiatedSession, negotiate, missing_required_capabilities}
use robotele.Hello.Agreement.{Agree, bit, negotiate-Agree, negotiated-missing_iff}

-- Masks of three bits.
abbrev robot : HelloCapabilities
robot = record {
  protocol_version = record { major = 1; minor = 4 };
  capability_bitmask = true ∷ false ∷ true ∷ [];
  supported_task_classes = true ∷ true ∷ [];
  supported_quantization_tiers = true ∷ [];
  max_control_rate_hz = 100;
}

abbrev operator : HelloCapabilities
operator = record robot {
  protocol_version = record { major = 1; minor = 2 };
  capability_bitmask = true ∷ true ∷ false ∷ [];
}

negotiate-Agree_example : Agree (negotiate robot operator) (negotiate operator robot)
negotiate-Agree_example = negotiate-Agree robot operator

abbrev session : NegotiatedSession
session = record {
  version = record { major = 1; minor = 2 };
  capability_bitmask = true ∷ false ∷ false ∷ [];
  task_classes = true ∷ true ∷ [];
  quantization_tiers = true ∷ [];
  max_control_rate_hz = 100;
}

common_session : negotiate robot operator ≡ ok session
unfolding negotiate
common_session = refl

negotiated-missing_iff_example : (missing_required_capabilities (true ∷ []) session ≡ none) ↔ (
    (i : ℕ)
    → bit i (true ∷ []) ≡ true
    → (bit i robot.capability_bitmask ≡ true) × (bit i operator.capability_bitmask ≡ true))
negotiated-missing_iff_example =
    negotiated-missing_iff robot operator session (true ∷ []) common_session refl (omega arith)
