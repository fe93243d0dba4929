-- ===== src/Tests/Wire.antt =====
-- The theorems on the small wire formats at concrete inputs.
use robotele.Prelude.{ℕ, ◌<◌, ◌≡◌, ◌≢◌, ◌⊎◌, ◌↔◌, refl, true, none, List, [], ◌∷◌, length, get_or}
use robotele.Wire.Estop.{
  EstopDatagram, decode, decode-none_iff, estop_datagram_len, estop_datagram_magic,
}
use robotele.Wire.Dedup.{ActionTrigger, TriggerDedup, applied, accept}
use robotele.Wire.Dedup.Once.{Rising, NoneNewer, last_of, applied-Rising}

abbrev latched_99 : EstopDatagram
latched_99 = record { latched = true; seq = 99 }

abbrev cut_datagram : List ℕ
cut_datagram = 0xE5 ∷ 1 ∷ 2 ∷ []

decode-none_iff_example : (decode cut_datagram ≡ none) ↔ (
    (length cut_datagram < estop_datagram_len) ⊎ (get_or cut_datagram 0 0 ≢ estop_datagram_magic))
decode-none_iff_example = decode-none_iff cut_datagram

abbrev trigger : ℕ → ActionTrigger
trigger seq = record { action_id = 4; trigger_seq = seq }

abbrev triggers : List ActionTrigger
triggers = trigger 1 ∷ trigger 1 ∷ trigger 3 ∷ trigger 2 ∷ trigger 4 ∷ []

abbrev nothing_applied : TriggerDedup
nothing_applied = record { last_applied = none }

applied-Rising_example :
    Rising none (applied nothing_applied triggers)
    × NoneNewer (last_of none (applied nothing_applied triggers)) triggers
applied-Rising_example = applied-Rising nothing_applied triggers

three_applied : applied nothing_applied triggers ≡ 1 ∷ 3 ∷ 4 ∷ []
unfolding applied accept
three_applied = refl
