-- ===== src/Video/ChannelA.antt =====
-- crates/operator-console/src/video/channel_a.rs: from Channel A datagrams to Annex-B units.
use robotele.Prelude.{
  ℕ, ◌+◌, ◌^◌, ◌≤◌, ◌<◌, ◌≡◌, refl, ap, sym, ◌∙◌, Option, none, some, List, [], ◌∷◌, ◌++◌, arith,
  length,
}
use robotele.Video.Chunk.{
  ChunkHeader, max_chunk_payload, decode, chunks, div_ceil, number, frame, chunk_nal, decode-encode,
}
use robotele.Video.Chunk.Cut.{concat, concat-chunks, length-chunks}
use robotele.Prelude.Assoc.{nat_eq, lookup}
use robotele.Video.Reassembler.{PendingNal, NalReassembler, on_chunk}
use robotele.Video.Reassembler.Integrity.{receive}
use robotele.Video.Reassembler.Complete.{receive-number}

abbrev pub start_code : List ℕ
start_code = 0 ∷ 0 ∷ 0 ∷ 1 ∷ []

abbrev pub max_pending_nals : ℕ
max_pending_nals = 32

abbrev pub annex_b : ℕ → Option (List ℕ) → Option (ℕ × List ℕ)
annex_b nal_id none = none
annex_b nal_id (some nal) = some (nal_id, start_code ++ nal)

-- `decode(data)?`, then `on_chunk(..)?`.
abbrev pub feed :
    NalReassembler → Option (ChunkHeader × List ℕ) → NalReassembler × Option (ℕ × List ℕ)
feed r none = (r, none)
feed r (some (header, payload)) =
    let (r', nal) = on_chunk r header payload in (r', annex_b header.nal_id nal)

unfoldable pub on_datagram : NalReassembler → List ℕ → NalReassembler × Option (ℕ × List ℕ)
on_datagram r bytes = feed r (decode bytes)

abbrev push_some : Option (ℕ × List ℕ) → List (ℕ × List ℕ) → List (ℕ × List ℕ)
push_some none outs = outs
push_some (some out) outs = out ∷ outs

-- All that a sequence of datagrams completes.
unfoldable pub on_datagrams : NalReassembler → List (List ℕ) → List (ℕ × List ℕ)
unfolding on_datagram
on_datagrams r [] = []
on_datagrams r (bytes ∷ rest) =
    let (r', out) = on_datagram r bytes in let outs = on_datagrams r' rest in push_some out outs

abbrev with_start : List (ℕ × List ℕ) → List (ℕ × List ℕ)
with_start [] = []
with_start ((nal_id, nal) ∷ outs) = (nal_id, start_code ++ nal) ∷ with_start outs

abbrev AllFit : List (ChunkHeader × List ℕ) → Type 0
AllFit [] = Unit {0}
AllFit ((h, piece) ∷ cs) = (h.nal_id < 256 ^ 4) × (h.chunk_index < 256 ^ 2) × AllFit cs

on_datagrams-frame :
    (r : NalReassembler) (cs : List (ChunkHeader × List ℕ))
    → AllFit cs
    → on_datagrams r (frame cs) ≡ with_start (receive r cs)
unfolding on_datagrams frame receive
on_datagrams-frame r [] f = refl
on_datagrams-frame r ((h, piece) ∷ cs) f =
    ground (arith, decode-encode h piece f.0 f.1, on_datagrams-frame (on_chunk r h piece).0 cs f.2)

number-AllFit :
    (nal_id n i : ℕ) (ps : List (List ℕ)) → nal_id < 256 ^ 4 → AllFit (number nal_id n i ps)
unfolding number
number-AllFit nal_id n i [] h = tt
number-AllFit nal_id n i (p ∷ ps) h = (h, omega arith, number-AllFit nal_id n (i + 1) ps h)

receive-pieces :
    (others : List (ℕ × PendingNal)) (nal_id n : ℕ) (ps : List (List ℕ))
    → length others < max_pending_nals
    → lookup nal_id others ≡ none
    → n ≡ length ps
    → 0 < n
    → n ≤ 65536
    → receive (record { pending = others; max_pending = max_pending_nals }) (number nal_id n 0 ps)
      ≡ (nal_id, concat ps) ∷ []
receive-pieces others nal_id n [] m a e p b = absurd (omega arith)
receive-pieces others nal_id n (x ∷ rest) m a e p b =
    receive-number max_pending_nals others nal_id 0 n [] rest x m a refl (omega arith) b

chunk_count_bounds :
    (len : ℕ)
    → 0 < len
    → len ≤ 72_089_600
    → (0 < div_ceil len max_chunk_payload) × (div_ceil len max_chunk_payload ≤ 65536)
unfolding div_ceil
chunk_count_bounds len p h = omega arith

-- Let fewer than 32 units wait in the operator's reassembler, none under the given id, and let it
-- receive the datagrams that the robot cuts from one NAL unit of that id, of at most 65536 full
-- chunks: all of them, in order, each once, and no others between them. The unit comes out once,
-- whole, behind an Annex-B start code, under its id, and nothing else comes out.
pub on_datagrams-chunk_nal :
    (others : List (ℕ × PendingNal)) (nal_id b : ℕ) (bs : List ℕ)
    → length others < max_pending_nals
    → lookup nal_id others ≡ none
    → nal_id < 256 ^ 4
    → length (b ∷ bs) ≤ 72_089_600
    → on_datagrams
        (record { pending = others; max_pending = max_pending_nals })
        (chunk_nal nal_id (b ∷ bs))
      ≡ (nal_id, start_code ++ b ∷ bs) ∷ []
unfolding chunk_nal
on_datagrams-chunk_nal others nal_id b bs m a h l =
    let nal = b ∷ bs in
    let n = div_ceil (length nal) max_chunk_payload in
    let ps = chunks max_chunk_payload nal in
    let r : NalReassembler = record { pending = others; max_pending = max_pending_nals } in
    let (some_piece, few) = chunk_count_bounds (length nal) (omega arith) l in
    on_datagrams-frame r (number nal_id n 0 ps) (number-AllFit nal_id n 0 ps h)
    ∙ ap with_start (receive-pieces others nal_id n ps m a (sym (length-chunks nal)) some_piece few)
    ∙ ap (λ xs. (nal_id, start_code ++ xs) ∷ []) (concat-chunks nal)
