-- ===== src/Sidecar/Video.antt =====
-- crates/robot-edge/src/zenoh_bridge.rs: the video tap. SPS, PPS and IDR units wait in a bounded
-- queue, of the others only the newest waits; a subscriber that joins gets SPS and PPS again.
use robotele.Prelude.{
  ℕ, ◌%◌, Bool, true, false, Option, none, some, List, [], ◌∷◌, ◌++◌, ltb, ◌==◌, if◌then◌else◌,
  length, get_elem?,
}

abbrev pub video_critical_queue : ℕ
video_critical_queue = 32

pub record VideoSink : Type 0 where
  pub critical : List (List ℕ)
  pub delta : Option (List ℕ)
  pub subscribed : Bool

-- `try_send` on the bounded queue: a payload beyond its capacity is dropped.
abbrev pub try_send : List (List ℕ) → List ℕ → List (List ℕ)
try_send queue payload =
    if ltb (length queue) video_critical_queue then queue ++ payload ∷ [] else queue

unfoldable pub publish : VideoSink → List ℕ → Bool → VideoSink
publish v payload critical =
    if v.subscribed
    then (if critical
        then record v { critical = try_send v.critical payload }
        else record v { delta = some payload })
    else v

abbrev pub low_five_bits : Option ℕ → Option ℕ
low_five_bits none = none
low_five_bits (some b) = some (b % 32)

-- `payload.get(4)` of a payload that starts with a start code of four bytes.
unfoldable pub annexb_nal_type : List ℕ → Option ℕ
annexb_nal_type payload = low_five_bits (get_elem? payload 4)

-- The task that drains the sink: the parameter sets that it saw last, and a joined subscriber's
-- request for them.
pub record VideoTask : Type 0 where
  pub sink : VideoSink
  pub sps : Option (List ℕ)
  pub pps : Option (List ℕ)
  pub rejoined : Bool

abbrev pub type_is : ℕ → Option ℕ → Bool
type_is t none = false
type_is t (some u) = u == t

unfoldable pub noted_sps : List ℕ → Option (List ℕ) → Option (List ℕ)
unfolding annexb_nal_type
noted_sps payload sps = if type_is 7 (annexb_nal_type payload) then some payload else sps

unfoldable pub noted_pps : List ℕ → Option (List ℕ) → Option (List ℕ)
unfolding annexb_nal_type
noted_pps payload pps = if type_is 8 (annexb_nal_type payload) then some payload else pps

-- A matching listener's status: a subscriber that joins asks for the parameter sets.
unfoldable pub on_matching : VideoTask → Bool → VideoTask
on_matching t matching =
    let v : VideoSink = t.sink in
    record t {
      sink = record v { subscribed = matching };
      rejoined = if matching then true else t.rejoined;
    }

abbrev pub as_list : Option (List ℕ) → List (List ℕ)
as_list none = []
as_list (some p) = p ∷ []

-- One turn of the biased `select!`: a critical payload, else the request, else the newest delta. With
-- it, the payloads that are put on the two publishers.
unfoldable pub turn_on :
    VideoTask → List (List ℕ) → Bool → Option (List ℕ) → VideoTask × List (List ℕ)
unfolding noted_sps noted_pps
turn_on t (payload ∷ queue) rejoined delta =
    let v : VideoSink = t.sink in
    (
      record t {
        sink = record v { critical = queue };
        sps = noted_sps payload t.sps;
        pps = noted_pps payload t.pps;
      },
      payload ∷ [],
    )
turn_on t [] true delta = (record t { rejoined = false }, as_list t.sps ++ as_list t.pps)
turn_on t [] false (some payload) =
    let v : VideoSink = t.sink in (record t { sink = record v { delta = none } }, payload ∷ [])
turn_on t [] false none = (t, [])

unfoldable pub turn : VideoTask → VideoTask × List (List ℕ)
unfolding turn_on
turn t = turn_on t t.sink.critical t.rejoined t.sink.delta
