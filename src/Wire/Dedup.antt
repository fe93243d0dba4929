-- ===== src/Wire/Dedup.antt =====
-- crates/roboprotocol-core/src/action_trigger.rs and camera_control.rs: at most once on Channel C.
pub mod Once
use robotele.Prelude.{
  ℕ, ◌<◌, ◌≤◌, ◌≡◌, Bool, true, Option, none, some, List, [], ◌∷◌, arith, ltb, if◌then◌else◌,
}

pub record ActionTrigger : Type 0 where
  pub action_id : ℕ  -- u8
  pub trigger_seq : ℕ  -- u64

pub record TriggerDedup : Type 0 where
  pub last_applied : Option ℕ

abbrev pub is_new : Option ℕ → ℕ → Bool
is_new none seq = true
is_new (some last) seq = ltb last seq

unfoldable pub accept : TriggerDedup → ActionTrigger → TriggerDedup × Bool
accept d trigger =
    if is_new d.last_applied trigger.trigger_seq
    then (record { last_applied = some trigger.trigger_seq }, true)
    else (d, is_new d.last_applied trigger.trigger_seq)

-- The fields of a type that the source takes from the machine (`f32`) are of an abstract type.
pub record CameraControl (F : Type 0) : Type 0 where
  pub brightness : F
  pub contrast : F
  pub ev : F
  pub shutter_us : ℕ  -- u32
  pub control_seq : ℕ  -- u64

pub record CameraControlDedup : Type 0 where
  pub last_applied : Option ℕ

unfoldable pub accept_control :
    {F : Type 0} → CameraControlDedup → CameraControl F → CameraControlDedup × Bool
accept_control d control =
    if is_new d.last_applied control.control_seq
    then (record { last_applied = some control.control_seq }, true)
    else (d, is_new d.last_applied control.control_seq)

-- The sequence numbers that a stream of triggers has applied, in order.
unfoldable pub applied : TriggerDedup → List ActionTrigger → List ℕ
applied d [] = []
applied d (t ∷ ts) =
    let (d', new) = accept d t in
    let rest = applied d' ts in if new then t.trigger_seq ∷ rest else rest
