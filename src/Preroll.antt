-- ===== src/Preroll.antt =====
-- crates/rumble-client/src/preroll.rs: the ring of the audio frames that the voice gate held back,
-- which go out when the gate opens. Samples are of any type. A time stamp is a `u64` and wraps. An
-- index out of range, where the code would panic, reads as no slot.
pub mod Queue
pub mod Refinement
pub mod Contiguity
pub mod History
mod Tests
use rumble.Prelude.{
  ℕ, zero, suc, ◌+◌, ◌-◌, ◌%◌, ◌^◌, Bool, true, false, not, ◌&&◌, Option, none, some, List, [], ◌∷◌,
  ◌==◌, ltb, if◌then◌else◌, length, get_elem?,
}

abbrev pub pre_roll_frames : ℕ
pre_roll_frames = 5

pub record Slot {ℓ} (A : Type ℓ) : Type ℓ where
  pub timestamp_us : ℕ
  pub samples : List A

pub record PreRollRing {ℓ} (A : Type ℓ) : Type ℓ where
  pub slots : List (Slot A)
  pub head : ℕ
  pub len : ℕ
  pub frame_us : ℕ

-- Whether a stamp is that of the frame after the newest one, if there is a newest one.
abbrev pub continues : ℕ → Option ℕ → ℕ → Bool
continues frame_us none timestamp_us = true
continues frame_us (some newest) timestamp_us = (newest + frame_us) % 2 ^ 64 == timestamp_us

module _ {ℓ} {A : Type ℓ} where
  abbrev pub empty_slots : ℕ → List (Slot A)
  empty_slots zero = []
  empty_slots (suc n) = record { timestamp_us = 0; samples = [] } ∷ empty_slots n

  pub new_ring : ℕ → ℕ → PreRollRing A
  new_ring capacity frame_us = record {
    slots = empty_slots capacity;
    head = 0;
    len = 0;
    frame_us = frame_us;
  }

  -- `self.slots[i] = slot`.
  abbrev pub set_slot : ℕ → Slot A → List (Slot A) → List (Slot A)
  set_slot i x [] = []
  set_slot zero x (y ∷ ys) = x ∷ ys
  set_slot (suc i) x (y ∷ ys) = y ∷ set_slot i x ys

  abbrev pub stamp_of : Option (Slot A) → Option ℕ
  stamp_of none = none
  stamp_of (some s) = some s.timestamp_us

  pub newest_timestamp : PreRollRing A → Option ℕ
  newest_timestamp r =
      if ltb 0 r.len
      then stamp_of (get_elem? r.slots ((r.head + r.len - 1) % length r.slots))
      else none

  -- The oldest frame goes when the ring is full.
  abbrev pub evict : PreRollRing A → PreRollRing A
  evict r =
      if r.len == length r.slots
      then record r { head = (r.head + 1) % length r.slots; len = r.len - 1 }
      else r

  abbrev pub store : ℕ → List A → PreRollRing A → PreRollRing A
  store timestamp_us samples r = record r {
    slots =
        set_slot ((r.head + r.len) % length r.slots)
          (record { timestamp_us = timestamp_us; samples = samples }) r.slots;
    len = r.len + 1;
  }

  pub push : ℕ → List A → PreRollRing A → PreRollRing A
  push timestamp_us samples r =
      if length r.slots == 0
      then r
      else store timestamp_us samples (
          evict (
            if continues r.frame_us (newest_timestamp r) timestamp_us
            then r
            else record r { len = 0 }))

  -- The slots from the `i`-th on, `n` of them, as the loop of `flush_into` reads them.
  abbrev pub emitted : List (Slot A) → ℕ → ℕ → ℕ → List (Slot A)
  emitted slots head i zero = []
  emitted slots head i (suc n) = elim (get_elem? slots ((head + i) % length slots)) [
    | none ↦ []
    | some s ↦ s ∷ emitted slots head (i + 1) n
  ]

  abbrev pub flushed : Option ℕ → ℕ → PreRollRing A → List (Slot A)
  flushed none current_timestamp_us r = []
  flushed (some newest) current_timestamp_us r =
      if (newest + r.frame_us) % 2 ^ 64 == current_timestamp_us
      then emitted r.slots r.head 0 r.len
      else []

  -- What is emitted, and the ring after it.
  pub flush_into : ℕ → PreRollRing A → List (Slot A) × PreRollRing A
  flush_into current_timestamp_us r =
      (flushed (newest_timestamp r) current_timestamp_us r, record r { len = 0 })
