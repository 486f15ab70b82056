-- ===== src/Preroll/History.antt =====
-- What holds of a ring of crates/rumble-client/src/preroll.rs after any calls on it.
use rumble.Prelude.{
  Bool, false, ◌+◌, ◌%◌, ◌==◌, if◌then◌else◌, Bool-cases, inl, inr, ℕ, zero, suc, ◌≡◌, refl, ap,
  sym, ◌∙◌, subst, ◌<◌, ◌≤◌, true, List, length, arith,
}
use rumble.Preroll.{
  PreRollRing, new_ring, empty_slots, newest_timestamp, continues, evict, store, push, flush_into,
}
use rumble.Preroll.Queue.{contents, IsRing, length-emitted, length-set_slot}
use rumble.Preroll.Refinement.{push_lem, flush_into_lem}
use rumble.Preroll.Contiguity.{in_a_row, push-in_a_row}

length-empty_slots {ℓ} : (B : Type ℓ) (n : ℕ) → length (empty_slots {A = B} n) ≡ n
length-empty_slots B zero = refl
length-empty_slots B (suc n) = ap suc (length-empty_slots B n)

module _ {ℓ} {A : Type ℓ} where
  pub data RingHistory (capacity frame_us : ℕ) : PreRollRing A → Type ℓ where
    made : RingHistory capacity frame_us (new_ring capacity frame_us)
    pushed :
        {r : PreRollRing A}
        → RingHistory capacity frame_us r
        → (ts : ℕ) (samples : List A) → RingHistory capacity frame_us (push ts samples r)
    opened :
        {r : PreRollRing A}
        → RingHistory capacity frame_us r
        → (ts : ℕ) → RingHistory capacity frame_us (flush_into ts r).1

  evict_keeps :
      (r : PreRollRing A)
      → ((evict r).frame_us ≡ r.frame_us) × (length (evict r).slots ≡ length r.slots)
  evict_keeps r = elim (Bool-cases (r.len == length r.slots)) [
    | inl full ↦ rw full (refl, refl)
    | inr space ↦ rw space (refl, refl)
  ]

  store_keeps :
      (ts : ℕ) (samples : List A) (r : PreRollRing A)
      → ((store ts samples r).frame_us ≡ r.frame_us)
        × (length (store ts samples r).slots ≡ length r.slots)
  store_keeps ts samples r = (refl, length-set_slot ((r.head + r.len) % length r.slots) _ r.slots)

  renewed_keeps :
      (b : Bool) (ts : ℕ) (samples : List A) (r : PreRollRing A)
      → ((store ts samples (evict (if b then r else record r { len = 0 }))).frame_us ≡ r.frame_us)
        × (length (store ts samples (evict (if b then r else record r { len = 0 }))).slots
            ≡ length r.slots)
  renewed_keeps true ts samples r =
      let (clock, size) = evict_keeps r in
      let (clock', size') = store_keeps ts samples (evict r) in (clock' ∙ clock, size' ∙ size)
  renewed_keeps false ts samples r =
      let anew = record r { len = 0 } in
      let (clock, size) = evict_keeps anew in
      let (clock', size') = store_keeps ts samples (evict anew) in (clock' ∙ clock, size' ∙ size)

  -- A push changes neither the number of slots nor the step of the clock.
  push_keeps :
      (ts : ℕ) (samples : List A) (r : PreRollRing A)
      → ((push ts samples r).frame_us ≡ r.frame_us)
        × (length (push ts samples r).slots ≡ length r.slots)
  unfolding push
  push_keeps ts samples r = elim (Bool-cases (length r.slots == 0)) [
    | inl empty ↦ rw empty (refl, refl)
    | inr some_room ↦
        rw some_room (renewed_keeps (continues r.frame_us (newest_timestamp r) ts) ts samples r)
  ]

  pub record Keeps (capacity frame_us : ℕ) (r : PreRollRing A) : Type ℓ where
    pub ring : IsRing r
    pub row : in_a_row frame_us (contents r) ≡ true
    pub size : length r.slots ≡ capacity
    pub clock : r.frame_us ≡ frame_us

  history-Keeps :
      {capacity frame_us : ℕ} {r : PreRollRing A}
      → 0 < capacity
      → RingHistory capacity frame_us r
      → Keeps capacity frame_us r
  unfolding new_ring flush_into
  history-Keeps {capacity = c} p made = record {
    ring = record { head_in = ground (arith, length-empty_slots A c); len_in = omega arith };
    row = refl;
    size = length-empty_slots A c;
    clock = refl;
  }
  history-Keeps {frame_us = f} p (pushed {r = r} h ts samples) =
      let k = history-Keeps p h in
      let (same_clock, same_size) = push_keeps ts samples r in
      record {
        ring = (push_lem ts samples r k.ring).1;
        row =
            subst (λ t. in_a_row t (contents (push ts samples r)) ≡ true) k.clock
              (push-in_a_row ts samples r k.ring
                (subst (λ t. in_a_row t (contents r) ≡ true) (sym k.clock) k.row));
        size = same_size ∙ k.size;
        clock = same_clock ∙ k.clock;
      }
  history-Keeps p (opened {r = r} h ts) =
      let k = history-Keeps p h in
      record { ring = (flush_into_lem ts r k.ring).2; row = refl; size = k.size; clock = k.clock }

  -- After any pushes and flushes, a ring that was made with room for a frame holds no more frames
  -- than it was made for, and they are consecutive on the media clock.
  pub RingHistory-in_a_row :
      {capacity frame_us : ℕ} {r : PreRollRing A}
      → 0 < capacity
      → RingHistory capacity frame_us r
      → (length (contents r) ≤ capacity) × (in_a_row frame_us (contents r) ≡ true)
  RingHistory-in_a_row {r = r} p h =
      let k = history-Keeps p h in
      let left : 0 < length r.slots = ground (arith, k.size) in
      (ground (arith, k.size, k.ring.len_in, length-emitted r.slots r.head 0 r.len left), k.row)
