-- ===== src/Preroll/Refinement.antt =====
-- Each operation of the ring of crates/rumble-client/src/preroll.rs against the same operation on a
-- queue: a list of frames, the oldest first, that is started anew when a frame does not follow the
-- newest one and loses its oldest frame when it is full.
use native.Mathlib.Nat.{mod-lt}
use rumble.Prelude.{
  ℕ, zero, suc, ◌+◌, ◌-◌, ◌%◌, ◌^◌, ◌<◌, ◌≡◌, refl, ap, sym, ◌∙◌, Bool, true, false, Option, none,
  some, List, [], ◌∷◌, ◌++◌, ◌==◌, ltb, if◌then◌else◌, length, get_elem?, drop, arith, Bool-cases,
  inl, inr,
}
use rumble.Preroll.{
  Slot, PreRollRing, stamp_of, newest_timestamp, continues, evict, store, push, set_slot, emitted,
  flushed, flush_into,
}
use rumble.Preroll.Queue.{
  contents, IsRing, emitted_step, emitted-set_slot, emitted-next_head, length-emitted,
  length-set_slot, get_elem?_in,
}

module _ {ℓ} {A : Type ℓ} where
  abbrev pub queue_newest : List (Slot A) → Option ℕ
  queue_newest [] = none
  queue_newest (x ∷ []) = some x.timestamp_us
  queue_newest (x ∷ y ∷ q) = queue_newest (y ∷ q)

  abbrev pub queue_kept : ℕ → ℕ → List (Slot A) → List (Slot A)
  queue_kept frame_us ts q = if continues frame_us (queue_newest q) ts then q else []

  abbrev pub queue_evict : ℕ → List (Slot A) → List (Slot A)
  queue_evict cap q = if length q == cap then drop 1 q else q

  abbrev pub queue_push : ℕ → ℕ → ℕ → List A → List (Slot A) → List (Slot A)
  queue_push cap frame_us ts samples q =
      queue_evict cap (queue_kept frame_us ts q)
      ++ record { timestamp_us = ts; samples = samples } ∷ []

  -- The queue goes out if the frame that opens the gate follows its newest frame.
  abbrev pub queue_flush : ℕ → ℕ → List (Slot A) → List (Slot A)
  queue_flush frame_us ts q = elim (queue_newest q) [
    | none ↦ []
    | some newest ↦ if (newest + frame_us) % 2 ^ 64 == ts then q else []
  ]

  newest-emitted :
      (ys : List (Slot A)) (h i n : ℕ)
      → 0 < length ys
      → queue_newest (emitted ys h i (suc n)) ≡ stamp_of (get_elem? ys ((h + (i + n)) % length ys))
  newest-emitted ys h i zero p =
      let (y, got) = get_elem?_in ((h + i) % length ys) ys (mod-lt (h + i) p) in
      let same : (h + (i + 0)) % length ys ≡ (h + i) % length ys =
        ap (λ t. (h + t) % length ys) (omega arith) in
      ap queue_newest (emitted_step ys h i zero y got)
      ∙ sym (ap stamp_of (ap (get_elem? ys) same ∙ got))
  newest-emitted ys h i (suc n) p =
      let (y, got) = get_elem?_in ((h + i) % length ys) ys (mod-lt (h + i) p) in
      let (z, after) = get_elem?_in ((h + (i + 1)) % length ys) ys (mod-lt (h + (i + 1)) p) in
      ap queue_newest
        (emitted_step ys h i (suc n) y got ∙ ap (λ t. y ∷ t) (emitted_step ys h (i + 1) n z after))
      ∙ ap queue_newest (sym (emitted_step ys h (i + 1) n z after))
      ∙ newest-emitted ys h (i + 1) n p
      ∙ ap (λ t. stamp_of (get_elem? ys ((h + t) % length ys))) (omega arith)

  newest_at :
      (ys : List (Slot A)) (h n f : ℕ)
      → 0 < length ys
      → newest_timestamp (record { slots = ys; head = h; len = n; frame_us = f })
        ≡ queue_newest (emitted ys h 0 n)
  unfolding newest_timestamp
  newest_at ys h zero f p = refl
  newest_at ys h (suc n) f p =
      let some_left : ltb 0 (suc n) ≡ true = ground arith in
      rw some_left (
        ap (λ t. stamp_of (get_elem? ys (t % length ys)))
          (let e : h + suc n - 1 ≡ h + (0 + n) = omega arith in e)
        ∙ sym (newest-emitted ys h 0 n p))

  newest-contents : (r : PreRollRing A) → IsRing r → newest_timestamp r ≡ queue_newest (contents r)
  newest-contents r v = newest_at r.slots r.head r.len r.frame_us (ground (arith, v.head_in))

  flushed-queue :
      (o : Option ℕ) (ts : ℕ) (r : PreRollRing A)
      → flushed o ts r ≡ (elim o [
        | none ↦ []
        | some newest ↦ if (newest + r.frame_us) % 2 ^ 64 == ts then contents r else []
      ])
  flushed-queue none ts r = refl
  flushed-queue (some newest) ts r = refl

  -- A flush of a ring with room for a frame emits what the queue's flush emits, in order, and
  -- leaves the ring empty and well formed.
  pub flush_into_lem :
      (ts : ℕ) (r : PreRollRing A)
      → IsRing r
      → ((flush_into ts r).0 ≡ queue_flush r.frame_us ts (contents r))
        × (contents (flush_into ts r).1 ≡ [])
        × IsRing (flush_into ts r).1
  unfolding flush_into
  flush_into_lem ts r v = (
    ap (λ o. flushed o ts r) (newest-contents r v) ∙ flushed-queue (queue_newest (contents r)) ts r,
    refl,
    record { head_in = v.head_in; len_in = omega arith },
  )

  drop-emitted :
      (ys : List (Slot A)) (h n : ℕ)
      → 0 < length ys
      → drop 1 (emitted ys h 0 n) ≡ emitted ys ((h + 1) % length ys) 0 (n - 1)
  drop-emitted ys h zero p = refl
  drop-emitted ys h (suc n) p =
      let (y, got) = get_elem?_in ((h + 0) % length ys) ys (mod-lt (h + 0) p) in
      ap (drop 1) (emitted_step ys h 0 n y got)
      ∙ sym (emitted-next_head ys h 0 n p)
      ∙ ap (emitted ys ((h + 1) % length ys) 0) (omega arith)

  evict_lem :
      (r : PreRollRing A)
      → IsRing r
      → (contents (evict r) ≡ queue_evict (length r.slots) (contents r))
        × ((evict r).head < length r.slots)
        × ((evict r).len < length r.slots)
        × ((evict r).slots ≡ r.slots)
  evict_lem r v =
      let p : 0 < length r.slots = ground (arith, v.head_in) in
      let size = length-emitted r.slots r.head 0 r.len p in
      elim (Bool-cases (r.len == length r.slots)) [
        | inl full ↦
            rw (size, full)
              (
                sym (drop-emitted r.slots r.head r.len p),
                mod-lt (r.head + 1) p,
                ground (arith, v.len_in),
                refl,
              )
        | inr space ↦ rw (size, space) (refl, v.head_in, ground (arith, v.len_in), refl)
      ]

  store_lem :
      (ts : ℕ) (samples : List A) (r : PreRollRing A)
      → r.head < length r.slots
      → r.len < length r.slots
      → (contents (store ts samples r)
          ≡ contents r ++ record { timestamp_us = ts; samples = samples } ∷ [])
        × IsRing (store ts samples r)
  store_lem ts samples r h l =
      let x : Slot A = record { timestamp_us = ts; samples = samples } in
      let spot = (r.head + r.len) % length r.slots in
      let size = length-set_slot spot x r.slots in
      (
        ap (emitted (set_slot spot x r.slots) r.head 0)
              (let e : r.len + 1 ≡ suc r.len = omega arith in e)
            ∙ emitted-set_slot x r.slots r.head 0 r.len r.len h (omega arith) l,
        record { head_in = ground (arith, size); len_in = ground (arith, size) },
      )

  push_renewed :
      (b : Bool) (ts : ℕ) (samples : List A) (r : PreRollRing A)
      → IsRing r
      → (contents (store ts samples (evict (if b then r else record r { len = 0 })))
          ≡ queue_evict (length r.slots) (if b then contents r else [])
            ++ record { timestamp_us = ts; samples = samples } ∷ [])
        × IsRing (store ts samples (evict (if b then r else record r { len = 0 })))
  push_renewed true ts samples r v =
      let (kept, head_in, len_in, same) = evict_lem r v in
      let (stored, ring) = store_lem ts samples (evict r) (rw same head_in) (rw same len_in) in
      (stored ∙ ap (λ q. q ++ record { timestamp_us = ts; samples = samples } ∷ []) kept, ring)
  push_renewed false ts samples r v =
      let anew = record r { len = 0 } in
      let (kept, head_in, len_in, same) =
        evict_lem anew (record { head_in = v.head_in; len_in = omega arith }) in
      let (stored, ring) = store_lem ts samples (evict anew) (rw same head_in) (rw same len_in) in
      (stored ∙ ap (λ q. q ++ record { timestamp_us = ts; samples = samples } ∷ []) kept, ring)

  -- A push changes the contents of a ring with room for a frame exactly as the push of the queue
  -- does: the queue is emptied if the frame does not follow its newest one, and loses its oldest
  -- frame if it is full; the ring stays well formed.
  pub push_lem :
      (ts : ℕ) (samples : List A) (r : PreRollRing A)
      → IsRing r
      → (contents (push ts samples r)
          ≡ queue_push (length r.slots) r.frame_us ts samples (contents r))
        × IsRing (push ts samples r)
  unfolding push
  push_lem ts samples r v =
      let some_room : (length r.slots == 0) ≡ false = ground (arith, v.head_in) in
      rw (some_room, newest-contents r v)
        (push_renewed (continues r.frame_us (queue_newest (contents r)) ts) ts samples r v)
