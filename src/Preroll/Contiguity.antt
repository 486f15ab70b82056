-- ===== src/Preroll/Contiguity.antt =====
-- The contiguity invariant of the ring of crates/rumble-client/src/preroll.rs: what it holds is a
-- run of frames each of which follows the one before.
use rumble.Prelude.{
  ℕ, ◌+◌, ◌%◌, ◌^◌, ◌≡◌, refl, Bool, true, ◌&&◌, List, [], ◌∷◌, ◌++◌, ◌==◌, length, drop, arith,
  Bool-cases, inl, inr,
}
use rumble.Preroll.{Slot, PreRollRing, continues, push}
use rumble.Preroll.Queue.{contents, IsRing}
use rumble.Preroll.Refinement.{queue_newest, queue_kept, queue_evict, push_lem}

module _ {ℓ} {A : Type ℓ} where
  abbrev pub in_a_row : ℕ → List (Slot A) → Bool
  in_a_row frame_us [] = true
  in_a_row frame_us (x ∷ []) = true
  in_a_row frame_us (x ∷ y ∷ q) =
      (x.timestamp_us + frame_us) % 2 ^ 64 == y.timestamp_us && in_a_row frame_us (y ∷ q)

  in_a_row-snoc :
      (f : ℕ) (q : List (Slot A)) (x : Slot A)
      → in_a_row f q ≡ true
      → continues f (queue_newest q) x.timestamp_us ≡ true
      → in_a_row f (q ++ x ∷ []) ≡ true
  in_a_row-snoc f [] x h c = refl
  in_a_row-snoc f (y ∷ []) x h c = ground (arith, c)
  in_a_row-snoc f (y ∷ z ∷ q) x h c = ground (arith, in_a_row-snoc f (z ∷ q) x)

  in_a_row-drop :
      (f ts : ℕ) (q : List (Slot A))
      → in_a_row f q ≡ true
      → continues f (queue_newest q) ts ≡ true
      → (in_a_row f (drop 1 q) ≡ true) × (continues f (queue_newest (drop 1 q)) ts ≡ true)
  in_a_row-drop f ts [] h c = (refl, refl)
  in_a_row-drop f ts (x ∷ []) h c = (refl, refl)
  in_a_row-drop f ts (x ∷ y ∷ q) h c = (ground arith, c)

  in_a_row-evict :
      (cap f ts : ℕ) (q : List (Slot A))
      → in_a_row f q ≡ true
      → continues f (queue_newest q) ts ≡ true
      → (in_a_row f (queue_evict cap q) ≡ true)
        × (continues f (queue_newest (queue_evict cap q)) ts ≡ true)
  in_a_row-evict cap f ts q h c = elim (Bool-cases (length q == cap)) [
    | inl full ↦ rw full (in_a_row-drop f ts q h c)
    | inr space ↦ rw space (h, c)
  ]

  in_a_row-kept :
      (f ts : ℕ) (q : List (Slot A))
      → in_a_row f q ≡ true
      → (in_a_row f (queue_kept f ts q) ≡ true)
        × (continues f (queue_newest (queue_kept f ts q)) ts ≡ true)
  in_a_row-kept f ts q h = elim (Bool-cases (continues f (queue_newest q) ts)) [
    | inl follows ↦ rw follows (h, follows)
    | inr broken ↦ rw broken (refl, refl)
  ]

  -- A push keeps the frames of a ring with room for a frame consecutive on the media clock,
  -- whatever frame is pushed.
  pub push-in_a_row :
      (ts : ℕ) (samples : List A) (r : PreRollRing A)
      → IsRing r
      → in_a_row r.frame_us (contents r) ≡ true
      → in_a_row r.frame_us (contents (push ts samples r)) ≡ true
  push-in_a_row ts samples r v h =
      let f = r.frame_us in
      let (row, next) = in_a_row-kept f ts (contents r) h in
      let kept = queue_kept f ts (contents r) in
      let (row', next') = in_a_row-evict (length r.slots) f ts kept row next in
      rw (push_lem ts samples r v).0 (
        in_a_row-snoc f (queue_evict (length r.slots) kept)
          (record { timestamp_us = ts; samples = samples }) row' next')
