-- ===== src/Jitter/Valid.antt =====
-- The order that an arriving packet keeps in the jitter buffer of
-- crates/rumble-client/src/audio_task.rs.
use rumble.Prelude.OrderedMap
use rumble.Prelude.OrderedMap.{
  ascending, ascending_mono, ascending-insert, length-insert-le, range_from_all, remove_absent,
}
use rumble.Prelude.{
  ℕ, zero, suc, ◌+◌, ◌<◌, ◌≤◌, ◌≡◌, refl, ap, ◌∙◌, Bool, true, false, not, ◌||◌, none, some, List,
  [], ◌∷◌, length, ltb, leb, ◌==◌, ◌⊎◌, if◌then◌else◌, arith, Bool-cases, Option-cases, inl, inr,
}
use rumble.Jitter.{UserAudioState, BufferedPacket, depth, drop_oldest, too_deep, trim}

-- Whether the first key, if there is one, is a number.
abbrev pub starts_at : ℕ → List (ℕ × BufferedPacket) → Bool
starts_at k [] = true
starts_at k (e ∷ m) = e.0 == k

List-cases {ℓ} :
    {A : Type ℓ} (xs : List A) → (xs ≡ []) ⊎ ((x : A) × (rest : List A) × (xs ≡ x ∷ rest))
List-cases [] = inl refl
List-cases (x ∷ xs) = inr (x, xs, refl)

-- Where a spurt begins: at its first frame, and where it was with none.
abbrev pub start_of : ℕ → List (ℕ × BufferedPacket) → ℕ
start_of k m = elim (OrderedMap.first m) [ none ↦ k | some e ↦ e.0 ]

pub start_of-ascending :
    (j k : ℕ) (m : List (ℕ × BufferedPacket))
    → ascending j m ≡ true
    → (ascending (start_of k m) m ≡ true) × (starts_at (start_of k m) m ≡ true)
start_of-ascending j k [] a = (refl, refl)
start_of-ascending j k (e ∷ m) a = (ground arith, ground arith)

remove_first :
    (k : ℕ) (e : ℕ × BufferedPacket) (m : List (ℕ × BufferedPacket))
    → ascending k (e ∷ m) ≡ true
    → OrderedMap.remove e.0 (e ∷ m) ≡ m
remove_first k e m a = ground (arith, remove_absent e.0 m)

module _ {D J : Type 0} where
  -- The buffered frames ascend from the cursor, a spurt that has not begun begins at the cursor,
  -- and the last frame played is behind it.
  abbrev pub IsPlaced : UserAudioState D J → Type 0
  IsPlaced s =
      (ascending s.next_play_frame s.jitter_buffer ≡ true)
      × ((s.started || starts_at s.next_play_frame s.jitter_buffer) ≡ true)
      × ((not s.started || ltb s.last_played_frame s.next_play_frame) ≡ true)

  pub depth-IsPlaced : (s : UserAudioState D J) → IsPlaced s → depth s ≡ length s.jitter_buffer
  unfolding depth
  depth-IsPlaced s p = ap length (range_from_all s.next_play_frame s.jitter_buffer p.0)

  -- A round of the trim loop on ordered frames.
  drop_oldest_lem :
      (s : UserAudioState D J) (e : ℕ × BufferedPacket) (m : List (ℕ × BufferedPacket))
      → s.jitter_buffer ≡ e ∷ m
      → IsPlaced s
      → drop_oldest s ≡ record s {
        jitter_buffer = m;
        next_play_frame = if s.started then e.0 + 1 else start_of s.next_play_frame m;
      }
  unfolding drop_oldest
  drop_oldest_lem s e m h p =
      let sorted = rw h at p.0 in
      let low : leb s.next_play_frame e.0 ≡ true = ground arith in
      let kept = remove_first s.next_play_frame e m sorted in rw (h, low, kept)

  -- One round keeps the order and removes one frame.
  pub drop_oldest-IsPlaced :
      (s : UserAudioState D J)
      → IsPlaced s
      → 0 < length s.jitter_buffer
      → IsPlaced (drop_oldest s)
        × (suc (length (drop_oldest s).jitter_buffer) ≡ length s.jitter_buffer)
  drop_oldest-IsPlaced s p h = elim (List-cases s.jitter_buffer) [
    | inl empty ↦ absurd (ground arith)
    | inr (e, m, full) ↦
        let sorted = rw full at p.0 in
        let above : ascending (suc e.0) m ≡ true = ground arith in
        let begin = start_of-ascending (suc e.0) s.next_play_frame m above in
        let high = ascending_mono (e.0 + 1) (suc e.0) m (omega arith) above in
        rw (drop_oldest_lem s e m full p, full)
          ((ground arith, ground arith, ground (arith, p.2)), refl)
  ]

  -- Where the trim loop ends: in order, at its bound, and with only the frames and the cursor moved.
  pub record IsTrimmed (deep : ℕ) (s t : UserAudioState D J) : Type 0 where
    pub placed : IsPlaced t
    pub shallow : too_deep deep t ≡ false
    pub only : t ≡ record s { jitter_buffer = t.jitter_buffer; next_play_frame = t.next_play_frame }

  drop_oldest-only :
      (s : UserAudioState D J)
      → drop_oldest s ≡ record s {
        jitter_buffer = (drop_oldest s).jitter_buffer;
        next_play_frame = (drop_oldest s).next_play_frame;
      }
  unfolding drop_oldest
  drop_oldest-only s = elim (Option-cases (OrderedMap.first s.jitter_buffer)) [
    | inl e ↦ rw (drop_oldest, e)
    | inr (a, e) ↦ rw (drop_oldest, e)
  ]

  pub trim-IsTrimmed :
      (fuel deep : ℕ) (s : UserAudioState D J)
      → IsPlaced s
      → length s.jitter_buffer ≤ fuel
      → IsTrimmed deep s (trim fuel deep s)
  unfolding trim too_deep
  trim-IsTrimmed zero deep s p h = record {
    placed = p;
    shallow = ground (arith, depth-IsPlaced s p);
    only = refl;
  }
  trim-IsTrimmed (suc fuel) deep s p h = elim (Bool-cases (too_deep deep s)) [
    | inl over ↦
        let step = drop_oldest-IsPlaced s p (ground (arith, depth-IsPlaced s p)) in
        let done = trim-IsTrimmed fuel deep (drop_oldest s) step.0 (omega (arith, step.1)) in
        rw (trim, over)
          (record {
            placed = done.placed;
            shallow = done.shallow;
            only =
                done.only
                ∙ ap
                    (λ (x : UserAudioState D J). record x {
                      jitter_buffer = (trim fuel deep (drop_oldest s)).jitter_buffer;
                      next_play_frame = (trim fuel deep (drop_oldest s)).next_play_frame;
                    })
                    (drop_oldest-only s);
          })
    | inr fits ↦ rw (trim, fits) (record { placed = p; shallow = fits; only = refl })
  ]
