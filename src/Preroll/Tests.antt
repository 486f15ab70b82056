-- ===== src/Preroll/Tests.antt =====
-- The theorems about crates/rumble-client/src/preroll.rs at concrete input: a ring of two frames.
use rumble.Prelude.{ℕ, ◌≤◌, ◌≡◌, refl, true, [], ◌∷◌, length, arith}
use rumble.Preroll.{PreRollRing, new_ring, push, flush_into, newest_timestamp}
use rumble.Preroll.Queue.{contents, IsRing}
use rumble.Preroll.History.{made, pushed, RingHistory-in_a_row}
use rumble.Preroll.Contiguity.{in_a_row}
use rumble.Preroll.Refinement.{queue_push, queue_flush, push_lem, flush_into_lem}

-- Full, and the oldest frame is the second slot.
abbrev two_frames : PreRollRing ℕ
two_frames = record {
  slots =
      record { timestamp_us = 60; samples = 3 ∷ [] }
      ∷ record { timestamp_us = 40; samples = 2 ∷ [] }
      ∷ [];
  head = 1;
  len = 2;
  frame_us = 20;
}

two_frames-IsRing : IsRing two_frames
two_frames-IsRing = record { head_in = omega arith; len_in = omega arith }

oldest_goes :
    contents (push 80 (4 ∷ []) two_frames)
    ≡ record { timestamp_us = 60; samples = 3 ∷ [] }
      ∷ record { timestamp_us = 80; samples = 4 ∷ [] }
      ∷ []
unfolding push newest_timestamp
oldest_goes = refl

push_lem_example :
    (contents (push 80 (4 ∷ []) two_frames)
      ≡ queue_push (length two_frames.slots) 20 80 (4 ∷ []) (contents two_frames))
    × IsRing (push 80 (4 ∷ []) two_frames)
push_lem_example = push_lem 80 (4 ∷ []) two_frames two_frames-IsRing

flush_into_lem_example :
    ((flush_into 80 two_frames).0 ≡ queue_flush 20 80 (contents two_frames))
    × (contents (flush_into 80 two_frames).1 ≡ [])
    × IsRing (flush_into 80 two_frames).1
flush_into_lem_example = flush_into_lem 80 two_frames two_frames-IsRing

abbrev two_pushed : PreRollRing ℕ
two_pushed = push 40 (2 ∷ []) (push 20 (1 ∷ []) (new_ring 5 20))

RingHistory-in_a_row_example :
    (length (contents two_pushed) ≤ 5) × (in_a_row 20 (contents two_pushed) ≡ true)
RingHistory-in_a_row_example =
    RingHistory-in_a_row (omega arith) (pushed (pushed made 20 (1 ∷ [])) 40 (2 ∷ []))
