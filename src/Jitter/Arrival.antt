-- ===== src/Jitter/Arrival.antt =====
-- What an arriving packet does to the jitter buffer of crates/rumble-client/src/audio_task.rs.
use rumble.Prelude.OrderedMap
use rumble.Prelude.OrderedMap.{ascending, ascending_mono, ascending-insert}
use rumble.Prelude.{
  ℕ, ◌+◌, ◌≤◌, ◌≡◌, refl, ap, ◌∙◌, Bool, true, false, not, ◌||◌, Option, none, some, length, leb,
  if◌then◌else◌, arith, nat_keys,
}
use rumble.Jitter.{
  UserAudioState, BufferedPacket, too_deep, trim, max_depth, follow_first, buffer_packet, accept,
}
use rumble.Jitter.Valid.{IsPlaced, start_of, start_of-ascending, depth-IsPlaced, trim-IsTrimmed}

module _ {D J : Type 0} where
  pub record IsValid (s : UserAudioState D J) : Type 0 where
    pub placed : IsPlaced s
    pub few : length s.jitter_buffer ≤ 20
    pub target : (2 ≤ s.target_frames) × (s.target_frames ≤ 12)
    pub markers : length s.pending_eos_seqs ≤ 8
    pub late : s.consecutive_late ≤ 10

  moved :
      (b : Bool) (o : Option (ℕ × BufferedPacket)) (s : UserAudioState D J)
      → (if b then s else elim o [ none ↦ s | some e ↦ record s { next_play_frame = e.0 } ])
        ≡ record s {
          next_play_frame =
              if b then s.next_play_frame else elim o [ none ↦ s.next_play_frame | some e ↦ e.0 ];
        }
  moved true o s = refl
  moved false none s = refl
  moved false (some e) s = refl

  follow_first_lem :
      (s : UserAudioState D J)
      → follow_first s ≡ record s {
        next_play_frame =
            if s.started then s.next_play_frame else start_of s.next_play_frame s.jitter_buffer;
      }
  unfolding follow_first
  follow_first_lem s = moved s.started (OrderedMap.first s.jitter_buffer) s

  store-IsPlaced :
      (frame : ℕ) (x : BufferedPacket) (s : UserAudioState D J)
      → IsPlaced s
      → (not s.started || leb s.next_play_frame frame) ≡ true
      → IsPlaced (follow_first (buffer_packet frame x s))
  unfolding buffer_packet
  store-IsPlaced frame x s p h =
      let low = ascending_mono 0 s.next_play_frame s.jitter_buffer (omega arith) p.0 in
      let sorted = ascending-insert 0 frame x s.jitter_buffer (omega arith) low in
      let begin =
        start_of-ascending 0 s.next_play_frame (OrderedMap.insert frame x s.jitter_buffer) sorted in
      rw (follow_first_lem (buffer_packet frame x s)) (
        (
          ground (arith, ascending-insert s.next_play_frame frame x s.jitter_buffer, p.0),
          ground arith,
          ground (arith, p.2),
        ))

  -- An accepted packet leaves the frames in order and within the bound, and changes nothing else.
  pub record IsAccepted (frame : ℕ) (x : BufferedPacket) (s t : UserAudioState D J) : Type 0 where
    pub placed : IsPlaced t
    pub few : length t.jitter_buffer ≤ 20
    pub bounded : length t.jitter_buffer ≤ max_depth s
    pub only : t ≡ record s {
      consecutive_late = 0;
      stream_ended = false;
      jitter_buffer = t.jitter_buffer;
      next_play_frame = t.next_play_frame;
    }

  placed_only :
      (frame : ℕ) (x : BufferedPacket) (s : UserAudioState D J)
      → follow_first (buffer_packet frame x s) ≡ record s {
        consecutive_late = 0;
        stream_ended = false;
        jitter_buffer = (follow_first (buffer_packet frame x s)).jitter_buffer;
        next_play_frame = (follow_first (buffer_packet frame x s)).next_play_frame;
      }
  unfolding buffer_packet
  placed_only frame x s = rw (follow_first_lem (buffer_packet frame x s))

  max_depth-placed :
      (frame : ℕ) (x : BufferedPacket) (s : UserAudioState D J)
      → max_depth (follow_first (buffer_packet frame x s)) ≡ max_depth s
  unfolding max_depth
  max_depth-placed frame x s = rw (placed_only frame x s)

  shallow_bounds :
      (deep : ℕ) (t : UserAudioState D J)
      → IsPlaced t
      → too_deep deep t ≡ false
      → (length t.jitter_buffer ≤ 20) × (length t.jitter_buffer ≤ deep)
  unfolding too_deep
  shallow_bounds deep t p h = ground (arith, depth-IsPlaced t p)

  pub accept-IsAccepted :
      (frame : ℕ) (x : BufferedPacket) (s : UserAudioState D J)
      → IsPlaced s
      → (not s.started || leb s.next_play_frame frame) ≡ true
      → IsAccepted frame x s (accept frame x s)
  unfolding accept
  accept-IsAccepted frame x s p h =
      let placed = follow_first (buffer_packet frame x s) in
      let same : max_depth placed ≡ max_depth s = max_depth-placed frame x s in
      let fuel = length placed.jitter_buffer in
      let done =
        trim-IsTrimmed fuel (max_depth placed) placed (store-IsPlaced frame x s p h)
          (omega arith) in
      let t = trim fuel (max_depth placed) placed in
      let fits = shallow_bounds (max_depth placed) t done.placed done.shallow in
      record {
        placed = done.placed;
        few = fits.0;
        bounded = rw (← same) fits.1;
        only =
            done.only
            ∙ ap
                (λ (y : UserAudioState D J). record y {
                  jitter_buffer = t.jitter_buffer;
                  next_play_frame = t.next_play_frame;
                })
                (placed_only frame x s);
      }

  -- The frames that a started stream may hold after an accepted packet.
  abbrev pub within_target : UserAudioState D J → Bool
  within_target t = not t.started || leb (length t.jitter_buffer) (t.target_frames + 4)

  pub accept-IsValid :
      (frame : ℕ) (x : BufferedPacket) (s : UserAudioState D J)
      → IsPlaced s
      → (2 ≤ s.target_frames) × (s.target_frames ≤ 12)
      → length s.pending_eos_seqs ≤ 8
      → (not s.started || leb s.next_play_frame frame) ≡ true
      → IsValid (accept frame x s)
        × (within_target (accept frame x s) ≡ true)
        × ((accept frame x s).consecutive_late ≡ 0)
  unfolding max_depth
  accept-IsValid frame x s p aims eos h =
      let a = accept-IsAccepted frame x s p h in
      let target = ap (λ (y : UserAudioState D J). y.target_frames) a.only in
      let markers = ap (λ (y : UserAudioState D J). y.pending_eos_seqs) a.only in
      let started = ap (λ (y : UserAudioState D J). y.started) a.only in
      let late = ap (λ (y : UserAudioState D J). y.consecutive_late) a.only in
      (
        record {
          placed = a.placed;
          few = a.few;
          target = rw target aims;
          markers = rw markers eos;
          late = rw late (omega arith);
        },
        ground (arith, a.bounded),
        late,
      )
