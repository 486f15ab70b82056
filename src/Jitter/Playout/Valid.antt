-- ===== src/Jitter/Playout/Valid.antt =====
-- A tick of playout keeps the jitter buffer of crates/rumble-client/src/audio_task.rs valid.
use rumble.Prelude.OrderedMap
use rumble.Prelude.OrderedMap.{
  ascending, ascending_mono, remove_absent, get_ascending, get_absent, range_from_all,
}
use rumble.Prelude.{
  ℕ, suc, ◌≤◌, ◌≡◌, refl, ap, Bool, true, false, not, ◌||◌, ◌&&◌, none, some, List, [], ◌∷◌, length,
  ◌==◌, arith, Bool-cases, Option-cases, inl, inr, length-retain-le,
}
use rumble.Jitter.{UserAudioState, BufferedPacket}
use rumble.Jitter.Valid.{starts_at}
use rumble.Jitter.Arrival.{IsValid}
use rumble.Jitter.Playout.{
  VoiceDecoder, expire, prime, decode_packet, recover, repair, lose, markers_ahead, advance_played,
  successor, stale, is_empty,
}

pub first_from :
    (k : ℕ) (e : ℕ × BufferedPacket) (m : List (ℕ × BufferedPacket))
    → ascending k m ≡ true
    → OrderedMap.first (OrderedMap.range_from k m) ≡ some e
    → (k ≤ e.0) × (ascending e.0 m ≡ true) × (starts_at e.0 m ≡ true)
first_from k e [] a h = cc
first_from k e (f ∷ m) a h = ground arith

ascending-remove :
    (k : ℕ) (m : List (ℕ × BufferedPacket))
    → ascending k m ≡ true
    → ascending (suc k) (OrderedMap.remove k m) ≡ true
ascending-remove k [] a = refl
ascending-remove k (e ∷ m) a = ground (arith, remove_absent k m, ascending_mono (suc k) (suc e.0) m)

pub ascending_absent :
    (k : ℕ) (m : List (ℕ × BufferedPacket))
    → ascending k m ≡ true
    → OrderedMap.get k m ≡ none
    → ascending (suc k) m ≡ true
ascending_absent k [] a h = refl
ascending_absent k (e ∷ m) a h = ground arith

-- A spurt that has not begun has its first frame at the cursor.
pub begun_or_here :
    (k : ℕ) (on : Bool) (m : List (ℕ × BufferedPacket))
    → (on || not (is_empty m)) ≡ true
    → (on || starts_at k m) ≡ true
    → OrderedMap.get k m ≡ none
    → on ≡ true
begun_or_here k true m r b h = refl
begun_or_here k false [] r b h = cc
begun_or_here k false (e ∷ m) r b h = ground arith

length-markers_ahead-le : (n : ℕ) (ms : List ℕ) → length (markers_ahead n ms) ≤ length ms
unfolding markers_ahead
length-markers_ahead-le n ms = length-retain-le _ ms

abbrev pub Core : Type 0
Core = List (ℕ × BufferedPacket) × ℕ × Bool × ℕ × ℕ × List ℕ × ℕ

module _ {D J : Type 0} where
  -- What the order and the bounds are about.
  abbrev pub core : UserAudioState D J → Core
  core s = (
    s.jitter_buffer, s.next_play_frame, s.started, s.last_played_frame, s.target_frames,
    s.pending_eos_seqs, s.consecutive_late,
  )

  -- A valid state whose cursor has not gone back.
  abbrev pub Onward : UserAudioState D J → UserAudioState D J → Type 0
  Onward s t = IsValid t × (s.next_play_frame ≤ t.next_play_frame)

  pub IsValid-core : (s t : UserAudioState D J) → core t ≡ core s → IsValid s → IsValid t
  IsValid-core s t e v = record {
    placed = rw (ap (λ c. c.0) e, ap (λ c. c.1) e, ap (λ c. c.2) e, ap (λ c. c.3) e) v.placed;
    few = rw (ap (λ c. c.0) e) v.few;
    target = rw (ap (λ c. c.4) e) v.target;
    markers = rw (ap (λ c. c.5) e) v.markers;
    late = rw (ap (λ c. c.6) e) v.late;
  }

  pub expire-core : (now : ℕ) (s : UserAudioState D J) → core (expire now s) ≡ core s
  unfolding expire
  expire-core now s = elim (Bool-cases (not s.stream_ended && stale now s)) [
    | inl e ↦ rw e
    | inr e ↦ rw e
  ]

  pub advance_played-IsValid :
      (seq : ℕ) (s : UserAudioState D J) → IsValid s → IsValid (advance_played seq s)
  unfolding advance_played
  advance_played-IsValid seq s v = record {
    placed = (
      ground (arith, ascending-remove s.next_play_frame s.jitter_buffer v.placed.0),
      refl,
      ground arith,
    );
    few = ground (
      arith,
      v.few,
      length-retain-le (λ (e : ℕ × BufferedPacket). not (e.0 == s.next_play_frame)) s.jitter_buffer,
    );
    target = v.target;
    markers = omega (arith, length-markers_ahead-le seq s.pending_eos_seqs);
    late = v.late;
  }

  pub lose-IsValid :
      (s : UserAudioState D J)
      → IsValid s
      → s.started ≡ true
      → OrderedMap.get s.next_play_frame s.jitter_buffer ≡ none
      → IsValid (lose s)
  unfolding lose
  lose-IsValid s v on h = record {
    placed = (
      ground (arith, ascending_absent s.next_play_frame s.jitter_buffer v.placed.0 h),
      ground arith,
      ground (arith, v.placed.2),
    );
    few = v.few;
    target = v.target;
    markers = v.markers;
    late = v.late;
  }

  pub Onward-core : (s t u : UserAudioState D J) → core u ≡ core t → Onward s t → Onward s u
  Onward-core s t u e (v, on) = (IsValid-core t u e v, omega (arith, ap (λ c. c.1) e))

module _ {D J A : Type 0} (voice : VoiceDecoder D A) where
  pub prime-core : (s : UserAudioState D J) → core (prime voice s) ≡ core s
  unfolding prime
  prime-core s = elim (Bool-cases s.needs_prime) [ inl e ↦ rw e | inr e ↦ rw e ]

  pub decode_packet-core :
      (opus : List ℕ) (s : UserAudioState D J) → core (decode_packet voice opus s).0 ≡ core s
  unfolding decode_packet
  decode_packet-core opus s = elim (Option-cases (voice.decode s.decoder opus).1) [
    | inl e ↦ rw (decode_packet, e)
    | inr (a, e) ↦ rw (decode_packet, e)
  ]

  recover-core : (opus : List ℕ) (s : UserAudioState D J) → core (recover voice opus s).0 ≡ core s
  unfolding recover
  recover-core opus s = elim (Option-cases (voice.decode_fec s.decoder opus).1) [
    | inl e ↦ rw (recover, e)
    | inr (a, e) ↦ rw (recover, e)
  ]

  pub repair-core :
      (next : ℕ) (s : UserAudioState D J) → core (repair voice next s).0 ≡ core (lose s)
  unfolding repair
  repair-core next s = elim (Option-cases (successor next s)) [
    | inl e ↦ rw (repair, e)
    | inr (a, e) ↦ rw (repair, e) (recover-core a.1.opus (lose s))
  ]
