-- ===== src/Jitter/Playout/Gap.antt =====
-- How playout in crates/rumble-client/src/audio_task.rs tells a loss from a silence: by the sender's
-- numbering against its media clock.
use rumble.Prelude.OrderedMap
use rumble.Prelude.{ℕ, ◌+◌, ◌%◌, ◌^◌, ◌<◌, ◌≡◌, true, ◌&&◌, List, ◌∷◌, map, ltb}
use rumble.Prelude.Predicates.{every}
use rumble.Jitter.{UserAudioState, BufferedPacket}
use rumble.Jitter.Playout.{VoiceDecoder, expire, prime}

module _ {D J : Type 0} where
  -- A gap as the sender sees it: the last frame played has number `q`, the next one buffered is
  -- `n` datagrams on, and the end-of-stream markers received are `marks` of those between.
  pub record SenderGap (q n : ℕ) (marks : List ℕ) (next : ℕ × BufferedPacket)
      (rest : List (ℕ × BufferedPacket)) (s : UserAudioState D J) : Type 0 where
    pub playing : s.started ≡ true
    pub buffered : s.jitter_buffer ≡ next ∷ rest
    pub missing : s.next_play_frame < next.0
    pub turn : n < 2 ^ 32
    pub last : s.last_played_seq ≡ q % 2 ^ 32
    pub following : next.1.seq ≡ (q + n) % 2 ^ 32
    pub markers : s.pending_eos_seqs ≡ map (λ i. (q + i) % 2 ^ 32) marks
    pub between : every (λ i. ltb 0 i && ltb i n) marks ≡ true

  -- What the start of a tick leaves.
  abbrev Same : UserAudioState D J → UserAudioState D J → Type 0
  Same s t =
      (t.started ≡ s.started)
      × (t.jitter_buffer ≡ s.jitter_buffer)
      × (t.next_play_frame ≡ s.next_play_frame)
      × (t.last_played_seq ≡ s.last_played_seq)
      × (t.pending_eos_seqs ≡ s.pending_eos_seqs)
      × (t.last_played_frame ≡ s.last_played_frame)
      × (t.packets_lost ≡ s.packets_lost)

module _ {D J A : Type 0} (voice : VoiceDecoder D A) where
  -- The start of a tick: the stale-stream guard and the discarded frame.
  abbrev begin : ℕ → UserAudioState D J → UserAudioState D J
  begin now s = prime voice (expire now s)
