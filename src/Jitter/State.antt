-- ===== src/Jitter/State.antt =====
-- The constants of the jitter buffer in crates/rumble-client/src/audio_task.rs, its packets and its
-- state. The volume and the receiving pipeline, which no operation here reads, are left out.
use rumble.Prelude.{ℕ, Bool, List}

abbrev pub frame_us : ℕ
frame_us = 20000

abbrev pub jitter_buffer_max_packets : ℕ
jitter_buffer_max_packets = 20

abbrev pub min_target_frames : ℕ
min_target_frames = 2

abbrev pub max_target_frames : ℕ
max_target_frames = 12

abbrev pub drift_drop_slack : ℕ
drift_drop_slack = 4

abbrev pub restart_backward_frames : ℕ
restart_backward_frames = 100

abbrev pub late_resync_frames : ℕ
late_resync_frames = 10

pub record BufferedPacket : Type 0 where
  pub seq : ℕ
  pub opus : List ℕ

pub record UserAudioState (D J : Type 0) : Type 0 where
  pub decoder : D
  pub jitter_buffer : List (ℕ × BufferedPacket)
  pub next_play_frame : ℕ
  pub started : Bool
  pub last_played_seq : ℕ
  pub last_played_frame : ℕ
  pub target_frames : ℕ
  pub base_frames : ℕ
  pub jitter_est_us : J
  pub last_arrival : ℕ
  pub last_arrival_frame : ℕ
  pub have_arrival : Bool
  pub packets_received : ℕ
  pub packets_lost : ℕ
  pub packets_recovered_fec : ℕ
  pub frames_concealed : ℕ
  pub bytes_received : ℕ
  pub stream_ended : Bool
  pub needs_prime : Bool
  pub pending_eos_seqs : List ℕ
  pub consecutive_late : ℕ

-- The smoothed jitter in floating point: the first estimate, the one after an arrival so many
-- microseconds and media frames behind the last, and the frames that hold twice the estimate.
pub record JitterEstimate (J : Type 0) : Type 0 where
  pub initial : J
  pub smooth : J → ℕ → ℕ → J
  pub headroom : J → ℕ
