-- ===== src/Gate/Tests.antt =====
-- The theorems about crates/rumble-client/src/processors/vad_shaper.rs at concrete input, with
-- natural numbers as the scores.
use rumble.Prelude.{ℕ, ◌+◌, ◌*◌, ◌≡◌, ◌<◌, refl, min, true, false, [], ◌∷◌, ltb, length, arith}
use rumble.Gate.{Scores, VadShaperSettings, VadShaper, new_shaper, ms_to_samples, update}
use rumble.Gate.Timing.{run, run_holdoff}

gt-min : (s r t : ℕ) → ltb t s ≡ true → ltb (min r t) s ≡ true
gt-min s r t h = ground arith

instance abbrev whole_scores : Scores
whole_scores = record { F32 = ℕ; gt = λ s t. ltb t s; lesser = min; gt-lesser = gt-min }

abbrev settings : VadShaperSettings
settings = record { trigger = 50; release = 40; attack_ms = 30; holdoff_ms = 100 }

-- 30 ms at 48 kHz are 1440 samples: the second frame of 960 samples opens the gate.
opens : (run 960 48000 settings (60 ∷ 70 ∷ []) new_shaper).voice_active ≡ true
unfolding update ms_to_samples new_shaper
opens = refl

closed : new_shaper.voice_active ≡ false
unfolding new_shaper
closed = refl

room_left :
    new_shaper.attack_samples_accumulated + length {A = ℕ} (60 ∷ []) * 960 < ms_to_samples 30 48000
unfolding new_shaper ms_to_samples
room_left = omega arith

abbrev opened : VadShaper
opened = record {
  voice_active = true;
  attack_samples_accumulated = 0;
  holdoff_samples_remaining = 1500;
}

run_holdoff_example :
    (run 960 48000 settings (10 ∷ 20 ∷ 30 ∷ []) opened).voice_active
    ≡ ltb (length {A = ℕ} (20 ∷ 30 ∷ []) * 960) 1500
run_holdoff_example = run_holdoff 960 48000 settings 10 (20 ∷ 30 ∷ []) opened refl refl
