-- ===== src/Gate.antt =====
-- crates/rumble-client/src/processors/vad_shaper.rs: the state machine that turns a score for each
-- audio frame into an open or closed gate. A `u32` is a natural number, `saturating_add` stops at
-- 2 ^ 32 - 1. The scores are `f32`: their comparison and `f32::min` are a parameter.
pub mod Timing
mod Tests
use rumble.Prelude.{
  ℕ, ◌+◌, ◌-◌, ◌*◌, ◌/◌, ◌%◌, ◌^◌, ◌≡◌, min, Bool, true, false, List, [], ◌∷◌, ltb, leb,
  if◌then◌else◌,
}

-- What is greater than a number is greater than the minimum of it and any other, also where one of
-- them is not a number (`f32::min` then returns the other).
pub record Scores : Type 1 where
  pub F32 : Type 0
  pub gt : F32 → F32 → Bool
  pub lesser : F32 → F32 → F32
  pub gt-lesser : (s r t : F32) → gt s t ≡ true → gt s (lesser r t) ≡ true

pub record VadShaperSettings ⦃N : Scores⦄ : Type 0 where
  pub trigger : N.F32
  pub release : N.F32
  pub attack_ms : ℕ
  pub holdoff_ms : ℕ

pub record VadShaper : Type 0 where
  pub voice_active : Bool
  pub attack_samples_accumulated : ℕ
  pub holdoff_samples_remaining : ℕ

-- `VadShaper::new`.
pub new_shaper : VadShaper
new_shaper = record {
  voice_active = false;
  attack_samples_accumulated = 0;
  holdoff_samples_remaining = 0;
}

pub reset : VadShaper → VadShaper
reset s = record s {
  voice_active = false;
  attack_samples_accumulated = 0;
  holdoff_samples_remaining = 0;
}

pub is_active : VadShaper → Bool
is_active s = s.voice_active

pub ms_to_samples : ℕ → ℕ → ℕ
ms_to_samples ms sample_rate = ms * sample_rate / 1000 % 2 ^ 32

abbrev pub saturating_add : ℕ → ℕ → ℕ
saturating_add a b = min (a + b) (2 ^ 32 - 1)

module _ ⦃N : Scores⦄ where
  pub update : N.F32 → ℕ → ℕ → VadShaperSettings → VadShaper → VadShaper
  update score frame_samples sample_rate settings s =
      let trigger = settings.trigger in
      let release = N.lesser settings.release trigger in
      let holdoff_samples = ms_to_samples settings.holdoff_ms sample_rate in
      let attack_samples_required = ms_to_samples settings.attack_ms sample_rate in
      let accumulated = saturating_add s.attack_samples_accumulated frame_samples in
      if s.voice_active
      then (if N.gt score release
          then record s { holdoff_samples_remaining = holdoff_samples }
          else if ltb 0 s.holdoff_samples_remaining
          then record s { holdoff_samples_remaining = s.holdoff_samples_remaining - frame_samples }
          else record s { voice_active = false; attack_samples_accumulated = 0 })
      else if N.gt score trigger
      then (if leb attack_samples_required accumulated
          then record {
            voice_active = true;
            attack_samples_accumulated = 0;
            holdoff_samples_remaining = holdoff_samples;
          }
          else record s { attack_samples_accumulated = accumulated })
      else record s { attack_samples_accumulated = 0 }
