-- ===== src/Gate/Timing.antt =====
-- When the gate of crates/rumble-client/src/processors/vad_shaper.rs opens and closes.
use rumble.Prelude.{
  ℕ, suc, ◌+◌, ◌-◌, ◌*◌, ◌^◌, ◌<◌, ◌≡◌, Bool, true, false, not, List, [], ◌∷◌, ltb, leb, length,
  arith, Bool-cases, inl, inr,
}
use rumble.Prelude.Predicates.{every}
use rumble.Gate.{Scores, VadShaperSettings, VadShaper, ms_to_samples, update}

mul-suc : (m f : ℕ) → suc m * f ≡ m * f + f
mul-suc m f = grind arith

module _ ⦃N : Scores⦄ (frame rate : ℕ) (settings : VadShaperSettings) where
  -- A run of frames, the first one first.
  abbrev pub run : List N.F32 → VadShaper → VadShaper
  run [] s = s
  run (x ∷ xs) s = run xs (update x frame rate settings s)

  abbrev pub loud : N.F32 → Bool
  loud x = N.gt x settings.trigger

  abbrev pub quiet : N.F32 → Bool
  quiet x = not (N.gt x (N.lesser settings.release settings.trigger))

  small : ms_to_samples settings.attack_ms rate < 2 ^ 32
  unfolding ms_to_samples
  small = omega arith

  loud_step :
      (x : N.F32) (s : VadShaper)
      → s.voice_active ≡ false
      → loud x ≡ true
      → ((update x frame rate settings s).voice_active
          ≡ leb (ms_to_samples settings.attack_ms rate) (s.attack_samples_accumulated + frame))
        × (s.attack_samples_accumulated + frame < ms_to_samples settings.attack_ms rate
            → (update x frame rate settings s).attack_samples_accumulated
              ≡ s.attack_samples_accumulated + frame)
  unfolding update
  loud_step x s a l = (ground (arith, small), λ h. ground (arith, small))

  -- A closed gate opens with the first of a run of loud frames at which the samples of the run,
  -- with those counted before it, reach the attack time, and stays closed before.
  pub run_attack :
      (xs : List N.F32) (x : N.F32) (s : VadShaper)
      → s.voice_active ≡ false
      → every loud xs ≡ true
      → loud x ≡ true
      → s.attack_samples_accumulated + length xs * frame < ms_to_samples settings.attack_ms rate
      → ((run xs s).voice_active ≡ false)
        × ((update x frame rate settings (run xs s)).voice_active
            ≡ leb
                (ms_to_samples settings.attack_ms rate)
                (s.attack_samples_accumulated + length xs * frame + frame))
  run_attack [] x s a l lx h = (a, ground (arith, loud_step x s a lx))
  run_attack (y ∷ ys) x s a l lx h =
      let more = mul-suc (length ys) frame in
      let first = loud_step y s a (ground arith) in
      let kept = first.1 (omega (arith, more)) in
      let rest =
        run_attack ys x (update y frame rate settings s) (ground (arith, more)) (ground arith) lx
          (omega (arith, more, kept)) in
      (rest.0, ground (arith, more, kept, rest.1))

  closed_stays :
      (xs : List N.F32) (s : VadShaper)
      → s.voice_active ≡ false
      → every quiet xs ≡ true
      → (run xs s).voice_active ≡ false
  unfolding update
  closed_stays [] s a q = a
  closed_stays (x ∷ xs) s a q =
      closed_stays xs (update x frame rate settings s)
        (ground (arith, N.gt-lesser x settings.release settings.trigger)) (ground arith)

  quiet_step :
      (x : N.F32) (s : VadShaper)
      → s.voice_active ≡ true
      → quiet x ≡ true
      → ((update x frame rate settings s).voice_active ≡ ltb 0 s.holdoff_samples_remaining)
        × (0 < s.holdoff_samples_remaining
            → (update x frame rate settings s).holdoff_samples_remaining
              ≡ s.holdoff_samples_remaining - frame)
  unfolding update
  quiet_step x s a q = (ground arith, λ h. ground arith)

  -- An open gate is still open after a run of quiet frames exactly if the samples of the frames
  -- before the last do not use up what remained of the holdoff time.
  pub run_holdoff :
      (x : N.F32) (xs : List N.F32) (s : VadShaper)
      → s.voice_active ≡ true
      → every quiet (x ∷ xs) ≡ true
      → (run (x ∷ xs) s).voice_active ≡ ltb (length xs * frame) s.holdoff_samples_remaining
  run_holdoff x [] s a q = ground (arith, quiet_step x s a)
  run_holdoff x (y ∷ ys) s a q =
      let more = mul-suc (length ys) frame in
      let first = quiet_step x s a (ground arith) in
      elim (Bool-cases (ltb 0 s.holdoff_samples_remaining)) [
        | inl left ↦
            let kept = first.1 (ground arith) in
            let rest =
              run_holdoff y ys (update x frame rate settings s) (ground arith) (ground arith) in
            ground (arith, more, kept, rest)
        | inr over ↦ ground (
          arith,
          more,
          closed_stays (y ∷ ys) (update x frame rate settings s) (ground arith) (ground arith),
        )
      ]
