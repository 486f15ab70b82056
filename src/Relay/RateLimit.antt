-- ===== src/Relay/RateLimit.antt =====
-- The bytes that the fixed window of `VoiceRateLimit` in crates/server/src/state.rs lets through.
use rumble.Prelude.{
  ℕ, ◌+◌, ◌-◌, ◌/◌, ◌^◌, ◌≤◌, ◌≡◌, Bool, true, false, ◌&&◌, List, [], ◌∷◌, ltb, leb, if◌then◌else◌,
  arith, Bool-cases, inl, inr,
}
use rumble.Prelude.Predicates.{every}
use rumble.Relay.{VoiceRateLimit, check}

-- The bytes accepted of a run of datagrams, each with its time and its size.
pub accepted : List (ℕ × ℕ) → VoiceRateLimit → ℕ
accepted [] r = 0
accepted ((now, bytes) ∷ rest) r =
    let (r', allowed) = check now bytes r in (if allowed then bytes else 0) + accepted rest r'

-- Within a second from a time, and no more than a window's worth each.
abbrev pub in_second : ℕ → ℕ × ℕ → Bool
in_second start (now, bytes) = leb start now && ltb now (start + 10 ^ 9) && leb bytes 32000

-- While the window is open it lets no more through than it has left.
accepted-open :
    (start : ℕ) (run : List (ℕ × ℕ)) (r : VoiceRateLimit)
    → every (in_second start) run ≡ true
    → start ≤ r.window_start
    → r.bytes_in_window ≤ 32000
    → accepted run r + r.bytes_in_window ≤ 32000
unfolding accepted check
accepted-open start [] r h w b = omega arith
accepted-open start ((now, bytes) ∷ rest) r h w b =
    let still : leb 1 ((now - r.window_start) / 10 ^ 9) ≡ false = ground arith in
    elim (Bool-cases (ltb 32000 (r.bytes_in_window + bytes))) [
      | inl over ↦
          rw (check, still, over) (omega (arith, accepted-open start rest r (ground arith) w b))
      | inr fits ↦
          let r' = record r { bytes_in_window = r.bytes_in_window + bytes } in
          rw (check, still, fits)
            (omega (arith, accepted-open start rest r' (ground arith) w (ground arith)))
    ]

-- Of datagrams that are no larger than the limit of 32,000 bytes and come within one second, no more
-- than twice the limit passes, less what the open window has counted before.
pub accepted-le :
    (start : ℕ) (run : List (ℕ × ℕ)) (r : VoiceRateLimit)
    → every (in_second start) run ≡ true
    → r.bytes_in_window ≤ 32000
    → accepted run r + r.bytes_in_window ≤ 64000
unfolding accepted check
accepted-le start [] r h b = omega arith
accepted-le start ((now, bytes) ∷ rest) r h b =
    elim (Bool-cases (leb 1 ((now - r.window_start) / 10 ^ 9))) [
      | inl reset ↦
          let r' : VoiceRateLimit = record { window_start = now; bytes_in_window = bytes } in
          rw (check, reset)
            (omega
              (arith, accepted-open start rest r' (ground arith) (ground arith) (ground arith)))
      | inr still ↦ elim (Bool-cases (ltb 32000 (r.bytes_in_window + bytes))) [
        | inl over ↦
            rw (check, still, over) (omega (arith, accepted-le start rest r (ground arith) b))
        | inr fits ↦
            let r' = record r { bytes_in_window = r.bytes_in_window + bytes } in
            rw (check, still, fits)
              (omega (arith, accepted-le start rest r' (ground arith) (ground arith)))
      ]
    ]
