-- ===== src/Relay/Voice/Hearing.antt =====
-- Who hears a client that speaks for itself (crates/server/src/handlers.rs), by the fields of its
-- record, the roster and the bytes that it has sent.
use rumble.Prelude.{ℕ, ◌+◌, ◌-◌, ◌^◌, Bool, false, ◌||◌, Option, none, some, leb}
use rumble.Prelude.Predicates.{mentions}
use rumble.Relay.{VoiceRateLimit}
use rumble.Relay.Voice.{RelayPacket}

-- Whether a user is to receive the packet, if there is one.
abbrev pub hears : ℕ → Option RelayPacket → Bool
hears id none = false
hears id (some p) = mentions id p.recipients

-- A second has passed since the window began, or the bytes in it stay within the limit.
abbrev pub is_within : ℕ → ℕ → VoiceRateLimit → Bool
is_within now bytes r = leb (10 ^ 9) (now - r.window_start) || leb (r.bytes_in_window + bytes) 32000
