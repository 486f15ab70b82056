-- ===== src/Moderation/Bans.antt =====
-- What a kick and a ban of crates/server/src/ops.rs leave behind.
use rumble.Prelude.{text_keys, nat_keys}
use rumble.Sled.{Sled}
use rumble.Persistence.{Persistence}
