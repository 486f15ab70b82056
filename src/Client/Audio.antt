-- ===== src/Client/Audio.antt =====
-- The membership of our room in the audio task (crates/rumble-client/src/audio_task.rs): how the
-- commands change `room_members`, and `gc_orphaned_users`. A hash set is a list.
pub mod Members
pub mod Tracking
mod Tests
use rumble.Prelude.{
  ℕ, ◌-◌, ◌*◌, ◌^◌, Bool, true, false, not, ◌||◌, List, [], ◌∷◌, ◌==◌, if◌then◌else◌, retain, leb,
}
use rumble.Prelude.Predicates.{mentions}
use rumble.Client.{
  AudioCommand, user_joined_room, user_left_room, room_changed, set_server_muted, peer_left,
  connection_closed,
}

abbrev pub insert_id : ℕ → List ℕ → List ℕ
insert_id user_id ids = if mentions user_id ids then ids else user_id ∷ ids

abbrev pub remove_id : ℕ → List ℕ → List ℕ
remove_id user_id = retain (λ id. not (id == user_id))

-- `extend` with the ids that are not ours.
pub extend : ℕ → List ℕ → List ℕ → List ℕ
extend my_user_id [] members = members
extend my_user_id (id ∷ ids) members =
    extend my_user_id ids (if id == my_user_id then members else insert_id id members)

-- Only the set: decoders, and our own id, which a closed connection forgets, are left out.
pub hear : ℕ → AudioCommand → List ℕ → List ℕ
unfolding extend
hear my_user_id (user_joined_room user_id) members =
    if user_id == my_user_id then members else insert_id user_id members
hear my_user_id (user_left_room user_id) members = remove_id user_id members
hear my_user_id (room_changed user_ids) members = extend my_user_id user_ids []
hear my_user_id (peer_left user_id) members = remove_id user_id members
hear my_user_id connection_closed members = []
hear my_user_id (set_server_muted muted) members = members

pub hear_all : ℕ → List AudioCommand → List ℕ → List ℕ
unfolding hear
hear_all my_user_id [] members = members
hear_all my_user_id (cmd ∷ cmds) members = hear_all my_user_id cmds (hear my_user_id cmd members)

-- Nanoseconds.
abbrev pub orphan_decoder_ttl : ℕ
orphan_decoder_ttl = 300 * 10 ^ 9

-- The decoders that stay, each with the time of its last packet.
pub gc_orphaned_users : List ℕ → ℕ → List (ℕ × ℕ) → List (ℕ × ℕ)
gc_orphaned_users members now =
    retain (λ d. mentions d.0 members || leb (now - d.1) orphan_decoder_ttl)
