-- ===== src/Moderation.antt =====
-- The moderation of users: `apply_kick` and `apply_ban` of crates/server/src/ops.rs over the members
-- and sessions of the server and its database. The texts of the notice and of the reply are left
-- out; of the notice its addressee, its author and the code that closes the connection are kept.
pub mod Bans
mod Tests
use rumble.Prelude.{
  ℕ, Bool, true, false, Option, none, some, String, List, [], ◌∷◌, map, ◌==◌, if◌then◌else◌,
  nat_keys, text_keys,
}
use rumble.Prelude.Equality.{get?}
use rumble.Prelude.Fallible.{is_some, or_keep}
use rumble.Permission.{banned}
use rumble.Sled.{Sled}
use rumble.Persistence.{Persistence, get_group, create_group}
use rumble.Persistence.Memberships.{add_name, add_user_to_group, set_ban}
use rumble.Relay.{ServerState, Client, Member, client, get_client, get_session}
use rumble.Relay.Departure.{cleanup_client}

pub record Site ⦃S : Sled⦄ : Type 0 where
  pub server : ServerState
  pub persistence : Persistence

pub data ModerationError : Type 0 where
  user_not_found : ModerationError
  driven_by_a_controller : ModerationError
  is_a_superuser : ModerationError
  is_a_bridge : ModerationError
  no_public_key : ModerationError

pub record UserKicked : Type 0 where
  pub user_id : ℕ
  pub kicked_by : String
  pub close_code : ℕ

-- The notice, and the users whose leaving is broadcast.
pub data Outcome : Type 0 where
  refused : ModerationError → Outcome
  removed : UserKicked → List ℕ → Outcome

abbrev pub not_a_client_reason : ℕ → ServerState → ModerationError
not_a_client_reason target_user_id s =
    if is_some (get? target_user_id s.members) then driven_by_a_controller else user_not_found

-- The handle of a member is shared: a change of it is seen through the member.
abbrev pub set_handle : ℕ → Client → ServerState → ServerState
set_handle user_id handle s = record s {
  members =
      map
        (λ (e : ℕ × Member).
          if e.0 == user_id then (e.0, record e.1 { binding = client handle }) else e)
        s.members;
}

abbrev pub with_banned : Client → Client
with_banned c = record c {
  identity = record c.identity { groups = add_name "banned" c.identity.groups };
}

module _ ⦃S : Sled⦄ where
  -- The guards that both operations begin with.
  abbrev pub with_target : ℕ → Site → (Client → Outcome × Site) → Outcome × Site
  with_target target_user_id w next = elim (get_client target_user_id w.server) [
    | none ↦ (refused (not_a_client_reason target_user_id w.server), w)
    | some c ↦
        if c.is_superuser
        then (refused is_a_superuser, w)
        else if c.is_controller
        then (refused is_a_bridge, w)
        else next c
  ]

  -- The notice, the close and the teardown.
  abbrev pub disconnect : ℕ → String → ℕ → Client → Site → Outcome × Site
  disconnect target_user_id actor close_code c w =
      let (server, left) = cleanup_client c w.server in
      (
        removed (record { user_id = target_user_id; kicked_by = actor; close_code = close_code })
            left,
        record w { server = server },
      )

  pub apply_kick : ℕ → String → Site → Outcome × Site
  apply_kick target_user_id actor w =
      with_target target_user_id w (λ c. disconnect target_user_id actor 2 c w)

  abbrev pub with_banned_group : Persistence → Persistence
  with_banned_group p =
      if is_some (get_group "banned" p) then p else or_keep (create_group "banned" banned p) p

  -- A write that fails is skipped.
  abbrev pub store_ban : ℕ → ℕ → ℕ → String → String → Persistence → Persistence
  store_ban target_key banned_at_secs duration_seconds reason actor p =
      let p' = or_keep (add_user_to_group target_key "banned" p) p in
      or_keep
        (set_ban target_key
          (record {
            banned_at_secs = some banned_at_secs;
            duration_seconds = duration_seconds;
            reason = reason;
            banned_by = actor;
          })
          p')
        p'

  abbrev pub ban_target : ℕ → ℕ → String → String → ℕ → Site → Client → Outcome × Site
  ban_target target_user_id duration_seconds reason actor now w c =
      let p = with_banned_group w.persistence in
      elim (get_session target_user_id w.server) [
        | none ↦ (refused no_public_key, record w { persistence = p })
        | some session ↦ disconnect target_user_id actor 3 (with_banned c) (record {
          server = set_handle target_user_id (with_banned c) w.server;
          persistence = store_ban session.user_public_key now duration_seconds reason actor p;
        })
      ]

  pub apply_ban : ℕ → ℕ → String → String → ℕ → Site → Outcome × Site
  apply_ban target_user_id duration_seconds reason actor now w =
      with_target target_user_id w (ban_target target_user_id duration_seconds reason actor now w)
