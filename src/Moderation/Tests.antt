-- ===== src/Moderation/Tests.antt =====
-- A kick and a ban of crates/server/src/ops.rs at concrete input.
use rumble.Prelude.{◌≡◌, ℕ, refl, true, false, none, [], ◌∷◌, ◌==◌, text_keys, nat_keys}
use rumble.Sled.Memory.{memory}
use rumble.Persistence.Example.{two_groups}
use rumble.Rooms.Example.{small_house}
use rumble.Relay.{Client, SessionEntry, client, get_client}
use rumble.Moderation.{Site, refused, is_a_superuser, user_not_found, apply_kick, apply_ban}

abbrev handle : ℕ → Client
handle n = record {
  user_id = n;
  authenticated = true;
  is_controller = false;
  server_muted = false;
  torn_down = false;
  is_superuser = n == 1;
  identity = record { display_name = "user"; verified_username = none; label = none; groups = [] };
}

abbrev entry : SessionEntry
entry = record { user_public_key = 7; session_public_key = 8; session_id = 9 }

-- The superuser 1 and the user 2, whose session has the key 7.
abbrev site : Site
site = record {
  server = record {
    members =
        (1, record { user_id = 1; binding = client (handle 1) })
        ∷ (2, record { user_id = 2; binding = client (handle 2) })
        ∷ [];
    state_data = small_house;
    next_user_id = 3;
    sessions = (2, entry) ∷ [];
    sessions_by_id = (9, 2) ∷ [];
    voice_rate_limits = [];
    audio_sinks = [];
    next_sub_id = 0;
  };
  persistence = two_groups;
}

superuser_stays : apply_kick 1 "ann" site ≡ (refused is_a_superuser, site)
unfolding apply_kick get_client
superuser_stays = refl

nobody_there : apply_ban 5 60 "" "ann" 100 site ≡ (refused user_not_found, site)
unfolding apply_ban get_client
nobody_there = refl
