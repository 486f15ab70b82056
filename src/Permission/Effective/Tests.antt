-- ===== src/Permission/Effective/Tests.antt =====
-- Runs of crates/rumble-protocol/src/permissions.rs, and the theorems about it at concrete input.
use rumble.Prelude.{ℕ, ◌≡◌, refl, true, false, none, some, String, List, [], ◌∷◌, Option, text_keys}
use rumble.Prelude.Bits.{has}
use rumble.Permission.{RoomAclData, default_permissions, mute_deafen, speak}
use rumble.Permission.Flags.{native_flags}
use rumble.Permission.Effective.{
  effective_permissions, base_permissions, walk_chain, apply_room, apply_entries,
}
use rumble.Permission.Effective.Verdict.{allowed, has-effective_permissions}

abbrev muted_below : RoomAclData
muted_below = record {
  inherit_acl = true;
  entries =
      record {
        group = "default";
        grant = mute_deafen;
        deny = speak;
        apply_here = true;
        apply_subs = true;
      }
      ∷ [];
}

abbrev table : List (String × ℕ)
table = ("default", 0x8019f) ∷ []

abbrev chain : List (ℕ × Option RoomAclData)
chain = (0, none) ∷ (7, some muted_below) ∷ []

-- The default group's table entry is the union that the source writes.
default_bits : default_permissions ≡ 0x8019f
unfolding native_flags
default_bits = refl

denied_speak : effective_permissions ("default" ∷ []) table chain false ≡ 0x1bb
unfolding effective_permissions base_permissions walk_chain apply_room apply_entries native_flags
denied_speak = refl

has-effective_permissions_example :
    has (effective_permissions ("default" ∷ []) table chain false) 5
    ≡ allowed ("default" ∷ []) table chain 5
has-effective_permissions_example =
    has-effective_permissions ("default" ∷ []) table 0 none ((7, some muted_below) ∷ []) 5 refl
