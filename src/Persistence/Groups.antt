-- ===== src/Persistence/Groups.antt =====
-- The permission groups of crates/server/src/persistence.rs: what a toggle of flags does.
use rumble.Prelude.{
  ℕ, ◌-◌, ◌^◌, ◌<◌, ◌≡◌, Bool, true, false, Option, none, some, String, if◌then◌else◌, str_eq,
  str_eq_iff, text_keys, arith, Option-cases, inl, inr,
}
use rumble.Prelude.Bits.{has, has-or, has-and, has-xor, has-ones}
use rumble.Sled.{Sled}
use rumble.Persistence.{
  Persistence, PersistedGroup, toggled, map_old, flip32, get_group, toggle_group_permission,
}

has-toggled :
    (bits : ℕ) (enable : Bool) (g : PersistedGroup) (k : ℕ)
    → k < 32
    → has (toggled bits enable g).permissions k
      ≡ (if has bits k then enable else has g.permissions k)
has-toggled bits true g k h = ground (arith, has-or g.permissions bits k)
has-toggled bits false g k h =
    ground
      (arith, has-and g.permissions (flip32 bits) k, has-xor (2 ^ 32 - 1) bits k, has-ones 32 k h)

module _ ⦃S : Sled⦄ where
  -- When a toggle of flags of a group that exists is stored, each of the 32 flags that it names has
  -- the desired state and each other flag is as before, every other group is as before, and the
  -- stored set is returned.
  pub toggle_group_permission_lem :
      (name other : String) (bits : ℕ) (enable : Bool) (p p' : Persistence) (r : Option ℕ)
      (g : PersistedGroup) (k : ℕ)
      → k < 32
      → get_group name p ≡ some g
      → toggle_group_permission name bits enable p ≡ some (p', r)
      → (g' : PersistedGroup) × (get_group other p'
          ≡ (if str_eq name other then some g' else get_group other p))
        × (r ≡ some g'.permissions)
        × (has g'.permissions k ≡ (if has bits k then enable else has g.permissions k))
  unfolding get_group toggle_group_permission
  toggle_group_permission_lem name other bits enable p p' r g k h e t =
      elim (Option-cases (S.update_and_fetch p.groups name (map_old (toggled bits enable)))) [
        | inl failed ↦ absurd (ground (arith, failed))
        | inr ((u, updated), stored) ↦
            let law =
              S.get-update_and_fetch p.groups name (map_old (toggled bits enable)) other stored in
            (
              toggled bits enable g,
              ground (arith, stored, law),
              ground (arith, stored, law),
              has-toggled bits enable g k h,
            )
      ]

  -- When a toggle of a group that does not exist succeeds, it returns no set and every group reads
  -- as before.
  pub toggle_group_permission_missing :
      (name other : String) (bits : ℕ) (enable : Bool) (p p' : Persistence) (r : Option ℕ)
      → get_group name p ≡ none
      → toggle_group_permission name bits enable p ≡ some (p', r)
      → (r ≡ none) × (get_group other p' ≡ get_group other p)
  unfolding get_group toggle_group_permission
  toggle_group_permission_missing name other bits enable p p' r e t =
      elim (Option-cases (S.update_and_fetch p.groups name (map_old (toggled bits enable)))) [
        | inl failed ↦ absurd (ground (arith, failed))
        | inr ((u, updated), stored) ↦
            let law =
              S.get-update_and_fetch p.groups name (map_old (toggled bits enable)) other stored in
            (ground (arith, stored, law), ground (arith, stored, law, str_eq_iff name other))
      ]
