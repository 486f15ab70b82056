-- ===== src/Persistence/Memberships/Active.antt =====
-- `active_user_groups` of crates/server/src/persistence.rs: the lazy end of timed memberships.
use rumble.Prelude.{
  ℕ, ◌≡◌, refl, ◌∙◌, Bool, true, false, not, ◌&&◌, String, List, [], ◌∷◌, if◌then◌else◌, str_eq,
  str_eq_iff, retain, nat_keys, text_keys, pair_keys, elem, arith, Option-cases, inl, inr,
}
use rumble.Prelude.Fallible.{or_keep}
use rumble.Sled.{Sled}
use rumble.Persistence.{Persistence}
use rumble.Persistence.Memberships.{
  get_user_groups, get_group_expiry, remove_user_from_group, has_expired, keep_active,
  active_user_groups,
}
use rumble.Persistence.Memberships.Laws.{remove_user_from_group_lem}

-- No name is listed twice.
abbrev pub names_once : List String → Bool
names_once [] = true
names_once (x ∷ xs) = not (elem x xs) && names_once xs

retain_same :
    (p q : String → Bool) (xs : List String)
    → ((x : String) → elem x xs ≡ true → p x ≡ q x)
    → retain p xs ≡ retain q xs
retain_same p q [] h = refl
retain_same p q (x ∷ xs) h =
    let rest = retain_same p q xs (λ y m. h y (ground (arith, m))) in
    ground (arith, rest, h x, str_eq_iff x x)

module _ ⦃S : Sled⦄ (k now : ℕ) where
  -- The store after one group of the loop.
  after : String → Persistence → Persistence
  after g p =
      if has_expired now (get_group_expiry k g p)
      then or_keep (remove_user_from_group k g p) p
      else p

  get_group_expiry-after :
      (g i : String) (p : Persistence)
      → str_eq g i ≡ false
      → get_group_expiry k i (after g p) ≡ get_group_expiry k i p
  unfolding after
  get_group_expiry-after g i p n = elim (Option-cases (remove_user_from_group k g p)) [
    | inl failed ↦ ground (arith, failed)
    | inr (q, removed) ↦
        ground (arith, removed, (remove_user_from_group_lem k k g i p q removed).1 (ground arith))
  ]

  is_active : Persistence → String → Bool
  is_active p g = not (has_expired now (get_group_expiry k g p))

  keep_active-retain :
      (gs : List String) (p : Persistence)
      → names_once gs ≡ true
      → (keep_active k now gs p).0 ≡ retain (λ g. not (has_expired now (get_group_expiry k g p))) gs
  unfolding keep_active after
  keep_active-retain [] p h = refl
  keep_active-retain (g ∷ gs) p h =
      let rest =
        keep_active-retain gs (after g p) (ground arith)
        ∙ retain_same (λ i. not (has_expired now (get_group_expiry k i (after g p))))
            (λ i. not (has_expired now (get_group_expiry k i p))) gs
            (λ i m. ground (arith, get_group_expiry-after g i p, m, str_eq_iff g i)) in
      ground (arith, rest)

  -- A user whose groups are listed once each acts, at a given time, with exactly the groups whose
  -- membership is permanent or not yet over, whether or not the clean-up of the others is stored.
  pub active_user_groups-retain :
      (p : Persistence)
      → names_once (get_user_groups k p) ≡ true
      → (active_user_groups k now p).0
        ≡ retain (λ g. not (has_expired now (get_group_expiry k g p))) (get_user_groups k p)
  unfolding active_user_groups
  active_user_groups-retain p h = keep_active-retain (get_user_groups k p) p h
