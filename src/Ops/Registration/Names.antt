-- ===== src/Ops/Registration/Names.antt =====
-- No registered username is the name of a group (crates/server/src/ops.rs): a username acts as a
-- group of its own, and would carry the permissions of the group.
use rumble.Prelude.{
  ℕ, ◌≡◌, refl, ap, ◌∙◌, Bool, true, false, some, String, List, [], ◌∷◌, any, str_eq, str_eq_iff,
  text_keys, nat_keys, arith, Bool-cases, Option-cases, inl, inr,
}
use rumble.Prelude.Equality.{get?}
use rumble.Sled.{Sled}
use rumble.Persistence.{
  Persistence, RegisteredUser, codes, same_codes, eq_ignore_ascii_case, get_registered_user,
  get_group, register_user, unregister_user, create_group, delete_group, is_username_registered,
}
use rumble.Persistence.Memberships.Laws.{SameUsersAndGroups}
use rumble.Ops.Registration.{names_group}

same_codes_self : (cs : List ℕ) → same_codes cs cs ≡ true
same_codes_self [] = refl
same_codes_self (c ∷ cs) = ground (arith, same_codes_self cs)

-- What no entry of a map passes, no value that is found there passes.
any-get? :
    (test : RegisteredUser → Bool) (k : ℕ) (user : RegisteredUser) (m : List (ℕ × RegisteredUser))
    → any (λ r. test r.1) m ≡ false
    → get? k m ≡ some user
    → test user ≡ false
any-get? test k user [] h g = cc
any-get? test k user ((j, v) ∷ m) h g = ground (arith, any-get? test k user m)

module _ ⦃S : Sled⦄ where
  -- Every registered username is apart from the built-in and the stored groups.
  abbrev pub IsSeparate : Persistence → Type 0
  IsSeparate p =
      (key : ℕ) (user : RegisteredUser)
      → get_registered_user key p ≡ some user
      → names_group user.username p ≡ false

  pub register_user-IsSeparate :
      (k : ℕ) (u : RegisteredUser) (p p' : Persistence)
      → register_user k u p ≡ some p'
      → names_group u.username p ≡ false
      → IsSeparate p
      → IsSeparate p'
  unfolding register_user get_registered_user get_group
  register_user-IsSeparate k u p p' h new sep key user e =
      elim (Option-cases (S.insert p.registered_users k u)) [
        | inl failed ↦ ground (arith, failed)
        | inr (t, stored) ↦
            ground (arith, stored, S.get-insert p.registered_users k u key stored, sep key user)
      ]

  pub unregister_user-IsSeparate :
      (k : ℕ) (p p' : Persistence) → unregister_user k p ≡ some p' → IsSeparate p → IsSeparate p'
  unfolding unregister_user get_registered_user get_group
  unregister_user-IsSeparate k p p' h sep key user e =
      elim (Option-cases (S.remove p.registered_users k)) [
        | inl failed ↦ ground (arith, failed)
        | inr (t, stored) ↦
            ground (arith, stored, S.get-remove p.registered_users k key stored, sep key user)
      ]

  -- A name that no user is registered under, in any case, is not a user's.
  registered-apart :
      (name : String) (key : ℕ) (user : RegisteredUser) (p : Persistence)
      → is_username_registered name p ≡ false
      → get_registered_user key p ≡ some user
      → str_eq name user.username ≡ false
  unfolding is_username_registered get_registered_user
  registered-apart name key user p free e =
      let apart =
        any-get? (λ u. eq_ignore_ascii_case u.username name) key user (S.iter p.registered_users)
          free (S.get?-iter p.registered_users key ∙ e) in
      elim (Bool-cases (str_eq name user.username)) [
        | inr other ↦ other
        | inl same ↦
            let q = (str_eq_iff name user.username).0 same in
            absurd (
              ground (
                arith,
                apart,
                ap (λ n. eq_ignore_ascii_case n name) q,
                same_codes_self (codes name),
              ))
      ]

  pub create_group-IsSeparate :
      (name : String) (permissions : ℕ) (p p' : Persistence)
      → create_group name permissions p ≡ some p'
      → is_username_registered name p ≡ false
      → IsSeparate p
      → IsSeparate p'
  unfolding create_group get_registered_user get_group
  create_group-IsSeparate name permissions p p' h free sep key user e =
      elim (Option-cases (S.insert p.groups name (record { permissions = permissions }))) [
        | inl failed ↦ ground (arith, failed)
        | inr (t, stored) ↦
            let law =
              S.get-insert p.groups name (record { permissions = permissions }) user.username
                stored in
            ground (arith, stored, law, sep key user, registered-apart name key user p free)
      ]

  pub delete_group-IsSeparate :
      (name : String) (p p' : Persistence)
      → delete_group name p ≡ some p'
      → IsSeparate p
      → IsSeparate p'
  unfolding delete_group get_registered_user get_group
  delete_group-IsSeparate name p p' h sep key user e =
      elim (Option-cases (S.remove p.groups name)) [
        | inl failed ↦ ground (arith, failed)
        | inr (t, stored) ↦
            ground (arith, stored, S.get-remove p.groups name user.username stored, sep key user)
      ]

  pub same-IsSeparate : (p q : Persistence) → SameUsersAndGroups p q → IsSeparate p → IsSeparate q
  unfolding get_registered_user get_group
  same-IsSeparate p q (users, groups) sep key user e = ground (arith, users, groups, sep key user)
