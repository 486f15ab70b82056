-- ===== src/Ops/Groups/Mirror.antt =====
-- The connected clients after a group operation of crates/server/src/ops.rs: their groups follow the
-- database.
use mathlib.Core.List.{append_assoc}
use rumble.Prelude.{
  ℕ, ◌≡◌, refl, sym, ap, ◌∙◌, Bool, true, false, not, ◌&&◌, some, String, List, [], ◌∷◌, ◌++◌, map,
  ◌==◌, ==_iff, if◌then◌else◌, elem, text_keys, nat_keys, arith, Bool-cases, Option-cases, inl, inr,
}
use rumble.Prelude.Predicates.{mentions, distinct, keys, keys-append, any-append, every}
use rumble.Sled.{Sled}
use rumble.Persistence.{get_group, delete_group, is_username_registered}
use rumble.Prelude.Fallible.{is_some}
use rumble.Persistence.Memberships.{
  add_name, drop_name, get_user_groups, add_user_to_group_with_expiry, remove_group_from_all_users,
}
use rumble.Persistence.Memberships.Laws.{add_user_to_group_with_expiry_lem}
use rumble.Ops.{
  ClientHandle, Server, Update, ok, set_client, broadcast_state_update, user_group_changed,
}
use rumble.Ops.Groups.{
  Done, set_groups, visit_clients, has_session_key, refuses_group, builtin_groups,
  apply_set_user_group_by_key, apply_delete_group,
}

abbrev Clients : Type 0
Clients = List (ℕ × ClientHandle)

listed_after :
    (id : ℕ) (new : ClientHandle) (before after : Clients)
    → mentions id (keys (before ++ (id, new) ∷ after)) ≡ true
listed_after id new before after = ground (
  arith,
  keys-append before ((id, new) ∷ after),
  any-append (λ x. x == id) (keys before) (id ∷ keys after),
)

set_client-absent :
    (id : ℕ) (new : ClientHandle) (cs : Clients)
    → mentions id (keys cs) ≡ false
    → set_client id new cs ≡ cs
set_client-absent id new [] h = refl
set_client-absent id new (c ∷ cs) h =
    let other : (c.0 == id) ≡ false = ground arith in
    rw other (ap (λ t. c ∷ t) (set_client-absent id new cs (ground arith)))

same_keys :
    (id : ℕ) (old new : ClientHandle) (before after : Clients)
    → keys ((before ++ (id, new) ∷ []) ++ after) ≡ keys (before ++ (id, old) ∷ after)
same_keys id old new before after =
    ap keys (append_assoc before ((id, new) ∷ []) after)
    ∙ keys-append before ((id, new) ∷ after)
    ∙ sym (keys-append before ((id, old) ∷ after))

-- A client that is set is replaced where it stands.
set_client-here :
    (id : ℕ) (old new : ClientHandle) (before after : Clients)
    → distinct (keys (before ++ (id, old) ∷ after)) ≡ true
    → set_client id new (before ++ (id, old) ∷ after) ≡ before ++ (id, new) ∷ after
set_client-here id old new [] after h =
    let same : (id == id) ≡ true = ground arith in
    rw same (ap (λ t. (id, new) ∷ t) (set_client-absent id new after (ground arith)))
set_client-here id old new (c ∷ before) after h =
    let other : (c.0 == id) ≡ false = elim (Bool-cases (c.0 == id)) [
      | inr apart ↦ apart
      | inl same ↦
          let e =
            ap (λ x. mentions x (keys (before ++ (id, old) ∷ after))) ((==_iff c.0 id).0 same) in
          absurd (ground (arith, e, listed_after id old before after))
    ] in
    rw other (ap (λ t. c ∷ t) (set_client-here id old new before after (ground arith)))

module _ (test : ℕ × ClientHandle → Bool) (change : List String → List String) where
  abbrev pub regrouped : ℕ × ClientHandle → ℕ × ClientHandle
  regrouped c = if test c then (c.0, set_groups change c.1) else c

module _ ⦃S : Sled⦄ (test : ℕ × ClientHandle → Bool) (change : List String → List String)
    (update : ℕ → Update) where
  clients-visit_clients :
      (before cs : Clients) (s : Server)
      → s.clients ≡ before ++ cs
      → distinct (keys (before ++ cs)) ≡ true
      → (visit_clients test change update cs s).clients ≡ before ++ map (regrouped test change) cs
  unfolding visit_clients
  clients-visit_clients before [] s e d = e
  clients-visit_clients before (c ∷ cs) s e d = elim (Bool-cases (test c)) [
    | inr apart ↦
        rw (visit_clients, apart)
          (clients-visit_clients (before ++ c ∷ []) cs s (e ∙ sym (append_assoc before (c ∷ []) cs))
              (rw (append_assoc before (c ∷ []) cs) d)
            ∙ append_assoc before (c ∷ []) (map (regrouped test change) cs))
    | inl hit ↦
        let new = set_groups change c.1 in
        let t =
          broadcast_state_update (update c.0)
            (record s { clients = set_client c.0 new s.clients }) in
        let placed : t.clients ≡ (before ++ (c.0, new) ∷ []) ++ cs =
          ap (set_client c.0 new) e
          ∙ set_client-here c.0 c.1 new before cs d
          ∙ sym (append_assoc before ((c.0, new) ∷ []) cs) in
        rw (visit_clients, hit)
          (clients-visit_clients (before ++ (c.0, new) ∷ []) cs t placed
              (rw (same_keys c.0 c.1 new before cs) d)
            ∙ append_assoc before ((c.0, new) ∷ []) (map (regrouped test change) cs))
  ]

elem-drop_name : (name : String) (gs : List String) → elem name (drop_name name gs) ≡ false
elem-drop_name name [] = refl
elem-drop_name name (g ∷ gs) = ground (arith, elem-drop_name name gs)

every_dropped :
    (name : String) (cs : Clients)
    → every
        (λ c. not (elem name c.1.identity.groups))
        (map (regrouped (λ c. elem name c.1.identity.groups) (drop_name name)) cs)
      ≡ true
every_dropped name [] = refl
every_dropped name (c ∷ cs) =
    ground (arith, every_dropped name cs, elem-drop_name name c.1.identity.groups)

module _ ⦃S : Sled⦄ where
  -- The state and the database are as before the loop.
  pub visit_clients_keeps :
      (test : ℕ × ClientHandle → Bool) (change : List String → List String) (update : ℕ → Update)
      (cs : Clients) (s : Server)
      → ((visit_clients test change update cs s).state ≡ s.state)
        × ((visit_clients test change update cs s).persistence ≡ s.persistence)
  unfolding visit_clients
  visit_clients_keeps test change update [] s = (refl, refl)
  visit_clients_keeps test change update (c ∷ cs) s = elim (Bool-cases (test c)) [
    | inl hit ↦
        rw (visit_clients, hit)
          (visit_clients_keeps test change update cs (
            broadcast_state_update (update c.0)
              (record s { clients = set_client c.0 (set_groups change c.1) s.clients })))
    | inr miss ↦ rw (visit_clients, miss) (visit_clients_keeps test change update cs s)
  ]

  refuses_with_error : (group : String) (s : Server) → refuses_group true group s ≡ some (ok tt) → ⊥
  refuses_with_error group s h = elim (Bool-cases (is_username_registered group s.persistence)) [
    | inl user ↦ cc (rw user at h)
    | inr other ↦
        elim (Bool-cases
          (not (elem group builtin_groups) && not (is_some (get_group group s.persistence)))) [
            | inl missing ↦ cc (rw (other, missing) at h)
            | inr there ↦ cc (rw (other, there) at h)
          ]
  ]

  -- When a membership is added, by a key, and stored, the connected clients whose session has the
  -- key act with the group from then on, the others as before, and the database holds the
  -- membership.
  pub apply_set_user_group_by_key_adds :
      (public_key : ℕ) (group : String) (expires_at : ℕ) (s t : Server)
      → distinct (keys s.clients) ≡ true
      → apply_set_user_group_by_key public_key group true expires_at s ≡ (ok tt, t)
      → (t.clients ≡ map (regrouped (has_session_key public_key s) (add_name group)) s.clients)
        × (get_user_groups public_key t.persistence
            ≡ add_name group (get_user_groups public_key s.persistence))
        × (t.state ≡ s.state)
  unfolding apply_set_user_group_by_key
  apply_set_user_group_by_key_adds public_key group expires_at s t d h =
      elim (Option-cases (refuses_group true group s)) [
        | inr (refused, e) ↦
            let q = ap (λ (x : Done × Server). x.0) (rw (apply_set_user_group_by_key, e) at h) in
            absurd (refuses_with_error group s (e ∙ ap some q))
        | inl e ↦
            elim (Option-cases
              (add_user_to_group_with_expiry public_key group expires_at s.persistence)) [
                | inl f ↦ absurd (cc (rw (apply_set_user_group_by_key, e, f) at h))
                | inr (p, f) ↦
                    let stored = record s { persistence = p } in
                    let visited =
                      visit_clients (has_session_key public_key stored) (add_name group)
                        (λ id. user_group_changed id group true expires_at) stored.clients stored in
                    let same : visited ≡ t =
                      ap (λ (x : Done × Server). x.1)
                        (rw (apply_set_user_group_by_key, e, f) at h) in
                    let mirrored =
                      clients-visit_clients (has_session_key public_key stored) (add_name group)
                        (λ id. user_group_changed id group true expires_at) [] s.clients stored refl
                        d in
                    let (kept, database) =
                      visit_clients_keeps (has_session_key public_key stored) (add_name group)
                        (λ id. user_group_changed id group true expires_at) s.clients stored in
                    (
                      ap (λ (x : Server). x.clients) (sym same) ∙ mirrored,
                      ap (λ (x : Server). get_user_groups public_key x.persistence) (sym same)
                          ∙ ap (get_user_groups public_key) database
                          ∙ (let law =
                                add_user_to_group_with_expiry_lem public_key public_key group group
                                  expires_at s.persistence p f in
                              let self : (public_key == public_key) ≡ true = ground arith in
                              rw self at law.0),
                      ap (λ (x : Server). x.state) (sym same) ∙ kept,
                    )
              ]
      ]

  -- After a group is deleted no connected client acts with it, if it is not built in, whether or
  -- not the database could be written.
  pub apply_delete_group-clients :
      (name : String) (s : Server)
      → distinct (keys s.clients) ≡ true
      → elem name builtin_groups ≡ false
      → every (λ c. not (elem name c.1.identity.groups)) (apply_delete_group name s).1.clients
        ≡ true
  unfolding apply_delete_group
  apply_delete_group-clients name s d b =
      let test : ℕ × ClientHandle → Bool = λ c. elem name c.1.identity.groups in
      let scrubbed =
        visit_clients test (drop_name name) (λ id. user_group_changed id name false 0) s.clients
          s in
      let gone : every (λ c. not (elem name c.1.identity.groups)) scrubbed.clients ≡ true =
        rw
          (clients-visit_clients test (drop_name name) (λ id. user_group_changed id name false 0) []
            s.clients s refl d)
          (every_dropped name s.clients) in
      elim (Option-cases
        (delete_group name (remove_group_from_all_users name scrubbed.persistence))) [
          | inl e ↦ rw (apply_delete_group, b, e) gone
          | inr (p, e) ↦ rw (apply_delete_group, b, e) gone
        ]
