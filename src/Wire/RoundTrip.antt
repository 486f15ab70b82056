-- ===== src/Wire/RoundTrip.antt =====
-- What a record of crates/rumble-protocol/src/types.rs keeps over the wire.
use rumble.Prelude.Fallible.{unwrap_or}
use rumble.Prelude.{
  ℕ, ◌≡◌, ◌↔◌, refl, sym, ap, ◌∙◌, Bool, true, Option, none, some, List, [], ◌∷◌, map, ◌==◌, ==_iff,
  length, if◌then◌else◌, arith, not,
}
use rumble.Prelude.Predicates.{every}
use rumble.Rooms.{Room, RoomAclEntry, root_room_uuid}
use rumble.Wire.{
  acl_from_proto, acl_to_proto, room_from_proto, room_to_proto, to_hash_input, GroupMembership,
  membership_from_proto, membership_to_proto, RegisteredUser, registered_from_proto,
  registered_to_proto,
}

map_inverse {ℓ κ} :
    {A : Type ℓ} {B : Type κ} (f : A → B) (g : B → A) (h : (a : A) → g (f a) ≡ a) (xs : List A)
    → map g (map f xs) ≡ xs
map_inverse f g h [] = refl
map_inverse f g h (x ∷ xs) =
    ap (λ y. y ∷ map g (map f xs)) (h x) ∙ ap (λ ys. x ∷ ys) (map_inverse f g h xs)

parent_kept : (p : ℕ) → unwrap_or root_room_uuid (if p == root_room_uuid then none else some p) ≡ p
parent_kept p = ground (arith, ==_iff p 0)

-- The room without the receiver's own permissions.
abbrev pub unseen : Room → Room
unseen r = record r { effective_permissions = 0 }

pub acls_kept : (es : List RoomAclEntry) → map acl_from_proto (map acl_to_proto es) ≡ es
acls_kept = map_inverse acl_to_proto acl_from_proto (λ e. refl)

-- A room that is sent is received as it was.
pub room_from_proto-room_to_proto : (r : Room) → room_from_proto (room_to_proto r) ≡ some r
room_from_proto-room_to_proto r =
    ap (λ p. some (record r { parent = p; acls = map acl_from_proto (map acl_to_proto r.acls) }))
      (parent_kept r.parent)
    ∙ ap (λ es. some (record r { acls = es })) (acls_kept r.acls)

pub room_from_proto-to_hash_input : (r : Room) → room_from_proto (to_hash_input r) ≡ some (unseen r)
room_from_proto-to_hash_input r = room_from_proto-room_to_proto (unseen r)

pub some_inj {ℓ} : {A : Type ℓ} {a b : A} → some a ≡ some b → a ≡ b
some_inj e = cc

-- Two rooms go into the hash of a state as the same record exactly if they agree in everything but
-- the receiver's own permissions.
pub to_hash_input_iff : (r q : Room) → (to_hash_input r ≡ to_hash_input q) ↔ (unseen r ≡ unseen q)
to_hash_input_iff r q = (
  λ e. some_inj (
      sym (room_from_proto-to_hash_input r)
      ∙ ap room_from_proto e
      ∙ room_from_proto-to_hash_input q),
  λ e. ap to_hash_input e,
)

-- A membership that ends at 0 cannot be told from a permanent one.
abbrev pub is_sendable : Option ℕ → Bool
is_sendable none = true
is_sendable (some t) = not (t == 0)

expiry_kept :
    (o : Option ℕ)
    → is_sendable o ≡ true
    → (if unwrap_or 0 o == 0 then none else some (unwrap_or 0 o)) ≡ o
expiry_kept none h = refl
expiry_kept (some t) h = ground arith

memberships_kept :
    (gs : List GroupMembership)
    → every (λ g. is_sendable g.expires_at) gs ≡ true
    → map membership_from_proto (map membership_to_proto gs) ≡ gs
memberships_kept [] h = refl
memberships_kept (g ∷ gs) h =
    ap (λ o. record g { expires_at = o } ∷ map membership_from_proto (map membership_to_proto gs))
      (expiry_kept g.expires_at (ground arith))
    ∙ ap (λ rest. g ∷ rest) (memberships_kept gs (ground arith))

-- An entry of the roster of registered users is received as it was sent, if its key has 32 bytes
-- and no membership in it ends at 0.
pub registered_from_proto-registered_to_proto :
    (u : RegisteredUser)
    → length u.public_key ≡ 32
    → every (λ g. is_sendable g.expires_at) u.groups ≡ true
    → registered_from_proto (registered_to_proto u) ≡ some u
registered_from_proto-registered_to_proto u k h =
    rw k (ap (λ gs. some (record u { groups = gs })) (memberships_kept u.groups h))
