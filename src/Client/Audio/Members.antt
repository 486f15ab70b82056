-- ===== src/Client/Audio/Members.antt =====
-- The audio task of crates/rumble-client knows who is in our room.
use rumble.Prelude.{
  ℕ, ◌≡◌, refl, Bool, true, false, not, ◌&&◌, ◌||◌, Option, none, some, List, [], ◌∷◌, map, ◌==◌,
  ==_iff, if◌then◌else◌, retain, any, arith, Bool-cases, inl, inr,
}
use rumble.Prelude.Fallible.{is_some}
use rumble.Prelude.Predicates.{mentions, distinct}
use rumble.Wire.{User}
use rumble.Client.{change_first, user_of, room_user_ids}
use rumble.Client.Audio.{insert_id, remove_id, extend}

abbrev pub in_room : ℕ → ℕ → List User → Bool
in_room id r = any (λ u. u.user_id == id && u.current_room == r)

-- Whether a user is with us: in our room, and not ourselves.
abbrev pub is_with_us : ℕ → Option ℕ → List User → ℕ → Bool
is_with_us me none users id = false
is_with_us me (some r) users id = in_room id r users && not (id == me)

abbrev pub user_ids : List User → List ℕ
user_ids = map (λ (u : User). u.user_id)

pub mentions-insert_id :
    (x id : ℕ) (xs : List ℕ) → mentions id (insert_id x xs) ≡ (mentions id xs || x == id)
mentions-insert_id x id xs = ground (arith, ==_iff x id)

pub mentions-remove_id :
    (x id : ℕ) (xs : List ℕ) → mentions id (remove_id x xs) ≡ (mentions id xs && not (id == x))
mentions-remove_id x id [] = refl
mentions-remove_id x id (y ∷ xs) = ground (arith, mentions-remove_id x id xs)

pub mentions-extend :
    (me id : ℕ) (xs ys : List ℕ)
    → mentions id (extend me xs ys) ≡ (mentions id ys || mentions id xs && not (id == me))
unfolding extend
mentions-extend me id [] ys = ground arith
mentions-extend me id (x ∷ xs) ys = elim (Bool-cases (x == me)) [
  | inl own ↦ ground (arith, mentions-extend me id xs ys)
  | inr other ↦
      ground (arith, mentions-extend me id xs (insert_id x ys), mentions-insert_id x id ys)
]

pub mentions-room_user_ids :
    (me id r : ℕ) (users : List User)
    → (mentions id (room_user_ids users r (some me)) && not (id == me))
      ≡ (in_room id r users && not (id == me))
unfolding room_user_ids
mentions-room_user_ids me id r [] = refl
mentions-room_user_ids me id r (u ∷ users) = ground (arith, mentions-room_user_ids me id r users)

pub in_room-retain :
    (x id r : ℕ) (users : List User)
    → in_room id r (retain (λ u. not (u.user_id == x)) users)
      ≡ (in_room id r users && not (id == x))
in_room-retain x id r [] = refl
in_room-retain x id r (u ∷ users) = ground (arith, in_room-retain x id r users)

-- A change of a user that leaves the id and the room alone.
pub in_room-change_first :
    (x id r : ℕ) (f : User → User) (users : List User)
    → ((u : User) → ((f u).user_id ≡ u.user_id) × ((f u).current_room ≡ u.current_room))
    → in_room id r (change_first (λ u. u.user_id == x) f users) ≡ in_room id r users
in_room-change_first x id r f [] h = refl
in_room-change_first x id r f (u ∷ users) h =
    ground (arith, in_room-change_first x id r f users h, h u)

in_room_listed :
    (id r : ℕ) (users : List User)
    → mentions id (user_ids users) ≡ false
    → in_room id r users ≡ false
in_room_listed id r [] h = refl
in_room_listed id r (u ∷ users) h = ground (arith, in_room_listed id r users)

-- A user who moves is in the new room only, if no id is listed twice.
pub in_room_moved :
    (x id r q : ℕ) (users : List User)
    → distinct (user_ids users) ≡ true
    → is_some (user_of x users) ≡ true
    → in_room id r (change_first (λ u. u.user_id == x) (λ u. record u { current_room = q }) users)
      ≡ (if x == id then q == r else in_room id r users)
in_room_moved x id r q [] d k = absurd (ground arith)
in_room_moved x id r q (u ∷ users) d k = elim (Bool-cases (u.user_id == x)) [
  | inl here ↦ ground (arith, in_room_listed id r users, ==_iff u.user_id x, ==_iff x id)
  | inr later ↦ ground (arith, in_room_moved x id r q users)
]

-- Who is found is in a room exactly if the entry that is found is.
pub in_room_found :
    (x r : ℕ) (users : List User) (u : User)
    → distinct (user_ids users) ≡ true
    → user_of x users ≡ some u
    → in_room x r users ≡ (u.current_room == r)
in_room_found x r [] u d f = absurd (ground arith)
in_room_found x r (v ∷ users) u d f = elim (Bool-cases (v.user_id == x)) [
  | inl here ↦ ground (arith, in_room_listed x r users, ==_iff v.user_id x)
  | inr later ↦ ground (arith, in_room_found x r users u)
]

pub in_room_unknown :
    (x r : ℕ) (users : List User) → user_of x users ≡ none → in_room x r users ≡ false
in_room_unknown x r [] f = refl
in_room_unknown x r (v ∷ users) f = ground (arith, in_room_unknown x r users)

-- A change of one user does not move another.
pub in_room_other :
    (x id r : ℕ) (f : User → User) (users : List User)
    → ((u : User) → (f u).user_id ≡ u.user_id)
    → (x == id) ≡ false
    → in_room id r (change_first (λ u. u.user_id == x) f users) ≡ in_room id r users
in_room_other x id r f [] h other = refl
in_room_other x id r f (u ∷ users) h other = elim (Bool-cases (u.user_id == x)) [
  | inl here ↦ ground (arith, h u, ==_iff u.user_id x, other)
  | inr later ↦ ground (arith, in_room_other x id r f users h other)
]
