-- ===== src/Client/Freshness/Entry.antt =====
-- Our entry in the list of users after an event of crates/rumble-client/src/projection.rs, and what of
-- it the permissions read.
use rumble.Prelude.{
  ℕ, ◌≡◌, refl, sym, ap, ◌∙◌, Bool, true, false, not, ◌&&◌, Option, none, some, String, List, [],
  ◌∷◌, ◌++◌, map, ◌==◌, ==_iff, if◌then◌else◌, retain, retain_all, length, elem, text_keys, str_eq,
  arith, Bool-cases, Option-cases, inl, inr,
}
use rumble.Prelude.Fallible.{is_some}
use rumble.Rooms.{Room}
use rumble.Wire.{User}
use rumble.Client.{
  State, RoomEvent, full_state_replaced, room_added, room_removed, room_renamed, room_moved,
  room_description_set, room_acl_changed, user_joined, user_left, user_moved, user_status_changed,
  user_group_changed, group_added, group_modified, group_removed, registered_users_replaced,
  self_moved_to_room, state_hash_checkpoint, change_first, user_of, same_id, differ, regroup,
  mutate, join, leave, move_user, change_status, change_group, replace_all,
}
use rumble.Client.Permissions.Unseen.{bare}

-- The entry of somebody after a change of one entry.
pub user_of-change_first :
    (me x : ℕ) (f : User → User) (users : List User)
    → ((u : User) → (f u).user_id ≡ u.user_id)
    → user_of me (change_first (λ u. u.user_id == x) f users) ≡ (
        if x == me
        then elim (user_of me users) [ none ↦ none | some u ↦ some (f u) ]
        else user_of me users)
user_of-change_first me x f [] h = ground arith
user_of-change_first me x f (u ∷ users) h = elim (Bool-cases (u.user_id == x)) [
  | inl here ↦ ground (arith, h u, ==_iff u.user_id x, ==_iff x me)
  | inr later ↦
      ground (arith, user_of-change_first me x f users h, ==_iff u.user_id me, ==_iff x me)
]

pub user_of-retain :
    (me x : ℕ) (users : List User)
    → (x == me) ≡ false
    → user_of me (retain (λ u. not (u.user_id == x)) users) ≡ user_of me users
user_of-retain me x [] other = refl
user_of-retain me x (u ∷ users) other =
    ground
      (arith, user_of-retain me x users other, ==_iff u.user_id x, ==_iff u.user_id me, ==_iff x me)

pub user_of-snoc :
    (me : ℕ) (u : User) (users : List User)
    → (u.user_id == me) ≡ false
    → user_of me (users ++ u ∷ []) ≡ user_of me users
user_of-snoc me u [] other = ground arith
user_of-snoc me u (v ∷ users) other = ground (arith, user_of-snoc me u users other)

pub bare-change_first :
    (x : ℕ) (f : Room → Room) (rooms : List Room)
    → ((r : Room) → bare (f r) ≡ bare r)
    → map bare (change_first (λ r. r.id == x) f rooms) ≡ map bare rooms
bare-change_first x f [] h = refl
bare-change_first x f (r ∷ rooms) h = elim (Bool-cases (r.id == x)) [
  | inl here ↦ rw here (ap (λ q. q ∷ map bare rooms) (h r))
  | inr later ↦ rw later (ap (λ qs. bare r ∷ qs) (bare-change_first x f rooms h))
]

regroup_same :
    (g : String) (added : Bool) (gs : List String)
    → (if added then not (elem g gs) else not (length (regroup g added gs) == length gs)) ≡ false
    → regroup g added gs ≡ gs
regroup_same g true gs h = ground arith
regroup_same g false gs h =
    retain_all (λ x. not (str_eq x g)) gs
      (ground (arith, ==_iff (length (regroup g false gs)) (length gs)))

pub same_elevation :
    (mine : Option ℕ) (me x : ℕ) (u v : User) (e : Bool) (users : List User)
    → mine ≡ some me
    → user_of x users ≡ some u
    → user_of x users ≡ some v
    → (x == me) ≡ true
    → (same_id mine x && differ u.is_elevated e) ≡ false
    → e ≡ v.is_elevated
same_elevation mine me x u v e users own known found same quiet =
    let uv : u ≡ v = cc in
    let here : same_id mine x ≡ true = rw own (ground (arith, ==_iff x me, ==_iff me x)) in
    let q : differ u.is_elevated e ≡ false = (rw here at quiet) in
    let eu : e ≡ u.is_elevated = ground arith in eu ∙ ap (λ (w : User). w.is_elevated) uv

pub same_groups :
    (mine : Option ℕ) (me x : ℕ) (g : String) (added : Bool) (u v : User) (users : List User)
    → mine ≡ some me
    → user_of x users ≡ some u
    → user_of x users ≡ some v
    → (x == me) ≡ true
    → ((if added
          then not (elem g u.groups)
          else not (length (regroup g added u.groups) == length u.groups))
        && same_id mine x)
      ≡ false
    → regroup g added v.groups ≡ v.groups
same_groups mine me x g added u v users own known found same quiet =
    let uv : u ≡ v = cc in
    let here : same_id mine x ≡ true = rw own (ground (arith, ==_iff x me, ==_iff me x)) in
    ap (λ (w : User). regroup g added w.groups) (sym uv)
    ∙ regroup_same g added u.groups (ground (arith, (rw here at quiet)))
    ∙ ap (λ (w : User). w.groups) uv

pub my_user_id-mutate : (ev : RoomEvent) (c : State) → (mutate ev c).state.my_user_id ≡ c.my_user_id
unfolding mutate join leave move_user change_status change_group replace_all
my_user_id-mutate (user_joined user) c =
    elim (Bool-cases (is_some (user_of user.user_id c.users))) [
      | inl there ↦ rw there refl
      | inr new ↦ rw new refl
    ]
my_user_id-mutate (user_moved x none) c = elim (Bool-cases (same_id c.my_user_id x)) [
  | inl us ↦ rw us refl
  | inr other ↦ rw other refl
]
my_user_id-mutate (user_moved x (some q)) c = elim (Bool-cases (same_id c.my_user_id x)) [
  | inl us ↦ rw us refl
  | inr other ↦ rw other refl
]
my_user_id-mutate (user_status_changed x muted deafened server_muted elevated') c =
    elim (Option-cases (user_of x c.users)) [
      | inl unknown ↦ rw (mutate, change_status, unknown) refl
      | inr (u, known) ↦ rw (mutate, change_status, known) refl
    ]
my_user_id-mutate (user_group_changed x group added) c = elim (Option-cases (user_of x c.users)) [
  | inl unknown ↦ rw (mutate, change_group, unknown) refl
  | inr (u, known) ↦ rw (mutate, change_group, known) refl
]
my_user_id-mutate (full_state_replaced rooms users groups commands per_room) c = refl
my_user_id-mutate (room_added room) c = refl
my_user_id-mutate (room_removed u) c = refl
my_user_id-mutate (room_renamed u name) c = refl
my_user_id-mutate (room_moved u parent) c = refl
my_user_id-mutate (room_description_set u description) c = refl
my_user_id-mutate (room_acl_changed u inherit_acl acls) c = refl
my_user_id-mutate (user_left u) c = refl
my_user_id-mutate (group_added group) c = refl
my_user_id-mutate (group_modified group) c = refl
my_user_id-mutate (group_removed name) c = refl
my_user_id-mutate (registered_users_replaced users) c = refl
my_user_id-mutate (self_moved_to_room room) c = refl
my_user_id-mutate (state_hash_checkpoint hash) c = refl
