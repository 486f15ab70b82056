-- ===== src/Rooms/Roster.antt =====
-- Who is where after an operation on `StateData` (crates/server/src/state.rs), and that the room
-- map of the voice relay says the same as the lookups of a user and of a room.
use mathlib.Core.List.{append-nil, append_assoc}
use rumble.Prelude.{
  ℕ, ◌≡◌, refl, ◌↔◌, ◌∙◌, sym, true, false, none, some, List, [], ◌∷◌, ◌++◌, map, ◌==◌,
  if◌then◌else◌, retain, find, arith, Option-cases, inl, inr,
}
use rumble.Prelude.Predicates.{mentions, distinct, keys, find-replace, find-without}
use rumble.Prelude.Equality.{get?, get?-insert, nat_keys}
use rumble.Rooms.{
  UserStatus, StateData, root_room_uuid, set_user_room, remove_user_membership, set_user_status,
  get_user_status, get_user_room, get_room_members, evacuate, delete_room, default_status,
  push_entry, group_by_room, snapshot_room_memberships,
}

-- A user who enters a room is in it, wherever the user was; nobody else moves.
pub get_user_room-set_user_room :
    (u v r : ℕ) (d : StateData)
    → get_user_room v (set_user_room u r d) ≡ (if u == v then some r else get_user_room v d)
unfolding get_user_room set_user_room
get_user_room-set_user_room u v r d = ground (arith, find-replace u v r d.memberships)

-- Leaving clears the membership and the status of the user who leaves, and of nobody else.
pub remove_user_membership_lem :
    (u v : ℕ) (d : StateData)
    → (get_user_room v (remove_user_membership u d) ≡ (if u == v then none else get_user_room v d))
      × (get_user_status v (remove_user_membership u d)
          ≡ (if u == v then default_status else get_user_status v d))
unfolding get_user_room get_user_status remove_user_membership
remove_user_membership_lem u v d = (
  ground (arith, find-without u v d.memberships),
  ground (arith, find-without u v d.user_statuses),
)

-- A status that is set is read back, and every other user's status reads as before.
pub get_user_status-set_user_status :
    (u v : ℕ) (s : UserStatus) (d : StateData)
    → get_user_status v (set_user_status u s d) ≡ (if u == v then s else get_user_status v d)
unfolding get_user_status set_user_status
get_user_status-set_user_status u v s d = ground (arith, find-replace u v s d.user_statuses)

find-evacuate :
    (r v : ℕ) (ms : List (ℕ × ℕ))
    → find (λ m. m.0 == v) (map (evacuate r) ms)
      ≡ (elim (find (λ m. m.0 == v) ms) [ none ↦ none | some m ↦ some (evacuate r m) ])
find-evacuate r v [] = refl
find-evacuate r v (m ∷ ms) = ground (arith, find-evacuate r v ms)

users_in : ℕ → List (ℕ × ℕ) → List ℕ
users_in rid ms = map (λ (m : ℕ × ℕ). m.0) (retain (λ m. m.1 == rid) ms)

-- The users that a room map lists for a room.
abbrev pub listed : ℕ → List (ℕ × List ℕ) → List ℕ
listed rid table = elim (get? rid table) [ none ↦ [] | some users ↦ users ]

listed-push_entry :
    (rid uid j : ℕ) (table : List (ℕ × List ℕ))
    → listed j (push_entry rid uid table)
      ≡ (if rid == j then listed j table ++ uid ∷ [] else listed j table)
listed-push_entry rid uid j table = elim (Option-cases (get? rid table)) [
  | inl fresh ↦ ground (arith, fresh, get?-insert rid j (uid ∷ []) table)
  | inr (users, old) ↦ ground (arith, old, get?-insert rid j (users ++ uid ∷ []) table)
]

listed-group_by_room :
    (j : ℕ) (ms : List (ℕ × ℕ)) (table : List (ℕ × List ℕ))
    → listed j (group_by_room ms table) ≡ listed j table ++ users_in j ms
unfolding group_by_room users_in
listed-group_by_room j [] table = sym (append-nil (listed j table))
listed-group_by_room j ((uid, rid) ∷ ms) table =
    listed-group_by_room j ms (push_entry rid uid table)
    ∙ ground (
      arith,
      listed-push_entry rid uid j table,
      append_assoc (listed j table) (uid ∷ []) (users_in j ms),
    )

-- The room map that the voice relay routes by lists, for every room, exactly its members in the
-- order of the roster.
pub listed-snapshot_room_memberships :
    (rid : ℕ) (d : StateData) → listed rid (snapshot_room_memberships d) ≡ get_room_members rid d
unfolding snapshot_room_memberships get_room_members users_in
listed-snapshot_room_memberships rid d = listed-group_by_room rid d.memberships []

find_absent :
    (v : ℕ) (ms : List (ℕ × ℕ)) → mentions v (keys ms) ≡ false → find (λ m. m.0 == v) ms ≡ none
find_absent v [] h = refl
find_absent v (m ∷ ms) h = ground (arith, find_absent v ms)

mentions_user :
    (v rid : ℕ) (ms : List (ℕ × ℕ))
    → distinct (keys ms) ≡ true
    → mentions v (users_in rid ms)
      ≡ (elim (find (λ m. m.0 == v) ms) [ none ↦ false | some m ↦ m.1 == rid ])
unfolding users_in
mentions_user v rid [] h = refl
mentions_user v rid (m ∷ ms) h = ground (arith, mentions_user v rid ms, find_absent v ms)

-- In a roster with no user twice, a user is listed for a room exactly if that is the user's room.
pub mentions-snapshot_room_memberships :
    (v rid : ℕ) (d : StateData)
    → distinct (keys d.memberships) ≡ true
    → (mentions v (listed rid (snapshot_room_memberships d)) ≡ true)
      ↔ (get_user_room v d ≡ some rid)
unfolding snapshot_room_memberships get_user_room
mentions-snapshot_room_memberships v rid d h =
    rw (listed-group_by_room rid d.memberships [])
      (ground (arith, mentions_user v rid d.memberships h))

-- If the deletion of a room succeeds, its members move to Root and nobody else moves; if it does
-- not, nobody moves.
pub get_user_room-delete_room :
    (r v : ℕ) (d : StateData)
    → get_user_room v (delete_room r d).0 ≡ (
        if (delete_room r d).1
        then elim (get_user_room v d) [
          | none ↦ none
          | some s ↦ some (if s == r then root_room_uuid else s)
        ]
        else get_user_room v d)
unfolding get_user_room delete_room
get_user_room-delete_room r v d = ground (arith, find-evacuate r v d.memberships)
