-- ===== src/Rooms/Routing.antt =====
-- The room that the voice relay finds for a user in the room map of crates/server/src/state.rs.
use rumble.Prelude.{
  ℕ, ◌≡◌, ◌↔◌, refl, ◌∙◌, Bool, true, false, not, ◌||◌, Option, none, some, List, [], ◌∷◌, ◌++◌,
  map, ◌==◌, if◌then◌else◌, retain, find, arith, Option-cases, Bool-cases, inl, inr,
}
use rumble.Prelude.Predicates.{mentions, distinct, keys, every, any-append}
use rumble.Prelude.Equality.{get?, remove, get?-insert, nat_keys}
use rumble.Rooms.{
  StateData, UserStatus, get_user_room, get_user_status, default_status, get_room_members,
  push_entry, group_by_room, snapshot_room_memberships, snapshot_voice_routing,
}
use rumble.Rooms.Roster.{
  listed, listed-snapshot_room_memberships, mentions-snapshot_room_memberships,
}

-- `iter().find_map(…)`: the room of the first entry that lists the user.
abbrev pub find_room : ℕ → List (ℕ × List ℕ) → Option ℕ
find_room v table = elim (find (λ e. mentions v e.1) table) [ none ↦ none | some e ↦ some e.0 ]

abbrev is_room : Option ℕ → ℕ → Bool
is_room none r = false
is_room (some s) r = s == r

abbrev agree : Bool → Bool → Bool
agree true b = b
agree false b = not b

-- Whether exactly the entries of a room list the user.
abbrev only_in : ℕ → Option ℕ → List (ℕ × List ℕ) → Bool
only_in v o = every (λ e. agree (mentions v e.1) (is_room o e.0))

abbrev is_none : Option ℕ → Bool
is_none none = true
is_none (some r) = false

abbrev has_key : ℕ → List (ℕ × List ℕ) → Bool
has_key r table = elim (get? r table) [ none ↦ false | some users ↦ true ]

abbrev covers : Option ℕ → List (ℕ × List ℕ) → Bool
covers none table = true
covers (some r) table = has_key r table

only_in-remove :
    (v r : ℕ) (o : Option ℕ) (table : List (ℕ × List ℕ))
    → only_in v o table ≡ true
    → only_in v o (remove r table) ≡ true
only_in-remove v r o [] h = refl
only_in-remove v r o (e ∷ table) h = ground (arith, only_in-remove v r o table)

only_in-joined :
    (v r : ℕ) (table : List (ℕ × List ℕ))
    → only_in v none table ≡ true
    → only_in v (some r) (remove r table) ≡ true
only_in-joined v r [] h = refl
only_in-joined v r (e ∷ table) h = ground (arith, only_in-joined v r table)

not_covered :
    (o : Option ℕ) (r : ℕ) (table : List (ℕ × List ℕ))
    → covers o table ≡ true
    → get? r table ≡ none
    → is_room o r ≡ false
not_covered none r table c e = refl
not_covered (some s) r table c e = ground arith

only_in-get? :
    (v r : ℕ) (o : Option ℕ) (table : List (ℕ × List ℕ)) (users : List ℕ)
    → only_in v o table ≡ true
    → get? r table ≡ some users
    → mentions v users ≡ is_room o r
only_in-get? v r o [] users h e = cc
only_in-get? v r o (f ∷ table) users h e = ground (arith, only_in-get? v r o table users)

find_room-only_in :
    (v : ℕ) (o : Option ℕ) (table : List (ℕ × List ℕ))
    → only_in v o table ≡ true
    → covers o table ≡ true
    → find_room v table ≡ o
find_room-only_in v none [] h c = refl
find_room-only_in v (some r) [] h c = cc
find_room-only_in v none (e ∷ table) h c = ground (arith, find_room-only_in v none table)
find_room-only_in v (some r) (e ∷ table) h c = ground (arith, find_room-only_in v (some r) table)

has_key-push_entry :
    (j r u : ℕ) (table : List (ℕ × List ℕ))
    → has_key j (push_entry r u table) ≡ (if r == j then true else has_key j table)
has_key-push_entry j r u table = elim (Option-cases (get? r table)) [
  | inl e ↦ ground (arith, e, get?-insert r j (u ∷ []) table)
  | inr (users, e) ↦ ground (arith, e, get?-insert r j (users ++ u ∷ []) table)
]

covers-push_entry :
    (o : Option ℕ) (r u : ℕ) (table : List (ℕ × List ℕ))
    → covers o table ≡ true
    → covers o (push_entry r u table) ≡ true
covers-push_entry none r u table c = refl
covers-push_entry (some j) r u table c = ground (arith, has_key-push_entry j r u table)

-- Another user joins the map.
only_in-other :
    (v r u : ℕ) (o : Option ℕ) (table : List (ℕ × List ℕ))
    → (u == v) ≡ false
    → only_in v o table ≡ true
    → covers o table ≡ true
    → only_in v o (push_entry r u table) ≡ true
only_in-other v r u o table n h c = elim (Option-cases (get? r table)) [
  | inl e ↦
      let rest = only_in-remove v r o table h in
      let fresh : is_room o r ≡ false = not_covered o r table c e in
      rw (push_entry, e) (ground arith)
  | inr (users, e) ↦
      let rest = only_in-remove v r o table h in
      let listed_v = only_in-get? v r o table users h e in
      let grown = any-append (λ x. x == v) users (u ∷ []) in rw (push_entry, e) (ground arith)
]

-- The user joins the map.
only_in_self :
    (v r u : ℕ) (table : List (ℕ × List ℕ))
    → (u == v) ≡ true
    → only_in v none table ≡ true
    → only_in v (some r) (push_entry r u table) ≡ true
only_in_self v r u table self h = elim (Option-cases (get? r table)) [
  | inl e ↦ let rest = only_in-joined v r table h in rw (push_entry, e) (ground arith)
  | inr (users, e) ↦
      let rest = only_in-joined v r table h in
      let grown = any-append (λ x. x == v) users (u ∷ []) in rw (push_entry, e) (ground arith)
]

abbrev first_room : Option ℕ → Option (ℕ × ℕ) → Option ℕ
first_room (some r) o = some r
first_room none none = none
first_room none (some m) = some m.1

room_found : (o : Option (ℕ × ℕ)) → first_room none o ≡ (elim o [ none ↦ none | some m ↦ some m.1 ])
room_found none = refl
room_found (some m) = refl

found_status :
    (o : Option (ℕ × UserStatus))
    → (elim o [ none ↦ false | some s ↦ s.1.is_deafened ])
      ≡ UserStatus.is_deafened (elim o [ none ↦ default_status | some s ↦ s.1 ])
found_status none = refl
found_status (some s) = refl

deafened_of : List (ℕ × UserStatus) → List ℕ
deafened_of ss = map (λ (s : ℕ × UserStatus). s.0) (retain (λ s. s.1.is_deafened) ss)

not_deafened :
    (v : ℕ) (ss : List (ℕ × UserStatus))
    → mentions v (keys ss) ≡ false
    → mentions v (deafened_of ss) ≡ false
unfolding deafened_of
not_deafened v [] h = refl
not_deafened v (s ∷ ss) h = ground (arith, not_deafened v ss)

deafened_status :
    (v : ℕ) (ss : List (ℕ × UserStatus))
    → distinct (keys ss) ≡ true
    → mentions v (deafened_of ss)
      ≡ (elim (find (λ s. s.0 == v) ss) [ none ↦ false | some s ↦ s.1.is_deafened ])
unfolding deafened_of
deafened_status v [] h = refl
deafened_status v (s ∷ ss) h = ground (arith, deafened_status v ss, not_deafened v ss)

find_room-group_by_room :
    (v : ℕ) (o : Option ℕ) (ms : List (ℕ × ℕ)) (table : List (ℕ × List ℕ))
    → only_in v o table ≡ true
    → covers o table ≡ true
    → distinct (keys ms) ≡ true
    → (is_none o || not (mentions v (keys ms))) ≡ true
    → find_room v (group_by_room ms table) ≡ first_room o (find (λ m. m.0 == v) ms)
unfolding group_by_room
find_room-group_by_room v none [] table h c d once = find_room-only_in v none table h c
find_room-group_by_room v (some r) [] table h c d once = find_room-only_in v (some r) table h c
find_room-group_by_room v (some t) ((u, r) ∷ ms) table h c d once =
    let other : (u == v) ≡ false = ground arith in
    find_room-group_by_room v (some t) ms (push_entry r u table)
      (only_in-other v r u (some t) table other h c) (covers-push_entry (some t) r u table c)
      (ground arith) (ground arith)
find_room-group_by_room v none ((u, r) ∷ ms) table h c d once = elim (Bool-cases (u == v)) [
  | inr other ↦
      find_room-group_by_room v none ms (push_entry r u table)
        (only_in-other v r u none table other h c) refl (ground arith) refl
      ∙ rw other
  | inl self ↦
      find_room-group_by_room v (some r) ms (push_entry r u table) (only_in_self v r u table self h)
        (ground (arith, has_key-push_entry r r u table)) (ground arith) (ground arith)
      ∙ rw self
]

-- The room that the relay finds for a user is the user's room, if no user is listed twice.
pub find_room-snapshot_voice_routing :
    (v : ℕ) (d : StateData)
    → distinct (keys d.memberships) ≡ true
    → find_room v (snapshot_voice_routing d).0 ≡ get_user_room v d
unfolding snapshot_voice_routing get_user_room
find_room-snapshot_voice_routing v d h =
    find_room-group_by_room v none d.memberships [] refl refl h refl
    ∙ room_found (find (λ m. m.0 == v) d.memberships)

pub listed-snapshot_voice_routing :
    (r : ℕ) (d : StateData) → listed r (snapshot_voice_routing d).0 ≡ get_room_members r d
unfolding snapshot_voice_routing snapshot_room_memberships
listed-snapshot_voice_routing r d = listed-snapshot_room_memberships r d

-- A user is in the deafened set exactly if the user's status says so, if none has two.
pub mentions-deafened :
    (v : ℕ) (d : StateData)
    → distinct (keys d.user_statuses) ≡ true
    → mentions v (snapshot_voice_routing d).1 ≡ (get_user_status v d).is_deafened
unfolding snapshot_voice_routing get_user_status deafened_of
mentions-deafened v d h =
    deafened_status v d.user_statuses h ∙ found_status (find (λ s. s.0 == v) d.user_statuses)

-- The members of a room are the users whose room it is, if no user is listed twice.
pub mentions-room_members :
    (v r : ℕ) (d : StateData)
    → distinct (keys d.memberships) ≡ true
    → (mentions v (get_room_members r d) ≡ true) ↔ (get_user_room v d ≡ some r)
mentions-room_members v r d h =
    rw (← listed-snapshot_room_memberships r d) (mentions-snapshot_room_memberships v r d h)
