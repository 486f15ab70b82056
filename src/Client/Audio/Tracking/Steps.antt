-- ===== src/Client/Audio/Tracking/Steps.antt =====
-- What each command of crates/rumble-client/src/projection.rs to the audio task does to the members
-- that crates/rumble-client/src/audio_task.rs knows.
use rumble.Prelude.{
  ℕ, ◌≡◌, refl, Bool, true, false, not, ◌&&◌, Option, none, some, List, [], ◌∷◌, ◌++◌, ◌==◌, ==_iff,
  if◌then◌else◌, retain, arith, Bool-cases, Option-cases, inl, inr,
}
use rumble.Prelude.Predicates.{mentions, distinct, any-append}
use rumble.Wire.{User}
use rumble.Client.{
  AudioCommand, user_joined_room, user_left_room, room_changed, set_server_muted, change_first,
  user_of, same_id, both, room_user_ids,
}
use rumble.Client.Audio.{hear, hear_all}
use rumble.Client.Audio.Members.{
  is_with_us, user_ids, mentions-insert_id, mentions-remove_id, mentions-extend,
  mentions-room_user_ids, in_room-retain, in_room-change_first, in_room_moved, in_room_found,
  in_room_unknown, in_room_other,
}

module _ (me : ℕ) where
  -- The members are the users who are with us.
  abbrev pub Tracks : List ℕ → Option ℕ → List User → Type 0
  Tracks members mine users = (id : ℕ) → mentions id members ≡ is_with_us me mine users id

  pub Tracks-entered :
      (r : ℕ) (users : List User) (members : List ℕ)
      → Tracks (hear me (room_changed (room_user_ids users r (some me))) members) (some r) users
  unfolding hear
  Tracks-entered r users members id = ground (
    arith,
    mentions-extend me id (room_user_ids users r (some me)) [],
    mentions-room_user_ids me id r users,
  )

  pub Tracks-joined :
      (mine : Option ℕ) (u : User) (users : List User) (members : List ℕ)
      → Tracks members mine users
      → Tracks
          (hear_all me
            (if same_id mine u.current_room then user_joined_room u.user_id ∷ [] else [])
            members)
          mine
          (users ++ u ∷ [])
  unfolding hear_all hear
  Tracks-joined none u users members t id = t id
  Tracks-joined (some r) u users members t id = ground (
    arith,
    t id,
    mentions-insert_id u.user_id id members,
    any-append (λ (v : User). v.user_id == id && v.current_room == r) users (u ∷ []),
    ==_iff u.user_id id,
    ==_iff r u.current_room,
    ==_iff u.user_id me,
  )

  pub Tracks-left :
      (mine : Option ℕ) (x : ℕ) (users : List User) (members : List ℕ)
      → distinct (user_ids users) ≡ true
      → Tracks members mine users
      → Tracks
          (hear_all me
            (if elim (user_of x users) [ none ↦ false | some u ↦ same_id mine u.current_room ]
              then user_left_room x ∷ []
              else [])
            members)
          mine
          (retain (λ u. not (u.user_id == x)) users)
  unfolding hear_all hear
  Tracks-left none x users members d t id = elim (Option-cases (user_of x users)) [
    | inl unknown ↦ ground (arith, unknown, t id)
    | inr (u, known) ↦ ground (arith, known, t id)
  ]
  Tracks-left (some r) x users members d t id = elim (Option-cases (user_of x users)) [
    | inl unknown ↦ ground (
      arith,
      unknown,
      t id,
      in_room-retain x id r users,
      in_room_unknown x r users unknown,
      ==_iff id x,
    )
    | inr (u, known) ↦ ground (
      arith,
      known,
      t id,
      in_room-retain x id r users,
      in_room_found x r users u d known,
      mentions-remove_id x id members,
      ==_iff id x,
      ==_iff r u.current_room,
    )
  ]

  -- Another user, who is listed, moves.
  pub Tracks-moved :
      (mine : Option ℕ) (x q : ℕ) (u : User) (users : List User) (members : List ℕ)
      → distinct (user_ids users) ≡ true
      → user_of x users ≡ some u
      → (x == me) ≡ false
      → Tracks members mine users
      → Tracks
          (hear_all me
            (if both mine (some q)
              then user_joined_room x ∷ []
              else if both mine (some u.current_room)
              then user_left_room x ∷ []
              else [])
            members)
          mine
          (change_first (λ u. u.user_id == x) (λ u. record u { current_room = q }) users)
  unfolding hear_all hear
  Tracks-moved none x q u users members d known other t id = t id
  Tracks-moved (some r) x q u users members d known other t id = ground (
    arith,
    t id,
    known,
    in_room_moved x id r q users d,
    in_room_found x r users u d known,
    mentions-insert_id x id members,
    mentions-remove_id x id members,
    ==_iff id x,
    ==_iff x id,
  )

  -- A change of a user that leaves the id and the room alone.
  pub Tracks-changed :
      (mine : Option ℕ) (x : ℕ) (f : User → User) (users : List User) (members : List ℕ)
      → ((u : User) → ((f u).user_id ≡ u.user_id) × ((f u).current_room ≡ u.current_room))
      → Tracks members mine users
      → Tracks members mine (change_first (λ u. u.user_id == x) f users)
  Tracks-changed none x f users members h t id = t id
  Tracks-changed (some r) x f users members h t id =
      ground (arith, t id, in_room-change_first x id r f users h)

  pub hear_mute :
      (b : Bool) (muted : Bool) (members : List ℕ)
      → hear_all me (if b then set_server_muted muted ∷ [] else []) members ≡ members
  unfolding hear_all hear
  hear_mute true muted members = refl
  hear_mute false muted members = refl

  -- Where we are ourselves is not asked.
  pub Tracks-own :
      (mine : Option ℕ) (x q : ℕ) (users : List User) (members : List ℕ)
      → (me == x) ≡ true
      → Tracks members mine users
      → Tracks members mine
          (change_first (λ u. u.user_id == x) (λ u. record u { current_room = q }) users)
  Tracks-own none x q users members us t id = t id
  Tracks-own (some r) x q users members us t id = elim (Bool-cases (x == id)) [
    | inl same ↦ ground (arith, t id, ==_iff x id, ==_iff me x, ==_iff id me)
    | inr other ↦ ground (
      arith,
      t id,
      in_room_other x id r (λ u. record u { current_room = q }) users (λ u. refl) other,
    )
  ]

  pub Tracks-replaced :
      (mine who : Option ℕ) (users old : List User) (members : List ℕ)
      → who ≡ some me
      → Tracks members mine old
      → Tracks
          (hear_all me
            (elim mine as (λ o. List AudioCommand) [
              | none ↦ []
              | some r ↦ room_changed (room_user_ids users r who) ∷ []
            ]
              ++ elim who as (λ o. List AudioCommand) [
                | none ↦ []
                | some id ↦ elim (user_of id users) as (λ o. List AudioCommand) [
                  | none ↦ []
                  | some u ↦ set_server_muted u.server_muted ∷ []
                ]
              ])
            members)
          mine
          users
  unfolding hear_all hear
  Tracks-replaced none who users old members own t id =
      rw own (elim (Option-cases (user_of me users)) [
        | inl unknown ↦ ground (arith, unknown, t id)
        | inr (u, known) ↦ ground (arith, known, t id)
      ])
  Tracks-replaced (some r) who users old members own t id =
      let w = Tracks-entered r users members id in
      rw own (elim (Option-cases (user_of me users)) [
        | inl unknown ↦ rw unknown w
        | inr (u, known) ↦ rw known w
      ])
