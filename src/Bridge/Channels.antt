-- ===== src/Bridge/Channels.antt =====
-- The channel map of crates/mumble-bridge/src/state.rs: its two directions always agree.
use rumble.Prelude.{
  ℕ, ◌+◌, ◌^◌, ◌<◌, ◌≡◌, refl, some, ◌==◌, if◌then◌else◌, nat_keys, arith, ==_iff, Bool-cases,
  Option-cases, inl, inr,
}
use rumble.Prelude.Equality.{get?, get?-insert, get?-remove}
use rumble.Rooms.{root_room_uuid}
use rumble.Bridge.{
  ChannelMap, new_channels, get_or_insert, get_mumble_id, get_rumble_uuid, remove_by_uuid,
}

-- Each direction undoes the other, Root's channel is 0 and no other's, and the counter is above
-- every id in use.
pub record AreInverse (m : ChannelMap) : Type 0 where
  pub there : (uuid id : ℕ) → get_mumble_id uuid m ≡ some id → get_rumble_uuid id m ≡ some uuid
  pub back : (uuid id : ℕ) → get_rumble_uuid id m ≡ some uuid → get_mumble_id uuid m ≡ some id
  pub root_zero :
      (uuid id : ℕ) → get_mumble_id uuid m ≡ some id → (id == 0) ≡ (uuid == root_room_uuid)
  pub fresh : (uuid id : ℕ) → get_mumble_id uuid m ≡ some id → id < m.next_id
  pub positive : 0 < m.next_id

pub new_channels-AreInverse : AreInverse new_channels
unfolding new_channels get_mumble_id get_rumble_uuid
new_channels-AreInverse = record {
  there = λ uuid id h. ground arith;
  back = λ uuid id h. ground arith;
  root_zero = λ uuid id h. ground arith;
  fresh = λ uuid id h. ground arith;
  positive = omega arith;
}

-- Asking for a room's channel keeps the map's two directions inverse, as long as the counter of
-- ids is not at its end.
pub get_or_insert-AreInverse :
    (uuid : ℕ) (m : ChannelMap)
    → m.next_id + 1 < 2 ^ 32
    → AreInverse m
    → AreInverse (get_or_insert uuid m).1
unfolding get_or_insert get_mumble_id get_rumble_uuid
get_or_insert-AreInverse uuid m small v = elim (Bool-cases (uuid == root_room_uuid)) [
  | inl root ↦ rw root (record {
    there = λ u i h. ground (
      arith,
      get?-insert uuid u 0 m.rumble_to_mumble,
      get?-insert 0 i uuid m.mumble_to_rumble,
      v.there u i,
      v.root_zero u i,
    );
    back = λ u i h. ground (
      arith,
      get?-insert uuid u 0 m.rumble_to_mumble,
      get?-insert 0 i uuid m.mumble_to_rumble,
      v.back u i,
      v.root_zero u i,
    );
    root_zero = λ u i h. ground (arith, get?-insert uuid u 0 m.rumble_to_mumble, v.root_zero u i);
    fresh =
        λ u i h. ground (arith, get?-insert uuid u 0 m.rumble_to_mumble, v.fresh u i, v.positive);
    positive = v.positive;
  })
  | inr other ↦ elim (Option-cases (get? uuid m.rumble_to_mumble)) [
    | inr (id, known) ↦ rw (other, known) v
    | inl unknown ↦
        let n = m.next_id in
        rw (other, unknown)
          (record {
            there = λ u i h. ground (
              arith,
              get?-insert uuid u n m.rumble_to_mumble,
              get?-insert n i uuid m.mumble_to_rumble,
              v.there u i,
              v.fresh u i,
            );
            back = λ u i h. ground (
              arith,
              get?-insert uuid u n m.rumble_to_mumble,
              get?-insert n i uuid m.mumble_to_rumble,
              v.back u i,
            );
            root_zero = λ u i h.
                ground
                  (arith, get?-insert uuid u n m.rumble_to_mumble, v.root_zero u i, v.positive);
            fresh = λ u i h. ground (arith, get?-insert uuid u n m.rumble_to_mumble, v.fresh u i);
            positive = ground arith;
          })
  ]
]

-- Removing a room's channel keeps the map's two directions inverse and its counter above every id.
pub remove_by_uuid-AreInverse :
    (uuid : ℕ) (m : ChannelMap) → AreInverse m → AreInverse (remove_by_uuid uuid m)
unfolding remove_by_uuid get_mumble_id get_rumble_uuid
remove_by_uuid-AreInverse uuid m v = elim (Option-cases (get? uuid m.rumble_to_mumble)) [
  | inl unknown ↦ rw (remove_by_uuid, unknown) v
  | inr (id, known) ↦
      rw (remove_by_uuid, known)
        (record {
          there = λ u i h. ground (
            arith,
            get?-remove uuid u m.rumble_to_mumble,
            get?-remove id i m.mumble_to_rumble,
            v.there u i,
            v.there uuid id known,
          );
          back = λ u i h. ground (
            arith,
            get?-remove uuid u m.rumble_to_mumble,
            get?-remove id i m.mumble_to_rumble,
            v.back u i,
          );
          root_zero =
              λ u i h. ground (arith, get?-remove uuid u m.rumble_to_mumble, v.root_zero u i);
          fresh = λ u i h. ground (arith, get?-remove uuid u m.rumble_to_mumble, v.fresh u i);
          positive = v.positive;
        })
]

-- In a map whose two directions are inverse, a room that is asked for has the channel that the
-- call returns, that channel has the room, and no other room's channel changes.
pub get_or_insert_lem :
    (uuid other : ℕ) (m : ChannelMap)
    → AreInverse m
    → (get_mumble_id other (get_or_insert uuid m).1
        ≡ (if uuid == other then some (get_or_insert uuid m).0 else get_mumble_id other m))
      × (get_rumble_uuid (get_or_insert uuid m).0 (get_or_insert uuid m).1 ≡ some uuid)
unfolding get_or_insert get_mumble_id get_rumble_uuid
get_or_insert_lem uuid other m v = elim (Bool-cases (uuid == root_room_uuid)) [
  | inl root ↦ rw root (
    get?-insert uuid other 0 m.rumble_to_mumble,
    ground (arith, get?-insert 0 0 uuid m.mumble_to_rumble),
  )
  | inr below ↦ elim (Option-cases (get? uuid m.rumble_to_mumble)) [
    | inl unknown ↦
        rw (below, unknown)
          (
            get?-insert uuid other m.next_id m.rumble_to_mumble,
            ground (arith, get?-insert m.next_id m.next_id uuid m.mumble_to_rumble),
          )
    | inr (id, known) ↦ rw (below, known) (known_stays id known, v.there uuid id known)
  ]
]
  where
    known_stays :
        (id : ℕ)
        → get? uuid m.rumble_to_mumble ≡ some id
        → get? other m.rumble_to_mumble
          ≡ (if uuid == other then some id else get? other m.rumble_to_mumble)
    known_stays id known = elim (Bool-cases (uuid == other)) [
      | inl same ↦ let e = (==_iff uuid other).0 same in ground (arith, known, e)
      | inr apart ↦ rw apart refl
    ]

-- The calls on the channel map.
pub data ChannelHistory : ChannelMap → Type 0 where
  fresh_map : ChannelHistory new_channels
  asked :
      {m : ChannelMap} (uuid : ℕ)
      → m.next_id + 1 < 2 ^ 32
      → ChannelHistory m
      → ChannelHistory (get_or_insert uuid m).1
  dropped : {m : ChannelMap} (uuid : ℕ) → ChannelHistory m → ChannelHistory (remove_by_uuid uuid m)

-- After any history of rooms asked for and rooms removed, in which the counter of ids does not
-- reach its end, the two directions of the channel map are inverse, Root's channel is 0 and no
-- other's, and the counter is above every channel in use.
pub ChannelHistory-AreInverse : {m : ChannelMap} → ChannelHistory m → AreInverse m
ChannelHistory-AreInverse fresh_map = new_channels-AreInverse
ChannelHistory-AreInverse (asked {m} uuid small h) =
    get_or_insert-AreInverse uuid m small (ChannelHistory-AreInverse h)
ChannelHistory-AreInverse (dropped {m} uuid h) =
    remove_by_uuid-AreInverse uuid m (ChannelHistory-AreInverse h)
