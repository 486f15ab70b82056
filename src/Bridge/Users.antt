-- ===== src/Bridge/Users.antt =====
-- The user map of crates/mumble-bridge/src/state.rs: its two directions always agree.
use rumble.Prelude.{ℕ, ◌+◌, ◌^◌, ◌<◌, ◌≤◌, ◌≡◌, some, nat_keys, arith, Option-cases, inl, inr}
use rumble.Prelude.Equality.{get?, get?-insert, get?-remove}
use rumble.Bridge.{
  UserMap, new_users, get_or_insert_user, get_mumble_session, get_rumble_id, remove_by_rumble_id,
}

-- Each direction undoes the other, and the sessions in use are of the users' range, below the
-- counter.
pub record ArePaired (m : UserMap) : Type 0 where
  pub there :
      (user session : ℕ)
      → get_mumble_session user m ≡ some session
      → get_rumble_id session m ≡ some user
  pub back :
      (user session : ℕ)
      → get_rumble_id session m ≡ some user
      → get_mumble_session user m ≡ some session
  pub fresh :
      (user session : ℕ) → get_mumble_session user m ≡ some session → session < m.next_session
  pub in_range : (user session : ℕ) → get_mumble_session user m ≡ some session → 100000 ≤ session
  pub above : 100000 ≤ m.next_session

pub data UserOp : Type 0 where
  asks : ℕ → UserOp
  forgets : ℕ → UserOp

unfoldable pub user_step : UserOp → UserMap → UserMap
user_step (asks user) m = (get_or_insert_user user m).1
user_step (forgets user) m = remove_by_rumble_id user m

-- A history of calls in which the counter of sessions is never at its end.
pub data UserHistory : UserMap → Type 0 where
  begins : UserHistory new_users
  then_calls :
      {m : UserMap}
      → UserHistory m
      → (op : UserOp) → m.next_session + 1 < 2 ^ 32
      → UserHistory (user_step op m)

new_users-ArePaired : ArePaired new_users
unfolding new_users get_mumble_session get_rumble_id
new_users-ArePaired = record {
  there = λ u i h. ground arith;
  back = λ u i h. ground arith;
  fresh = λ u i h. ground arith;
  in_range = λ u i h. ground arith;
  above = omega arith;
}

asks-ArePaired :
    (user : ℕ) (m : UserMap)
    → m.next_session + 1 < 2 ^ 32
    → ArePaired m
    → ArePaired (get_or_insert_user user m).1
unfolding get_or_insert_user get_mumble_session get_rumble_id
asks-ArePaired user m small v = elim (Option-cases (get? user m.rumble_to_mumble)) [
  | inr (id, known) ↦ rw (get_or_insert_user, known) v
  | inl unknown ↦
      let n = m.next_session in
      rw (get_or_insert_user, unknown)
        (record {
          there = λ u i h. ground (
            arith,
            get?-insert user u n m.rumble_to_mumble,
            get?-insert n i user m.mumble_to_rumble,
            v.there u i,
            v.fresh u i,
          );
          back = λ u i h. ground (
            arith,
            get?-insert user u n m.rumble_to_mumble,
            get?-insert n i user m.mumble_to_rumble,
            v.back u i,
          );
          fresh = λ u i h. ground (arith, get?-insert user u n m.rumble_to_mumble, v.fresh u i);
          in_range = λ u i h.
              ground (arith, get?-insert user u n m.rumble_to_mumble, v.in_range u i, v.above);
          above = ground (arith, v.above);
        })
]

forgets-ArePaired : (user : ℕ) (m : UserMap) → ArePaired m → ArePaired (remove_by_rumble_id user m)
unfolding remove_by_rumble_id get_mumble_session get_rumble_id
forgets-ArePaired user m v = elim (Option-cases (get? user m.rumble_to_mumble)) [
  | inl unknown ↦ rw (remove_by_rumble_id, unknown) v
  | inr (id, known) ↦
      rw (remove_by_rumble_id, known)
        (record {
          there = λ u i h. ground (
            arith,
            get?-remove user u m.rumble_to_mumble,
            get?-remove id i m.mumble_to_rumble,
            v.there u i,
            v.there user id known,
          );
          back = λ u i h. ground (
            arith,
            get?-remove user u m.rumble_to_mumble,
            get?-remove id i m.mumble_to_rumble,
            v.back u i,
          );
          fresh = λ u i h. ground (arith, get?-remove user u m.rumble_to_mumble, v.fresh u i);
          in_range = λ u i h. ground (arith, get?-remove user u m.rumble_to_mumble, v.in_range u i);
          above = v.above;
        })
]

user_step-ArePaired :
    (op : UserOp) (m : UserMap)
    → m.next_session + 1 < 2 ^ 32
    → ArePaired m
    → ArePaired (user_step op m)
unfolding user_step
user_step-ArePaired (asks user) m small v = asks-ArePaired user m small v
user_step-ArePaired (forgets user) m small v = forgets-ArePaired user m v

-- After any history of calls in which the counter of sessions does not reach its end, the users and
-- sessions point at each other, and every session is of the range that is kept for users.
pub UserHistory-ArePaired : {m : UserMap} → UserHistory m → ArePaired m
UserHistory-ArePaired begins = new_users-ArePaired
UserHistory-ArePaired (then_calls {m = m} history op small) =
    user_step-ArePaired op m small (UserHistory-ArePaired history)
