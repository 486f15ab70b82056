-- ===== src/Ops/Guard.antt =====
-- The cycle guard of `handle_move_room` (crates/server/src/handlers.rs).
use rumble.Prelude.{
  ℕ, zero, suc, ◌+◌, ◌≤◌, ◌≡◌, true, false, none, some, List, ◌==◌, if◌then◌else◌, find, length,
  arith, ==_iff,
}
use rumble.Prelude.Predicates.{mentions}
use rumble.Rooms.{Room, root_room_uuid}
use rumble.Ops.{parent_of, closes_cycle}
use rumble.Ops.Tree.{Climb, root_self_parents, at_root, below, length-Climb}

parent_of_found :
    (rooms : List Room) (c : ℕ) (r : Room)
    → find (λ y. y.id == c) rooms ≡ some r
    → parent_of rooms c ≡ (if r.parent == root_room_uuid then none else some r.parent)
unfolding parent_of
parent_of_found rooms c r f = ground arith

module _ (rooms : List Room) (u : ℕ) (n : (u == root_room_uuid) ≡ false) where
  walk :
      (left : ℕ) {c : ℕ} {xs : List ℕ}
      → (c == root_room_uuid) ≡ false
      → Climb rooms c xs
      → length xs ≤ left + 1
      → closes_cycle left rooms u (some c) ≡ mentions u xs
  unfolding closes_cycle
  walk left low (at_root e) short = absurd (ground arith)
  walk zero low (below e f (at_root e')) short = ground arith
  walk zero low (below e f (below e' f' c)) short = absurd (ground arith)
  walk (suc left) {c = c} low (below {r = r} e f (at_root e')) short =
      ground (arith, parent_of_found rooms c r f)
  walk (suc left) {c = c} low (below {r = r} {xs = xs} e f (below {r = s} {xs = ys} e' f' up))
        short =
      ground
        (arith, parent_of_found rooms c r f, walk left e' (below {r = s} e' f' up) (ground arith))

  at_top :
      (left : ℕ) (x : ℕ)
      → root_self_parents rooms ≡ true
      → (x == root_room_uuid) ≡ true
      → closes_cycle left rooms u (some x) ≡ false
  unfolding closes_cycle parent_of
  at_top zero x t h = ground (arith, n)
  at_top (suc left) x t h = let e = (==_iff x root_room_uuid).0 h in rw e (ground (arith, n))

  -- With Root its own parent and a new parent that climbs to Root, the guard of a move of a room
  -- other than Root refuses the new parent exactly if the room is on its climb: the new parent
  -- itself or above it.
  pub closes_cycle-Climb :
      {parent : ℕ} {xs : List ℕ}
      → root_self_parents rooms ≡ true
      → Climb rooms parent xs
      → closes_cycle (length rooms) rooms u (some parent) ≡ mentions u xs
  closes_cycle-Climb t (below {r = r} e f c) =
      walk (length rooms) e (below {r = r} e f c)
        (ground (arith, length-Climb rooms (below {r = r} e f c)))
  closes_cycle-Climb {parent = parent} t (at_root e) = at_top (length rooms) parent t e
