-- ===== src/Client/Permissions/Agreement.antt =====
-- The client (crates/rumble-client/src/projection.rs) computes the chain of a room as the server does
-- (crates/server/src/acl.rs), where the rooms form a tree.
use rumble.Prelude.{
  ℕ, zero, suc, ◌+◌, ◌≤◌, ◌≡◌, refl, ap, Bool, true, false, not, ◌&&◌, Option, none, some, List, [],
  ◌∷◌, ◌==◌, ==_iff, ltb, length, elem, nat_keys, arith,
}
use rumble.Prelude.Predicates.{every, mentions, distinct}
use rumble.Rooms.{Room, root_room_uuid}
use rumble.Acl.{walk_up, room_path, dedup, headed_by_root}
use rumble.Ops.Tree.{Climb, at_root, below, length-Climb, Climb-distinct}
use rumble.Client.Permissions.{climb, chain_path}

-- None of some rooms is on the path, and Root is not.
abbrev fresh_on : List ℕ → List ℕ → Bool
fresh_on path xs = every (λ x. not (elem x path)) xs && not (elem root_room_uuid path)

fresh_on-cons :
    (x : ℕ) (path xs : List ℕ)
    → (x == root_room_uuid) ≡ false
    → mentions x xs ≡ false
    → fresh_on path xs ≡ true
    → fresh_on (x ∷ path) xs ≡ true
fresh_on-cons x path [] low once h = ground (arith, ==_iff x 0)
fresh_on-cons x path (y ∷ xs) low once h =
    ground (arith, fresh_on-cons x path xs low, ==_iff x y, ==_iff y x)

fresh_on-nil : (xs : List ℕ) → fresh_on [] xs ≡ true
fresh_on-nil [] = refl
fresh_on-nil (x ∷ xs) = ground (arith, fresh_on-nil xs)

-- With the same fuel, both walks of a tree take the same way.
climb-walk_up :
    (fuel : ℕ) (rooms : List Room) {x : ℕ} {xs : List ℕ} (path : List ℕ)
    → Climb rooms x xs
    → distinct xs ≡ true
    → fresh_on path xs ≡ true
    → length path + length xs ≤ length rooms + 1
    → climb fuel rooms x path ≡ walk_up fuel rooms x path
unfolding climb walk_up
climb-walk_up zero rooms path c d h short = refl
climb-walk_up (suc fuel) rooms {x = x} path (at_root e) d h short = ground (arith, ==_iff x 0)
climb-walk_up (suc fuel) rooms {x = x} path (below {r = r} {xs = xs} low found c) d h short =
    let new : elem x path ≡ false = ground arith in
    let rest =
      climb-walk_up fuel rooms (x ∷ path) c (ground arith)
        (fresh_on-cons x path xs low (ground arith) (ground arith)) (omega arith) in
    let room_left : ltb (length rooms + 1) (length (x ∷ path)) ≡ false = ground arith in
    ground (arith, new, low, found, room_left, rest)

pub chain_path-room_path :
    (rooms : List Room) {x : ℕ} {xs : List ℕ}
    → Climb rooms x xs
    → chain_path rooms x ≡ room_path rooms x
unfolding chain_path room_path
chain_path-room_path rooms {x = x} {xs = xs} c =
    let same =
      climb-walk_up (length rooms + 2) rooms [] c (Climb-distinct rooms c) (fresh_on-nil xs)
        (ground (arith, length-Climb rooms c)) in
    ap
      (λ (o : Option (List ℕ)). elim o as (λ q. Option (List ℕ)) [
        | none ↦ none
        | some path ↦ some (dedup (headed_by_root path))
      ])
      same
