-- ===== src/Acl/Chain.antt =====
-- The route from Root to a room that `build_room_chain_owned` (crates/server/src/acl.rs) takes.
use rumble.Prelude.{
  ℕ, zero, suc, ◌+◌, ◌≤◌, ◌<◌, ◌≡◌, refl, Bool, true, false, ◌&&◌, ◌||◌, Option, none, some, List,
  [], ◌∷◌, ◌==◌, ltb, find, length, arith, Bool-cases, Option-cases, inl, inr, ==_iff,
}
use rumble.Rooms.{Room, root_room_uuid}
use rumble.Acl.{walk_up, headed_by_root, dedup_after, dedup, room_path}

-- `b` may follow `a` on a route: `a` is Root, or the parent of `b`.
abbrev pub follows : List Room → ℕ → ℕ → Bool
follows rooms a b =
    a == root_room_uuid
    || elim (find (λ r. r.id == b) rooms) [ none ↦ false | some r ↦ r.parent == a ]

abbrev pub descends : List Room → ℕ → List ℕ → Bool
descends rooms a [] = true
descends rooms a (b ∷ path) = follows rooms a b && descends rooms b path

abbrev pub last_of : ℕ → List ℕ → ℕ
last_of a [] = a
last_of a (b ∷ path) = last_of b path

-- A route ends at the target and goes down.
abbrev pub is_route : List Room → ℕ → Option (List ℕ) → Bool
is_route rooms target none = false
is_route rooms target (some []) = false
is_route rooms target (some (a ∷ path)) = descends rooms a path && last_of a path == target

abbrev pub starts_at_root : Option (List ℕ) → Bool
starts_at_root none = false
starts_at_root (some []) = false
starts_at_root (some (a ∷ path)) = a == root_room_uuid

walk_up-is_route :
    (fuel : ℕ) (rooms : List Room) (target current : ℕ) (path : List ℕ)
    → length path < length rooms + 2
    → length rooms + 2 ≤ fuel + length path
    → is_route rooms target (some (current ∷ path)) ≡ true
    → is_route rooms target (walk_up fuel rooms current path) ≡ true
unfolding walk_up
walk_up-is_route zero rooms target current path short enough h = ground arith
walk_up-is_route (suc fuel) rooms target current path short enough h =
    elim (Option-cases (find (λ (r : Room). r.id == current) rooms)) [
      | inl missing ↦ ground arith
      | inr (r, found) ↦ elim (Bool-cases (ltb (length rooms + 1) (length (current ∷ path)))) [
        | inl long ↦ ground arith
        | inr room_left ↦ ground (
          arith,
          walk_up-is_route fuel rooms target r.parent (current ∷ path),
          ==_iff r.parent r.parent,
        )
      ]
    ]

descends-dedup_after :
    (rooms : List Room) (a : ℕ) (path : List ℕ)
    → descends rooms a path ≡ true
    → descends rooms a (dedup_after a path) ≡ true
descends-dedup_after rooms a [] h = refl
descends-dedup_after rooms a (b ∷ path) h = elim (Bool-cases (b == a)) [
  | inl same ↦ ground (arith, descends-dedup_after rooms b path, ==_iff b a)
  | inr other ↦ ground (arith, descends-dedup_after rooms b path)
]

last_of-dedup_after : (a : ℕ) (path : List ℕ) → last_of a (dedup_after a path) ≡ last_of a path
last_of-dedup_after a [] = refl
last_of-dedup_after a (b ∷ path) = elim (Bool-cases (b == a)) [
  | inl same ↦ ground (arith, last_of-dedup_after b path, ==_iff b a)
  | inr other ↦ ground (arith, last_of-dedup_after b path)
]

finished-is_route :
    (rooms : List Room) (target : ℕ) (path : List ℕ)
    → is_route rooms target (some path) ≡ true
    → (starts_at_root (some (dedup (headed_by_root path)))
        && is_route rooms target (some (dedup (headed_by_root path))))
      ≡ true
finished-is_route rooms target [] h = ground arith
finished-is_route rooms target (a ∷ path) h = elim (Bool-cases (a == root_room_uuid)) [
  | inl root ↦ ground (arith, descends-dedup_after rooms a path, last_of-dedup_after a path)
  | inr below ↦ ground (
    arith,
    descends-dedup_after rooms root_room_uuid (a ∷ path),
    last_of-dedup_after root_room_uuid (a ∷ path),
  )
]

-- The walk always ends, whatever the parent links are (cycles and missing parents included), and
-- its chain starts at Root, ends at the target, and in it each room but the first comes after its
-- parent or after Root.
pub room_path-is_route :
    (rooms : List Room) (target : ℕ)
    → (starts_at_root (room_path rooms target) && is_route rooms target (room_path rooms target))
      ≡ true
unfolding room_path
room_path-is_route rooms target =
    let walked =
      walk_up-is_route (length rooms + 2) rooms target target [] (omega arith) (omega arith)
        ((==_iff target target).1 refl) in
    elim (Option-cases (walk_up (length rooms + 2) rooms target [])) [
      | inl stuck ↦ ground arith
      | inr (path, e) ↦ ground (arith, finished-is_route rooms target path)
    ]
