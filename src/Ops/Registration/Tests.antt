-- ===== src/Ops/Registration/Tests.antt =====
-- Registration in crates/server/src/ops.rs at concrete input.
use rumble.Prelude.{
  String, ◌≡◌, ◌==◌, refl, subst, arith, Bool-cases, inl, inr, false, none, [], ◌∷◌,
}
use rumble.Sled.Memory.{memory}
use rumble.Persistence.{RegisteredUser, register_user, get_registered_user, get_group}
use rumble.Persistence.Example.{two_groups}
use rumble.Rooms.Example.{small_house}
use rumble.Ops.{ClientHandle, Server, ok, err, username_is_a_group}
use rumble.Ops.Registration.{apply_register_user, names_group}
use rumble.Ops.Registration.Names.{IsSeparate}
use rumble.Ops.Registration.Change.{change, registers, change-IsSeparate}

abbrev named : String → ClientHandle
named name = record {
  identity = record { display_name = name; verified_username = none; label = none; groups = [] };
  is_superuser = false;
  server_muted = false;
  manually_server_muted = false;
}

abbrev house : Server
house = record {
  state = small_house;
  clients = (1, named "bob") ∷ (2, named "staff") ∷ [];
  persistence = two_groups;
  sessions = (1, 3) ∷ (2, 4) ∷ [];
  sent = [];
}

bob_registers : (apply_register_user 1 house).0 ≡ ok tt
unfolding apply_register_user get_registered_user get_group register_user memory
bob_registers = refl

staff_is_refused : (apply_register_user 2 house).0 ≡ err username_is_a_group
unfolding apply_register_user get_registered_user get_group register_user memory
staff_is_refused = refl

abbrev ann : RegisteredUser
ann = record { username = "ann"; last_room = none }

house-IsSeparate : IsSeparate two_groups
unfolding get_registered_user get_group memory
house-IsSeparate key user e = elim (Bool-cases (7 == key)) [
  | inr other ↦ absurd (ground arith)
  | inl same ↦
      let ann_is : ann ≡ user = ground arith in
      subst (λ (u : RegisteredUser). names_group u.username two_groups ≡ false) ann_is refl
]

change-IsSeparate_example : IsSeparate (change (registers 1) house).persistence
change-IsSeparate_example = change-IsSeparate (registers 1) house house-IsSeparate
