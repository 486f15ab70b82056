-- ===== src/Relay/Voice/Routing.antt =====
-- Who hears whom: the packets that `build_relay_packet` of crates/server/src/handlers.rs makes,
-- against the roster.
use rumble.Prelude.{
  ℕ, ◌≡◌, ◌≢◌, refl, sym, ap, ◌∙◌, ◌⊎◌, ◌↔◌, subst, Bool, true, false, not, ◌&&◌, ◌||◌, Option,
  none, some, List, [], ◌∷◌, ◌==◌, if◌then◌else◌, retain, arith, ==_iff, Bool-cases, Option-cases,
  inl, inr, nat_keys,
}
use rumble.Prelude.Predicates.{mentions}
use rumble.Prelude.Equality.{get?}
use rumble.Rooms.{
  StateData, get_user_status, get_user_room, get_room_members, snapshot_voice_routing,
}
use rumble.Rooms.Invariant.{IsValid}
use rumble.Rooms.Roster.{listed}
use rumble.Rooms.Routing.{
  find_room-snapshot_voice_routing, mentions-room_members, listed-snapshot_voice_routing,
  mentions-deafened,
}
use rumble.Relay.{ServerState, connection, get_client, is_participant_of, check_voice_rate}
use rumble.Relay.Voice.{
  VoiceDatagram, RelayPacket, Wire, effective_sender, muted_by_server, recipients_in, packet_for,
  route, build_relay_packet, claimed, holds, stamped,
}

mentions-retain :
    (p : ℕ → Bool) (a : ℕ) (xs : List ℕ) → mentions a (retain p xs) ≡ (mentions a xs && p a)
mentions-retain p a [] = refl
mentions-retain p a (x ∷ xs) = elim (Bool-cases (x == a)) [
  | inl same ↦
      let e : p x ≡ p a = ap p ((==_iff x a).0 same) in ground (arith, e, mentions-retain p a xs)
  | inr other ↦ ground (arith, mentions-retain p a xs)
]

recipients_of :
    (sender id : ℕ) (deafened : List ℕ) (o : Option (List ℕ))
    → mentions id (elim o [
      | none ↦ []
      | some ms ↦ retain (λ i. not (i == sender) && not (mentions i deafened)) ms
    ])
      ≡ (mentions id (elim o [ none ↦ [] | some ms ↦ ms ])
          && not (id == sender)
          && not (mentions id deafened))
recipients_of sender id deafened none = refl
recipients_of sender id deafened (some ms) =
    mentions-retain (λ i. not (i == sender) && not (mentions i deafened)) id ms ∙ ground arith

recipients_in_lem :
    (sender room id : ℕ) (rooms : List (ℕ × List ℕ)) (deafened : List ℕ)
    → mentions id (recipients_in sender room (rooms, deafened))
      ≡ (mentions id (listed room rooms) && not (id == sender) && not (mentions id deafened))
unfolding recipients_in
recipients_in_lem sender room id rooms deafened = recipients_of sender id deafened (get? room rooms)

if_some :
    {A : Type 0} (b : Bool) (o : Option A) (p : A)
    → (if b then none else o) ≡ some p
    → (b ≡ false) × (o ≡ some p)
if_some true o p h = cc
if_some false o p h = (refl, h)

routed_room :
    (o : Option ℕ) (f : ℕ → RelayPacket) (p : RelayPacket)
    → (elim o [ none ↦ none | some r ↦ some (f r) ]) ≡ some p
    → (r : ℕ) × (o ≡ some r) × (f r ≡ p)
routed_room none f p h = cc
routed_room (some r) f p h = (r, refl, cc)

speaks :
    (u who : ℕ) (controls : Bool) (claim : Option ℕ) (s : ServerState)
    → (if controls then claimed (connection u) claim s else some u) ≡ some who
    → (who ≡ u) ⊎ (is_participant_of who (connection u) s ≡ true)
speaks u who false claim s h = inl (ground arith)
speaks u who true none s h = cc
speaks u who true (some id) s h = elim (Bool-cases (is_participant_of id (connection u) s)) [
  | inl own ↦ let same : id ≡ who = ground arith in inr (rw (← same) own)
  | inr other ↦ absurd (ground arith)
]

let_through :
    {A B : Type 0} (muted self_muted allowed : Bool) (s t : A) (o : Option B)
    → (let out : A × Option B =
          if muted
          then (s, none)
          else if self_muted
          then (s, none)
          else if allowed
          then (t, o)
          else (t, none) in
        out.1)
      ≡ (if muted || self_muted || not allowed then none else o)
let_through true b c s t o = refl
let_through false true c s t o = refl
let_through false false true s t o = refl
let_through false false false s t o = refl

module _ (wire : Wire) where
  -- A route as the roster says it.
  pub route_lem :
      (sender : ℕ) (d : VoiceDatagram) (data' : StateData)
      → IsValid data'
      → route wire sender d data' ≡ (elim (get_user_room sender data') [
        | none ↦ none
        | some room ↦ some (packet_for wire sender room d (snapshot_voice_routing data'))
      ])
  unfolding route
  route_lem sender d data' v =
      ap
        (λ (o : Option ℕ). elim o [
          | none ↦ none
          | some room ↦ some (packet_for wire sender room d (snapshot_voice_routing data'))
        ])
        (find_room-snapshot_voice_routing sender data' v.one_room)

  -- Whoever is not the sender, is in the room and is not deafened is a recipient, and nobody else.
  pub packet_for-recipients :
      (sender room id : ℕ) (d : VoiceDatagram) (data' : StateData)
      → IsValid data'
      → (mentions id (packet_for wire sender room d (snapshot_voice_routing data')).recipients
          ≡ true)
        ↔ ((get_user_room id data' ≡ some room)
            × (id ≢ sender)
            × ((get_user_status id data').is_deafened ≡ false))
  unfolding packet_for
  packet_for-recipients sender room id d data' v =
      let routing = snapshot_voice_routing data' in
      let e : mentions id (recipients_in sender room routing) ≡ (
          mentions id (get_room_members room data')
          && not (id == sender)
          && not (get_user_status id data').is_deafened) =
        recipients_in_lem sender room id routing.0 routing.1
        ∙ ap (λ l. mentions id l && not (id == sender) && not (mentions id routing.1))
            (listed-snapshot_voice_routing room data')
        ∙ ap (λ b. mentions id (get_room_members room data') && not (id == sender) && not b)
            (mentions-deafened id data' v.one_status) in
      let m = mentions-room_members id room data' v.one_room in ground (arith, e, m)

  -- The packet, once the datagram is let through.
  pub build_lem :
      (now sender_user_id datagram_len who : ℕ) (d : VoiceDatagram) (s : ServerState)
      → effective_sender sender_user_id d s ≡ some who
      → (build_relay_packet wire now sender_user_id d datagram_len s).1 ≡ (
          if muted_by_server sender_user_id s
            || (get_user_status who s.state_data).is_muted
            || not (check_voice_rate now sender_user_id datagram_len s).1
          then none
          else route wire who d s.state_data)
  unfolding build_relay_packet check_voice_rate
  build_lem now sender_user_id datagram_len who d s e =
      rw (build_relay_packet, e)
        (let_through (muted_by_server sender_user_id s) (get_user_status who s.state_data).is_muted
          (check_voice_rate now sender_user_id datagram_len s).1 _ _
          (route wire who d s.state_data))

  no_sender :
      (now sender_user_id datagram_len : ℕ) (d : VoiceDatagram) (s : ServerState) (p : RelayPacket)
      → effective_sender sender_user_id d s ≡ none
      → (build_relay_packet wire now sender_user_id d datagram_len s).1 ≡ some p
      → ⊥
  unfolding build_relay_packet
  no_sender now sender_user_id datagram_len d s p e h = cc (rw (build_relay_packet, e) at h)

  -- A packet from a sender, and whether a user is to receive it.
  abbrev pub IsRelayOf : ℕ → ℕ → VoiceDatagram → StateData → RelayPacket → Type 0
  IsRelayOf who id d data' p =
      (get_user_room who data' ≡ some p.room)
      × (p.frame.sender_id ≡ who)
      × (p.bytes ≡ wire.encode_to_vec (stamped wire who p.room d))
      × ((mentions id p.recipients ≡ true) ↔ (
          (get_user_room id data' ≡ some p.room)
          × (id ≢ who)
          × ((get_user_status id data').is_deafened ≡ false)))

  route_sound :
      (who id : ℕ) (d : VoiceDatagram) (data' : StateData) (p : RelayPacket)
      → IsValid data'
      → route wire who d data' ≡ some p
      → IsRelayOf who id d data' p
  unfolding packet_for
  route_sound who id d data' p v h =
      let (room, r, q) =
        routed_room (get_user_room who data')
          (λ room. packet_for wire who room d (snapshot_voice_routing data')) p
          (sym (route_lem who d data' v) ∙ h) in
      subst (IsRelayOf who id d data') q
        (r, refl, refl, packet_for-recipients who room id d data' v)

  -- In a valid roster, if the relay makes a packet, its sender is the client itself or a
  -- participant of it, is muted neither by the server nor by itself, and is in the packet's room;
  -- the frame and the datagram carry that sender and that room; and the recipients are exactly the
  -- users of the room who are not the sender and not deafened.
  pub build_relay_packet_sound :
      (now sender_user_id datagram_len id : ℕ) (d : VoiceDatagram) (s : ServerState)
      (p : RelayPacket)
      → IsValid s.state_data
      → (build_relay_packet wire now sender_user_id d datagram_len s).1 ≡ some p
      → (who : ℕ) × ((who ≡ sender_user_id)
          ⊎ (is_participant_of who (connection sender_user_id) s ≡ true))
        × ((muted_by_server sender_user_id s || (get_user_status who s.state_data).is_muted)
            ≡ false)
        × IsRelayOf who id d s.state_data p
  unfolding effective_sender
  build_relay_packet_sound now sender_user_id datagram_len id d s p v h =
      elim (Option-cases (effective_sender sender_user_id d s)) [
        | inl e ↦ absurd (no_sender now sender_user_id datagram_len d s p e h)
        | inr (who, e) ↦
            let silenced =
              muted_by_server sender_user_id s || (get_user_status who s.state_data).is_muted in
            let (heard, routed) =
              if_some (silenced || not (check_voice_rate now sender_user_id datagram_len s).1)
                (route wire who d s.state_data) p
                (sym (build_lem now sender_user_id datagram_len who d s e) ∙ h) in
            (
              who,
              speaks sender_user_id who (holds (λ c. c.is_controller) (get_client sender_user_id s))
                  d.sender_id s e,
              ground arith,
              route_sound who id d s.state_data p v routed,
            )
      ]
