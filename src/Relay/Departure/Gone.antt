-- ===== src/Relay/Departure/Gone.antt =====
-- A connection that ended is gone, and its leaving is announced once: `cleanup_client` of
-- crates/server/src/handlers.rs.
use rumble.Prelude.{
  ℕ, ◌≡◌, refl, ◌∙◌, Bool, true, false, not, ◌||◌, none, List, [], ◌∷◌, map, ◌==◌, if◌then◌else◌,
  retain, arith, Bool-cases, Option-cases, inl, inr, nat_keys,
}
use rumble.Prelude.Predicates.{mentions, every}
use rumble.Prelude.Equality.{get?, remove, get?-remove}
use rumble.Relay.{
  ServerState, Client, Member, OwnerId, connection, owned_by, members_by_owner, remove_client,
  remove_session, remove_voice_rate,
}
use rumble.Relay.Departure.{
  cleanup_participant, cleanup_participants, cleanup_owned, cleanup_client, leave_rooms,
}

-- Every member is under its own id.
abbrev pub keyed : List (ℕ × Member) → Bool
keyed = every (λ e. e.0 == e.1.user_id)

-- Every member that an owner drives is among some ids.
abbrev pub owned_in : OwnerId → List ℕ → List (ℕ × Member) → Bool
owned_in owner ids = every (λ e. not (owned_by owner e.1.binding) || mentions e.0 ids)

owned_ids : OwnerId → List (ℕ × Member) → List ℕ
owned_ids owner ms =
    map (λ (e : ℕ × Member). e.1.user_id) (retain (λ e. owned_by owner e.1.binding) ms)

owned_in-remove :
    (owner : OwnerId) (id : ℕ) (ids : List ℕ) (ms : List (ℕ × Member))
    → owned_in owner (id ∷ ids) ms ≡ true
    → owned_in owner ids (remove id ms) ≡ true
owned_in-remove owner id ids [] h = refl
owned_in-remove owner id ids (e ∷ ms) h = ground (arith, owned_in-remove owner id ids ms)

owned_in_more :
    (owner : OwnerId) (id : ℕ) (ids : List ℕ) (ms : List (ℕ × Member))
    → owned_in owner ids ms ≡ true
    → owned_in owner (id ∷ ids) ms ≡ true
owned_in_more owner id ids [] h = refl
owned_in_more owner id ids (e ∷ ms) h = ground (arith, owned_in_more owner id ids ms)

owned_in_all :
    (owner : OwnerId) (ms : List (ℕ × Member))
    → keyed ms ≡ true
    → owned_in owner (owned_ids owner ms) ms ≡ true
unfolding owned_ids
owned_in_all owner [] k = refl
owned_in_all owner (e ∷ ms) k =
    ground (arith, owned_in_all owner ms, owned_in_more owner e.1.user_id (owned_ids owner ms) ms)

none_owned :
    (owner : OwnerId) (ms : List (ℕ × Member))
    → owned_in owner [] ms ≡ true
    → owned_ids owner ms ≡ []
unfolding owned_ids
none_owned owner [] h = refl
none_owned owner (e ∷ ms) h = ground (arith, none_owned owner ms)

none_owned-remove :
    (owner : OwnerId) (id : ℕ) (ms : List (ℕ × Member))
    → owned_in owner [] ms ≡ true
    → owned_in owner [] (remove id ms) ≡ true
none_owned-remove owner id [] h = refl
none_owned-remove owner id (e ∷ ms) h = ground (arith, none_owned-remove owner id ms)

either :
    (b : Bool) (s t : ServerState) (xs ys : List ℕ) (m : List (ℕ × Member))
    → s.members ≡ m
    → t.members ≡ m
    → (let out : ServerState × List ℕ = if b then (s, xs) else (t, ys) in out.0.members) ≡ m
either true s t xs ys m p q = p
either false s t xs ys m p q = q

members-cleanup_participant :
    (id : ℕ) (s : ServerState) → (cleanup_participant id s).0.members ≡ remove id s.members
unfolding cleanup_participant remove_client
members-cleanup_participant id s =
    either (remove_client id s).1 (leave_rooms id (remove_client id s).0) (remove_client id s).0
      (id ∷ []) [] (remove id s.members) refl refl

none_owned-cleanup_participants :
    (owner : OwnerId) (ids : List ℕ) (s : ServerState)
    → owned_in owner ids s.members ≡ true
    → owned_in owner [] (cleanup_participants ids s).0.members ≡ true
unfolding cleanup_participants
none_owned-cleanup_participants owner [] s h = h
none_owned-cleanup_participants owner (id ∷ ids) s h =
    none_owned-cleanup_participants owner ids (cleanup_participant id s).0
      (rw (members-cleanup_participant id s) (owned_in-remove owner id ids s.members h))

members-remove_session : (u : ℕ) (s : ServerState) → (remove_session u s).members ≡ s.members
unfolding remove_session
members-remove_session u s = elim (Option-cases (get? u s.sessions)) [
  | inl e ↦ rw (remove_session, e)
  | inr (x, e) ↦ rw (remove_session, e)
]

members-cleanup_client :
    (c : Client) (s : ServerState)
    → (cleanup_client c s).0.members ≡ remove c.user_id (cleanup_owned c s).0.members
unfolding cleanup_client remove_client remove_voice_rate
members-cleanup_client c s =
    members-remove_session c.user_id
      (leave_rooms c.user_id (remove_client c.user_id (cleanup_owned c s).0).0)

-- No participant of the client is left.
none_owned-cleanup_owned :
    (c : Client) (s : ServerState)
    → keyed s.members ≡ true
    → c.is_controller ≡ true
    → owned_in (connection c.user_id) [] (cleanup_owned c s).0.members ≡ true
unfolding cleanup_owned members_by_owner owned_ids
none_owned-cleanup_owned c s k on = rw on (
    none_owned-cleanup_participants (connection c.user_id)
      (owned_ids (connection c.user_id) s.members) s
      (owned_in_all (connection c.user_id) s.members k))

pub get?-cleanup_client :
    (c : Client) (s : ServerState) → get? c.user_id (cleanup_client c s).0.members ≡ none
get?-cleanup_client c s =
    rw (members-cleanup_client c s)
      (get?-remove c.user_id c.user_id (cleanup_owned c s).0.members ∙ ground arith)

implies : (b p : Bool) → (b ≡ true → p ≡ true) → (not b || p) ≡ true
implies true p f = f refl
implies false p f = refl

owned_gone :
    (c : Client) (s : ServerState)
    → keyed s.members ≡ true
    → (not c.is_controller || owned_in (connection c.user_id) [] (cleanup_client c s).0.members)
      ≡ true
owned_gone c s k = implies c.is_controller _ λ on. rw (members-cleanup_client c s) (
    none_owned-remove (connection c.user_id) c.user_id (cleanup_owned c s).0.members
      (none_owned-cleanup_owned c s k on))

-- A controller with no participants has none to clean up.
cleanup_owned_none :
    (c : Client) (t : ServerState)
    → (not c.is_controller || owned_in (connection c.user_id) [] t.members) ≡ true
    → cleanup_owned c t ≡ (t, [])
unfolding cleanup_owned members_by_owner owned_ids cleanup_participants
cleanup_owned_none c t h = elim (Bool-cases c.is_controller) [
  | inr off ↦ rw (cleanup_owned, off)
  | inl on ↦
      let gone : members_by_owner (connection c.user_id) t ≡ [] =
        none_owned (connection c.user_id) t.members (ground arith) in
      rw (cleanup_owned, gone, on)
]

absent-remove_client :
    (u : ℕ) (t : ServerState) → get? u t.members ≡ none → (remove_client u t).1 ≡ false
unfolding remove_client
absent-remove_client u t e = rw (remove_client, e)

announces_nobody :
    (c : Client) (t : ServerState)
    → get? c.user_id t.members ≡ none
    → (not c.is_controller || owned_in (connection c.user_id) [] t.members) ≡ true
    → (cleanup_client c t).1 ≡ []
unfolding cleanup_client
announces_nobody c t e h =
    rw (cleanup_client, cleanup_owned_none c t h, absent-remove_client c.user_id t e)

-- Once a connection is cleaned up it is no member, no participant of it is left if it was a
-- controller, and cleaning it up again announces nobody.
pub cleanup_client_once :
    (c : Client) (s : ServerState)
    → keyed s.members ≡ true
    → (get? c.user_id (cleanup_client c s).0.members ≡ none)
      × ((not c.is_controller || owned_in (connection c.user_id) [] (cleanup_client c s).0.members)
          ≡ true)
      × ((cleanup_client c (cleanup_client c s).0).1 ≡ [])
cleanup_client_once c s k =
    let away = get?-cleanup_client c s in
    let gone = owned_gone c s k in (away, gone, announces_nobody c (cleanup_client c s).0 away gone)
