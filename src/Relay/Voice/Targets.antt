-- ===== src/Relay/Voice/Targets.antt =====
-- Each connection gets a datagram once: `dedup_delivery_targets` of crates/server/src/handlers.rs.
use rumble.Prelude.{
  ℕ, ◌≡◌, refl, ap, ◌∙◌, Bool, true, false, not, ◌&&◌, Option, none, some, List, [], ◌∷◌, ◌==◌, any,
  arith, ==_iff, Bool-cases, Option-cases, inl, inr,
}
use rumble.Prelude.Predicates.{mentions, distinct}
use rumble.Relay.Voice.{dedup_from, dedup_delivery_targets}

abbrev is_target : ℕ → Option ℕ → Bool
is_target t none = false
is_target t (some u) = u == t

-- Whether some recipient is delivered over a connection.
abbrev pub reached : (ℕ → Option ℕ) → ℕ → List ℕ → Bool
reached resolve t = any (λ id. is_target t (resolve id))

mentions_same : (t u : ℕ) (seen : List ℕ) → (u == t) ≡ true → mentions u seen ≡ mentions t seen
mentions_same t u seen e = ap (λ x. mentions x seen) ((==_iff u t).0 e)

mentions-dedup_from :
    (resolve : ℕ → Option ℕ) (seen ids : List ℕ) (t : ℕ)
    → mentions t (dedup_from resolve seen ids) ≡ (reached resolve t ids && not (mentions t seen))
unfolding dedup_from
mentions-dedup_from resolve seen [] t = refl
mentions-dedup_from resolve seen (id ∷ ids) t = elim (Option-cases (resolve id)) [
  | inl e ↦ rw (dedup_from, e) (mentions-dedup_from resolve seen ids t)
  | inr (u, e) ↦ elim (Bool-cases (mentions u seen)) [
    | inl old ↦
        rw (dedup_from, e, old)
          (ground (arith, mentions-dedup_from resolve seen ids t, mentions_same t u seen))
    | inr new ↦
        rw (dedup_from, e, new)
          (ground (arith, mentions-dedup_from resolve (u ∷ seen) ids t, mentions_same t u seen))
  ]
]

distinct-dedup_from :
    (resolve : ℕ → Option ℕ) (seen ids : List ℕ) → distinct (dedup_from resolve seen ids) ≡ true
unfolding dedup_from
distinct-dedup_from resolve seen [] = refl
distinct-dedup_from resolve seen (id ∷ ids) = elim (Option-cases (resolve id)) [
  | inl e ↦ rw (dedup_from, e) (distinct-dedup_from resolve seen ids)
  | inr (u, e) ↦ elim (Bool-cases (mentions u seen)) [
    | inl old ↦ rw (dedup_from, e, old) (distinct-dedup_from resolve seen ids)
    | inr new ↦
        rw (dedup_from, e, new)
          (ground (
            arith,
            distinct-dedup_from resolve (u ∷ seen) ids,
            mentions-dedup_from resolve (u ∷ seen) ids u,
          ))
  ]
]

-- No connection is a target twice, and a connection is a target exactly if some recipient is
-- delivered over it.
pub dedup_delivery_targets_lem :
    (recipients : List ℕ) (resolve : ℕ → Option ℕ) (t : ℕ)
    → (distinct (dedup_delivery_targets recipients resolve) ≡ true)
      × (mentions t (dedup_delivery_targets recipients resolve) ≡ reached resolve t recipients)
unfolding dedup_delivery_targets
dedup_delivery_targets_lem recipients resolve t = (
  distinct-dedup_from resolve [] recipients,
  mentions-dedup_from resolve [] recipients t ∙ ground arith,
)
