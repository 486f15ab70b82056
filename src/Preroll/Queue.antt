-- ===== src/Preroll/Queue.antt =====
-- The ring of crates/rumble-client/src/preroll.rs as a queue of the last frames in a row.
use native.Mathlib.Nat.{mod-lt, mod-eq_of_lt, mod-eq-sub-mod, mod-add-mod}
use rumble.Prelude.{
  ℕ, zero, suc, ◌+◌, ◌-◌, ◌%◌, ◌<◌, ◌≤◌, ◌≡◌, refl, ap, sym, ◌∙◌, false, some, List, [], ◌∷◌, ◌++◌,
  ◌==◌, ltb, if◌then◌else◌, length, get_elem?, arith, Bool-cases, inl, inr,
}
use rumble.Preroll.{Slot, PreRollRing, set_slot, emitted}

-- Below twice the capacity, the remainder is one subtraction.
wrapped : (x c : ℕ) → x < c + c → x % c ≡ (if ltb x c then x else x - c)
wrapped x c h = elim (Bool-cases (ltb x c)) [
  | inl low ↦ rw low (mod-eq_of_lt (ground arith))
  | inr high ↦ rw high (mod-eq-sub-mod (ground arith) ∙ mod-eq_of_lt (ground arith))
]

apart : (h i n c : ℕ) → h < c → i < n → n < c → ((h + n) % c == (h + i) % c) ≡ false
apart h i n c p q r =
    ground (arith, wrapped (h + n) c (omega arith), wrapped (h + i) c (omega arith))

module _ {ℓ} {A : Type ℓ} where
  -- The frames in the ring, the oldest first.
  abbrev pub contents : PreRollRing A → List (Slot A)
  contents r = emitted r.slots r.head 0 r.len

  pub record IsRing (r : PreRollRing A) : Type ℓ where
    pub head_in : r.head < length r.slots
    pub len_in : r.len ≤ length r.slots

  pub length-set_slot :
      (i : ℕ) (x : Slot A) (ys : List (Slot A)) → length (set_slot i x ys) ≡ length ys
  length-set_slot i x [] = refl
  length-set_slot zero x (y ∷ ys) = refl
  length-set_slot (suc i) x (y ∷ ys) = ap suc (length-set_slot i x ys)

  set_slot-here :
      (i : ℕ) (x : Slot A) (ys : List (Slot A))
      → i < length ys
      → get_elem? (set_slot i x ys) i ≡ some x
  set_slot-here i x [] h = absurd (omega arith)
  set_slot-here zero x (y ∷ ys) h = refl
  set_slot-here (suc i) x (y ∷ ys) h = set_slot-here i x ys (omega arith)

  set_slot-other :
      (i j : ℕ) (x : Slot A) (ys : List (Slot A))
      → (i == j) ≡ false
      → get_elem? (set_slot i x ys) j ≡ get_elem? ys j
  set_slot-other i j x [] h = refl
  set_slot-other zero zero x (y ∷ ys) h = absurd (ground arith)
  set_slot-other zero (suc j) x (y ∷ ys) h = refl
  set_slot-other (suc i) zero x (y ∷ ys) h = refl
  set_slot-other (suc i) (suc j) x (y ∷ ys) h = set_slot-other i j x ys (ground arith)

  pub get_elem?_in :
      (i : ℕ) (ys : List (Slot A)) → i < length ys → (y : Slot A) × (get_elem? ys i ≡ some y)
  get_elem?_in i [] h = absurd (omega arith)
  get_elem?_in zero (y ∷ ys) h = (y, refl)
  get_elem?_in (suc i) (y ∷ ys) h = get_elem?_in i ys (omega arith)

  pub emitted_step :
      (ys : List (Slot A)) (h i n : ℕ) (y : Slot A)
      → get_elem? ys ((h + i) % length ys) ≡ some y
      → emitted ys h i (suc n) ≡ y ∷ emitted ys h (i + 1) n
  emitted_step ys h i n y got = rw (emitted, got) refl

  -- A store behind the frames in use leaves them and adds one.
  pub emitted-set_slot :
      (x : Slot A) (ys : List (Slot A)) (h i n m : ℕ)
      → h < length ys
      → i + n ≡ m
      → m < length ys
      → emitted (set_slot ((h + m) % length ys) x ys) h i (suc n) ≡ emitted ys h i n ++ x ∷ []
  emitted-set_slot x ys h i zero m p e q =
      let spot = (h + m) % length ys in
      let new = set_slot spot x ys in
      let same : (h + i) % length new ≡ spot =
        ap (λ t. (h + i) % t) (length-set_slot spot x ys)
        ∙ ap (λ t. (h + t) % length ys) (let f : i ≡ m = omega arith in f) in
      emitted_step new h i zero x
        (ap (get_elem? new) same ∙ set_slot-here spot x ys (mod-lt (h + m) (omega arith)))
  emitted-set_slot x ys h i (suc n) m p e q =
      let spot = (h + m) % length ys in
      let new = set_slot spot x ys in
      let here = (h + i) % length ys in
      let same : (h + i) % length new ≡ here = ap (λ t. (h + i) % t) (length-set_slot spot x ys) in
      let (y, got) = get_elem?_in here ys (mod-lt (h + i) (omega arith)) in
      let old : get_elem? new here ≡ some y =
        set_slot-other spot here x ys (apart h i m (length ys) p (omega arith) q) ∙ got in
      emitted_step new h i (suc n) y (ap (get_elem? new) same ∙ old)
      ∙ ap (λ t. y ∷ t) (emitted-set_slot x ys h (i + 1) n m p (omega arith) q)
      ∙ ap (λ l. l ++ x ∷ []) (sym (emitted_step ys h i n y got))

  -- Reading from the next head is reading one index on.
  pub emitted-next_head :
      (ys : List (Slot A)) (h i n : ℕ)
      → 0 < length ys
      → emitted ys ((h + 1) % length ys) i n ≡ emitted ys h (i + 1) n
  emitted-next_head ys h i zero p = refl
  emitted-next_head ys h i (suc n) p =
      let same : ((h + 1) % length ys + i) % length ys ≡ (h + (i + 1)) % length ys =
        mod-add-mod (h + 1) (length ys) i ∙ ap (λ t. t % length ys) (omega arith) in
      let (y, got) = get_elem?_in ((h + (i + 1)) % length ys) ys (mod-lt (h + (i + 1)) p) in
      emitted_step ys ((h + 1) % length ys) i n y (ap (get_elem? ys) same ∙ got)
      ∙ ap (λ t. y ∷ t) (emitted-next_head ys h (i + 1) n p)
      ∙ sym (emitted_step ys h (i + 1) n y got)

  pub length-emitted :
      (ys : List (Slot A)) (h i n : ℕ) → 0 < length ys → length (emitted ys h i n) ≡ n
  length-emitted ys h i zero p = refl
  length-emitted ys h i (suc n) p =
      let (y, got) = get_elem?_in ((h + i) % length ys) ys (mod-lt (h + i) p) in
      ap length (emitted_step ys h i n y got) ∙ ap suc (length-emitted ys h (i + 1) n p)
