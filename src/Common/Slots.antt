-- ===== src/Common/Slots.antt =====
-- A fixed array of slots that are searched from the front: the first slot that passes a test, and the
-- live slot that was stamped first.
use Prim.Native.Nat.{ℕ, zero, suc, ◌+◌, ◌<◌, ◌≤◌}
use mathlib.Core.Path.{◌≡◌, refl, sym}
use mathlib.Core.Logic.{◌≢◌, ◌⊎◌, inl, inr}
use mathlib.Core.Bool.{Bool, true, false, ◌&&◌}
use mathlib.Core.List.{List, [], ◌∷◌}
use mathlib.Core.Option.{Option, none, some}
use native.Mathlib.Omega.{arith}
use libwake.Common.Tests.{ltb, Bool-cases, if◌then◌else◌}
use libwake.Common.Lists.{length, get_or, set, count_if}

module _ {ℓ} {A : Type ℓ} where
  abbrev pub find_first : (A → Bool) → List A → Option ℕ
  find_first p [] = none
  find_first p (x ∷ xs) =
      if p x then some 0 else (elim (find_first p xs) [ none ↦ none | some i ↦ some (suc i) ])

  -- The index and the stamp of the best so far; a tie stays with the earlier slot.
  abbrev pub older : (A → Bool) → (A → ℕ) → A → ℕ → Option (ℕ × ℕ) → Option (ℕ × ℕ)
  older live stamp x i none = if live x then some (i, stamp x) else none
  older live stamp x i (some (b, s)) =
      if live x && ltb (stamp x) s then some (i, stamp x) else some (b, s)

  abbrev pub oldest_from : (A → Bool) → (A → ℕ) → List A → ℕ → Option (ℕ × ℕ) → Option (ℕ × ℕ)
  oldest_from live stamp [] i best = best
  oldest_from live stamp (x ∷ xs) i best =
      oldest_from live stamp xs (i + 1) (older live stamp x i best)

module _ {ℓ} {A : Type ℓ} (p : A → Bool) where
  pub find_first-hit :
      (xs : List A) (i : ℕ) (d : A)
      → find_first p xs ≡ some i
      → (i < length xs) × (p (get_or xs i d) ≡ true)
  find_first-hit [] i d h = ground arith
  find_first-hit (x ∷ xs) zero d h = ground arith
  find_first-hit (x ∷ xs) (suc i) d h = ground (arith, find_first-hit xs i d)

  pub find_first-miss :
      (xs : List A) (k : ℕ) (d : A)
      → find_first p xs ≡ none
      → k < length xs
      → p (get_or xs k d) ≡ false
  find_first-miss [] k d h l = absurd (omega arith)
  find_first-miss (x ∷ xs) zero d h l = ground arith
  find_first-miss (x ∷ xs) (suc k) d h l = ground (arith, find_first-miss xs k d)

  -- A hit anywhere means that the search finds one.
  pub find_first-found :
      (xs : List A) (k : ℕ) (d : A)
      → k < length xs
      → p (get_or xs k d) ≡ true
      → find_first p xs ≢ none
  find_first-found xs k d l t h = ground (arith, find_first-miss xs k d h l)

  pub count_if-le_length : (xs : List A) → count_if p xs ≤ length xs
  count_if-le_length [] = omega arith
  count_if-le_length (x ∷ xs) = ground (arith, count_if-le_length xs)

  -- A write where nothing passed the test is where the search now ends.
  pub find_first-set_new :
      (xs : List A) (i : ℕ) (v : A)
      → find_first p xs ≡ none
      → p v ≡ true
      → i < length xs
      → find_first p (set xs i v) ≡ some i
  find_first-set_new [] i v n h l = absurd (omega (arith, l))
  find_first-set_new (x ∷ xs) zero v n h l = rw h refl
  find_first-set_new (x ∷ xs) (suc i) v n h l = ground (arith, find_first-set_new xs i v)

  -- A write that passes the test as the old element did.
  pub find_first-set_same :
      (xs : List A) (i : ℕ) (v d : A)
      → p v ≡ p (get_or xs i d)
      → find_first p (set xs i v) ≡ find_first p xs
  find_first-set_same [] i v d h = refl
  find_first-set_same (x ∷ xs) zero v d h = rw h refl
  find_first-set_same (x ∷ xs) (suc i) v d h = rw (find_first-set_same xs i v d h) refl

  pub find_first-set_miss :
      (xs : List A) (i : ℕ) (v : A)
      → p v ≡ false
      → find_first p xs ≡ none
      → find_first p (set xs i v) ≡ none
  find_first-set_miss [] i v h n = refl
  find_first-set_miss (x ∷ xs) zero v h n = ground (arith, h, n)
  find_first-set_miss (x ∷ xs) (suc i) v h n = ground (arith, find_first-set_miss xs i v h)

-- The search for the oldest live slot ends on the best so far or on one of the rest, and nothing that
-- it has seen is older.
module _ {ℓ} {A : Type ℓ} (live : A → Bool) (stamp : A → ℕ) where
  pub record IsOldest (xs : List A) (i b s b' s' : ℕ) (d : A) : Type ℓ where
    pub earlier : s' ≤ s
    pub least : (k : ℕ) → k < length xs → live (get_or xs k d) ≡ true → s' ≤ stamp (get_or xs k d)
    pub place :
        ((b' ≡ b) × (s' ≡ s))
        ⊎ ((k : ℕ) × (k < length xs) × (b' ≡ i + k) × (stamp (get_or xs k d) ≡ s'))

  least_cons :
      (x : A) (xs : List A) (s' : ℕ) (d : A)
      → (live x ≡ true → s' ≤ stamp x)
      → ((k : ℕ) → k < length xs → live (get_or xs k d) ≡ true → s' ≤ stamp (get_or xs k d))
      → (k : ℕ) → k < length (x ∷ xs)
      → live (get_or (x ∷ xs) k d) ≡ true
      → s' ≤ stamp (get_or (x ∷ xs) k d)
  least_cons x xs s' d first rest zero h l = first l
  least_cons x xs s' d first rest (suc k) h l = rest k (omega (arith, h)) l

  place_cons :
      (x : A) (xs : List A) (i b' s' : ℕ) (d : A)
      → (k : ℕ) × (k < length xs) × (b' ≡ i + 1 + k) × (stamp (get_or xs k d) ≡ s')
      → (k : ℕ) × (k < length (x ∷ xs)) × (b' ≡ i + k) × (stamp (get_or (x ∷ xs) k d) ≡ s')
  place_cons x xs i b' s' d (k, h, e, t) = (suc k, omega (arith, h), omega (arith, e), t)

  pub oldest_from-IsOldest :
      (xs : List A) (i b s : ℕ) (d : A)
      → (b' : ℕ) × (s' : ℕ) × (oldest_from live stamp xs i (some (b, s)) ≡ some (b', s'))
        × IsOldest xs i b s b' s' d
  oldest_from-IsOldest [] i b s d = (
    b,
    s,
    refl,
    record {
      earlier = omega arith;
      least = λ k h l. absurd (omega (arith, h));
      place = inl (refl, refl);
    },
  )
  oldest_from-IsOldest (x ∷ xs) i b s d = elim (Bool-cases (live x && ltb (stamp x) s)) [
    | inl newer ↦
        let (b', s', e, o) = oldest_from-IsOldest xs (i + 1) i (stamp x) d in
        (
          b',
          s',
          rw newer e,
          record {
            earlier = let first = o.earlier in ground (arith, newer, first);
            least = least_cons x xs s' d (λ l. o.earlier) o.least;
            place = elim o.place [
              | inl (e1, e2) ↦ inr (0, omega arith, omega (arith, e1), omega (arith, e2))
              | inr found ↦ inr (place_cons x xs i b' s' d found)
            ];
          },
        )
    | inr older' ↦
        let (b', s', e, o) = oldest_from-IsOldest xs (i + 1) b s d in
        (
          b',
          s',
          rw older' e,
          record {
            earlier = o.earlier;
            least =
                least_cons x xs s' d
                  (λ l. let first = o.earlier in ground (arith, older', l, first)) o.least;
            place = elim o.place [
              | inl same ↦ inl same
              | inr found ↦ inr (place_cons x xs i b' s' d found)
            ];
          },
        )
  ]

  -- From a live first slot on: the search finds a slot, and no live one is older.
  pub oldest-min :
      (x : A) (xs : List A) (d : A)
      → (b : ℕ) × (s : ℕ) × (oldest_from live stamp xs 1 (some (0, stamp x)) ≡ some (b, s))
        × (b < length (x ∷ xs))
        × ((k : ℕ)
            → k < length (x ∷ xs)
            → live (get_or (x ∷ xs) k d) ≡ true
            → stamp (get_or (x ∷ xs) b d) ≤ stamp (get_or (x ∷ xs) k d))
  oldest-min x xs d =
      let (b, s, e, o) = oldest_from-IsOldest xs 1 0 (stamp x) d in
      let here : (b < length (x ∷ xs)) × (stamp (get_or (x ∷ xs) b d) ≡ s) = elim o.place [
        | inl (e1, e2) ↦ rw e1 (omega arith, sym e2)
        | inr (k, h, e1, e2) ↦
            let e' : b ≡ suc k = omega (arith, e1) in rw e' (omega (arith, h), e2)
      ] in
      (
        b,
        s,
        e,
        here.0,
        λ k h l.
            let least = least_cons x xs s d (λ t. o.earlier) o.least k h l in
            omega (arith, least, here.1),
      )
