-- ===== src/Common/Keyed.antt =====
-- A dense array whose entries are found by an identifier of fixed size, as the libraries' tables of
-- members, updates and peers are: `for (i = 0; i < count; i++) if (memcmp(...) == 0) return i`.
use Prim.Native.Nat.{ℕ, zero, suc, ◌<◌}
use mathlib.Core.Path.{◌≡◌, refl, ap}
use mathlib.Core.Logic.{◌≢◌}
use mathlib.Core.Bool.{Bool, true, false}
use mathlib.Core.List.{List, [], ◌∷◌, ◌++◌}
use mathlib.Core.Option.{Option, none, some}
use native.Mathlib.Omega.{arith}
use libwake.Common.Tests.{if◌then◌else◌}
use libwake.Common.Lists.{length, get_or, set, keep}
use libwake.Common.Bytes.{mem_eq, mem_eq→eq, mem_eq_refl, mem_eq_comm}

module _ {ℓ} {A : Type ℓ} (key : A → List ℕ) where
  -- the index of the first entry with this identifier
  abbrev pub find_index : List A → List ℕ → Option ℕ
  find_index [] id = none
  find_index (x ∷ xs) id =
      if mem_eq (key x) id
      then some 0
      else (elim (find_index xs id) [ none ↦ none | some i ↦ some (suc i) ])

  -- the entry itself
  abbrev pub lookup : List A → List ℕ → Option A
  lookup [] id = none
  lookup (x ∷ xs) id = if mem_eq (key x) id then some x else lookup xs id

  -- no two entries share an identifier
  abbrev pub Distinct : List A → Type 0
  Distinct [] = Unit
  Distinct (x ∷ xs) = (find_index xs (key x) ≡ none) × Distinct xs

module _ {ℓ} {A : Type ℓ} (key : A → List ℕ) where
  pub find_index-lt :
      (xs : List A) (id : List ℕ) (i : ℕ) → find_index key xs id ≡ some i → i < length xs
  find_index-lt [] id i h = ground arith
  find_index-lt (x ∷ xs) id zero h = omega arith
  find_index-lt (x ∷ xs) id (suc i) h = ground (arith, find_index-lt xs id i)

  pub lookup-find_index :
      (xs : List A) (id : List ℕ) (i : ℕ) (d : A)
      → find_index key xs id ≡ some i
      → (lookup key xs id ≡ some (get_or xs i d)) × (key (get_or xs i d) ≡ id)
  lookup-find_index [] id i d h = ground arith
  lookup-find_index (x ∷ xs) id zero d h = ground (arith, mem_eq→eq (key x) id)
  lookup-find_index (x ∷ xs) id (suc i) d h = ground (arith, lookup-find_index xs id i d)

  pub lookup-eq-none :
      (xs : List A) (id : List ℕ) → find_index key xs id ≡ none → lookup key xs id ≡ none
  lookup-eq-none [] id h = refl
  lookup-eq-none (x ∷ xs) id h = ground (arith, lookup-eq-none xs id)

  pub find_index_of_lookup :
      (xs : List A) (id : List ℕ) → lookup key xs id ≡ none → find_index key xs id ≡ none
  find_index_of_lookup [] id h = refl
  find_index_of_lookup (x ∷ xs) id h = ground (arith, find_index_of_lookup xs id)

  -- Every entry is found.
  pub find_index-get :
      (xs : List A) (i : ℕ) (d : A) → i < length xs → find_index key xs (key (get_or xs i d)) ≢ none
  find_index-get [] i d h = absurd (omega arith)
  find_index-get (x ∷ xs) zero d h = ground (arith, mem_eq_refl (key x))
  find_index-get (x ∷ xs) (suc i) d h = ground (arith, find_index-get xs i d)

  -- A write that keeps the identifier moves no entry.
  pub find_index-set :
      (xs : List A) (i : ℕ) (v : A) (j : List ℕ)
      → find_index key xs (key v) ≡ some i
      → find_index key (set xs i v) j ≡ find_index key xs j
  find_index-set [] i v j h = refl
  find_index-set (x ∷ xs) zero v j h = ground (arith, mem_eq→eq (key x) (key v))
  find_index-set (x ∷ xs) (suc i) v j h = ground (arith, find_index-set xs i v j)

  pub Distinct-set :
      (xs : List A) (i : ℕ) (v : A)
      → find_index key xs (key v) ≡ some i
      → Distinct key xs
      → Distinct key (set xs i v)
  Distinct-set [] i v h d = d
  Distinct-set (x ∷ xs) zero v h d = ground (arith, mem_eq→eq (key x) (key v))
  Distinct-set (x ∷ xs) (suc i) v h d =
      ground (arith, Distinct-set xs i v, find_index-set xs i v (key x))

  pub lookup-set :
      (xs : List A) (i : ℕ) (v : A) (j : List ℕ)
      → find_index key xs (key v) ≡ some i
      → lookup key (set xs i v) j ≡ (if mem_eq (key v) j then some v else lookup key xs j)
  lookup-set [] i v j h = ground arith
  lookup-set (x ∷ xs) zero v j h = ground (arith, mem_eq→eq (key x) (key v))
  lookup-set (x ∷ xs) (suc i) v j h =
      ground
        (arith, lookup-set xs i v j, mem_eq→eq (key x) j, mem_eq→eq (key v) j, mem_eq_refl (key x))

  -- A new entry at the end.
  pub find_index-append :
      (xs : List A) (v : A) (j : List ℕ)
      → mem_eq (key v) j ≡ false
      → find_index key (xs ++ v ∷ []) j ≡ find_index key xs j
  find_index-append [] v j h = ground arith
  find_index-append (x ∷ xs) v j h = ground (arith, find_index-append xs v j)

  pub Distinct-append :
      (xs : List A) (v : A)
      → find_index key xs (key v) ≡ none
      → Distinct key xs
      → Distinct key (xs ++ v ∷ [])
  Distinct-append [] v h d = (refl, tt)
  Distinct-append (x ∷ xs) v h d =
      ground
        (arith, Distinct-append xs v, find_index-append xs v (key x), mem_eq_comm (key x) (key v))

  pub lookup-append :
      (xs : List A) (v : A) (j : List ℕ)
      → find_index key xs (key v) ≡ none
      → lookup key (xs ++ v ∷ []) j ≡ (if mem_eq (key v) j then some v else lookup key xs j)
  lookup-append [] v j h = ground arith
  lookup-append (x ∷ xs) v j h =
      ground (arith, lookup-append xs v j, mem_eq→eq (key x) j, mem_eq→eq (key v) j, mem_eq_refl j)

  -- A write of a new identifier over an old entry.
  pub find_index-set_new :
      (xs : List A) (i : ℕ) (v : A) (j : List ℕ)
      → find_index key xs j ≡ none
      → mem_eq (key v) j ≡ false
      → find_index key (set xs i v) j ≡ none
  find_index-set_new [] i v j h n = refl
  find_index-set_new (x ∷ xs) zero v j h n = ground arith
  find_index-set_new (x ∷ xs) (suc i) v j h n = ground (arith, find_index-set_new xs i v j)

  pub Distinct-set_new :
      (xs : List A) (i : ℕ) (v : A)
      → find_index key xs (key v) ≡ none
      → Distinct key xs
      → Distinct key (set xs i v)
  Distinct-set_new [] i v h d = d
  Distinct-set_new (x ∷ xs) zero v h d = ground arith
  Distinct-set_new (x ∷ xs) (suc i) v h d = ground (
    arith,
    Distinct-set_new xs i v,
    find_index-set_new xs i v (key x),
    mem_eq_comm (key x) (key v),
  )

  -- A compaction keeps the entries that pass the test, and forgets the others.
  pub find_index-keep :
      (p : A → Bool) (xs : List A) (j : List ℕ)
      → find_index key xs j ≡ none
      → find_index key (keep p xs) j ≡ none
  find_index-keep p [] j h = refl
  find_index-keep p (x ∷ xs) j h = ground (arith, find_index-keep p xs j)

  pub Distinct-keep : (p : A → Bool) (xs : List A) → Distinct key xs → Distinct key (keep p xs)
  Distinct-keep p [] d = d
  Distinct-keep p (x ∷ xs) d = ground (arith, Distinct-keep p xs, find_index-keep p xs (key x))

  pub lookup-keep :
      (p : A → Bool) (xs : List A) (j : List ℕ)
      → Distinct key xs
      → lookup key (keep p xs) j
        ≡ elim (lookup key xs j) [ none ↦ none | some a ↦ if p a then some a else none ]
  lookup-keep p [] j d = refl
  lookup-keep p (x ∷ xs) j d =
      ground (arith, lookup-keep p xs j, mem_eq→eq (key x) j, lookup-eq-none xs j)

  -- The entry at `i` gives way to a new one, and every other identifier reads as before.
  pub lookup-set_new :
      (xs : List A) (i : ℕ) (v d : A) (j : List ℕ)
      → i < length xs
      → find_index key xs (key v) ≡ none
      → Distinct key xs
      → lookup key (set xs i v) j ≡ (
          if mem_eq (key v) j
          then some v
          else if mem_eq (key (get_or xs i d)) j
          then none
          else lookup key xs j)
  lookup-set_new [] i v d j h n ds = absurd (omega arith)
  lookup-set_new (x ∷ xs) zero v d j h n ds =
      ground (arith, mem_eq→eq (key x) j, lookup-eq-none xs (key x))
  lookup-set_new (x ∷ xs) (suc i) v d j h n ds = ground (
    arith,
    lookup-set_new xs i v d j,
    mem_eq→eq (key x) j,
    mem_eq→eq (key v) j,
    mem_eq→eq (key (get_or xs i d)) j,
    mem_eq_refl j,
    find_index-get xs i d,
  )

  pub lookup-get :
      (xs : List A) (i : ℕ) (d : A) (j : List ℕ)
      → i < length xs
      → mem_eq (key (get_or xs i d)) j ≡ true
      → Distinct key xs
      → lookup key xs j ≡ some (get_or xs i d)
  lookup-get [] i d j h e ds = absurd (omega arith)
  lookup-get (x ∷ xs) zero d j h e ds = ground arith
  lookup-get (x ∷ xs) (suc i) d j h e ds = ground (
    arith,
    lookup-get xs i d j,
    mem_eq→eq (key x) j,
    mem_eq→eq (key (get_or xs i d)) j,
    find_index-get xs i d,
  )

  -- Two entries at different places have different identifiers.
  pub get_or-ne :
      (xs : List A) (i k : ℕ) (d : A)
      → i < length xs
      → k < length xs
      → i ≢ k
      → Distinct key xs
      → mem_eq (key (get_or xs i d)) (key (get_or xs k d)) ≡ false
  get_or-ne [] i k d hi hk n ds = absurd (omega arith)
  get_or-ne (x ∷ xs) zero zero d hi hk n ds = absurd (n refl)
  get_or-ne (x ∷ xs) zero (suc k) d hi hk n ds =
      ground (arith, find_index-get xs k d, mem_eq→eq (key x) (key (get_or xs k d)))
  get_or-ne (x ∷ xs) (suc i) zero d hi hk n ds =
      ground (arith, find_index-get xs i d, mem_eq→eq (key (get_or xs i d)) (key x))
  get_or-ne (x ∷ xs) (suc i) (suc k) d hi hk n ds =
      get_or-ne xs i k d (omega arith) (omega arith) (λ e. n (ap suc e)) ds.1

  pub find_index_of_get :
      (xs : List A) (i : ℕ) (d : A)
      → i < length xs
      → Distinct key xs
      → find_index key xs (key (get_or xs i d)) ≡ some i
  find_index_of_get [] i d h ds = absurd (omega arith)
  find_index_of_get (x ∷ xs) zero d h ds = ground (arith, mem_eq_refl (key x))
  find_index_of_get (x ∷ xs) (suc i) d h ds =
      ground (arith, find_index_of_get xs i d, mem_eq→eq (key x) (key (get_or xs i d)))

  -- An identifier is known after an entry is added if it was known, or if it is the new entry's.
  pub find_index-append_known :
      (xs : List A) (v : A) (j : List ℕ)
      → find_index key xs j ≢ none
      → find_index key (xs ++ v ∷ []) j ≢ none
  find_index-append_known [] v j h = absurd (h refl)
  find_index-append_known (x ∷ xs) v j h = ground (arith, find_index-append_known xs v j)

  pub find_index-append_new :
      (xs : List A) (v : A) (j : List ℕ)
      → mem_eq (key v) j ≡ true
      → find_index key (xs ++ v ∷ []) j ≢ none
  find_index-append_new [] v j h = ground arith
  find_index-append_new (x ∷ xs) v j h = ground (arith, find_index-append_new xs v j)
