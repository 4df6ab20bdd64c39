-- ===== src/Swim/Probe/Shuffle.antt =====
-- The rebuilt probe order: a rearrangement of the eligible members' indices.
use libwake.Common.{
  ℕ, zero, suc, ◌+◌, ◌%◌, ◌≡◌, ◌≤◌, ◌<◌, refl, ◌∙◌, List, [], ◌∷◌, ltb, ◌==◌, if◌then◌else◌, length,
  arith, count_if, count_if-set, set, get_or, get_or-set_self, get_or-set_ne, length-set,
  Bool-cases, u32, inl, inr,
}
use native.Mathlib.Decide.{ℕ_discrete}
use libwake.Swim.Types.{Member, Swim}
use libwake.Swim.Members.{count_alive}
use libwake.Swim.Invariant.{AreTargets}
use libwake.Swim.Probe.{swap, splitmix64, eligible_from, shuffle, rebuild_probe_order, is_target}

-- how often an index stands in a list
abbrev pub occurrences : ℕ → List ℕ → ℕ
occurrences x = count_if (λ y. y == x)

pub length-swap : (xs : List ℕ) (i j : ℕ) → length (swap xs i j) ≡ length xs
unfolding swap
length-swap xs i j = length-set _ j _ ∙ length-set xs i _

pub occurrences-swap :
    (x : ℕ) (xs : List ℕ) (i j : ℕ)
    → i < length xs
    → j < length xs
    → occurrences x (swap xs i j) ≡ occurrences x xs
unfolding swap
occurrences-swap x xs i j hi hj =
    let a = get_or xs i 0 in
    let b = get_or xs j 0 in
    let ys = set xs i b in
    let moved : get_or ys j 0 ≡ b = elim (ℕ_discrete i j) [
      | yes same ↦ rw same (get_or-set_self xs j b 0 hj)
      | no apart ↦ get_or-set_ne xs i j b 0 apart
    ] in
    let first = count_if-set (λ (y : ℕ). y == x) xs i b 0 hi in
    let second = count_if-set (λ (y : ℕ). y == x) ys j a 0 (rw length-set hj) in
    let second' = rw moved at second in omega (arith, first, second')

-- The shuffle only rearranges.
pub shuffle-occurrences :
    (k : ℕ) (xs : List ℕ) (prng x : ℕ)
    → k ≤ length xs
    → (occurrences x (shuffle k xs prng).0 ≡ occurrences x xs)
      × (length (shuffle k xs prng).0 ≡ length xs)
unfolding shuffle
shuffle-occurrences zero xs prng x h = (refl, refl)
shuffle-occurrences (suc k) xs prng x h = elim (Bool-cases (ltb 0 k)) [
  | inr done ↦ rw (done, shuffle) (refl, refl)
  | inl more ↦
      let drawn = splitmix64 prng in
      let j = u32 (drawn.1 % suc k) in
      let ys = swap xs k j in
      let same = length-swap xs k j in
      let ih = shuffle-occurrences k ys drawn.0 x (rw same (omega arith)) in
      rw (more, shuffle) (ih.0 ∙ occurrences-swap x xs k j h (omega arith), ih.1 ∙ same)
]

occurrences-eligible_below :
    (x i : ℕ) (ms : List Member) → x < i → occurrences x (eligible_from i ms) ≡ 0
unfolding eligible_from
occurrences-eligible_below x i [] h = refl
occurrences-eligible_below x i (m ∷ ms) h = ground (arith, occurrences-eligible_below x (i + 1) ms)

-- Each index stands among the eligible once, or not at all.
occurrences-eligible :
    (i k : ℕ) (ms : List Member)
    → occurrences (i + k) (eligible_from i ms) ≡ (if is_target ms k then 1 else 0)
unfolding eligible_from
occurrences-eligible i k [] = refl
occurrences-eligible i zero (m ∷ ms) = ground (arith, occurrences-eligible_below (i + 0) (i + 1) ms)
occurrences-eligible i (suc k) (m ∷ ms) =
    let e : i + 1 + k ≡ i + suc k = omega arith in
    let ih = rw e at (occurrences-eligible (i + 1) k ms) in ground (arith, ih)

length-eligible : (i : ℕ) (ms : List Member) → length (eligible_from i ms) ≡ count_alive ms
unfolding eligible_from
length-eligible i [] = refl
length-eligible i (m ∷ ms) = ground (arith, length-eligible (i + 1) ms)

-- A rebuilt order holds the index of every alive or suspect member exactly once, and nothing else.
pub rebuild-occurrences :
    (sw : Swim) (x : ℕ)
    → (occurrences x (rebuild_probe_order sw).probe_order
        ≡ (if is_target sw.members x then 1 else 0))
      × (length (rebuild_probe_order sw).probe_order ≡ count_alive sw.members)
unfolding rebuild_probe_order
rebuild-occurrences sw x =
    let all = eligible_from 0 sw.members in
    let s = shuffle-occurrences (length all) all sw.prng_state x (omega arith) in
    let zero_add : 0 + x ≡ x = omega arith in
    (
      s.0 ∙ (rw zero_add at (occurrences-eligible 0 x sw.members)),
      s.1 ∙ length-eligible 0 sw.members,
    )

occurrences-get : (xs : List ℕ) (k : ℕ) → k < length xs → 0 < occurrences (get_or xs k 0) xs
occurrences-get [] k h = absurd (omega arith)
occurrences-get (x ∷ xs) zero h = ground arith
occurrences-get (x ∷ xs) (suc k) h = ground (arith, occurrences-get xs k)

pub rebuild-AreTargets : (sw : Swim) → AreTargets sw.members (rebuild_probe_order sw).probe_order
rebuild-AreTargets sw k h =
    let order = (rebuild_probe_order sw).probe_order in
    ground (arith, occurrences-get order k h, rebuild-occurrences sw (get_or order k 0))
