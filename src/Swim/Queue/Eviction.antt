-- ===== src/Swim/Queue/Eviction.antt =====
-- Which entry `queue_update` gives up when the queue is full.
use libwake.Common.{
  ℕ, zero, suc, ◌+◌, ◌≡◌, ◌≤◌, ◌<◌, ◌⊎◌, inl, inr, refl, List, [], ◌∷◌, length, get_or, ltb,
  if◌then◌else◌, arith, Bool-cases,
}
use libwake.Swim.Types.{Update}
use libwake.Swim.Queue.{worst_from, worst_index}

-- the count that the scan has at its end
abbrev scan_count : List Update → ℕ → ℕ
scan_count [] pb = pb
scan_count (u ∷ us) pb = scan_count us (if ltb pb u.piggyback_count then u.piggyback_count else pb)

scan_count_ge : (us : List Update) (pb : ℕ) → pb ≤ scan_count us pb
scan_count_ge [] pb = omega arith
scan_count_ge (u ∷ us) pb = ground (arith, scan_count_ge us pb, scan_count_ge us u.piggyback_count)

scan_count_max :
    (us : List Update) (pb k : ℕ) (d : Update)
    → k < length us
    → (get_or us k d).piggyback_count ≤ scan_count us pb
scan_count_max [] pb k d h = absurd (omega arith)
scan_count_max (u ∷ us) pb zero d h =
    ground (arith, scan_count_ge us pb, scan_count_ge us u.piggyback_count)
scan_count_max (u ∷ us) pb (suc k) d h =
    ground (arith, scan_count_max us pb k d, scan_count_max us u.piggyback_count k d)

-- The scan ends on the entry that it began with, or on one of the rest; its count is that entry's.
worst_from_cases :
    (us : List Update) (i w pb : ℕ) (d : Update)
    → ((worst_from us i w pb ≡ w) × (scan_count us pb ≡ pb))
      ⊎ ((k : ℕ) × (worst_from us i w pb ≡ i + k)
          × (k < length us)
          × ((get_or us k d).piggyback_count ≡ scan_count us pb))
unfolding worst_from
worst_from_cases [] i w pb d = inl (refl, refl)
worst_from_cases (u ∷ us) i w pb d = elim (Bool-cases (ltb pb u.piggyback_count)) [
  | inl more ↦ rw more (elim (worst_from_cases us (i + 1) i u.piggyback_count d) [
    | inl (e, c) ↦ inr (0, omega arith, omega arith, omega arith)
    | inr (k, e, l, c) ↦ inr (suc k, omega arith, omega arith, c)
  ])
  | inr less ↦ rw less (elim (worst_from_cases us (i + 1) w pb d) [
    | inl (e, c) ↦ inl (e, c)
    | inr (k, e, l, c) ↦ inr (suc k, omega arith, omega arith, c)
  ])
]

-- The entry that a full queue gives up is in the queue, and no entry was sent more often.
pub worst_index-max :
    (us : List Update) (k : ℕ) (d : Update)
    → k < length us
    → (worst_index us < length us)
      × ((get_or us k d).piggyback_count ≤ (get_or us (worst_index us) d).piggyback_count)
unfolding worst_index
worst_index-max [] k d h = absurd (omega arith)
worst_index-max (u ∷ us) k d h =
    let top = scan_count_max (u ∷ us) u.piggyback_count k d h in
    elim (worst_from_cases us 1 0 u.piggyback_count d) [
      | inl (e, c) ↦ rw e (ground (arith, top))
      | inr (j, e, l, c) ↦
          let e' : worst_from us 1 0 u.piggyback_count ≡ suc j = omega arith in
          rw e' (ground (arith, top))
    ]
