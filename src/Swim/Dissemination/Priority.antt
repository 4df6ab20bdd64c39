-- ===== src/Swim/Dissemination/Priority.antt =====
-- The selection loop of `wake_swim_get_updates`: what it takes, and that it takes the least sent.
use libwake.Common.{
  ℕ, zero, suc, ◌+◌, ◌≡◌, ◌≤◌, ◌<◌, ◌⊎◌, inl, inr, refl, ap, some, List, [], ◌∷◌, Bool, true, false,
  ltb, ◌&&◌, not, length, get_or, arith, Bool-cases,
}
use libwake.Swim.Types.{Update}
use libwake.Swim.Dissemination.{Best, best_from, zero_update}

-- What the inner loop makes of `best` over the rest of the queue, which begins at index `i`.
-- An entry counts if its flag is down; `flag` past the end is up.
abbrev pub IsOpen : List Bool → ℕ → Type 0
IsOpen flags k = get_or flags k true ≡ false

pub record Found (us : List Update) (flags : List Bool) (i : ℕ) (best r : Best) : Type 0 where
  -- no open entry was sent less often than the count
  pub least :
      (k : ℕ) → k < length us → IsOpen flags k → r.count ≤ (get_or us k zero_update).piggyback_count
  pub lower : r.count ≤ best.count
  -- the index is the old one, or that of an open entry with the count
  pub source :
      (r ≡ best)
      ⊎ ((k : ℕ) × (r.index ≡ some (i + k))
          × (k < length us)
          × (k < length flags)
          × IsOpen flags k
          × (r.count ≡ (get_or us k zero_update).piggyback_count))

at_each {ℓ} : (P : ℕ → Type ℓ) → P 0 → ((k : ℕ) → P (suc k)) → (k : ℕ) → P k
at_each P z s zero = z
at_each P z s (suc k) = s k

pub best_from-Found :
    (us : List Update) (flags : List Bool) (i : ℕ) (best : Best)
    → Found us flags i best (best_from us flags i best)
unfolding best_from
best_from-Found [] [] i best = record {
  least = λ k h o. absurd (omega arith);
  lower = omega arith;
  source = inl refl;
}
best_from-Found [] (s ∷ ss) i best = record {
  least = λ k h o. absurd (omega arith);
  lower = omega arith;
  source = inl refl;
}
best_from-Found (u ∷ us) [] i best = record {
  least = λ k h o. cc;
  lower = omega arith;
  source = inl refl;
}
best_from-Found (u ∷ us) (s ∷ ss) i best =
    elim (Bool-cases (not s && ltb u.piggyback_count best.count)) [
      | inl wins ↦
          let next : Best = record { index = some i; count = u.piggyback_count } in
          let ih = best_from-Found us ss (i + 1) next in
          rw wins (record {
            least =
                at_each
                  (λ k.
                    k < length (u ∷ us)
                    → IsOpen (s ∷ ss) k
                    → (best_from us ss (i + 1) next).count
                      ≤ (get_or (u ∷ us) k zero_update).piggyback_count)
                  (λ h o. ih.lower) (λ k h o. ih.least k (omega arith) o);
            lower = ground (arith, ih.lower);
            source = elim (ih.source) [
              | inl same ↦ inr (
                0,
                rw same (ap some (omega arith)),
                omega arith,
                omega arith,
                ground arith,
                rw same,
              )
              | inr (k, e, l, m, o, c) ↦
                  inr (suc k, rw e (ap some (omega arith)), omega arith, omega arith, o, c)
            ];
          })
      | inr loses ↦
          let ih = best_from-Found us ss (i + 1) best in
          rw loses (record {
            least =
                at_each
                  (λ k.
                    k < length (u ∷ us)
                    → IsOpen (s ∷ ss) k
                    → (best_from us ss (i + 1) best).count
                      ≤ (get_or (u ∷ us) k zero_update).piggyback_count)
                  (λ h o. ground (arith, ih.lower)) (λ k h o. ih.least k (omega arith) o);
            lower = ih.lower;
            source = elim (ih.source) [
              | inl same ↦ inl same
              | inr (k, e, l, m, o, c) ↦
                  inr (suc k, rw e (ap some (omega arith)), omega arith, omega arith, o, c)
            ];
          })
    ]
