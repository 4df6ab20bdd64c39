-- ===== src/Quorum/History.antt =====
-- What one slot emits over any sequence of sweeps.
use libwake.Common.{
  ℕ, ◌+◌, ◌≡◌, ◌≢◌, ◌≤◌, refl, Option, none, some, List, [], ◌∷◌, true, false, ltb, ◌==◌, ◌&&◌,
  if◌then◌else◌, arith, Bool-cases, inl, inr,
}
use libwake.Quorum.{
  Action, Config, Slot, Entry, Finding, classify, reused, judge_live, judge, tier_alert,
}

abbrev alerts_in : Finding → ℕ
alerts_in (Finding.acts Action.alert) = 1
alerts_in _ = 0

abbrev retractions_in : Finding → ℕ
retractions_in (Finding.acts Action.retract) = 1
retractions_in _ = 0

-- The alerts and the retractions that a slot emits over a list of reads.
pub alerts_of : Config → Slot → List (Option Entry) → ℕ
alerts_of cfg s [] = 0
alerts_of cfg s (e ∷ es) = let found = judge cfg s e in alerts_in found.1 + alerts_of cfg found.0 es

pub retractions_of : Config → Slot → List (Option Entry) → ℕ
retractions_of cfg s [] = 0
retractions_of cfg s (e ∷ es) =
    let found = judge cfg s e in retractions_in found.1 + retractions_of cfg found.0 es

-- An alert that may be taken back.
abbrev pub standing : Slot → ℕ
standing s = if s.emitted_tier == tier_alert then 1 else 0

judge_live-standing :
    (cfg : Config) (s : Slot) (e : Entry)
    → let found = judge_live cfg s e in
      retractions_in found.1 + standing found.0 ≤ alerts_in found.1 + standing s
unfolding judge_live classify
judge_live-standing cfg s e = ground arith

judge-standing :
    (cfg : Config) (s : Slot) (e : Option Entry)
    → let found = judge cfg s e in
      retractions_in found.1 + standing found.0 ≤ alerts_in found.1 + standing s
unfolding judge reused
judge-standing cfg s none = omega arith
judge-standing cfg s (some e) = ground (arith, judge_live-standing cfg (reused s e) e)

-- Over any reads of a slot, at most as many alerts are retracted as were emitted, and the one that
-- stood before.
pub retractions-alerts :
    (cfg : Config) (s : Slot) (es : List (Option Entry))
    → retractions_of cfg s es ≤ alerts_of cfg s es + standing s
unfolding retractions_of alerts_of
retractions-alerts cfg s [] = omega arith
retractions-alerts cfg s (e ∷ es) =
    omega (arith, judge-standing cfg s e, retractions-alerts cfg (judge cfg s e).0 es)

key-reused : (s : Slot) (e : Entry) → (reused s e).key_hash ≡ e.key_hash
unfolding reused
key-reused s e = ground arith

reused-same : (s : Slot) (e : Entry) → s.key_hash ≡ e.key_hash → reused s e ≡ s
unfolding reused
reused-same s e h = let same : (e.key_hash == s.key_hash) ≡ true = ground (arith, h) in rw same refl

settles :
    (cfg : Config) (s : Slot) (e : Entry)
    → s.key_hash ≡ e.key_hash
    → let found = judge_live cfg s e in
      found.1 ≢ Finding.acts Action.retract
      → (found.0.key_hash ≡ e.key_hash) × (judge_live cfg found.0 e ≡ (found.0, Finding.quiet))
unfolding judge_live
settles cfg s e k h =
    let tier = classify cfg e.confidence e.src_count e.hit_count in
    elim (Bool-cases (ltb s.emitted_tier tier)) [
      | inl up ↦
          let level : ltb tier tier ≡ false = ground arith in
          let kept : (tier == tier_alert
                && (ltb tier tier_alert && ltb e.confidence cfg.retract_confidence))
              ≡ false =
            ground arith in
          rw (up, level, kept) (k, refl)
      | inr down ↦
          elim (Bool-cases (
            s.emitted_tier == tier_alert
            && (ltb tier tier_alert && ltb e.confidence cfg.retract_confidence))) [
              | inl taken ↦ absurd (h (rw (down, taken) refl))
              | inr kept ↦ rw (down, kept) (k, rw (down, kept) refl)
            ]
    ]

-- An entry that is read again unchanged is not emitted again and leaves the slot as it was, unless
-- the first reading retracted an alert.
pub judge-again :
    (cfg : Config) (s : Slot) (e : Entry)
    → let found = judge cfg s (some e) in
      found.1 ≢ Finding.acts Action.retract → judge cfg found.0 (some e) ≡ (found.0, Finding.quiet)
unfolding judge
judge-again cfg s e h =
    let settled = settles cfg (reused s e) e (key-reused s e) h in
    rw (reused-same (judge_live cfg (reused s e) e).0 e settled.0) settled.1
