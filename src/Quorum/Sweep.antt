-- ===== src/Quorum/Sweep.antt =====
-- The two sweeps, whose loops are written out separately.
use libwake.Common.{
  ℕ, ◌+◌, ◌≡◌, refl, Option, none, some, List, [], ◌∷◌, ◌++◌, true, ltb, if◌then◌else◌, length,
  ◌==◌, ◌&&◌, Bool-cases, inl, inr,
}
use libwake.Quorum.{
  Action, Config, Slot, Entry, Finding, Tally, Quorum, Hit, judge, judge_live, reused, classify,
  tier_alert, count, tell, put, collected, collect_one, sweep_loop, collect_loop, sweep,
  sweep_collect, counters, Callback,
}

-- A callback that fills an array with room for `room` hits and never stops the sweep.
abbrev pub collector : ℕ → Callback (List Hit)
collector room = some (λ a i e hits. (
  true,
  if ltb (length hits) room
      then hits ++ record { action = a; slot_idx = i; entry = e } ∷ []
      else hits,
))

-- What the array holds after a round of the sweep with this callback.
note : ℕ → Finding → ℕ → Option Entry → List Hit → List Hit
note room (Finding.acts a) i (some e) hits = put room a i e hits
note room f i e hits = hits

tell-collector :
    (room : ℕ) (f : Finding) (i : ℕ) (e : Option Entry) (hits : List Hit)
    → tell (collector room) f i e hits ≡ (true, note room f i e hits)
unfolding tell note put
tell-collector room Finding.gone i e hits = refl
tell-collector room Finding.quiet i e hits = refl
tell-collector room (Finding.acts a) i none hits = refl
tell-collector room (Finding.acts a) i (some e) hits = refl

collected-count : (t : Tally) (a : Action) → collected t a ≡ count (Finding.acts a) t
unfolding count
collected-count t Action.observe = refl
collected-count t Action.alert = refl
collected-count t Action.retract = refl

-- The two bodies of the loop agree on a live slot.
live :
    (cfg : Config) (room i : ℕ) (s : Slot) (e : Entry) (t : Tally) (hits : List Hit)
    → let found = judge cfg s (some e) in
      collect_one cfg room i s (some e) t hits
      ≡ (found.0, count found.1 t, note room found.1 i (some e) hits)
unfolding judge judge_live reused collect_one note count
live cfg room i s e t hits =
    let slot = reused s e in
    let tier = classify cfg e.confidence e.src_count e.hit_count in
    let act = if tier == tier_alert then Action.alert else Action.observe in
    elim (Bool-cases (ltb slot.emitted_tier tier)) [
      | inl up ↦ rw (up, collected-count t act) refl
      | inr level ↦
          elim (Bool-cases (
            slot.emitted_tier == tier_alert
            && (ltb tier tier_alert && ltb e.confidence cfg.retract_confidence))) [
              | inl fell ↦ rw (level, fell) refl
              | inr kept ↦ rw (level, kept) refl
            ]
    ]

rounds :
    (cfg : Config) (room i : ℕ) (s : Slot) (e : Option Entry) (t : Tally) (hits : List Hit)
    → let found = judge cfg s e in
      collect_one cfg room i s e t hits ≡ (found.0, count found.1 t, note room found.1 i e hits)
unfolding judge collect_one note count
rounds cfg room i s none t hits = refl
rounds cfg room i s (some e) t hits = live cfg room i s e t hits

loops :
    (cfg : Config) (room i : ℕ) (ss : List Slot) (es : List (Option Entry)) (t : Tally)
    (hits : List Hit)
    → sweep_loop cfg (collector room) i ss es t hits ≡ collect_loop cfg room i ss es t hits
unfolding sweep_loop collect_loop
loops cfg room i [] es t hits = refl
loops cfg room i (s ∷ ss) [] t hits = refl
loops cfg room i (s ∷ ss) (e ∷ es) t hits =
    let found = judge cfg s e in
    let ih = loops cfg room (i + 1) ss es (count found.1 t) (note room found.1 i e hits) in
    rw (tell-collector room found.1 i e hits, rounds cfg room i s e t hits, ih) refl

-- The sweep without callback is the sweep with a callback that fills the caller's array and never
-- stops: the same result, state and hits, for any reads of the table.
pub sweep_collect-sweep :
    (q : Quorum) (reads : List (Option Entry)) (room : ℕ)
    → sweep_collect q reads room ≡ sweep q reads (collector room) []
unfolding sweep sweep_collect
sweep_collect-sweep q reads room = rw (loops q.config room 0 q.slots reads (counters q) []) refl
