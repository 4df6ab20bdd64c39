-- ===== src/Quorum/Preseed.antt =====
-- `wake_quorum_preseed` and the sweep after it.
use libwake.Common.{
  ℕ, ◌+◌, ◌≡◌, ◌≢◌, ◌⊎◌, inl, inr, refl, ap, Option, none, some, List, [], ◌∷◌, true, map, arith,
}
use libwake.Quorum.{
  Action, Config, Slot, Entry, Finding, Tally, Quorum, SweepResult, Callback, judge, judge_live,
  reused, count, tell, sweep_loop, sweep, preseed, reset, empty_slot, counters,
}
use libwake.Quorum.History.{judge-again}

-- The slots after a sweep that no callback stops.
pub judged : Config → List Slot → List (Option Entry) → List Slot
judged cfg (s ∷ ss) (e ∷ es) = (judge cfg s e).0 ∷ judged cfg ss es
judged cfg ss es = ss

slots-sweep_loop :
    (cfg : Config) (i : ℕ) (ss : List Slot) (es : List (Option Entry)) (t : Tally)
    → (sweep_loop {C = ℕ} cfg none i ss es t 0).0 ≡ judged cfg ss es
unfolding sweep_loop tell judged
slots-sweep_loop cfg i [] es t = refl
slots-sweep_loop cfg i (s ∷ ss) [] t = refl
slots-sweep_loop cfg i (s ∷ ss) (e ∷ es) t =
    ap (λ (r : List Slot). (judge cfg s e).0 ∷ r)
      (slots-sweep_loop cfg (i + 1) ss es (count (judge cfg s e).1 t))

fresh-reused : (e : Entry) → (reused empty_slot e).emitted_tier ≡ 0
unfolding reused
fresh-reused e = ground arith

no_retraction :
    (cfg : Config) (s : Slot) (e : Entry)
    → s.emitted_tier ≡ 0
    → (judge_live cfg s e).1 ≢ Finding.acts Action.retract
unfolding judge_live
no_retraction cfg s e h = ground (arith, h)

-- An empty slot that has read an entry finds nothing new in it.
settled :
    (cfg : Config) (e : Option Entry)
    → let s = (judge cfg empty_slot e).0 in
      (judge cfg s e ≡ (s, Finding.gone)) ⊎ (judge cfg s e ≡ (s, Finding.quiet))
unfolding judge
settled cfg none = inl refl
settled cfg (some e) =
    inr (judge-again cfg empty_slot e (no_retraction cfg (reused empty_slot e) e (fresh-reused e)))

module _ {ℓ} {C : Type ℓ} where
  tell-gone :
      (fn : Callback C) (i : ℕ) (e : Option Entry) (ctx : C)
      → tell fn Finding.gone i e ctx ≡ (true, ctx)
  unfolding tell
  tell-gone none i e ctx = refl
  tell-gone (some f) i e ctx = refl

  tell-quiet :
      (fn : Callback C) (i : ℕ) (e : Option Entry) (ctx : C)
      → tell fn Finding.quiet i e ctx ≡ (true, ctx)
  unfolding tell
  tell-quiet none i e ctx = refl
  tell-quiet (some f) i e ctx = refl

-- A sweep that emits nothing: the counters of emissions and the context stay.
abbrev pub IsSilent {ℓ} : {C : Type ℓ} → SweepResult → C → SweepResult × C → Type ℓ
IsSilent before ctx r =
    (r.0.new_observations ≡ before.new_observations)
    × (r.0.new_alerts ≡ before.new_alerts)
    × (r.0.new_retractions ≡ before.new_retractions)
    × (r.1 ≡ ctx)

-- Every slot is as after `reset`.
abbrev pub AllEmpty : List Slot → Type 0
AllEmpty [] = Unit
AllEmpty (s ∷ ss) = (s ≡ empty_slot) × AllEmpty ss

sweep_loop-IsSilent {ℓ} :
    {C : Type ℓ} (cfg : Config) (fn : Callback C) (i : ℕ) (ss : List Slot)
    (es : List (Option Entry)) (t : Tally) (ctx : C)
    → AllEmpty ss
    → let r = sweep_loop cfg fn i (judged cfg ss es) es t ctx in
      IsSilent t.result ctx (r.1.result, r.2)
unfolding sweep_loop judged count
sweep_loop-IsSilent cfg fn i [] es t ctx a = (refl, refl, refl, refl)
sweep_loop-IsSilent cfg fn i (s ∷ ss) [] t ctx a = (refl, refl, refl, refl)
sweep_loop-IsSilent cfg fn i (s ∷ ss) (e ∷ es) t ctx (fresh, a) = rw fresh (elim (settled cfg e) [
  | inl gone ↦
      rw (gone, tell-gone fn i e ctx)
        (sweep_loop-IsSilent cfg fn (i + 1) ss es (count Finding.gone t) ctx a)
  | inr quiet ↦
      rw (quiet, tell-quiet fn i e ctx)
        (sweep_loop-IsSilent cfg fn (i + 1) ss es (count Finding.quiet t) ctx a)
])

-- After a preseed of empty slots, a sweep over a table that reads the same emits nothing: it counts
-- no observation, alert or retraction, and does not call back.
pub preseed-IsSilent {ℓ} :
    {C : Type ℓ} (q : Quorum) (reads : List (Option Entry)) (fn : Callback C) (ctx : C)
    → AllEmpty q.slots
    → let r = sweep (preseed q reads) reads fn ctx in
      (r.0.new_observations ≡ 0) × (r.0.new_alerts ≡ 0) × (r.0.new_retractions ≡ 0) × (r.2 ≡ ctx)
unfolding sweep preseed
preseed-IsSilent q reads fn ctx a =
    rw (slots-sweep_loop q.config 0 q.slots reads (counters q))
      (sweep_loop-IsSilent q.config fn 0 q.slots reads (counters (preseed q reads)) ctx a)

all_empty : (ss : List Slot) → AllEmpty (map (λ (s : Slot). empty_slot) ss)
all_empty [] = tt
all_empty (s ∷ ss) = (refl, all_empty ss)

-- A reset empties every slot.
pub reset-AllEmpty : (q : Quorum) → AllEmpty (reset q).slots
unfolding reset
reset-AllEmpty q = all_empty q.slots
