-- ===== src/Swim/Dissemination/Effect.antt =====
-- `wake_swim_get_updates` as a whole.
use libwake.Common.{
  ℕ, zero, suc, ◌+◌, ◌≡◌, ◌≤◌, ◌<◌, ◌⊎◌, inl, inr, refl, sym, ◌∙◌, ap, min, some, none, List, [],
  ◌∷◌, Bool, true, false, length, get_or, arith, Bool-cases, Option-cases, count_if, replicate,
  length-set, length-append,
}
use libwake.Common.Keyed.{lookup, Distinct}
use libwake.Swim.Types.{NodeId, Update, Swim}
use libwake.Swim.Queue.{node_of}
use libwake.Swim.Queue.Laws.{IsModest}
use libwake.Swim.Dissemination.{
  Best, Picks, zero_update, sent_once, pick_one, pick_updates, best_from, no_best,
}
use libwake.Swim.Dissemination.Priority.{IsOpen, best_from-Found}
use libwake.Swim.Dissemination.Selection.{IsSelection, pick_one-IsSelection, sent_if}

pub modest_at :
    (q : List Update) (k : ℕ)
    → IsModest q
    → k < length q
    → (get_or q k zero_update).piggyback_count < 65535
modest_at [] k m h = absurd (omega arith)
modest_at (u ∷ us) zero m h = m.0
modest_at (u ∷ us) (suc k) m h = modest_at us k m.1 (omega arith)

count_all_up :
    (flags : List Bool)
    → ((k : ℕ) → k < length flags → get_or flags k true ≡ true)
    → count_if (λ f. f) flags ≡ length flags
count_all_up [] h = refl
count_all_up (f ∷ fs) h =
    rw (h 0 (omega arith)) (ap suc (count_all_up fs (λ k l. h (suc k) (omega arith))))

module _ (q : List Update) (p : Picks) (v : IsSelection q p) where
  abbrev best : Best
  best = best_from p.queue p.selected 0 no_best

  -- Where the inner loop finds nothing, no flag is down.
  stop_all_up :
      IsModest q
      → best.index ≡ none
      → (k : ℕ) → k < length p.selected
      → get_or p.selected k true ≡ true
  stop_all_up modest stop k h =
      let f = best_from-Found p.queue p.selected 0 no_best in
      elim (Bool-cases (get_or p.selected k true)) [
        | inl up ↦ up
        | inr down ↦ absurd (elim (f.source) [
          | inr (i, e, l, m, o, c) ↦ cc (stop, e)
          | inl same ↦
              let count : best.count ≡ 65535 = ap (λ (b : Best). b.count) same in
              let least = f.least k (omega (arith, v.size, v.flags)) down in
              let small = modest_at q k modest (omega (arith, v.flags)) in
              omega (arith, count, rw (v.open_same k h down) at least, small)
        ])
      ]

  -- Where it finds an entry, the entry is open and was sent least.
  took_least :
      (i : ℕ)
      → best.index ≡ some i
      → (i < length p.selected)
        × IsOpen p.selected i
        × ((k : ℕ)
            → k < length p.queue
            → IsOpen p.selected k
            → (get_or p.queue i zero_update).piggyback_count
              ≤ (get_or p.queue k zero_update).piggyback_count)
  took_least i e =
      let f = best_from-Found p.queue p.selected 0 no_best in
      elim (f.source) [
        | inl same ↦
            let none_found : best.index ≡ none = ap (λ (b : Best). b.index) same in
            absurd (cc (e, none_found))
        | inr (k, e', l, m, o, c) ↦
            let here : k ≡ i = ground (arith, e, e') in
            (rw (← here) m, rw (← here) o, λ j hj oj. rw (← here, ← c) (f.least j hj oj))
      ]

-- The loop ends with as many picks as were asked, or with every flag up.
pub record Picked (q : List Update) (n : ℕ) (p r : Picks) : Type 0 where
  pub selection : IsSelection q r
  pub width : length r.selected ≡ length p.selected
  pub number : (length r.out ≡ n + length p.out) ⊎ (length r.out ≡ length p.selected)
  pub bounded : length r.out ≤ n + length p.out

pick_one_sizes :
    (p : Picks) (i : ℕ)
    → (length (pick_one p i).out ≡ length p.out + 1)
      × (length (pick_one p i).selected ≡ length p.selected)
unfolding pick_one
pick_one_sizes p i = (length-append p.out _, length-set p.selected i true)

pub pick_updates-Picked :
    (q : List Update) (n : ℕ) (p : Picks)
    → Distinct node_of q
    → IsModest q
    → IsSelection q p
    → Picked q n p (pick_updates n p)
unfolding pick_updates
pick_updates-Picked q zero p dq modest v = record {
  selection = v;
  width = refl;
  number = inl (omega arith);
  bounded = omega arith;
}
pick_updates-Picked q (suc n) p dq modest v =
    elim (Option-cases ((best_from p.queue p.selected 0 no_best).index)) [
      | inl stop ↦
          rw (stop, pick_updates)
            (record {
              selection = v;
              width = refl;
              number = inr (sym v.raised ∙ count_all_up p.selected (stop_all_up q p v modest stop));
              bounded = omega arith;
            })
      | inr (i, e) ↦
          let took = took_least q p v i e in
          let step = pick_one-IsSelection q p i dq v took.0 took.1 took.2 in
          let grown = pick_one_sizes p i in
          let ih = pick_updates-Picked q n (pick_one p i) dq modest step in
          rw (e, pick_updates)
            (record {
              selection = ih.selection;
              width = ih.width ∙ grown.1;
              number = elim (ih.number) [
                | inl e' ↦ inl (omega (arith, e', grown))
                | inr e' ↦ inr (omega (arith, e', grown))
              ];
              bounded = omega (arith, ih.bounded, grown);
            })
    ]

-- An entry-wise change that keeps identifiers, read by identifier.
pub lookup-pointwise :
    (f : Update → Update) (q r : List Update) (j : NodeId)
    → ((u : Update) → (f u).node_id ≡ u.node_id)
    → length r ≡ length q
    → ((k : ℕ) → k < length q → get_or r k zero_update ≡ f (get_or q k zero_update))
    → lookup node_of r j ≡ elim (lookup node_of q j) [ none ↦ none | some u ↦ some (f u) ]
lookup-pointwise f [] [] j same size h = refl
lookup-pointwise f [] (x ∷ r) j same size h = absurd (omega arith)
lookup-pointwise f (u ∷ q) [] j same size h = absurd (omega arith)
lookup-pointwise f (u ∷ q) (x ∷ r) j same size h =
    let head = h 0 (omega arith) in
    let ih = lookup-pointwise f q r j same (omega arith) (λ k l. h (suc k) (omega arith)) in
    ground (arith, head, ih, same u)

pub node_id-sent_if : (out : List Update) (u : Update) → (sent_if out u).node_id ≡ u.node_id
unfolding sent_once
node_id-sent_if out u = ground arith

start_flags : (n : ℕ) (k : ℕ) → k < n → get_or (replicate n false) k true ≡ false
start_flags zero k h = absurd (omega arith)
start_flags (suc n) zero h = refl
start_flags (suc n) (suc k) h = start_flags n k (omega arith)

pub length-flags : (n : ℕ) → length (replicate n false) ≡ n
length-flags zero = refl
length-flags (suc n) = ap suc (length-flags n)

count_if-flags : (n : ℕ) → count_if (λ f. f) (replicate n false) ≡ 0
count_if-flags zero = refl
count_if-flags (suc n) = count_if-flags n

abbrev pub start : Swim → Picks
start sw = record {
  out = [];
  queue = sw.updates;
  selected = replicate (min (length sw.updates) 256) false;
  sent = sw.updates_piggybacked;
}

pub start-IsSelection :
    (sw : Swim) → Distinct node_of sw.updates → IsSelection sw.updates (start sw)
start-IsSelection sw d =
    let n = min (length sw.updates) 256 in
    record {
      size = refl;
      flags = rw (length-flags n) (omega arith);
      distinct = d;
      open_same = λ k h o. refl;
      ordered = λ a k ha hk o. absurd (omega arith);
      fresh = λ k h o. refl;
      taken = λ k h up. let down = start_flags n k (rw (length-flags n) at h) in cc (down, up);
      raised = count_if-flags n;
      out_distinct = tt;
      source = λ a h. absurd (omega arith);
      after = λ k h. refl;
    }
