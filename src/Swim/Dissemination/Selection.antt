-- ===== src/Swim/Dissemination/Selection.antt =====
-- The outer loop of `wake_swim_get_updates`: what holds of `out`, the flags and the queue.
use libwake.Common.{
  ℕ, ◌≡◌, ◌≢◌, ◌≤◌, ◌<◌, ◌⊎◌, inl, inr, refl, sym, ◌∙◌, ap, Option, some, none, List, [], ◌∷◌, ◌++◌,
  Bool, true, false, length, get_or, set, arith, Option-cases, mem_eq, mem_eq_refl, length-set,
  length-append, count_if, count_if-set, get_or-append, get_or-append_last, get_or-set_self,
  get_or-set_ne,
}
use native.Mathlib.Decide.{ℕ_discrete, dec_lt}
use libwake.Common.Keyed.{
  find_index, Distinct, Distinct-append, find_index-append, get_or-ne, find_index_of_get,
  find_index-append_known, find_index-append_new, Distinct-set,
}
use libwake.Swim.Types.{Update}
use libwake.Swim.Queue.{node_of}
use libwake.Swim.Dissemination.{Picks, zero_update, sent_once, pick_one}
use libwake.Swim.Dissemination.Priority.{IsOpen}

abbrev entry : List Update → ℕ → Update
entry us k = get_or us k zero_update

-- What an update of the queue has become when `out` has been taken from it.
abbrev pub sent_if : List Update → Update → Update
sent_if out u = elim (find_index node_of out u.node_id) [ none ↦ u | some a ↦ sent_once u ]

sent_if-known :
    (out : List Update) (u : Update)
    → find_index node_of out u.node_id ≢ none
    → sent_if out u ≡ sent_once u
sent_if-known out u h = elim (Option-cases (find_index node_of out u.node_id)) [
  | inl e ↦ absurd (h e)
  | inr (a, e) ↦ rw (e, sent_if) refl
]

sent_if-same :
    (out out' : List Update) (u : Update)
    → find_index node_of out' u.node_id ≡ find_index node_of out u.node_id
    → sent_if out' u ≡ sent_if out u
sent_if-same out out' u e = ap (λ (f : Option ℕ). elim f [ none ↦ u | some a ↦ sent_once u ]) e

pub record IsSelection (q : List Update) (p : Picks) : Type 0 where
  pub size : length p.queue ≡ length q
  pub flags : length p.selected ≤ length q
  pub distinct : Distinct node_of p.queue
  pub open_same :
      (k : ℕ) → k < length p.selected → IsOpen p.selected k → entry p.queue k ≡ entry q k
  -- what was taken was sent at most as often as what was not
  pub ordered :
      (a k : ℕ)
      → a < length p.out
      → k < length p.selected
      → IsOpen p.selected k
      → (entry p.out a).piggyback_count ≤ (entry q k).piggyback_count
  -- a flag is up exactly where the update is in `out`
  pub fresh :
      (k : ℕ)
      → k < length p.selected
      → IsOpen p.selected k
      → find_index node_of p.out (entry q k).node_id ≡ none
  pub taken :
      (k : ℕ)
      → k < length p.selected
      → get_or p.selected k true ≡ true
      → find_index node_of p.out (entry q k).node_id ≢ none
  pub raised : count_if (λ f. f) p.selected ≡ length p.out
  pub out_distinct : Distinct node_of p.out
  pub source : (a : ℕ) → a < length p.out → (k : ℕ) × (k < length q) × (entry p.out a ≡ entry q k)
  -- the queue as a table
  pub after : (k : ℕ) → k < length q → entry p.queue k ≡ sent_if p.out (entry q k)

-- One round takes an open entry `i` that was sent least.
module _ (q : List Update) (p : Picks) (i : ℕ) (dq : Distinct node_of q) (v : IsSelection q p)
    (inside : i < length p.selected) (open_i : IsOpen p.selected i)
    (least : (k : ℕ)
      → k < length p.queue
      → IsOpen p.selected k
      → (entry p.queue i).piggyback_count ≤ (entry p.queue k).piggyback_count) where
  u : Update
  u = entry p.queue i

  out' : List Update
  out' = p.out ++ u ∷ []

  u_same : entry p.queue i ≡ entry q i
  u_same = v.open_same i inside open_i

  u_new : find_index node_of p.out (entry p.queue i).node_id ≡ none
  u_new = rw u_same (v.fresh i inside open_i)

  -- Where the flag is down after the round it was down before, and the entry is another one.
  still-IsOpen :
      (k : ℕ)
      → k < length p.selected
      → IsOpen (set p.selected i true) k
      → IsOpen p.selected k × (k ≢ i)
  still-IsOpen k h o = elim (ℕ_discrete i k) [
    | yes same ↦
        let up : get_or (set p.selected i true) k true ≡ true =
          rw (← same) (get_or-set_self p.selected i true true inside) in
        absurd (ground (arith, up, o))
    | no apart ↦ (sym (get_or-set_ne p.selected i k true true apart) ∙ o, λ e. apart (sym e))
  ]

  other_node :
      (k : ℕ) → k < length q → k ≢ i → mem_eq (entry p.queue i).node_id (entry q k).node_id ≡ false
  other_node k h apart =
      rw u_same
        (get_or-ne node_of q i k zero_update (omega (arith, v.flags)) h (λ e. apart (sym e)) dq)

  -- An entry of `out'` is one of before, or the new one at the end.
  out_entry :
      (a : ℕ)
      → a < length out'
      → ((a < length p.out) × (entry out' a ≡ entry p.out a)) ⊎ (entry out' a ≡ entry q i)
  unfolding out' u
  out_entry a h = elim (dec_lt a (length p.out)) [
    | yes before ↦ inl (before, get_or-append p.out _ a zero_update before)
    | no last ↦
        let e : a ≡ length p.out = omega (arith, length-append p.out (entry p.queue i ∷ [])) in
        inr (rw e (get_or-append_last p.out (entry p.queue i) zero_update) ∙ u_same)
  ]

  out_ordered :
      (a k : ℕ)
      → a < length out'
      → k < length p.selected
      → IsOpen (set p.selected i true) k
      → (entry out' a).piggyback_count ≤ (entry q k).piggyback_count
  out_ordered a k ha hk o =
      let before = still-IsOpen k hk o in
      elim (out_entry a ha) [
        | inl (h, e) ↦ rw e (v.ordered a k h hk before.0)
        | inr e ↦
            let l = least k (omega (arith, v.flags, v.size)) before.0 in
            rw (e, ← u_same, ← v.open_same k hk before.0) l
      ]

  out_taken :
      (k : ℕ)
      → k < length p.selected
      → get_or (set p.selected i true) k true ≡ true
      → find_index node_of out' (entry q k).node_id ≢ none
  unfolding out' u
  out_taken k hk up = elim (ℕ_discrete i k) [
    | yes same ↦
        find_index-append_new node_of p.out (entry p.queue i) (entry q k).node_id
          (rw (u_same, ← same) (mem_eq_refl (entry q i).node_id))
    | no apart ↦
        find_index-append_known node_of p.out (entry p.queue i) (entry q k).node_id
          (v.taken k hk (sym (get_or-set_ne p.selected i k true true apart) ∙ up))
  ]

  out_after :
      (k : ℕ) → k < length q → entry (set p.queue i (sent_once u)) k ≡ sent_if out' (entry q k)
  unfolding out' u
  out_after k hk = elim (ℕ_discrete i k) [
    | yes same ↦
        let here =
          get_or-set_self p.queue i (sent_once (entry p.queue i)) zero_update
            (omega (arith, v.flags, v.size)) in
        let known =
          find_index-append_new node_of p.out (entry p.queue i) (entry q i).node_id
            (rw u_same (mem_eq_refl (entry q i).node_id)) in
        rw (← same, here, u_same)
          (sym (sent_if-known (p.out ++ entry q i ∷ []) (entry q i) (rw u_same at known)))
    | no apart ↦
        let there = get_or-set_ne p.queue i k (sent_once (entry p.queue i)) zero_update apart in
        let same_out =
          find_index-append node_of p.out (entry p.queue i) (entry q k).node_id
            (other_node k hk (λ e. apart (sym e))) in
        there
        ∙ (v.after k hk
            ∙ sym (sent_if-same p.out (p.out ++ entry p.queue i ∷ []) (entry q k) same_out))
  ]

  out_raised : count_if (λ f. f) (set p.selected i true) ≡ length out'
  unfolding out' u
  out_raised =
      let counted = rw open_i at (count_if-set (λ (f : Bool). f) p.selected i true true inside) in
      omega (arith, counted, v.raised, length-append p.out (entry p.queue i ∷ []))

  pub pick_one-IsSelection : IsSelection q (pick_one p i)
  unfolding pick_one out' u
  pick_one-IsSelection = record {
    size = length-set p.queue i _ ∙ v.size;
    flags = rw length-set v.flags;
    distinct =
        Distinct-set node_of p.queue i (sent_once (entry p.queue i))
          (find_index_of_get node_of p.queue i zero_update (omega (arith, v.flags, v.size))
            v.distinct)
          v.distinct;
    open_same = λ k h o.
        let h' : k < length p.selected = rw (length-set p.selected i true) at h in
        let before = still-IsOpen k h' o in
        get_or-set_ne p.queue i k _ zero_update (λ e. before.1 (sym e)) ∙ v.open_same k h' before.0;
    ordered = λ a k ha hk o. out_ordered a k ha (rw (length-set p.selected i true) at hk) o;
    fresh = λ k h o.
        let h' : k < length p.selected = rw (length-set p.selected i true) at h in
        let before = still-IsOpen k h' o in
        find_index-append node_of p.out (entry p.queue i) (entry q k).node_id
          (other_node k (omega (arith, v.flags)) before.1)
        ∙ v.fresh k h' before.0;
    taken = λ k h up. out_taken k (rw (length-set p.selected i true) at h) up;
    raised = out_raised;
    out_distinct = Distinct-append node_of p.out (entry p.queue i) u_new v.out_distinct;
    source = λ a h. elim (out_entry a h) [
      | inl (h', e) ↦ let s = v.source a h' in (s.0, s.1, e ∙ s.2)
      | inr e ↦ (i, omega (arith, v.flags), e)
    ];
    after = λ k h. out_after k h;
  }
