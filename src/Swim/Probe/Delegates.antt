-- ===== src/Swim/Probe/Delegates.antt =====
-- `wake_swim_select_delegates`: whom it picks.
use libwake.Common.{
  ℕ, zero, suc, ◌+◌, ◌-◌, ◌%◌, ◌≡◌, ◌≤◌, ◌<◌, refl, sym, ◌∙◌, ap, Option, none, some, List, [], ◌∷◌,
  Bool, true, false, ◌==◌, if◌then◌else◌, length, arith, set, get_or, get_elem?, get_or-set_ne,
  Bool-cases, u32, ◌&&◌, not, mem_eq, mem_eq_comm, count_if, inl, inr, take, drop, map, min,
  take-drop, count_if-take-le, length-take,
}
use libwake.Swim.Types.{NodeId, Member, Swim}
use libwake.Swim.State
use libwake.Swim.Members.{zero_member}
use libwake.Swim.Probe.{swap, splitmix64, delegates_from, pick_loop, select_delegates, is_delegate}
use libwake.Swim.Probe.Shuffle.{occurrences, length-swap, occurrences-swap}

-- A member that can help: alive, not this node, and not the one to leave out.
abbrev pub can_help : Swim → Option NodeId → Member → Bool
can_help sw x m =
    m.state == State.alive
    && (not (mem_eq m.node_id sw.self_id)
        && (elim x [ none ↦ true | some left_out ↦ not (mem_eq m.node_id left_out) ]))

abbrev pub is_candidate : Swim → Option NodeId → List Member → ℕ → Bool
is_candidate sw x ms i = elim (get_elem? ms i) [ none ↦ false | some m ↦ can_help sw x m ]

can_help-is_delegate :
    (sw : Swim) (x : Option NodeId) (m : Member) → is_delegate sw x m ≡ can_help sw x m
can_help-is_delegate sw none m = rw (mem_eq_comm sw.self_id m.node_id) refl
can_help-is_delegate sw (some y) m = rw (mem_eq_comm sw.self_id m.node_id) refl

-- Does the code list the member at this index?
abbrev is_listed : Swim → Option NodeId → List Member → ℕ → Bool
is_listed sw x ms i = elim (get_elem? ms i) [ none ↦ false | some m ↦ is_delegate sw x m ]

module _ (sw : Swim) (x : Option NodeId) where
  occurrences-delegates_below :
      (y i : ℕ) (ms : List Member) → y < i → occurrences y (delegates_from sw x i ms) ≡ 0
  unfolding delegates_from
  occurrences-delegates_below y i [] h = refl
  occurrences-delegates_below y i (m ∷ ms) h = elim (Bool-cases (is_delegate sw x m)) [
    | inl picked ↦ rw picked (ground (arith, occurrences-delegates_below y (i + 1) ms))
    | inr passed ↦ rw passed (occurrences-delegates_below y (i + 1) ms (omega arith))
  ]

  occurrences-delegates :
      (i k : ℕ) (ms : List Member)
      → occurrences (i + k) (delegates_from sw x i ms) ≡ (if is_listed sw x ms k then 1 else 0)
  unfolding delegates_from
  occurrences-delegates i k [] = refl
  occurrences-delegates i zero (m ∷ ms) =
      let none_later = occurrences-delegates_below (i + 0) (i + 1) ms (omega arith) in
      elim (Bool-cases (is_delegate sw x m)) [
        | inl picked ↦ rw picked (ground (arith, none_later))
        | inr passed ↦ rw passed none_later
      ]
  occurrences-delegates i (suc k) (m ∷ ms) =
      let e : i + 1 + k ≡ i + suc k = omega arith in
      let ih = rw e at (occurrences-delegates (i + 1) k ms) in
      elim (Bool-cases (is_delegate sw x m)) [
        | inl picked ↦ rw picked (ground (arith, ih))
        | inr passed ↦ rw passed ih
      ]

  is_listed-is_candidate : (ms : List Member) (k : ℕ) → is_listed sw x ms k ≡ is_candidate sw x ms k
  is_listed-is_candidate [] k = refl
  is_listed-is_candidate (m ∷ ms) zero = can_help-is_delegate sw x m
  is_listed-is_candidate (m ∷ ms) (suc k) = is_listed-is_candidate ms k

  length-delegates :
      (i : ℕ) (ms : List Member) → length (delegates_from sw x i ms) ≡ count_if (can_help sw x) ms
  unfolding delegates_from
  length-delegates i [] = refl
  length-delegates i (m ∷ ms) =
      let same = can_help-is_delegate sw x m in
      let ih = length-delegates (i + 1) ms in
      elim (Bool-cases (is_delegate sw x m)) [
        | inl picked ↦ rw (picked, sym same ∙ picked) (ap suc ih)
        | inr passed ↦ rw (passed, sym same ∙ passed) ih
      ]

-- The members at the given indices.
abbrev pub members_at : List Member → List ℕ → List Member
members_at ms = map (λ i. get_or ms i zero_member)

-- The partial shuffle reads a stretch of a rearrangement of the candidates.
record Picked (ms : List Member) (left i : ℕ) (eligible : List ℕ) (out : List Member) : Type 0 where
  order : List ℕ
  same : (y : ℕ) → occurrences y order ≡ occurrences y eligible
  size : length order ≡ length eligible
  prefix : (k : ℕ) → k < i → get_or order k 0 ≡ get_or eligible k 0
  reads : out ≡ members_at ms (take left (drop i order))

swap_before : (xs : List ℕ) (i j k : ℕ) → k < i → k < j → get_or (swap xs i j) k 0 ≡ get_or xs k 0
unfolding swap
swap_before xs i j k hi hj =
    get_or-set_ne (set xs i (get_or xs j 0)) j k (get_or xs i 0) 0 (omega arith)
    ∙ get_or-set_ne xs i k (get_or xs j 0) 0 (omega arith)

pick_loop-Picked :
    (ms : List Member) (left i : ℕ) (eligible : List ℕ) (prng : ℕ)
    → i + left ≤ length eligible
    → Picked ms left i eligible (pick_loop ms left i eligible prng).0
unfolding pick_loop
pick_loop-Picked ms zero i eligible prng h = record {
  order = eligible;
  same = λ y. refl;
  size = refl;
  prefix = λ k l. refl;
  reads = refl;
}
pick_loop-Picked ms (suc left) i eligible prng h =
    let drawn = splitmix64 prng in
    let j = i + u32 (drawn.1 % (length eligible - i)) in
    let inside : j < length eligible = omega arith in
    let swapped = swap eligible i j in
    let size = length-swap eligible i j in
    let ih = pick_loop-Picked ms left (i + 1) swapped drawn.0 (rw size (omega arith)) in
    record {
      order = ih.order;
      same = λ y. ih.same y ∙ occurrences-swap y eligible i j (omega arith) inside;
      size = ih.size ∙ size;
      prefix = λ k l. ih.prefix k (omega arith) ∙ swap_before eligible i j k l (omega arith);
      reads =
          ap (λ (t : List Member). get_or ms (get_or swapped i 0) zero_member ∷ t) ih.reads
          ∙ (ap
                (λ (n : ℕ).
                  get_or ms n zero_member ∷ members_at ms (take left (drop (i + 1) ih.order)))
                (sym (ih.prefix i (omega arith)))
              ∙ sym (
                  ap (members_at ms) (take-drop ih.order left i 0 (omega (arith, ih.size, size)))));
    }

zero_of : (n : ℕ) → (n == 0) ≡ true → n ≡ 0
zero_of n h = ground arith

-- A selection of delegates: their indices, and what they are.
pub record IsDelegation (sw : Swim) (x : Option NodeId) (max_out : ℕ) (out : List Member)
    : Type 0 where
  pub indices : List ℕ
  pub reads : out ≡ members_at sw.members indices
  pub number : length indices ≡ min max_out (count_if (can_help sw x) (take 512 sw.members))
  pub candidates :
      (k : ℕ) → occurrences k indices ≤ (if is_candidate sw x (take 512 sw.members) k then 1 else 0)

-- The selection returns as many members as were asked, or as there are candidates among the first
-- 512; it picks no index twice, and each is that of a member that is alive, not this node and not
-- the excluded one.
pub select_delegates-IsDelegation :
    (sw : Swim) (x : Option NodeId) (max_out : ℕ)
    → IsDelegation sw x max_out (select_delegates sw x max_out).0
unfolding select_delegates
select_delegates-IsDelegation sw x max_out =
    let first = take 512 sw.members in
    let all = delegates_from sw x 0 first in
    let n = min max_out (length all) in
    elim (Bool-cases (length all == 0)) [
      | inl nobody ↦ rw nobody (record {
        indices = [];
        reads = refl;
        number = omega (arith, zero_of (length all) nobody, length-delegates sw x 0 first);
        candidates = λ k. omega arith;
      })
      | inr somebody ↦
          let p = pick_loop-Picked sw.members n 0 all sw.prng_state (omega arith) in
          rw somebody (record {
            indices = take n p.order;
            reads = p.reads;
            number = length-take n p.order ∙ omega (arith, p.size, length-delegates sw x 0 first);
            candidates = λ k.
                let fewer : occurrences k (take n p.order) ≤ occurrences k p.order =
                  count_if-take-le (λ (y : ℕ). y == k) n p.order in
                let zero_add : 0 + k ≡ k = omega arith in
                let listed = is_listed-is_candidate sw x first k in
                let once = rw (listed) at (rw zero_add at (occurrences-delegates sw x 0 k first)) in
                omega (arith, fewer, p.same k, once);
          })
    ]
