-- ===== src/Swim/Dissemination/Batch.antt =====
-- `wake_swim_get_updates`: the batch that rides on one message, and the queue after it.
use libwake.Common.{
  ℕ, ◌≡◌, ◌≢◌, ◌≤◌, ◌<◌, inl, inr, refl, ◌∙◌, min, Option, some, none, List, [], ◌∷◌, Bool, true,
  leb, if◌then◌else◌, length, get_or, arith, Bool-cases, not, ◌==◌, ◌||◌, u16, count_if-le,
  length-keep-le,
}
use libwake.Common.Keyed.{find_index, lookup, Distinct, Distinct-keep, lookup-keep}
use libwake.Swim.Types.{NodeId, Update, Swim}
use libwake.Swim.Queue.{node_of}
use libwake.Swim.Queue.Laws.{IsModest}
use libwake.Swim.Invariant.{IsValid}
use libwake.Swim.Dissemination.{Picks, zero_update, pick_updates, prune, prune_limit, get_updates}
use libwake.Swim.Dissemination.Selection.{sent_if}
use libwake.Swim.Dissemination.Effect.{
  Picked, pick_updates-Picked, lookup-pointwise, node_id-sent_if, length-flags, start,
  start-IsSelection,
}

-- How far the code looks into the queue.
abbrev pub seen : List Update → ℕ
seen us = min (length us) 256

-- A batch of updates out of a queue.
pub record IsBatch (us out : List Update) (max_out : ℕ) : Type 0 where
  pub number : length out ≡ min max_out (seen us)
  pub distinct : Distinct node_of out
  pub source :
      (a : ℕ)
      → a < length out
      → (k : ℕ) × (k < length us) × (get_or out a zero_update ≡ get_or us k zero_update)
  -- nothing that was seen and left was sent less often
  pub least :
      (a k : ℕ)
      → a < length out
      → k < seen us
      → find_index node_of out (get_or us k zero_update).node_id ≡ none
      → (get_or out a zero_update).piggyback_count ≤ (get_or us k zero_update).piggyback_count

-- What an update of the queue becomes: counted once more if it was sent, and dropped at the limit.
abbrev pub survivor : ℕ → List Update → Update → Option Update
survivor limit out u =
    let sent = sent_if out u in if leb (u16 limit) sent.piggyback_count then none else some sent

abbrev pub survivors : ℕ → List Update → Option Update → Option Update
survivors limit out none = none
survivors limit out (some u) = survivor limit out u

survivor_of :
    (limit : ℕ) (out : List Update) (o : Option Update)
    → let sent : Option Update = elim o [ none ↦ none | some u ↦ some (sent_if out u) ] in
      let kept : Option Update = elim sent [
        | none ↦ none
        | some u ↦ if not (leb (u16 limit) u.piggyback_count) then some u else none
      ] in
      kept ≡ survivors limit out o
survivor_of limit out none = refl
survivor_of limit out (some u) =
    elim (Bool-cases (leb (u16 limit) (sent_if out u).piggyback_count)) [
      | inl over ↦ rw over
      | inr under ↦ rw under
    ]

module _ (sw : Swim) (v : IsValid sw) (max_out : ℕ) where
  abbrev asked : ℕ
  asked = min max_out (length sw.updates)

  abbrev picked : Picks
  picked = pick_updates asked (start sw)

  picked_all : Picked sw.updates asked (start sw) picked
  picked_all =
      pick_updates-Picked sw.updates asked (start sw) v.queue.distinct v.queue.modest
        (start-IsSelection sw v.queue.distinct)

  picked_width : length picked.selected ≡ seen sw.updates
  picked_width = picked_all.width ∙ length-flags (seen sw.updates)

  picked-IsBatch : IsBatch sw.updates picked.out max_out
  picked-IsBatch =
      let s = picked_all.selection in
      record {
        number = elim (picked_all.number) [
          | inl e ↦ omega (
            arith,
            e,
            length-flags (seen sw.updates),
            s.raised,
            count_if-le (λ (f : Bool). f) picked.selected,
            picked_width,
          )
          | inr e ↦ omega (arith, e, length-flags (seen sw.updates), picked_all.bounded)
        ];
        distinct = s.out_distinct;
        source = s.source;
        least = λ a k ha hk left.
            let inside : k < length picked.selected = omega (arith, picked_width) in
            elim (Bool-cases (get_or picked.selected k true)) [
              | inl up ↦ absurd (s.taken k inside up left)
              | inr down ↦ s.ordered a k ha inside down
            ];
      }

  after_prune :
      (limit : ℕ) (j : NodeId)
      → lookup node_of (prune limit picked.queue) j
        ≡ survivors limit picked.out (lookup node_of sw.updates j)
  unfolding prune
  after_prune limit j =
      let s = picked_all.selection in
      let kept =
        lookup-keep node_of (λ u. not (leb (u16 limit) u.piggyback_count)) picked.queue j
          s.distinct in
      let read =
        lookup-pointwise (sent_if picked.out) sw.updates picked.queue j (node_id-sent_if picked.out)
          s.size s.after in
      kept ∙ rw read (survivor_of limit picked.out (lookup node_of sw.updates j))

-- From a valid state a batch has as many updates as were asked, or as were seen; no node twice;
-- each is from the queue; and each was sent no more often than any that was seen and left.
pub get_updates-IsBatch :
    (sw : Swim) (max_out : ℕ) → IsValid sw → IsBatch sw.updates (get_updates sw max_out).0 max_out
unfolding get_updates
get_updates-IsBatch sw max_out v = elim (Bool-cases (max_out == 0 || length sw.updates == 0)) [
  | inr some_out ↦ rw some_out (picked-IsBatch sw v max_out)
  | inl no_out ↦ rw no_out (record {
    number = ground (arith, no_out);
    distinct = tt;
    source = λ a h. absurd (omega arith);
    least = λ a k ha hk left. absurd (omega arith);
  })
]

lookup_of_empty : (us : List Update) (j : NodeId) → length us ≡ 0 → lookup node_of us j ≡ none
lookup_of_empty [] j h = refl
lookup_of_empty (u ∷ us) j h = absurd (omega arith)

-- After a call for at least one update from a valid state, the queue holds for each node what it
-- held before, counted once more if it was sent, and nothing if that has reached the limit.
pub lookup-get_updates :
    (sw : Swim) (max_out : ℕ) (j : NodeId)
    → IsValid sw
    → max_out ≢ 0
    → let r = get_updates sw max_out in
      lookup node_of r.1.updates j
      ≡ survivors (prune_limit sw.alive_count) r.0 (lookup node_of sw.updates j)
unfolding get_updates
lookup-get_updates sw max_out j v asked_some =
    elim (Bool-cases (max_out == 0 || length sw.updates == 0)) [
      | inr some_out ↦ rw some_out (after_prune sw v max_out (prune_limit sw.alive_count) j)
      | inl no_out ↦
          let nothing = lookup_of_empty sw.updates j (ground (arith, no_out)) in
          rw no_out (rw (nothing, survivors) refl)
    ]

IsModest-prune : (limit : ℕ) (us : List Update) → IsModest (prune limit us)
unfolding prune
IsModest-prune limit [] = tt
IsModest-prune limit (u ∷ us) = elim (Bool-cases (leb (u16 limit) u.piggyback_count)) [
  | inl over ↦ rw over (IsModest-prune limit us)
  | inr under ↦ rw under (ground (arith, under), IsModest-prune limit us)
]

pub get_updates-IsValid :
    (sw : Swim) (max_out : ℕ) → IsValid sw → IsValid (get_updates sw max_out).1
unfolding get_updates prune
get_updates-IsValid sw max_out v = elim (Bool-cases (max_out == 0 || length sw.updates == 0)) [
  | inl no_out ↦ rw no_out v
  | inr some_out ↦ rw some_out (
      let s = (picked_all sw v max_out).selection in
      let limit = prune_limit sw.alive_count in
      let queue = (picked sw v max_out).queue in
      record {
        small = v.small;
        fits = v.fits;
        distinct = v.distinct;
        no_self = v.no_self;
        counted = v.counted;
        queue = record {
          room = v.queue.room;
          fits = omega (
            arith,
            length-keep-le (λ (u : Update). not (leb (u16 limit) u.piggyback_count)) queue,
            s.size,
            v.queue.fits,
          );
          distinct =
              Distinct-keep node_of (λ u. not (leb (u16 limit) u.piggyback_count)) queue s.distinct;
          modest = IsModest-prune limit queue;
        };
        targets = v.targets;
        healthy = v.healthy;
      })
]
