-- ===== src/Plumtree/CacheLaws.antt =====
-- What cache_insert does to the cache.
use libwake.Common.{
  ℕ, ◌≡◌, ◌≤◌, ◌<◌, ◌⊎◌, refl, sym, ◌∙◌, ap, Bool, true, false, none, some, List, [], ◌∷◌, length,
  get_or, set, mem_eq, mem_eq_refl, arith, Bool-cases, Option-cases, inl, inr, get_or-set_self,
  inc32, inc64, ◌||◌, length-set,
}
use libwake.Common.Slots.{
  find_first, find_first-hit, find_first-miss, find_first-found, find_first-set_same, oldest-min,
}
use libwake.Plumtree.Types.{MsgId, CacheEntry, Plumtree}
use libwake.Plumtree.Cache.{
  zero_entry, is_occupied, is_free, cached_at, holds, new_entry, oldest_entry, cache_insert,
  has_msg,
}

-- The slot that is written, and why.
pub record IsFreeSlot (pt : Plumtree) (i : ℕ) : Type 0 where
  pub within : i < length pt.cache
  pub free : (get_or pt.cache i zero_entry).occupied ≡ false

pub record IsVictim (pt : Plumtree) (i : ℕ) : Type 0 where
  pub within : i < length pt.cache
  pub full : (k : ℕ) → k < length pt.cache → (get_or pt.cache k zero_entry).occupied ≡ true
  pub oldest :
      (k : ℕ)
      → k < length pt.cache
      → (get_or pt.cache i zero_entry).received_ms ≤ (get_or pt.cache k zero_entry).received_ms

abbrev pub into_free : Plumtree → MsgId → List ℕ → ℕ → ℕ → Plumtree
into_free pt id payload now i = record pt {
  cache = set pt.cache i (new_entry id payload now);
  cache_count = inc32 pt.cache_count;
}

abbrev pub over_victim : Plumtree → MsgId → List ℕ → ℕ → ℕ → Plumtree
over_victim pt id payload now i = record pt {
  cache = set pt.cache i (new_entry id payload now);
  cache_evictions = inc64 pt.cache_evictions;
}

occupied_of : (e : CacheEntry) → is_free e ≡ false → e.occupied ≡ true
occupied_of e h = ground (arith, h)

free_of : (e : CacheEntry) → is_free e ≡ true → e.occupied ≡ false
free_of e h = ground (arith, h)

victim :
    (cs : List CacheEntry)
    → 0 < length cs
    → ((k : ℕ) → k < length cs → (get_or cs k zero_entry).occupied ≡ true)
    → (oldest_entry cs < length cs)
      × ((k : ℕ)
          → k < length cs
          → (get_or cs (oldest_entry cs) zero_entry).received_ms
            ≤ (get_or cs k zero_entry).received_ms)
unfolding oldest_entry
victim [] h all = absurd (omega (arith, h))
victim (c ∷ cs) h all =
    let (b, s, e, l, m) = oldest-min is_occupied cached_at c cs zero_entry in
    rw (e, oldest_entry) (l, λ k hk. m k hk (all k hk))

pub cache_insert-cases :
    (pt : Plumtree) (id : MsgId) (payload : List ℕ) (now : ℕ)
    → 0 < length pt.cache
    → ((i : ℕ) × (cache_insert pt id payload now ≡ into_free pt id payload now i) × IsFreeSlot pt i)
      ⊎ ((i : ℕ) × (cache_insert pt id payload now ≡ over_victim pt id payload now i)
          × IsVictim pt i)
unfolding cache_insert
cache_insert-cases pt id payload now h = elim (Option-cases (find_first is_free pt.cache)) [
  | inr (i, found) ↦
      let hit = find_first-hit is_free pt.cache i zero_entry found in
      inl (
        i,
        rw (found, cache_insert) refl,
        record { within = hit.0; free = free_of (get_or pt.cache i zero_entry) hit.1 },
      )
  | inl none_free ↦
      let all = λ (k : ℕ) (l : k < length pt.cache).
        occupied_of (get_or pt.cache k zero_entry)
          (find_first-miss is_free pt.cache k zero_entry none_free l) in
      let v = victim pt.cache h all in
      inr (
        oldest_entry pt.cache,
        rw (none_free, cache_insert) refl,
        record { within = v.0; full = all; oldest = v.1 },
      )
]

-- Membership in the cache.
abbrev pub is_cached : List CacheEntry → MsgId → Bool
is_cached cs id = elim (find_first (holds id) cs) [ none ↦ false | some i ↦ true ]

pub is_cached-at :
    (cs : List CacheEntry) (id : MsgId) (i : ℕ)
    → i < length cs
    → holds id (get_or cs i zero_entry) ≡ true
    → is_cached cs id ≡ true
is_cached-at cs id i l h = elim (Option-cases (find_first (holds id) cs)) [
  | inl miss ↦ absurd (find_first-found (holds id) cs i zero_entry l h miss)
  | inr (k, found) ↦ rw (found, is_cached) refl
]

pub holds_self :
    (id : MsgId) (payload : List ℕ) (now : ℕ) → holds id (new_entry id payload now) ≡ true
holds_self id payload now = mem_eq_refl id

-- A write keeps every message that the slot did not hold, and adds the new one.
pub is_cached-set :
    (cs : List CacheEntry) (i : ℕ) (id : MsgId) (payload : List ℕ) (now : ℕ) (j : MsgId)
    → i < length cs
    → holds j (get_or cs i zero_entry) ≡ false
    → is_cached (set cs i (new_entry id payload now)) j ≡ (mem_eq id j || is_cached cs j)
is_cached-set cs i id payload now j l old =
    let e = new_entry id payload now in
    elim (Bool-cases (mem_eq id j)) [
      | inl here ↦ rw here (
          is_cached-at (set cs i e) j i (omega (arith, l, length-set cs i e))
            (ap (holds j) (get_or-set_self cs i e zero_entry l) ∙ here))
      | inr apart ↦
          rw (apart, find_first-set_same (holds j) cs i e zero_entry (apart ∙ sym old), is_cached)
            refl
    ]

pub is_cached-set_self :
    (cs : List CacheEntry) (i : ℕ) (id : MsgId) (payload : List ℕ) (now : ℕ)
    → i < length cs
    → is_cached (set cs i (new_entry id payload now)) id ≡ true
is_cached-set_self cs i id payload now l =
    let e = new_entry id payload now in
    is_cached-at (set cs i e) id i (omega (arith, l, length-set cs i e))
      (ap (holds id) (get_or-set_self cs i e zero_entry l) ∙ holds_self id payload now)

pub free_holds : (j : MsgId) (e : CacheEntry) → e.occupied ≡ false → holds j e ≡ false
free_holds j e h = rw h refl

-- Storing a message in a cache with a slot makes it known. Either no other message is lost, or every
-- slot was in use and only the message of one slot is, none of which was stored longer ago.
pub cache_insert-effect :
    (pt : Plumtree) (id : MsgId) (payload : List ℕ) (now : ℕ)
    → 0 < length pt.cache
    → let after = cache_insert pt id payload now in
      (has_msg after id ≡ true)
      × (((j : MsgId) → has_msg after j ≡ (mem_eq id j || has_msg pt j))
          ⊎ ((i : ℕ) × IsVictim pt i
              × ((j : MsgId)
                  → mem_eq (get_or pt.cache i zero_entry).msg_id j ≡ false
                  → has_msg after j ≡ (mem_eq id j || has_msg pt j))))
cache_insert-effect pt id payload now h = elim (cache_insert-cases pt id payload now h) [
  | inl (i, e, f) ↦ rw e (
    is_cached-set_self pt.cache i id payload now f.within,
    inl (λ j.
        is_cached-set pt.cache i id payload now j f.within
          (free_holds j (get_or pt.cache i zero_entry) f.free)),
  )
  | inr (i, e, v) ↦ rw e (
    is_cached-set_self pt.cache i id payload now v.within,
    inr (
      i,
      v,
      λ j apart. is_cached-set pt.cache i id payload now j v.within (ground (arith, apart)),
    ),
  )
]
