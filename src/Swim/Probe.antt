-- ===== src/Swim/Probe.antt =====
-- The probe order of src/wake_swim.c: rebuilding with a Fisher-Yates shuffle, the next target, and
-- the delegates of an indirect probe. `wake_splitmix64` is in src/wake_swim.h.
pub mod Shuffle
pub mod Delegates
pub mod Round
pub mod Sweep
use libwake.Common.{
  ℕ, zero, suc, ◌+◌, ◌-◌, ◌*◌, ◌/◌, ◌%◌, ◌^◌, min, bit_xor, Option, none, some, List, [], ◌∷◌, ◌++◌,
  Bool, true, false, leb, ltb, ◌==◌, ◌&&◌, ◌||◌, if◌then◌else◌, length, get_or, get_elem?, set,
  take, inc64, not, mem_eq, u32,
}
use libwake.Swim.Types.{NodeId, Member, Swim}
use libwake.Swim.State
use libwake.Swim.Members.{is_self, member_at, id_of, zero_member}

-- The new state and the value.
pub splitmix64 : ℕ → ℕ × ℕ
splitmix64 state =
    let s = (state + 0x9E3779B97F4A7C15) % 2 ^ 64 in
    let a = (bit_xor s (s / 2 ^ 30) * 0xBF58476D1CE4E5B9) % 2 ^ 64 in
    let b = (bit_xor a (a / 2 ^ 27) * 0x94D049BB133111EB) % 2 ^ 64 in (s, bit_xor b (b / 2 ^ 31))

-- `tmp = a[i]; a[i] = a[j]; a[j] = tmp`
pub swap : List ℕ → ℕ → ℕ → List ℕ
swap xs i j = set (set xs i (get_or xs j 0)) j (get_or xs i 0)

-- the indices of the probeable members; `i` is the index of the head of the list
pub eligible_from : ℕ → List Member → List ℕ
eligible_from i [] = []
eligible_from i (m ∷ ms) =
    if State.is_probeable m.state then i ∷ eligible_from (i + 1) ms else eligible_from (i + 1) ms

-- `for (i = size; i > 1; i--)`: the first argument is `i`
pub shuffle : ℕ → List ℕ → ℕ → List ℕ × ℕ
unfolding splitmix64 swap
shuffle zero xs prng = (xs, prng)
shuffle (suc k) xs prng = elim (ltb 0 k) [
  | false ↦ (xs, prng)
  | true ↦ let drawn = splitmix64 prng in shuffle k (swap xs k (u32 (drawn.1 % suc k))) drawn.0
]

pub rebuild_probe_order : Swim → Swim
unfolding eligible_from shuffle
rebuild_probe_order sw =
    let eligible = eligible_from 0 sw.members in
    let shuffled = shuffle (length eligible) eligible sw.prng_state in
    record sw { probe_order = shuffled.0; prng_state = shuffled.1; probe_index = 0 }

-- `idx < member_count` and the member there is alive or suspect
abbrev pub is_target : List Member → ℕ → Bool
is_target ms i = elim (get_elem? ms i) [ none ↦ false | some m ↦ State.is_probeable m.state ]

-- `idx = probe_order[probe_index++]`
pub advance : Swim → Swim
advance sw = record sw { probe_index = sw.probe_index + 1 }

abbrev pub current : Swim → ℕ
current sw = get_or sw.probe_order sw.probe_index 0

-- all entries were stale: rebuild and try once more
pub retry : Swim → Option Member × Swim
unfolding rebuild_probe_order advance
retry sw =
    let rebuilt = rebuild_probe_order sw in
    let again = record rebuilt { rounds_completed = inc64 rebuilt.rounds_completed } in
    if length again.probe_order == 0
    then (none, again)
    else if is_target again.members (current again)
    then (some (member_at again (current again)), advance again)
    else (none, advance again)

-- The loop, with `probe_size - probe_index` rounds left.
pub scan : ℕ → Swim → Option Member × Swim
unfolding retry advance
scan zero sw = retry sw
scan (suc n) sw =
    let rest = scan n (advance sw) in
    if is_target sw.members (current sw)
    then (some (member_at sw (current sw)), advance sw)
    else rest

pub scan_order : Swim → Option Member × Swim
unfolding scan
scan_order sw = scan (length sw.probe_order - sw.probe_index) sw

unfoldable pub next_probe : Swim → Option Member × Swim
next_probe sw =
    if sw.alive_count == 0
    then (none, sw)
    else if length sw.probe_order == 0 || leb (length sw.probe_order) sw.probe_index
    then (let rebuilt = rebuild_probe_order sw in
        if length rebuilt.probe_order == 0
        then (none, rebuilt)
        else if leb (length rebuilt.probe_order) rebuilt.probe_index
        then scan_order (record rebuilt { rounds_completed = inc64 rebuilt.rounds_completed })
        else scan_order rebuilt)
    else scan_order sw

-- wake_swim_select_delegates. `none` for `exclude_id` is NULL.
abbrev pub is_excluded : Option NodeId → NodeId → Bool
is_excluded none id = false
is_excluded (some x) id = mem_eq id x

abbrev pub is_delegate : Swim → Option NodeId → Member → Bool
is_delegate sw exclude m =
    m.state == State.alive && (not (is_self sw m.node_id) && not (is_excluded exclude m.node_id))

pub delegates_from : Swim → Option NodeId → ℕ → List Member → List ℕ
delegates_from sw exclude i [] = []
delegates_from sw exclude i (m ∷ ms) =
    if is_delegate sw exclude m
    then i ∷ delegates_from sw exclude (i + 1) ms
    else delegates_from sw exclude (i + 1) ms

-- The partial shuffle: `left` picks to go, `i` made. The result is `out` and the generator.
pub pick_loop : List Member → ℕ → ℕ → List ℕ → ℕ → List Member × ℕ
unfolding splitmix64 swap
pick_loop ms zero i eligible prng = ([], prng)
pick_loop ms (suc left) i eligible prng =
    let drawn = splitmix64 prng in
    let j = i + u32 (drawn.1 % (length eligible - i)) in
    let swapped = swap eligible i j in
    let rest = pick_loop ms left (i + 1) swapped drawn.0 in
    (get_or ms (get_or swapped i 0) zero_member ∷ rest.0, rest.1)

-- the stack buffer holds 512 candidates
unfoldable pub select_delegates : Swim → Option NodeId → ℕ → List Member × Swim
unfolding delegates_from pick_loop
select_delegates sw exclude max_out =
    let eligible = delegates_from sw exclude 0 (take 512 sw.members) in
    if length eligible == 0
    then ([], sw)
    else (let picked =
          pick_loop sw.members (min max_out (length eligible)) 0 eligible sw.prng_state in
        (picked.0, record sw { prng_state = picked.1 }))
