-- ===== src/Swim/Dissemination.antt =====
-- `wake_swim_get_updates` of src/wake_swim.c: which updates ride on a message, and pruning.
pub mod Priority
pub mod Batch
pub mod Effect
pub mod Selection
pub mod Limit
use libwake.Common.{
  ℕ, zero, suc, ◌+◌, ◌*◌, min, Option, none, some, List, [], ◌∷◌, ◌++◌, Bool, true, false, leb, ltb,
  ◌==◌, ◌||◌, ◌&&◌, if◌then◌else◌, length, get_or, set, keep, replicate, inc16, inc64, u16, not,
}
use libwake.Swim.Types.{Update, Swim}
use libwake.Swim.Suspicion.{ilog2, at_least_two}

-- `int best` (`none` is -1) and `uint16_t best_pb`
pub record Best : Type 0 where
  pub index : Option ℕ
  pub count : ℕ

-- The inner loop. The flags are as many as the entries that it looks at.
pub best_from : List Update → List Bool → ℕ → Best → Best
best_from (u ∷ us) (s ∷ ss) i best =
    let wins = not s && ltb u.piggyback_count best.count in
    best_from us ss (i + 1)
      (if wins then record { index = some i; count = u.piggyback_count } else best)
best_from us ss i best = best

abbrev pub no_best : Best
no_best = record { index = none; count = 65535 }

-- What the outer loop changes.
pub record Picks : Type 0 where
  pub out : List Update
  pub queue : List Update
  pub selected : List Bool
  pub sent : ℕ

abbrev pub zero_update : Update
zero_update = record {
  node_id = [];
  addr = 0;
  port = 0;
  state = 0;
  incarnation = 0;
  piggyback_count = 0;
}

pub sent_once : Update → Update
sent_once u = record u { piggyback_count = inc16 u.piggyback_count }

pub pick_one : Picks → ℕ → Picks
unfolding sent_once
pick_one p i =
    let u = get_or p.queue i zero_update in
    record {
      out = p.out ++ u ∷ [];
      queue = set p.queue i (sent_once u);
      selected = set p.selected i true;
      sent = inc64 p.sent;
    }

pub pick_updates : ℕ → Picks → Picks
pick_updates zero p = p
pick_updates (suc n) p = elim ((best_from p.queue p.selected 0 no_best).index) [
  | none ↦ p
  | some i ↦ pick_updates n (pick_one p i)
]

pub prune_limit : ℕ → ℕ
unfolding ilog2
prune_limit alive_count =
    let limit = 3 * ilog2 (at_least_two alive_count) in if ltb limit 3 then 3 else limit

-- the entries that stay: not `piggyback_count >= (uint16_t)limit`
pub prune : ℕ → List Update → List Update
prune limit = keep (λ u. not (leb (u16 limit) u.piggyback_count))

unfoldable pub get_updates : Swim → ℕ → List Update × Swim
unfolding pick_updates prune_limit prune
get_updates sw max_out =
    if max_out == 0 || length sw.updates == 0
    then ([], sw)
    else (let picked = pick_updates (min max_out (length sw.updates)) (record {
      out = [];
      queue = sw.updates;
      selected = replicate (min (length sw.updates) 256) false;
      sent = sw.updates_piggybacked;
    }) in
        (
          picked.out,
          record sw {
            updates = prune (prune_limit sw.alive_count) picked.queue;
            updates_piggybacked = picked.sent;
          },
        ))
