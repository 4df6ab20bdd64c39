-- ===== src/Swim/Api.antt =====
-- The entry points of src/wake_swim.c with their tests for null arguments: a pointer is an option,
-- and an output buffer is the question whether there is one. The bodies stand in the modules below
-- Swim.
use libwake.Common.{ℕ, Option, none, some, List, [], Bool, ◌==◌, ◌||◌, not, if◌then◌else◌}
use libwake.Swim.Types.{NodeId, Member, Update, Swim, Result}
use libwake.Swim.Members
use libwake.Swim.Gossip
use libwake.Swim.Probe
use libwake.Swim.Suspicion
use libwake.Swim.Suspicion.{Delta}
use libwake.Swim.Dissemination
use libwake.Swim.Lifecycle

-- A `wake_swim_t *`.
abbrev pub Handle : Type 0
Handle = Option Swim

-- The value stays, and the state goes back behind its handle.
abbrev pub give {ℓ} : {A : Type ℓ} → A × Swim → A × Handle
give r = (r.0, some r.1)

unfoldable pub add_member : Handle → Option NodeId → ℕ → ℕ → ℕ → Result × Handle
add_member (some sw) (some id) addr port now = give (Members.add_member sw id addr port now)
add_member h id addr port now = (Result.not_found, h)

unfoldable pub remove_member : Handle → Option NodeId → ℕ → Result × Handle
remove_member (some sw) (some id) now = give (Members.remove_member sw id now)
remove_member h id now = (Result.not_found, h)

unfoldable pub suspect_member : Handle → Option NodeId → ℕ → Result × Handle
suspect_member (some sw) (some id) now = give (Members.suspect_member sw id now)
suspect_member h id now = (Result.not_found, h)

unfoldable pub apply_update : Handle → Option Update → ℕ → Result × Handle
apply_update (some sw) (some u) now = give (Gossip.apply_update sw u now)
apply_update h u now = (Result.stale, h)

unfoldable pub next_probe : Handle → Option Member × Handle
next_probe none = (none, none)
next_probe (some sw) = give (Probe.next_probe sw)

unfoldable pub select_delegates : Handle → Option NodeId → Bool → ℕ → List Member × Handle
select_delegates none exclude has_out max_out = ([], none)
select_delegates (some sw) exclude has_out max_out =
    if not has_out || max_out == 0
    then ([], some sw)
    else give (Probe.select_delegates sw exclude max_out)

unfoldable pub report_health : Handle → Delta → Handle
report_health none delta = none
report_health (some sw) delta = some (Suspicion.report_health sw delta)

unfoldable pub check_suspects : Handle → ℕ → ℕ × Handle
check_suspects none now = (0, none)
check_suspects (some sw) now = give (Suspicion.check_suspects sw now)

unfoldable pub reap : Handle → ℕ → ℕ → ℕ × Handle
reap none now retention = (0, none)
reap (some sw) now retention = give (Suspicion.reap sw now retention)

unfoldable pub get_updates : Handle → Bool → ℕ → List Update × Handle
get_updates none has_out max_out = ([], none)
get_updates (some sw) has_out max_out =
    if not has_out then ([], some sw) else give (Dissemination.get_updates sw max_out)

unfoldable pub reset : Handle → Handle
reset none = none
reset (some sw) = some (Lifecycle.reset sw)
