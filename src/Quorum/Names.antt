-- ===== src/Quorum/Names.antt =====
-- The names of tiers and actions; an enumerator is its number, since any number can be asked for.
use libwake.Common.{ℕ, ◌==◌, if◌then◌else◌}
use Prim.Native.String.{String}

unfoldable pub tier_name : ℕ → String
tier_name tier =
    if tier == 0
    then "NONE"
    else if tier == 1
    then "OBSERVE"
    else if tier == 2
    then "ALERT"
    else "UNKNOWN"

unfoldable pub action_name : ℕ → String
action_name action =
    if action == 0
    then "NONE"
    else if action == 1
    then "OBSERVE"
    else if action == 2
    then "ALERT"
    else if action == 3
    then "RETRACT"
    else "UNKNOWN"
