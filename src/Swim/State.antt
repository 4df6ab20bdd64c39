-- ===== src/Swim/State.antt =====
-- The member states of src/wake_swim.h (a byte each) and `state_supersedes` of src/wake_swim.c.
pub mod Order
use libwake.Common.{ℕ, Bool, true, false, ◌||◌, ltb, ◌==◌, if◌then◌else◌}

abbrev pub alive : ℕ
alive = 0

abbrev pub suspect : ℕ
suspect = 1

abbrev pub dead : ℕ
dead = 2

abbrev pub left : ℕ
left = 3

-- the test `s == WAKE_SWIM_ALIVE || s == WAKE_SWIM_SUSPECT`
abbrev pub is_probeable : ℕ → Bool
is_probeable s = s == alive || s == suspect

-- the test `state == WAKE_SWIM_DEAD || state == WAKE_SWIM_LEFT`
abbrev pub is_terminal : ℕ → Bool
is_terminal s = s == dead || s == left

-- Does (new_state, new_inc) supersede (old_state, old_inc)?
unfoldable pub state_supersedes : ℕ → ℕ → ℕ → ℕ → Bool
state_supersedes new_state new_inc old_state old_inc =
    if new_state == left
    then true
    else if old_state == left
    then false
    else if ltb old_inc new_inc
    then true
    else if ltb new_inc old_inc
    then false
    else ltb old_state new_state
