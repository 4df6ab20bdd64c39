-- ===== src/Swim/State/Order.antt =====
-- Laws of `state_supersedes`, as a test on pairs of a state and an incarnation.
use libwake.Common.{ℕ, true, false, ◌≡◌, ◌≢◌, ◌⊎◌, if◌then◌else◌, arith}
use libwake.Swim.State
use libwake.Swim.State.{state_supersedes}

-- What is known of a node: a state and an incarnation.
abbrev pub Standing : Type 0
Standing = ℕ × ℕ

-- The later standing wins, as the code decides it.
unfoldable pub resolve : Standing → Standing → Standing
resolve old new = if state_supersedes new.0 new.1 old.0 old.1 then new else old

-- Of two different standings that are not LEFT exactly one supersedes the other.
pub state_supersedes_total :
    (a b : Standing)
    → a.0 ≢ State.left
    → b.0 ≢ State.left
    → ((a.0 ≡ b.0) × (a.1 ≡ b.1))
      ⊎ ((state_supersedes a.0 a.1 b.0 b.1 ≡ true) × (state_supersedes b.0 b.1 a.0 a.1 ≡ false))
      ⊎ ((state_supersedes a.0 a.1 b.0 b.1 ≡ false) × (state_supersedes b.0 b.1 a.0 a.1 ≡ true))
unfolding state_supersedes
state_supersedes_total (s, i) (s', i') ha hb = ground arith

-- The order of two updates does not matter, unless both are LEFT at different incarnations.
pub resolve_comm :
    (p a b : Standing)
    → (a.0 ≡ State.left → b.0 ≡ State.left → a.1 ≡ b.1)
    → resolve (resolve p a) b ≡ resolve (resolve p b) a
unfolding resolve state_supersedes
resolve_comm (s, i) (sa, ia) (sb, ib) h = ground arith
