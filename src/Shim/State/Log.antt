-- ===== src/Shim/State/Log.antt =====
-- The log of the calls that the shim does not implement.
use coracle.Prelude.{ℕ, ◌+◌, ◌≤◌, ◌<◌, ◌≡◌, arith, List, [], ◌∷◌, length, ◌==◌, if◌then◌else◌}
use coracle.Shim.State.{Shim, record_unhandled, unhandled_capacity}

pub record_unhandled-map :
    {H : Type 0} (shim : Shim H) (number : ℕ) → (record_unhandled shim number).map ≡ shim.map
unfolding record_unhandled
record_unhandled-map shim number = ground arith

-- How often a number stands in a log.
abbrev pub times_logged : ℕ → List ℕ → ℕ
times_logged a [] = 0
times_logged a (n ∷ ns) = (if n == a then 1 else 0) + times_logged a ns

-- What some refused calls do to the log, and to how often `a` stands in it.
IsAfter : ℕ → List ℕ → List ℕ → List ℕ → Type 0
IsAfter a before numbers after =
    (length before ≤ unhandled_capacity → length after ≤ unhandled_capacity)
    × (length before ≤ length after)
    × (times_logged a before ≤ times_logged a after)
    × (times_logged a before ≤ 1 → times_logged a after ≤ 1)
    × (times_logged a after ≤ times_logged a before + times_logged a numbers)
    × (length after < unhandled_capacity → 0 < times_logged a numbers → 0 < times_logged a after)

module _ {H : Type 0} where
  -- The shim after refused calls, the first one first.
  pub log_all : Shim H → List ℕ → Shim H
  log_all shim [] = shim
  log_all shim (number ∷ numbers) = log_all (record_unhandled shim number) numbers
