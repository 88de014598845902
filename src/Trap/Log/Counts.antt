-- ===== src/Trap/Log/Counts.antt =====
-- What a log holds after a sequence of traps.
use coracle.Prelude.{
  ℕ, ◌+◌, ◌^◌, ◌<◌, ◌≤◌, ◌≡◌, arith, inl, inr, List, [], ◌∷◌, ◌==◌, length, if◌then◌else◌,
}
use coracle.Trap.{TrapLog, record_encoding, new}
use coracle.Trap.Log.{
  IsTrapLog, IsRecorded, count_of, record_encoding-IsRecorded, record_encoding-IsTrapLog,
  new-IsTrapLog,
}

-- The log after the encodings of a sequence, the first one first.
pub record_all : TrapLog → List ℕ → TrapLog
record_all log [] = log
record_all log (encoding ∷ encodings) = record_all (record_encoding log encoding) encodings

-- How often an encoding stands in a sequence.
pub times : ℕ → List ℕ → ℕ
times encoding [] = 0
times encoding (first ∷ encodings) = (if first == encoding then 1 else 0) + times encoding encodings

-- A log from which nothing is dropped after `log` counts exactly.
abbrev IsCounted : TrapLog → ℕ → List ℕ → TrapLog → Type 0
IsCounted log encoding encodings after =
    (log.dropped ≤ after.dropped)
    × (after.total ≡ log.total + length encodings)
    × (after.dropped ≡ log.dropped
        → count_of encoding after.entries
          ≡ count_of encoding log.entries + times encoding encodings)

record_one :
    (log after : TrapLog) (first encoding : ℕ)
    → IsRecorded log first encoding after
    → IsCounted log encoding (first ∷ []) after
unfolding times
record_one log after first encoding (a, b, c, inl (d, e, f)) =
    (omega (arith, d), omega (arith, c), λ same. ground (arith, f))
record_one log after first encoding (a, b, c, inr (d, e, f, g)) =
    (omega (arith, d), omega (arith, c), λ same. omega (arith, d, same))

record_all-IsCounted :
    (log : TrapLog) (encoding : ℕ) (encodings : List ℕ)
    → IsTrapLog log
    → log.total + length encodings < 2 ^ 64
    → IsTrapLog (record_all log encodings)
      × IsCounted log encoding encodings (record_all log encodings)
unfolding record_all times
record_all-IsCounted log encoding [] w small = (w, (omega arith, omega arith, λ same. omega arith))
record_all-IsCounted log encoding (first ∷ encodings) w small =
    let next = record_encoding log first in
    let room : log.total + 1 < 2 ^ 64 = omega (arith, small) in
    let (d, e, f) =
      record_one log next first encoding (record_encoding-IsRecorded log first encoding w room) in
    let (v, (a, b, c)) =
      record_all-IsCounted next encoding encodings (record_encoding-IsTrapLog log first w room)
        (omega (arith, small, e)) in
    (
      v,
      (
        omega (arith, a, d),
        omega (arith, b, e),
        λ same. omega (arith, f (omega (arith, a, d, same)), c (omega (arith, a, d, same))),
      ),
    )

-- After any sequence of fewer than 2^64 undefined instructions the log is well formed: at most 256 slots are filled,
-- no encoding has two, and the total, which is the length of the sequence, is what the slots and the
-- drops add up to. While nothing was dropped, each encoding's count is the number of times it was
-- reached.
pub record_all-exact :
    (encodings : List ℕ) (encoding : ℕ)
    → length encodings < 2 ^ 64
    → IsTrapLog (record_all new encodings)
      × ((record_all new encodings).total ≡ length encodings)
      × ((record_all new encodings).dropped ≡ 0
          → count_of encoding (record_all new encodings).entries ≡ times encoding encodings)
unfolding new count_of
record_all-exact encodings encoding small =
    let (v, (a, b, c)) =
      record_all-IsCounted new encoding encodings new-IsTrapLog (omega (arith, small)) in
    (v, omega (arith, b), λ h. omega (arith, c h))
