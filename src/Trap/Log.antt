-- ===== src/Trap/Log.antt =====
-- What the trap log counts.
pub mod Counts
use coracle.Prelude.{
  ℕ, wrapping_add, ◌+◌, ◌^◌, ◌<◌, ◌≤◌, ◌≡◌, ◌≢◌, refl, sym, ap, ◌∙◌, arith, ◌⊎◌, inl, inr, Bool,
  true, false, Option, some, none, List, [], ◌∷◌, ◌++◌, ◌==◌, length, length-append, if◌then◌else◌,
  if_split, Bool-cases,
}
use coracle.Decode.{group_of}
use coracle.Trap.{TrapLog, TrapLogEntry, bump, record_encoding, trap_log_capacity, new}

pub sum_counts : List TrapLogEntry → ℕ
sum_counts [] = 0
sum_counts (entry ∷ entries) = entry.count + sum_counts entries

-- How often the log says that an encoding was reached.
pub count_of : ℕ → List TrapLogEntry → ℕ
count_of encoding [] = 0
count_of encoding (entry ∷ entries) =
    if entry.encoding == encoding then entry.count else count_of encoding entries

-- How many entries an encoding has.
unfoldable pub occurrences : ℕ → List TrapLogEntry → ℕ
occurrences encoding [] = 0
occurrences encoding (entry ∷ entries) =
    (if entry.encoding == encoding then 1 else 0) + occurrences encoding entries

abbrev one_if : Bool → ℕ
one_if b = if b then 1 else 0

-- What `bump encoding entries` gives, seen at the encoding `other`.
abbrev IsBump : ℕ → ℕ → List TrapLogEntry → Option (List TrapLogEntry) → Type 0
IsBump encoding other entries none =
    (occurrences encoding entries ≡ 0) × (count_of encoding entries ≡ 0)
IsBump encoding other entries (some bumped) =
    (length bumped ≡ length entries)
    × (sum_counts bumped ≡ sum_counts entries + 1)
    × (occurrences other bumped ≡ occurrences other entries)
    × (count_of other bumped ≡ count_of other entries + one_if (encoding == other))

bump-IsBump :
    (encoding other : ℕ) (entries : List TrapLogEntry)
    → sum_counts entries + 1 < 2 ^ 64
    → IsBump encoding other entries (bump encoding entries)
unfolding bump occurrences count_of sum_counts
bump-IsBump encoding other [] small = (refl, refl)
bump-IsBump encoding other (entry ∷ entries) small =
    go (bump encoding entries) (bump-IsBump encoding other entries (omega (arith, small)))
  where
    go :
        (rest : Option (List TrapLogEntry))
        → IsBump encoding other entries rest
        → IsBump encoding other (entry ∷ entries) (
            if entry.encoding == encoding
            then some (record entry { count = wrapping_add entry.count 1 } ∷ entries)
            else elim rest [ none ↦ none | some bumped ↦ some (entry ∷ bumped) ])
    go none h =
        if_split (IsBump encoding other (entry ∷ entries)) (entry.encoding == encoding)
          (λ e. ground (arith, e)) (λ e. ground (arith, e, h))
    go (some bumped) h =
        if_split (IsBump encoding other (entry ∷ entries)) (entry.encoding == encoding)
          (λ e. ground (arith, e)) (λ e. ground (arith, e, h))

-- The slots that are filled fit the array, each encoding has one at most, and every trap was counted
-- in a slot or as dropped.
pub record IsTrapLog (log : TrapLog) : Type 0 where
  pub fits : length log.entries ≤ trap_log_capacity
  pub distinct : (encoding : ℕ) → occurrences encoding log.entries ≤ 1
  pub accounts : sum_counts log.entries + log.dropped ≡ log.total

pub new-IsTrapLog : IsTrapLog new
unfolding new occurrences sum_counts
new-IsTrapLog = record { fits = omega arith; distinct = λ encoding. omega arith; accounts = refl }

-- What an entry added at the end changes.
append_one :
    (encoding other : ℕ) (entries : List TrapLogEntry) (entry : TrapLogEntry)
    → entry.encoding ≡ encoding
    → entry.count ≡ 1
    → occurrences encoding entries ≡ 0
    → (length (entries ++ entry ∷ []) ≡ length entries + 1)
      × (sum_counts (entries ++ entry ∷ []) ≡ sum_counts entries + 1)
      × (occurrences other (entries ++ entry ∷ [])
          ≡ occurrences other entries + one_if (encoding == other))
      × (count_of other (entries ++ entry ∷ [])
          ≡ count_of other entries + one_if (encoding == other))
unfolding occurrences count_of sum_counts
append_one encoding other [] entry e one none_yet = ground (arith, e, one)
append_one encoding other (first ∷ entries) entry e one none_yet =
    ground (arith, append_one encoding other entries entry e one (ground (arith, none_yet)))

one_at_most :
    (encoding other after : ℕ) (entries : List TrapLogEntry)
    → occurrences encoding entries ≡ 0
    → occurrences other entries ≤ 1
    → after ≡ occurrences other entries + one_if (encoding == other)
    → after ≤ 1
one_at_most encoding other after entries none_yet one e = elim (Bool-cases (encoding == other)) [
  | inl t ↦
      let same : encoding ≡ other = ground (arith, t) in
      ground (arith, t, ap (λ n. occurrences n entries) same)
  | inr f ↦ ground (arith, f)
]

-- The step of the log, in numbers: how `after` stands to `log`, seen at the encoding `other`.
abbrev pub IsRecorded : TrapLog → ℕ → ℕ → TrapLog → Type 0
IsRecorded log encoding other after =
    (length after.entries ≤ trap_log_capacity)
    × (occurrences other after.entries ≤ 1)
    × (after.total ≡ log.total + 1)
    × ((after.dropped ≡ log.dropped)
          × (sum_counts after.entries ≡ sum_counts log.entries + 1)
          × (count_of other after.entries
              ≡ count_of other log.entries + (if encoding == other then 1 else 0))
        ⊎ (after.dropped ≡ log.dropped + 1)
          × (after.entries ≡ log.entries)
          × (length log.entries ≡ trap_log_capacity)
          × (occurrences encoding log.entries ≡ 0))

pub record_encoding-IsRecorded :
    (log : TrapLog) (encoding other : ℕ)
    → IsTrapLog log
    → log.total + 1 < 2 ^ 64
    → IsRecorded log encoding other (record_encoding log encoding)
unfolding record_encoding
record_encoding-IsRecorded log encoding other w small =
    go (bump encoding log.entries)
      (bump-IsBump encoding other log.entries (omega (arith, small, w.accounts)))
  where
    go :
        (bumped : Option (List TrapLogEntry))
        → IsBump encoding other log.entries bumped
        → IsRecorded log encoding other (elim bumped [
          | some entries ↦ record log { entries = entries; total = wrapping_add log.total 1 }
          | none ↦
              if length log.entries == trap_log_capacity
              then record log {
                dropped = wrapping_add log.dropped 1;
                total = wrapping_add log.total 1;
              }
              else record log {
                entries =
                    log.entries
                    ++ record { encoding = encoding; group = group_of encoding; count = 1 } ∷ [];
                total = wrapping_add log.total 1;
              }
        ])
    go (some entries) (a, b, c, d) = (
      omega (arith, a, w.fits),
      omega (arith, c, w.distinct other),
      omega (arith, small),
      inl (refl, b, d),
    )
    go none (a, b) =
        let entry : TrapLogEntry = record {
          encoding = encoding;
          group = group_of encoding;
          count = 1;
        } in
        let (c, d, e, f) = append_one encoding other log.entries entry refl refl a in
        if_split (IsRecorded log encoding other) (length log.entries == trap_log_capacity)
          (λ full. (
            w.fits,
            w.distinct other,
            omega (arith, small),
            inr (omega (arith, small, w.accounts), refl, ground (arith, full), a),
          ))
          (λ room. (
            ground (arith, room, c, w.fits),
            one_at_most encoding other _ log.entries a (w.distinct other) e,
            omega (arith, small),
            inl (refl, d, f),
          ))

-- Recording a trap in a log whose total does not wrap around keeps the invariant of the log.
pub record_encoding-IsTrapLog :
    (log : TrapLog) (encoding : ℕ)
    → IsTrapLog log
    → log.total + 1 < 2 ^ 64
    → IsTrapLog (record_encoding log encoding)
record_encoding-IsTrapLog log encoding w small = record {
  fits = (record_encoding-IsRecorded log encoding encoding w small).0;
  distinct = λ other. (record_encoding-IsRecorded log encoding other w small).1;
  accounts = accounted (record_encoding-IsRecorded log encoding encoding w small);
}
  where
    accounted :
        {after : TrapLog}
        → IsRecorded log encoding encoding after
        → sum_counts after.entries + after.dropped ≡ after.total
    accounted (a, b, c, inl (d, e, f)) = omega (arith, c, d, e, w.accounts)
    accounted (a, b, c, inr (d, e, f, g)) = omega (arith, c, d, ap sum_counts e, w.accounts)
