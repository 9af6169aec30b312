-- ===== src/Statistics/Bounded.antt =====
-- What one entry does to the trace (kspecem_statistics.c), read as the list of its entries.
use kasper.Prelude.{
  Bool, ◌∙◌, eq→==, ℕ, zero, suc, ◌+◌, ◌≤◌, ◌<◌, ◌≡◌, refl, ap, inl, inr, true, false, List, [],
  ◌∷◌, ◌++◌, arith, leb, ltb, ◌==◌, Bool-cases, if◌then◌else◌, update, length, length-append,
}
use kasper.Machine.{State, Act, ok}
use kasper.Machine.Types.{StatsEntry, SpecStatistics}
use kasper.Assert.{lt_assert}
use kasper.Statistics.{spec_statistics_size, stats_entry, add_entry, add_spec_statistics}

-- The first `n` entries of an array.
abbrev pub first_entries : ℕ → (ℕ → StatsEntry) → List StatsEntry
first_entries zero entries = []
first_entries (suc n) entries = first_entries n entries ++ entries n ∷ []

-- The entries that have been recorded, in order.
abbrev pub trace_of : SpecStatistics → List StatsEntry
trace_of t = first_entries t.curr_index t.entries

-- A write behind the first `n` entries leaves them.
first_entries-update :
    (n i : ℕ) (entries : ℕ → StatsEntry) (entry : StatsEntry)
    → n ≤ i
    → first_entries n (update entries i entry) ≡ first_entries n entries
first_entries-update zero i entries entry le = refl
first_entries-update (suc n) i entries entry le =
    rw (first_entries-update n i entries entry (omega arith), other n i (omega arith)) refl
  where
    other : (n i : ℕ) → n < i → (n == i) ≡ false
    other n i lt = ground arith

-- One more entry at the end.
appended :
    (n : ℕ) (entries : ℕ → StatsEntry) (entry : StatsEntry)
    → first_entries (n + 1) (update entries n entry) ≡ first_entries n entries ++ entry ∷ []
appended n entries entry =
    ap (λ m. first_entries m (update entries n entry)) (next n)
    ∙ ap (λ es. es ++ update entries n entry n ∷ [])
        (first_entries-update n n entries entry (omega arith))
    ∙ ap (λ (b : Bool). first_entries n entries ++ (if b then entry else entries n) ∷ [])
        (eq→== n n refl)
  where
    next : (n : ℕ) → n + 1 ≡ suc n
    next n = omega arith

length-first_entries : (n : ℕ) (entries : ℕ → StatsEntry) → length (first_entries n entries) ≡ n
length-first_entries zero entries = refl
length-first_entries (suc n) entries =
    length-append (first_entries n entries) (entries n ∷ [])
    ∙ omega (arith, length-first_entries n entries)

-- An entry that finds the trace full is dropped.
abbrev pub add_bounded : StatsEntry → SpecStatistics → SpecStatistics
add_bounded entry t = if leb spec_statistics_size t.curr_index then t else add_entry entry t

-- Recording an entry returns in every state, whatever a failed assertion would start, and changes
-- nothing but the trace, which drops the entry if it holds 10000 already.
pub add_spec_statistics-add_bounded :
    (again : Act) (func_type arg1 arg2 arg3 return_addr : ℕ) (s : State)
    → add_spec_statistics again func_type arg1 arg2 arg3 return_addr s
      ≡ ok tt (record s {
        statistics = add_bounded (stats_entry func_type arg1 arg2 arg3 return_addr) s.statistics;
      })
unfolding add_spec_statistics lt_assert
add_spec_statistics-add_bounded again func_type arg1 arg2 arg3 return_addr s =
    elim (Bool-cases (leb spec_statistics_size s.statistics.curr_index)) [
      | inl full ↦ rw full
      | inr room ↦ rw (room, in_range s.statistics.curr_index room)
    ]
  where
    in_range : (n : ℕ) → leb spec_statistics_size n ≡ false → ltb n spec_statistics_size ≡ true
    in_range n h = ground arith

bounded-trace_of :
    (t : SpecStatistics) (entry : StatsEntry)
    → t.curr_index ≤ 10000
    → ((add_bounded entry t).curr_index ≤ 10000)
      × (trace_of (add_bounded entry t)
          ≡ (if ltb (length (trace_of t)) 10000 then trace_of t ++ entry ∷ [] else trace_of t))
bounded-trace_of t entry fits = elim (Bool-cases (leb spec_statistics_size t.curr_index)) [
  | inl full ↦
      rw full
        (fits, rw (length-first_entries t.curr_index t.entries, at_least t.curr_index full) refl)
  | inr room ↦ rw room (
    below t.curr_index room,
    rw (length-first_entries t.curr_index t.entries, under t.curr_index room)
        (appended t.curr_index t.entries entry),
  )
]
  where
    at_least : (n : ℕ) → leb spec_statistics_size n ≡ true → ltb n 10000 ≡ false
    at_least n e = ground arith

    under : (n : ℕ) → leb spec_statistics_size n ≡ false → ltb n 10000 ≡ true
    under n e = ground arith

    below : (n : ℕ) → leb spec_statistics_size n ≡ false → n + 1 ≤ 10000
    below n e = ground arith

-- Recording an entry returns in every state, whatever a failed assertion would start, and changes
-- nothing but the trace: the list of its entries gets the entry at its end, or stays as it was if
-- it holds 10000 already, which it never exceeds.
pub add_spec_statistics-trace_of :
    (again : Act) (func_type arg1 arg2 arg3 return_addr : ℕ) (s : State)
    → s.statistics.curr_index ≤ 10000
    → (t : SpecStatistics) × (add_spec_statistics again func_type arg1 arg2 arg3 return_addr s
        ≡ ok tt (record s { statistics = t }))
      × (t.curr_index ≤ 10000)
      × (trace_of t ≡ (
          if ltb (length (trace_of s.statistics)) 10000
          then trace_of s.statistics ++ stats_entry func_type arg1 arg2 arg3 return_addr ∷ []
          else trace_of s.statistics))
add_spec_statistics-trace_of again func_type arg1 arg2 arg3 return_addr s fits =
    let entry = stats_entry func_type arg1 arg2 arg3 return_addr in
    let t = s.statistics in
    let result = bounded-trace_of t entry fits in
    (
      add_bounded entry t,
      add_spec_statistics-add_bounded again func_type arg1 arg2 arg3 return_addr s,
      result.0,
      result.1,
    )
