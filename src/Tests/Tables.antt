-- ===== src/Tests/Tables.antt =====
-- Reports and counters on the data of Tests.
use kasper.Prelude.{
  zero, suc, ℕ, ◌+◌, ◌/◌, ◌<◌, ◌≤◌, ◌≡◌, refl, Bool, true, false, some, List, [], ◌∷◌, arith, ◌==◌,
  All,
}
use kasper.Machine.{State, ok, resumed}
use kasper.Machine.Types.{Bug, InlineasmRestartStat, kasan_access}
use kasper.Statistics.{stats_entry, add_spec_statistics}
use kasper.Machine.Types.{SpecStatistics}
use kasper.Statistics.Bounded.{trace_of, add_spec_statistics-trace_of}
use kasper.InlineAsm.{stat, add_inlineasm_restart}
use kasper.InlineAsm.Sorted.{IsTable, NotFull, add_inlineasm_restart-IsTable}
use kasper.InlineAsm.Counted.{count_of, count_of-add_inlineasm_restart}
use kasper.Bugs.{block_size, alloc_blocks, zero_bug, report_once}
use kasper.Bugs.AccessReport.{is_zero_bug, new_bug, access_report}
use kasper.Bugs.Once.{with_map, entry, report_once-once}
use kasper.Bugs.Queue.{IsQueue, queued, access_report-IsQueue}
use kasper.Machine.{read_bytes}
use kasper.Prelude.{if◌then◌else◌}
use kasper.RestartStats.{add_restart_to_statistics}
use kasper.RestartStats.Totals.{by_reason, counters, add_restart_to_statistics-counters}
use kasper.Utils.Itoa.{Spells, itoa-Spells}
use kasper.Utils.Copied.{IsLength, IsCopy, strlcpy-IsCopy}
use kasper.Utils.Joined.{strlcat, strlcat-IsCopy}
use kasper.Utils.{itoa, strlcpy, strncmp, memset, checkzero}
use kasper.Utils.Buffers.{checkzero_lem}
use kasper.Utils.Strings.{Agree, strncmp_lem}
use kasper.Whitelist.{literal}
use kasper.Tests.{a_kernel, idle_state}

add_spec_statistics-trace_of_example :
    (t : SpecStatistics) × (add_spec_statistics resumed 2 0 7 0 0x100_1234 idle_state
      ≡ ok tt (record idle_state { statistics = t }))
    × (t.curr_index ≤ 10000)
    × (trace_of t ≡ stats_entry 2 0 7 0 0x100_1234 ∷ [])
add_spec_statistics-trace_of_example =
    add_spec_statistics-trace_of resumed 2 0 7 0 0x100_1234 idle_state (omega arith)

-- Three addresses; one more restart at the last one moves it before the second.
abbrev table : List InlineasmRestartStat
table = stat 10 5 ∷ stat 20 2 ∷ stat 30 2 ∷ []

table-IsTable : IsTable table
table-IsTable = record {
  bound = 5;
  falls = (omega arith, (omega arith, (omega arith, omega arith)));
  fits = omega arith;
}

not_full : All NotFull table
not_full = (omega arith, (omega arith, (omega arith, tt)))

add_inlineasm_restart_moves :
    add_inlineasm_restart 30 table ≡ stat 10 5 ∷ stat 30 3 ∷ stat 20 2 ∷ []
unfolding add_inlineasm_restart
add_inlineasm_restart_moves = refl

add_inlineasm_restart-IsTable_example : IsTable (add_inlineasm_restart 30 table)
add_inlineasm_restart-IsTable_example =
    add_inlineasm_restart-IsTable 30 table table-IsTable not_full

count_of-add_inlineasm_restart_example :
    count_of 30 (add_inlineasm_restart 30 table) ≡ count_of 30 table + 1
count_of-add_inlineasm_restart_example =
    count_of-add_inlineasm_restart 30 30 table (omega arith) not_full

abbrev a_bug : Bug
a_bug = record zero_bug {
  kinfo = record zero_bug.kinfo { access_addr = 0xdead_0000; ip = 0x100_5678 };
  access_type = kasan_access;
}

report_once-once_example :
    (b : Bool) × (map : ℕ → ℕ → ℕ) × (report_once a_kernel resumed a_bug idle_state
      ≡ ok b (with_map map idle_state))
    × (report_once a_kernel resumed a_bug (with_map map idle_state)
        ≡ ok false (with_map map idle_state))
    × ((other : ℕ)
        → (other == 0x5678) ≡ false
        → entry map other ≡ entry idle_state.bug_state.previous_bugs_map other)
    × (0x5678 / block_size < alloc_blocks 0x80_0000)
report_once-once_example =
    report_once-once a_kernel resumed a_bug idle_state
      (record { from = omega arith; to = omega arith; word = omega arith })

abbrev speculating : State
speculating = record idle_state {
  emulation = record idle_state.emulation { in_speculative_emulation = true };
}

empty-IsQueue : IsQueue speculating.bug_state
unfolding is_zero_bug
empty-IsQueue = record { fits = omega arith; free = λ j le. refl }

access_report-IsQueue_example :
    (access_report a_kernel resumed 0xdead_0000 8 true 0x100_5678 0 0 kasan_access speculating
      ≡ ok tt (
          queued a_kernel resumed
            (new_bug a_kernel resumed 0xdead_0000 8 true 0x100_5678 0 0 kasan_access speculating)
            speculating))
    × IsQueue
        (queued a_kernel resumed
          (new_bug a_kernel resumed 0xdead_0000 8 true 0x100_5678 0 0 kasan_access speculating)
          speculating).bug_state
access_report-IsQueue_example =
    access_report-IsQueue a_kernel resumed 0xdead_0000 8 true 0x100_5678 0 0 kasan_access
      speculating refl empty-IsQueue (omega arith)

abbrev full_state : State
full_state = record speculating {
  bug_state = record speculating.bug_state { next_bug_index = 100 };
}

add_restart_to_statistics-counters_example :
    (counters (add_restart_to_statistics 7 0 idle_state).total_statistics
      ≡ 0 ∷ 0 ∷ 0 ∷ 0 ∷ 0 ∷ 0 ∷ 0 ∷ 1 ∷ 0 ∷ 0 ∷ 0 ∷ 0 ∷ [])
    × (by_reason (add_restart_to_statistics 7 0 idle_state).total_statistics
        ≡ (add_restart_to_statistics 7 0 idle_state).total_statistics.total_restarts)
    × ((add_restart_to_statistics 7 0 idle_state).total_statistics.total_restarts ≡ 1)
unfolding by_reason
add_restart_to_statistics-counters_example =
    add_restart_to_statistics-counters 7 0 idle_state refl (omega arith) refl

abbrev zeros : ℕ → ℕ
zeros j = 0

checkzero_lem_example :
    (checkzero zeros 4 ≡ true → (j : ℕ) → j < 4 → zeros j ≡ 0)
    × (((j : ℕ) → j < 4 → zeros j ≡ 0) → checkzero zeros 4 ≡ true)
    × ((mem : ℕ → ℕ) (xs : ℕ) → checkzero (read_bytes (memset mem xs 0 4) xs) 4 ≡ true)
checkzero_lem_example = checkzero_lem zeros 4

-- The task name "ls" and that string.
abbrev ls_name : ℕ → ℕ
ls_name i = if i == 0 then 108 else if i == 1 then 115 else 0

strncmp_lem_example :
    (strncmp ls_name (literal "ls") 16 ≡ 0 → Agree ls_name (literal "ls") 0 16)
    × (Agree ls_name (literal "ls") 0 16 → strncmp ls_name (literal "ls") 16 ≡ 0)
strncmp_lem_example = strncmp_lem ls_name (literal "ls") 16

itoa-Spells_example : Spells 16 255 0 (itoa 255 zeros 16)
itoa-Spells_example = itoa-Spells 255 zeros 16 (omega arith) (omega arith) (omega arith)

-- The string "ls" at 0x100, with zeros behind it.
abbrev ls_memory : ℕ → ℕ
ls_memory a = if a == 0x100 then 108 else if a == 0x101 then 115 else 0

ls-IsLength : IsLength (read_bytes ls_memory 0x100) 2
ls-IsLength = record { ends = refl; inside = λ j lt. inside j lt }
  where
    inside : (j : ℕ) → j < 2 → (read_bytes ls_memory 0x100 j == 0) ≡ false
    inside zero lt = refl
    inside (suc zero) lt = refl
    inside (suc (suc j)) lt = absurd (omega arith)

strlcpy-IsCopy_example :
    (written : ℕ → ℕ) × (strlcpy 3 ls_memory 0x200 0x100 2 ≡ some (written, 2))
    × IsCopy ls_memory 0x200 0x100 2 2 written
strlcpy-IsCopy_example =
    strlcpy-IsCopy 3 ls_memory 0x200 0x100 2 2 ls-IsLength (omega arith) (omega arith)

-- The string "ls" at 0x100 and "s" at 0x200.
abbrev two_strings : ℕ → ℕ
two_strings a =
    if a == 0x100 then 108 else if a == 0x101 then 115 else if a == 0x200 then 115 else 0

at_dest : IsLength (read_bytes two_strings 0x100) 2
at_dest = record { ends = refl; inside = inside }
  where
    inside : (j : ℕ) → j < 2 → (two_strings (0x100 + j) == 0) ≡ false
    inside zero lt = refl
    inside (suc zero) lt = refl
    inside (suc (suc j)) lt = absurd (omega arith)

at_src : IsLength (read_bytes two_strings 0x200) 1
at_src = record { ends = refl; inside = inside }
  where
    inside : (j : ℕ) → j < 1 → (two_strings (0x200 + j) == 0) ≡ false
    inside zero lt = refl
    inside (suc j) lt = absurd (omega arith)

strlcat-IsCopy_example :
    (written : ℕ → ℕ) × (strlcat resumed 3 0x100 0x200 8 (record idle_state { mem = two_strings })
      ≡ ok (some 3) (record idle_state { mem = written }))
    × IsCopy two_strings 0x102 0x200 6 1 written
strlcat-IsCopy_example =
    strlcat-IsCopy resumed 3 0x100 0x200 8 2 1 (record idle_state { mem = two_strings }) at_dest
      at_src (omega arith) (omega arith) (omega arith) (omega arith)
