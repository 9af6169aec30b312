-- ===== src/Statistics.antt =====
-- static/kspecem/kspecem_statistics.c: the trace of one speculation, an array of 10000 entries.
pub mod Bounded
use kasper.Prelude.{ℕ, ◌+◌, ltb, leb, if◌then◌else◌, update}
use kasper.Machine.{State, Act, pure, ◌>>◌, modify, read}
use kasper.Machine.Types.{StatsEntry, SpecStatistics, statistics_c}
use kasper.Assert.{lt_assert}

abbrev pub spec_statistics_size : ℕ
spec_statistics_size = 10000

abbrev pub stats_entry : (func_type arg1 arg2 arg3 return_addr : ℕ) → StatsEntry
stats_entry func_type arg1 arg2 arg3 return_addr = record {
  function_type = func_type;
  function_arg1 = arg1;
  function_arg2 = arg2;
  function_arg3 = arg3;
  function_return_addr = return_addr;
}

-- `kzalloc` zeroes the array.
unfoldable pub statistics_init : State → State
statistics_init s = record s {
  statistics = record { entries = λ _. stats_entry 0 0 0 0 0; curr_index = 0 };
}

-- `kspecem_spec_statistics[kspecem_curr_spec_statistics_index++] = entry`
abbrev pub add_entry : StatsEntry → SpecStatistics → SpecStatistics
add_entry entry t = record {
  entries = update t.entries t.curr_index entry;
  curr_index = t.curr_index + 1;
}

unfoldable pub add_spec_statistics : Act → (func_type arg1 arg2 arg3 return_addr : ℕ) → Act
add_spec_statistics again func_type arg1 arg2 arg3 return_addr =
    read (λ s. s.statistics.curr_index)
      λ index.
        if leb spec_statistics_size index
        then pure tt
        else (lt_assert again statistics_c 22 (ltb index spec_statistics_size)
            >> modify λ s. record s {
              statistics =
                  add_entry (stats_entry func_type arg1 arg2 arg3 return_addr) s.statistics;
            })
