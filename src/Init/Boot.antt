-- ===== src/Init/Boot.antt =====
-- The runtime's variables when the kernel starts (kspecem_common.c and the definitions in the other
-- files of static/kspecem): pointers are 0, but for that of the page-fault checker, which is -1.
use kasper.Prelude.{ℕ, true, false, none, [], minus_one64}
use kasper.Machine.{State}
use kasper.Machine.Kernel.{World}
use kasper.Statistics.{stats_entry}
use kasper.RestartStats.{zero_stats}
use kasper.Bugs.{zero_bug, print_default}
use kasper.Whitelist.{whitelist_disabled}

-- KSPECEM_MAX_SPECULATIVE_INSTRUCTIONS
abbrev pub max_speculative_instructions : ℕ
max_speculative_instructions = 250

abbrev pub boot_state : (mem : ℕ → ℕ) (world : World) → State
boot_state mem world = record {
  is_in_rt = false;
  is_in_restart = false;
  init_done = false;
  spec_assert = none;
  whitelist_type = whitelist_disabled;
  report_error_dump_stack = true;
  emulation = record {
    in_speculative_emulation = false;
    speculative_instr_count = 0;
    max_speculative_instructions = max_speculative_instructions;
    max_call_depth = 100;
    swap_branch_enabled = true;
    swap_branch_condition = false;
    spec_call_depth = 0;
    call_depth = 0;
  };
  undolog = record {
    writelog_addrs = 0;
    writelog_data = 0;
    writelog_meta = 0;
    addr_slots = λ j. 0;
    regions = λ j i. 0;
    meta_slots = λ j. 0;
    wl_position = 0;
    writelog_enabled = false;
  };
  stack = record {
    wl_stack = 0;
    wl_stack_bytes = λ i. 0;
    wl_stack_base_address = 0;
    wl_stack_len = 0;
  };
  statistics = record { entries = λ j. stats_entry 0 0 0 0 0; curr_index = 0 };
  total_statistics = zero_stats;
  inlineasm = record { enabled = false; stats = [] };
  bug_state = record {
    bugs = λ j. zero_bug;
    next_bug_index = 0;
    previous_bugs_map = λ b o. 0;
    print_level = print_default;
  };
  registers = λ i. 0;
  pf_dummy_region = minus_one64;
  mem = mem;
  world = world;
  printed = [];
}
