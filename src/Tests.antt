-- ===== src/Tests.antt =====
-- The data of the witnesses: a small kernel whose state is 1 while interrupts are off, one frame of
-- hooks, and a program that may take a checkpoint.
pub mod Speculation
pub mod Tables
pub mod Passes
pub mod Registers
pub mod Transparent
pub mod Pipeline
pub mod Program
use kasper.Prelude.{ℕ, Bool, true, false, not, none, [], ◌%◌, ◌==◌}
use kasper.Machine.{State}
use kasper.Machine.Kernel.{Kernel, Frame, World}
use kasper.Machine.Types.{StatsEntry, InlineasmRestartStat}
use kasper.Statistics.{stats_entry}
use kasper.RestartStats.{zero_stats}
use kasper.Bugs.{zero_bug}

abbrev pub a_kernel : Kernel
a_kernel = record {
  in_interrupt = λ w. false;
  irqs_disabled = λ w. not (w == 0);
  preempt_disable = λ w. w;
  preempt_enable = λ w. w;
  irq_flags = λ w. w;
  local_irq_disable = λ w. 1;
  local_irq_restore = λ flags w. flags;
  stop_nmi = λ w. w;
  restart_nmi = λ w. w;
  syscall_get_nr = λ w. 39;
  comm = λ w i. 0;
  kdf_virt_addr_valid = λ w a. not (a == 0);
  dfsan_copy_label_info = λ l. [];
  kdfinit_in_rt = λ w. false;
  kdf_in_rt = λ w. false;
  text = 0x100_0000;
  etext = 0x180_0000;
  at_writelog_addrs = 0x40_0010;
  at_writelog_data = 0x40_0018;
  at_wl_position = 0x40_0000;
  at_writelog_enabled = 0x40_0008;
}

-- The hook's frame lies below the frame of the program, which ends at 0x7100.
abbrev pub a_frame : Frame
a_frame = record {
  rsp = 0x6f00;
  frame_address = 0x7000;
  return_address = 0x100_1234;
  at_addr = 0x6f10;
  at_i = 0x6f18;
  at_num_entries = 0x6f20;
}

abbrev pub idle_state : State
idle_state = record {
  is_in_rt = false;
  is_in_restart = false;
  init_done = true;
  spec_assert = none;
  whitelist_type = 0;
  report_error_dump_stack = false;
  emulation = record {
    in_speculative_emulation = false;
    speculative_instr_count = 0;
    max_speculative_instructions = 250;
    max_call_depth = 8;
    swap_branch_enabled = true;
    swap_branch_condition = false;
    spec_call_depth = 0;
    call_depth = 0;
  };
  undolog = record {
    writelog_addrs = 0x10_0000;
    writelog_data = 0x20_0000;
    writelog_meta = 0x30_0000;
    addr_slots = λ j. 0;
    regions = λ j i. 0;
    meta_slots = λ j. 0;
    wl_position = 0;
    writelog_enabled = false;
  };
  stack = record {
    wl_stack = 0x50_0000;
    wl_stack_bytes = λ i. 0;
    wl_stack_base_address = 0;
    wl_stack_len = 0;
  };
  statistics = record { entries = λ j. stats_entry 0 0 0 0 0; curr_index = 0 };
  total_statistics = zero_stats;
  inlineasm = record { enabled = false; stats = [] };
  bug_state = record {
    bugs = λ j. zero_bug;
    next_bug_index = 0;
    previous_bugs_map = λ b o. 0;
    print_level = 0;
  };
  registers = λ i. 0;
  pf_dummy_region = 0x62_0000;
  mem = λ a. a % 251;
  world = 0;
  printed = [];
}
