-- ===== src/Machine/Types.antt =====
-- The structures and constants of static/kspecem/include: enumerations are numbers, since the code
-- passes other values in them too (the restart type 0xffff of kspecem_panic, a whitelist type or a
-- print level written through debugfs as a byte). Pointers are numbers and NULL is 0.
pub mod RestartType
pub mod FuncType
use kasper.Prelude.{ℕ, Bool, List}

-- `entry` of the trace, kspecem_statistics.h.
pub record StatsEntry : Type 0 where
  pub function_type : ℕ
  pub function_arg1 : ℕ
  pub function_arg2 : ℕ
  pub function_arg3 : ℕ
  pub function_return_addr : ℕ

-- The trace of one speculation, kspecem_statistics.c.
pub record SpecStatistics : Type 0 where
  pub entries : ℕ → StatsEntry
  pub curr_index : ℕ

-- Restart counters, kspecem_stats_restarts.h.
pub record FunctionStats : Type 0 where
  pub on_return_restarts : ℕ
  pub on_call_restarts : ℕ
  pub on_call_undefined_restarts : ℕ
  pub on_call_inlineasm_restarts : ℕ
  pub on_blacklist_restarts : ℕ
  pub on_exception_restarts : ℕ
  pub on_timer_restarts : ℕ
  pub on_limit_spec_restarts : ℕ
  pub on_call_depth_restarts : ℕ
  pub on_call_disabled : ℕ
  pub on_writelog_full_restarts : ℕ
  pub on_page_fault : ℕ
  pub total_restarts : ℕ

-- kspecem_stats_inlineasm.h
pub record InlineasmRestartStat : Type 0 where
  pub restart_ip : ℕ
  pub restart_count : ℕ

-- The first `inlineasm_restart_stat_size` elements of the array, in order.
pub record InlineasmStats : Type 0 where
  pub enabled : Bool
  pub stats : List InlineasmRestartStat

-- kspecem_bugs.h
pub data AccessType : Type 0 where
  undef_access kasan_access mds_access cc_access pc_access : AccessType

pub record KasanAccessInfo : Type 0 where
  pub access_addr : ℕ
  pub first_bad_addr : ℕ
  pub access_size : ℕ
  pub is_write : Bool
  pub ip : ℕ

pub record LabelInfo : Type 0 where
  pub label : ℕ
  pub info : List ℕ

pub record Bug : Type 0 where
  pub kinfo : KasanAccessInfo
  pub in_spec : Bool
  pub spec_length : ℕ
  pub data_label : LabelInfo
  pub ptr_label : LabelInfo
  pub access_type : AccessType

-- The report state of kspecem_bugs.c: the array of pending reports with its next free slot, the map
-- of what was printed, by block and offset, and the print level.
pub record BugState : Type 0 where
  pub bugs : ℕ → Bug
  pub next_bug_index : ℕ
  pub previous_bugs_map : ℕ → ℕ → ℕ
  pub print_level : ℕ

-- The emulation's variables, kspecem_common.c and kspecem_internal.c.
pub record Emulation : Type 0 where
  pub in_speculative_emulation : Bool
  pub speculative_instr_count : ℕ
  pub max_speculative_instructions : ℕ
  pub max_call_depth : ℕ
  pub swap_branch_enabled : Bool
  pub swap_branch_condition : Bool
  pub spec_call_depth : ℕ
  pub call_depth : ℕ

-- The undo log, kspecem_undolog.c: three arrays with their addresses, and the next free slot. An
-- element of the second is the bytes that a word held, by offset.
pub record Undolog : Type 0 where
  pub writelog_addrs : ℕ
  pub writelog_data : ℕ
  pub writelog_meta : ℕ
  pub addr_slots : ℕ → ℕ
  pub regions : ℕ → ℕ → ℕ
  pub meta_slots : ℕ → ℕ
  pub wl_position : ℕ
  pub writelog_enabled : Bool

-- The saved stack frame, kspecem_stack.c, with the bytes that the buffer holds.
pub record StackLog : Type 0 where
  pub wl_stack : ℕ
  pub wl_stack_bytes : ℕ → ℕ
  pub wl_stack_base_address : ℕ
  pub wl_stack_len : ℕ

pub data File : Type 0 where
  bugs_c internal_c interface_c interrupt_c report_c stack_c statistics_c undolog_c utils_c init_c :
      File

-- Which assertion or panic: its file and line, in place of the message's texts.
pub record SpecAssert : Type 0 where
  pub file : File
  pub line : ℕ

-- What the runtime prints.
pub data Event : Type 0 where
  restart_begin : Event
  access_bug : Bug → Event
  restart_end : (current_syscall_nr current_checkpoint_ip restart_type instr_count : ℕ) → Event
  stack_shown : Event
  totals : FunctionStats → Event
  inlineasm_totals : List InlineasmRestartStat → Event
  message : ℕ → Event
