-- ===== src/Assert/TraceLines.antt =====
-- kspecem_panic_info (static/kspecem/kspecem_assert.c): what it prints of the state and the trace.
use kasper.Prelude.{
  ℕ, Bool, map, zero, suc, ◌+◌, Option, none, some, List, [], ◌∷◌, ◌==◌, if◌then◌else◌,
}
use kasper.Machine.{State}
use kasper.Machine.Types.{StatsEntry}
use kasper.Machine.Types.FuncType

-- The number of the entry, the restart type where it is shown, and the address.
pub data TraceLine : Type 0 where
  check_call_depth : (i ip : ℕ) → TraceLine
  new_checkpoint : (i ip : ℕ) → TraceLine
  new_checkpoint_inspec : (i ip : ℕ) → TraceLine
  restart_return : (i ip : ℕ) → TraceLine
  restart : (i type ip : ℕ) → TraceLine

unfoldable pub trace_line : (i : ℕ) → StatsEntry → Option TraceLine
trace_line i entry =
    let type = entry.function_type in
    let ip = entry.function_return_addr in
    if type == FuncType.check_call_depth
    then some (check_call_depth i ip)
    else if type == FuncType.new_checkpoint
    then some (new_checkpoint i ip)
    else if type == FuncType.new_checkpoint_inspec
    then some (new_checkpoint_inspec i ip)
    else if type == FuncType.restart_return
    then some (restart_return i ip)
    else if type == FuncType.restart
    then some (restart i entry.function_arg2 ip)
    else none

-- The loop of lines 39 to 72, with `left` entries to go.
unfoldable pub trace_lines : (entries : ℕ → StatsEntry) (i left : ℕ) → List TraceLine
unfolding trace_line
trace_lines entries i zero = []
trace_lines entries i (suc left) =
    let rest = trace_lines entries (i + 1) left in
    elim (trace_line i (entries i)) [ none ↦ rest | some line ↦ line ∷ rest ]

-- The first line's values, and the lines of the trace.
pub record PanicInfo : Type 0 where
  pub in_spec : Bool
  pub spec_stats : ℕ
  pub ips : List ℕ
  pub lines : List TraceLine

-- `return_address` is the compiler's `__builtin_return_address`.
unfoldable pub panic_info : (return_address : ℕ → ℕ) → State → PanicInfo
unfolding trace_lines
panic_info return_address s = record {
  in_spec = s.emulation.in_speculative_emulation;
  spec_stats = s.statistics.curr_index;
  ips = map return_address (1 ∷ 2 ∷ 3 ∷ 4 ∷ 5 ∷ 6 ∷ 7 ∷ []);
  lines = trace_lines s.statistics.entries 0 s.statistics.curr_index;
}
