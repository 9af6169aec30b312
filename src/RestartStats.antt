-- ===== src/RestartStats.antt =====
-- static/kspecem/kspecem_stats_restarts.c: how often each reason ended a speculation. Counters are
-- of type unsigned long.
pub mod Totals
use kasper.Prelude.{ℕ, ◌+◌, ◌==◌, if◌then◌else◌, wrap64}
use kasper.Machine.{State, Act, read, when, print, ◌>>◌}
use kasper.Machine.Types.{FunctionStats, totals, inlineasm_totals}
use kasper.Machine.Types.RestartType
use kasper.InlineAsm.{add_inlineasm_restart}

abbrev pub zero_stats : FunctionStats
zero_stats = record {
  on_return_restarts = 0;
  on_call_restarts = 0;
  on_call_undefined_restarts = 0;
  on_call_inlineasm_restarts = 0;
  on_blacklist_restarts = 0;
  on_exception_restarts = 0;
  on_timer_restarts = 0;
  on_limit_spec_restarts = 0;
  on_call_depth_restarts = 0;
  on_call_disabled = 0;
  on_writelog_full_restarts = 0;
  on_page_fault = 0;
  total_restarts = 0;
}

unfoldable pub stats_restarts_init : State → State
stats_restarts_init s = record s { total_statistics = zero_stats }

-- The `switch` on the restart type.
unfoldable pub count_type : ℕ → FunctionStats → FunctionStats
count_type type t =
    if type == RestartType.on_return
    then record t { on_return_restarts = wrap64 (t.on_return_restarts + 1) }
    else if type == RestartType.call
    then record t { on_call_restarts = wrap64 (t.on_call_restarts + 1) }
    else if type == RestartType.call_undefined
    then record t { on_call_undefined_restarts = wrap64 (t.on_call_undefined_restarts + 1) }
    else if type == RestartType.call_inline_asm
    then record t { on_call_inlineasm_restarts = wrap64 (t.on_call_inlineasm_restarts + 1) }
    else if type == RestartType.blacklist
    then record t { on_blacklist_restarts = wrap64 (t.on_blacklist_restarts + 1) }
    else if type == RestartType.timer
    then record t { on_timer_restarts = wrap64 (t.on_timer_restarts + 1) }
    else if type == RestartType.exception
    then record t { on_exception_restarts = wrap64 (t.on_exception_restarts + 1) }
    else if type == RestartType.limit_spec
    then record t { on_limit_spec_restarts = wrap64 (t.on_limit_spec_restarts + 1) }
    else if type == RestartType.call_depth
    then record t { on_call_depth_restarts = wrap64 (t.on_call_depth_restarts + 1) }
    else if type == RestartType.call_disabled
    then record t { on_call_disabled = wrap64 (t.on_call_disabled + 1) }
    else if type == RestartType.writelog_full
    then record t { on_writelog_full_restarts = wrap64 (t.on_writelog_full_restarts + 1) }
    else if type == RestartType.page_fault
    then record t { on_page_fault = wrap64 (t.on_page_fault + 1) }
    else t

unfoldable pub add_restart_to_statistics : (restart_type call_arg : ℕ) → State → State
unfolding count_type add_inlineasm_restart
add_restart_to_statistics type call_arg s =
    let t = s.total_statistics in
    let counted = count_type type (record t { total_restarts = wrap64 (t.total_restarts + 1) }) in
    let m = s.inlineasm in
    let inlineasm =
      if type == RestartType.call_inline_asm
      then (if m.enabled then record m { stats = add_inlineasm_restart call_arg m.stats } else m)
      else m in
    record s { total_statistics = counted; inlineasm = inlineasm }

unfoldable pub print_restart_statistics : Act
print_restart_statistics =
    read (λ s. s.total_statistics) (λ t. print (totals t))
    >> read (λ s. s.inlineasm) λ m. when m.enabled (print (inlineasm_totals m.stats))
