-- ===== src/Machine/Types/RestartType.antt =====
-- `enum kspecem_restart_type_e` of static/kspecem/include/kspecem_stats_restarts.h.
use kasper.Prelude.{ℕ}

abbrev pub on_return : ℕ
on_return = 0

abbrev pub call : ℕ
call = 1

abbrev pub call_undefined : ℕ
call_undefined = 2

abbrev pub call_inline_asm : ℕ
call_inline_asm = 3

abbrev pub blacklist : ℕ
blacklist = 4

abbrev pub timer : ℕ
timer = 5

abbrev pub exception : ℕ
exception = 6

abbrev pub limit_spec : ℕ
limit_spec = 7

abbrev pub call_depth : ℕ
call_depth = 8

abbrev pub call_disabled : ℕ
call_disabled = 9

abbrev pub writelog_full : ℕ
writelog_full = 10

abbrev pub page_fault : ℕ
page_fault = 11
