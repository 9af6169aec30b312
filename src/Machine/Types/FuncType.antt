-- ===== src/Machine/Types/FuncType.antt =====
-- `enum kspecem_func_type_e` of static/kspecem/include/kspecem_statistics.h.
use kasper.Prelude.{ℕ}

abbrev pub new_checkpoint : ℕ
new_checkpoint = 0

abbrev pub new_checkpoint_inspec : ℕ
new_checkpoint_inspec = 1

abbrev pub restart : ℕ
restart = 2

abbrev pub restart_return : ℕ
restart_return = 3

abbrev pub check_call_depth : ℕ
check_call_depth = 4
