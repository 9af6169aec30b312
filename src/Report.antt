-- ===== src/Report.antt =====
-- static/kspecem/kspecem_report.c: what a report prints. The text of a report is the report itself.
use kasper.Prelude.{ℕ}
use kasper.Machine.{Act, pure, ◌>>◌, read, when, print}
use kasper.Machine.Types.{
  Bug, AccessType, undef_access, kasan_access, mds_access, cc_access, pc_access, report_c,
  restart_begin, access_bug, restart_end, stack_shown,
}
use kasper.Assert.{lt_panic}

-- The `switch` on the access type: a type without a name is a panic.
unfoldable pub has_name : AccessType → Act
has_name kasan_access = pure tt
has_name mds_access = pure tt
has_name cc_access = pure tt
has_name pc_access = pure tt
has_name undef_access = lt_panic report_c 49

unfoldable pub report_print_access_bug : Bug → Act
report_print_access_bug bug = has_name bug.access_type >> print (access_bug bug)

unfoldable pub report_print_restart_begin : Act
report_print_restart_begin = print restart_begin

unfoldable pub report_print_restart_end :
    (current_syscall_nr current_checkpoint_ip restart_type : ℕ) → Act
report_print_restart_end nr checkpoint_ip type =
    read (λ s. s.emulation.speculative_instr_count)
      (λ n. print (restart_end nr checkpoint_ip type n))
    >> read (λ s. s.report_error_dump_stack) λ dump. when dump (print stack_shown)
