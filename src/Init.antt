-- ===== src/Init.antt =====
-- static/kspecem/kspecem_init.c: the initialisation that the debugfs file `enable` starts.
pub mod Boot
pub mod Ready
pub mod Settings
use kasper.Prelude.{ℕ, ◌==◌, Bool, true, not, minus_one32}
use kasper.Machine.{State, Act, Cmd, pure, ◌>>=◌, ◌>>◌, modify, read, when}
use kasper.Machine.Kernel.{Kernel, Frame}
use kasper.Machine.Types.{init_c}
use kasper.Statistics.{statistics_init}
use kasper.InlineAsm.{stats_inlineasm_init}
use kasper.RestartStats.{stats_restarts_init}
use kasper.Bugs.{report_init}
use kasper.Internal.{init_data}
use kasper.Stack.{stack_init}
use kasper.Undolog.{writelog_init}
use kasper.Whitelist.{whitelist_syscall}
use kasper.PfChecker.{init_pf_checker}
use kasper.Interface.{enter_rt, leave_rt_in, hook_print_restart_statistics}

-- What the calls of `kmalloc` return.
pub record Allocations : Type 0 where
  pub bugs : ℕ
  pub stacklog : ℕ
  pub addrs : ℕ
  pub regions : ℕ
  pub meta : ℕ
  pub dummy_region : ℕ

-- kspecem_whitelist_init, which kspecem_init calls besides making the debugfs files.
unfoldable pub whitelist_init : State → State
whitelist_init s = record s { whitelist_type = whitelist_syscall }

-- Lines 69 to 81.
unfoldable pub init_parts : Act → Allocations → Act
init_parts again a =
    modify (λ s.
      stats_restarts_init
        (record (statistics_init s) { inlineasm = stats_inlineasm_init s.inlineasm }))
    >> (report_init again a.bugs
        >> (modify init_data
            >> (stack_init again a.stacklog
                >> (writelog_init again a.addrs a.regions a.meta
                    >> modify (init_pf_checker a.dummy_region)))))

unfoldable pub kspecem_common_late_init : Kernel → Act → Allocations → Act
kspecem_common_late_init k again a =
    read (λ s. s.init_done)
      λ init. when (not init) (
        enter_rt k again >>= λ flags.
        init_parts again a
        >> (leave_rt_in k again init_c 83 flags >> modify λ s. record s { init_done = true }))

-- The debugfs files: reading `restarts` prints the counters, and `enable` starts the sanitizer, which
-- starts the runtime, or the runtime itself where there is no sanitizer. `kdfsan_enable` is what the
-- sanitizer's function returns after `kdfsan`, its own run.
unfoldable pub kspecem_restart_stats : Kernel → Act → Frame → Cmd ℕ
kspecem_restart_stats k again f = hook_print_restart_statistics k again f >> pure 0

unfoldable pub kspecem_enable : Kernel → Act → Allocations → Cmd ℕ → Cmd ℕ
unfolding kspecem_common_late_init
kspecem_enable k again a kdfsan_enable =
    kdfsan_enable >>= λ r. when (r == minus_one32) (kspecem_common_late_init k again a) >> pure 0

-- The weak kdfsan_enable of kspecem_kdf.c.
unfoldable pub weak_kdfsan_enable : Cmd ℕ
weak_kdfsan_enable = pure minus_one32
