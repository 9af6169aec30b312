-- ===== src/Init/Ready.antt =====
-- What the initialisation leaves (kspecem_init.c): the invariants of the components begin to hold.
use kasper.Prelude.{ℕ, ◌≡◌, refl, true, false, arith, ◌==◌}
use kasper.Machine.{State, in_spec, Act, ok}
use kasper.Machine.Kernel.{Kernel}
use kasper.Assert.{lt_assert}
use kasper.Statistics.{statistics_init}
use kasper.InlineAsm.{stats_inlineasm_init}
use kasper.RestartStats.{stats_restarts_init}
use kasper.RestartStats.Totals.{by_reason}
use kasper.Bugs.{report_init, report_clear_globals}
use kasper.Bugs.AccessReport.{is_zero_bug}
use kasper.Bugs.Queue.{IsQueue}
use kasper.Internal.{init_data}
use kasper.Stack.{stack_init}
use kasper.Undolog.{writelog_init}
use kasper.Interface.{enter_rt, enter_nonmi_rt}
use kasper.Interface.Program.{KernelLaws}
use kasper.Interface.Transparent.{IsIdle}
use kasper.PfChecker.{init_pf_checker}
use kasper.Init.{Allocations, init_parts, kspecem_common_late_init}

-- All memory was had.
pub record Allocated (a : Allocations) : Type 0 where
  pub has_bugs : (a.bugs == 0) ≡ false
  pub has_stacklog : (a.stacklog == 0) ≡ false
  pub has_addrs : (a.addrs == 0) ≡ false
  pub has_regions : (a.regions == 0) ≡ false
  pub has_meta : (a.meta == 0) ≡ false
  pub has_dummy_region : (a.dummy_region == 0) ≡ false

-- The runtime is set up and at rest.
pub record IsReady (t : State) : Type 0 where
  pub initialised : t.init_done ≡ true
  pub outside : t.is_in_rt ≡ false
  pub idle : in_spec t ≡ false
  pub log_off : t.undolog.writelog_enabled ≡ false
  pub log_empty : t.undolog.wl_position ≡ 0
  pub has_addrs : (t.undolog.writelog_addrs == 0) ≡ false
  pub has_regions : (t.undolog.writelog_data == 0) ≡ false
  pub has_buffer : (t.stack.wl_stack == 0) ≡ false
  pub has_dummy_region : (t.pf_dummy_region == 0) ≡ false
  pub queue : IsQueue t.bug_state
  pub nothing_printed : (b o : ℕ) → t.bug_state.previous_bugs_map b o ≡ 0
  pub totals : by_reason t.total_statistics ≡ t.total_statistics.total_restarts

module _ (k : Kernel) (laws : KernelLaws k) (again : Act) (a : Allocations) where
  ready : State → State
  ready s =
      let w = k.preempt_disable s.world in
      record s {
        init_done = true;
        is_in_rt = false;
        emulation = (init_data s).emulation;
        undolog = record s.undolog {
          writelog_addrs = a.addrs;
          writelog_data = a.regions;
          writelog_meta = a.meta;
          wl_position = 0;
          writelog_enabled = false;
        };
        stack = record s.stack {
          wl_stack = a.stacklog;
          wl_stack_base_address = 0;
          wl_stack_len = 0;
        };
        pf_dummy_region = a.dummy_region;
        statistics = (statistics_init s).statistics;
        total_statistics = (stats_restarts_init s).total_statistics;
        inlineasm = stats_inlineasm_init s.inlineasm;
        bug_state = report_clear_globals (record s.bug_state { previous_bugs_map = λ _ _. 0 });
        world = k.preempt_enable (
            k.local_irq_restore (k.irq_flags w)
              (k.restart_nmi (k.stop_nmi (k.local_irq_disable w))));
      }

  ready-IsReady : (s : State) → Allocated a → IsReady (ready s)
  unfolding ready init_data report_clear_globals stats_restarts_init by_reason is_zero_bug
  ready-IsReady s m = record {
    initialised = refl;
    outside = refl;
    idle = refl;
    log_off = refl;
    log_empty = refl;
    has_addrs = m.has_addrs;
    has_regions = m.has_regions;
    has_buffer = m.has_stacklog;
    has_dummy_region = m.has_dummy_region;
    queue = record { fits = omega arith; free = λ j le. refl };
    nothing_printed = λ b o. refl;
    totals = refl;
  }

  ready-IsIdle : (s : State) → Allocated a → IsIdle a.addrs a.regions (ready s)
  unfolding ready init_data
  ready-IsIdle s m = record {
    idle = refl;
    log_off = refl;
    no_swap = refl;
    addrs_at = refl;
    regions_at = refl;
    buffer = m.has_stacklog;
  }

  ready-mem : (s : State) → (ready s).mem ≡ s.mem
  unfolding ready
  ready-mem s = refl

  -- If all memory is had, the initialisation returns with the runtime set up and at rest, outside
  -- speculation with the log at its memory, the list of reports, the map and the log empty and the
  -- program's memory as it was, and a second call changes nothing.
  pub kspecem_common_late_init-IsReady :
      (s : State)
      → s.init_done ≡ false
      → Allocated a
      → (t : State) × (kspecem_common_late_init k again a s ≡ ok tt t)
        × IsReady t
        × IsIdle a.addrs a.regions t
        × (t.mem ≡ s.mem)
        × (kspecem_common_late_init k again a t ≡ ok tt t)
  unfolding ready kspecem_common_late_init enter_rt enter_nonmi_rt init_parts stats_restarts_init
      statistics_init report_init report_clear_globals init_data stack_init writelog_init
      init_pf_checker lt_assert
  kspecem_common_late_init-IsReady s off m = (
    ready s,
    simp (
      off, m.has_bugs, m.has_stacklog, m.has_addrs, m.has_regions, m.has_meta, laws.nmi_keeps,
      laws.disables,
    ),
    ready-IsReady s m,
    ready-IsIdle s m,
    ready-mem s,
    refl,
  )
