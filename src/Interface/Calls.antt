-- ===== src/Interface/Calls.antt =====
-- Calls in a speculation (kspecem_interface.c, lines 53 to 66; kspecem_internal.c, lines 64 to 69):
-- the callee's entry counts the depth up, and its return counts it down in place of a restart.
use kasper.Prelude.{ℕ, ◌+◌, ◌-◌, ◌^◌, ◌<◌, ◌≡◌, sym, ap, true, false, none, arith, leb, ltb, wrap32}
use kasper.Machine.{State, in_spec, Act, ok, ◌>>◌}
use kasper.Machine.Kernel.{Kernel, Frame, World}
use kasper.Machine.Types.{SpecStatistics}
use kasper.Machine.Types.RestartType
use kasper.Machine.Types.FuncType
use kasper.Assert.{lt_assert}
use kasper.Statistics.{stats_entry}
use kasper.Statistics.Bounded.{add_bounded, add_spec_statistics-add_bounded}
use kasper.Internal.{kspecem_restart}
use kasper.Interface.{enter_nonmi_rt, enter_rt, leave_rt, hook_check_call_depth, hook_restart}
use kasper.Interface.Program.{KernelLaws}

-- A speculation in which one more call is allowed.
pub record MayCall (s : State) : Type 0 where
  pub emulates : in_spec s ≡ true
  pub initialised : s.init_done ≡ true
  pub outside : s.is_in_rt ≡ false
  pub enabled : s.undolog.writelog_enabled ≡ true
  pub no_failure : s.spec_assert ≡ none
  pub depth : s.emulation.spec_call_depth + 1 < s.emulation.max_call_depth
  pub word : s.emulation.max_call_depth < 2 ^ 32

module _ (k : Kernel) (laws : KernelLaws k) (again : Act) (f : Frame) where
  -- The state after the callee's entry.
  abbrev called : State → State
  called s = record s {
    emulation = record s.emulation { spec_call_depth = s.emulation.spec_call_depth + 1 };
    statistics =
        add_bounded (stats_entry FuncType.check_call_depth 0 0 0 f.return_address) s.statistics;
  }

  hook_check_call_depth-called :
      (s : State) → MayCall s → hook_check_call_depth k again f s ≡ ok tt (called s)
  unfolding hook_check_call_depth
  hook_check_call_depth-called s m = simp (
    m.initialised,
    m.outside,
    m.enabled,
    add_spec_statistics-add_bounded,
    next s.emulation.spec_call_depth s.emulation.max_call_depth m.depth m.word,
    below s.emulation.spec_call_depth s.emulation.max_call_depth m.depth,
  )
    where
      next : (d most : ℕ) → d + 1 < most → most < 2 ^ 32 → wrap32 (d + 1) ≡ d + 1
      next d most lt word = ground arith

      below : (d most : ℕ) → d + 1 < most → leb most (d + 1) ≡ false
      below d most lt = ground arith

  -- The state after the return, the last two fields being those that a hook's switches and the
  -- trace leave.
  abbrev pub returned : World → SpecStatistics → State → State
  returned w t s = record s { is_in_rt = false; is_in_restart = true; world = w; statistics = t }

  abbrev restart_returned : State → SpecStatistics
  restart_returned s =
      add_bounded (stats_entry FuncType.restart_return 0 RestartType.on_return 0 f.return_address)
        (called s).statistics

  abbrev hooked : World → World
  hooked w =
      let w' = k.preempt_disable w in
      k.preempt_enable
        (k.local_irq_restore (k.irq_flags w') (k.restart_nmi (k.stop_nmi (k.local_irq_disable w'))))

  hook_restart-returned :
      (call_arg : ℕ) (s : State)
      → MayCall s
      → hook_restart k again f 0 RestartType.on_return call_arg (called s)
        ≡ ok 0 (returned (hooked s.world) (restart_returned s) s)
  unfolding hook_restart enter_rt enter_nonmi_rt leave_rt lt_assert kspecem_restart
  hook_restart-returned call_arg s m =
      simp
        (
          m.initialised,
          m.emulates,
          m.no_failure,
          add_spec_statistics-add_bounded,
          deep s.emulation.spec_call_depth,
          back s.emulation.spec_call_depth,
          laws.nmi_keeps,
          laws.disables,
        )
        (ap
          (λ b. ok 0 (
            returned (hooked s.world) (restart_returned s) (record s {
              init_done = true;
              spec_assert = none;
              emulation = record s.emulation { in_speculative_emulation = b };
            })))
          (sym m.emulates))
    where
      deep : (d : ℕ) → ltb 0 (d + 1) ≡ true
      deep d = ground arith

      back : (d : ℕ) → d + 1 - 1 ≡ d
      back d = omega arith

  -- In a speculation that may call once more, a call and the return from it cancel out: the depth,
  -- the memory and the undo log are as before, and the program goes on behind the restart's hook,
  -- which returns 0; only the trace, the processor and one flag differ: `kspecem_is_in_restart`
  -- stays set, as after a restart that has begun and not ended.
  pub call_return :
      (call_arg : ℕ) (s : State)
      → MayCall s
      → (w : World) × (t : SpecStatistics) × ((hook_check_call_depth k again f
              >> hook_restart k again f 0 RestartType.on_return call_arg)
            s
          ≡ ok 0 (returned w t s))
  call_return call_arg s m = (
    hooked s.world,
    restart_returned s,
    rw (hook_check_call_depth-called s m) (hook_restart-returned call_arg s m),
  )
