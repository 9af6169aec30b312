-- ===== src/Interface/Depth.antt =====
-- The limit of the depth of calls in a speculation (kspecem_interface.c, lines 53 to 66): the hook at
-- the entry of each function counts the calls that have not returned.
use kasper.Prelude.{
  ℕ, zero, suc, ◌+◌, ◌^◌, ◌≤◌, ◌<◌, ◌≡◌, refl, sym, subst, true, false, not, ◌&&◌, arith, leb, ◌==◌,
  Bool-cases, inl, inr, le→leb, leb→le,
}
use kasper.Machine.{State, Act, pure, ok, ◌>>=◌, ◌>>◌, when}
use kasper.Machine.Kernel.{Kernel, Frame}
use kasper.Machine.Types.{interface_c}
use kasper.Machine.Types.RestartType
use kasper.Machine.Types.FuncType
use kasper.Assert.{lt_panic}
use kasper.Statistics.{stats_entry}
use kasper.Statistics.Bounded.{add_bounded, add_spec_statistics-add_bounded}
use kasper.Internal.{kspecem_restart}
use kasper.Internal.Exit.{Leaves, Leaves-bind}
use kasper.Store.Speculating.{Checkpoint, IsSpeculating, BackAt, restart-BackAt}
use kasper.Interface.{enter_nonmi_rt, enter_rt, leave_rt, within_rt, rt_busy, hook_check_call_depth}
use kasper.Interface.Program.{busy_with, IsSpeculating-busy_with}
use kasper.Interface.Limits.{when-Leaves, no_wrap, lt→leb}

module _ (k : Kernel) (again : Act) (f : Frame) where
  -- `n` calls into functions that do not return.
  unfoldable pub run_calls : ℕ → Act
  run_calls zero = pure tt
  run_calls (suc n) = hook_check_call_depth k again f >> run_calls n

  -- The state after a call, at depth `d`.
  abbrev pub deeper : (d : ℕ) → State → State
  deeper d s = record s {
    emulation = record s.emulation { spec_call_depth = d };
    statistics =
        add_bounded (stats_entry FuncType.check_call_depth 0 0 0 f.return_address) s.statistics;
  }

  IsSpeculating-deeper :
      (c : Checkpoint) (d : ℕ) {s : State} → IsSpeculating c s → IsSpeculating c (deeper d s)
  IsSpeculating-deeper c d v = record {
    emulates = v.emulates;
    enabled = v.enabled;
    initialised = v.initialised;
    addrs_at = v.addrs_at;
    regions_at = v.regions_at;
    addrs_present = v.addrs_present;
    regions_present = v.regions_present;
    fits = v.fits;
    same_frame = v.same_frame;
    same_registers = v.same_registers;
    undoable = v.undoable;
  }

  module _ (c : Checkpoint) (local : (f.at_addr == 0) ≡ false) where
    hook_check_call_depth-below :
        (s : State)
        → IsSpeculating c s
        → s.is_in_rt ≡ false
        → s.emulation.spec_call_depth + 1 < 2 ^ 32
        → s.emulation.spec_call_depth + 1 < s.emulation.max_call_depth
        → hook_check_call_depth k again f s ≡ ok tt (deeper (s.emulation.spec_call_depth + 1) s)
    unfolding hook_check_call_depth
    hook_check_call_depth-below s v outside word below = simp (
      v.initialised,
      outside,
      v.enabled,
      add_spec_statistics-add_bounded,
      no_wrap s.emulation.spec_call_depth 1 word,
      lt→leb s.emulation.max_call_depth (s.emulation.spec_call_depth + 1) below,
    )

    idle :
        (s : State)
        → IsSpeculating c s
        → s.is_in_rt ≡ false
        → (not (rt_busy s) && s.undolog.writelog_enabled) ≡ true
    idle s v outside = rw (v.initialised, outside, v.enabled) refl

    hook_check_call_depth-reached :
        (s : State)
        → IsSpeculating c s
        → s.is_in_rt ≡ false
        → s.emulation.spec_call_depth + 1 < 2 ^ 32
        → s.emulation.max_call_depth ≤ s.emulation.spec_call_depth + 1
        → Leaves (BackAt k again f c) (hook_check_call_depth k again f s)
    unfolding hook_check_call_depth enter_rt enter_nonmi_rt
    hook_check_call_depth-reached s v outside word reached =
        let world = k.stop_nmi (k.local_irq_disable (k.preempt_disable s.world)) in
        let depth = s.emulation.spec_call_depth in
        let most = s.emulation.max_call_depth in
        let busy = busy_with true world (deeper (depth + 1) s) in
        let restart = kspecem_restart k again f 0 RestartType.call_depth f.return_address 0 0 0 in
        let body = restart >>= λ _. lt_panic interface_c 62 in
        let Q = BackAt k again f c in
        when-Leaves Q (not (rt_busy s) && s.undolog.writelog_enabled) _ s (idle s v outside) (
          rw
            (add_spec_statistics-add_bounded again FuncType.check_call_depth 0 0 0 f.return_address
              s)
            (subst (λ d. Leaves Q (when (leb most d) (within_rt k again 63 body) (deeper d s)))
              (sym (no_wrap depth 1 word))
              (when-Leaves Q (leb most (depth + 1)) (within_rt k again 63 body)
                (deeper (depth + 1) s) (le→leb most (depth + 1) reached)
                (Leaves-bind Q (body busy)
                  (λ a. leave_rt k again 63 (k.irq_flags (k.preempt_disable s.world)) >> pure a)
                  (Leaves-bind Q (restart busy) (λ _. lt_panic interface_c 62)
                    (restart-BackAt k again f c RestartType.call_depth f.return_address 0 busy refl
                      local
                      (IsSpeculating-busy_with c true world
                        (IsSpeculating-deeper c (depth + 1) v))))))))

    -- A speculation that makes calls until the limit of the depth does not enter the last function:
    -- the program is back at its checkpoint with its memory, or the kernel panics.
    pub run_calls-Leaves :
        (n : ℕ) (s : State)
        → IsSpeculating c s
        → s.is_in_rt ≡ false
        → s.emulation.spec_call_depth < s.emulation.max_call_depth
        → s.emulation.max_call_depth ≤ s.emulation.spec_call_depth + n
        → s.emulation.spec_call_depth + n < 2 ^ 32
        → Leaves (BackAt k again f c) (run_calls n s)
    unfolding run_calls
    run_calls-Leaves zero s v outside below reached word = absurd (omega arith)
    run_calls-Leaves (suc n) s v outside below reached word =
        let depth = s.emulation.spec_call_depth in
        elim (Bool-cases (leb s.emulation.max_call_depth (depth + 1))) [
          | inl limit ↦
              Leaves-bind (BackAt k again f c) (hook_check_call_depth k again f s)
                (λ _. run_calls n)
                (hook_check_call_depth-reached s v outside (omega arith) (leb→le _ _ limit))
          | inr more ↦ rw (hook_check_call_depth-below s v outside (omega arith) (ground arith)) (
              run_calls-Leaves n (deeper (depth + 1) s) (IsSpeculating-deeper c (depth + 1) v)
                outside (ground arith) (omega arith) (omega arith))
        ]
