-- ===== src/Interrupt/Ended.antt =====
-- The restart that an interrupt's handler starts (kspecem_internal.c with `arg` set): it returns.
use kasper.Prelude.{
  ℕ, ◌+◌, ◌≡◌, refl, ◌∙◌, inl, inr, true, false, Option, none, some, not, ◌&&◌, ltb, ◌==◌,
  if◌then◌else◌, Bool-cases, Option-cases, List,
}
use kasper.Machine.{
  State, in_spec, Act, Out, ok, resumed, panicked, reentered, and_then, write_bytes,
}
use kasper.Machine.Kernel.{Kernel, Frame}
use kasper.Machine.Types.{BugState, Event, SpecAssert, internal_c}
use kasper.Machine.Types.RestartType
use kasper.Assert.Within.{noted, verdict, IsRestarting, lt_assert-noted}
use kasper.Statistics.Bounded.{add_bounded, add_spec_statistics-add_bounded}
use kasper.Statistics.{stats_entry}
use kasper.Machine.Types.FuncType
use kasper.RestartStats.{add_restart_to_statistics}
use kasper.Undolog.Restore.{undo, restore_writelog_lem}
use kasper.Bugs.Calm.{CalmOut, Calm-report_print_and_clear}
use kasper.Registers.{saved_ip}
use kasper.Internal.{
  frame_start, stop_emulation, restore_stack, panic_if_failed, restart_exit, restart_end,
  restart_undo, kspecem_restart,
}
use kasper.Store.Speculating.{Continues}

-- A call that returns in a state that satisfies `P`, or the kernel panics.
abbrev pub Returns : {A : Type 0} → (State → Type 0) → Out A → Type 0
Returns P o = Continues (λ _. P) (λ _. ⊥) o

Returns-mono :
    {A : Type 0} (P Q : State → Type 0) (o : Out A)
    → ((t : State) → P t → Q t)
    → Returns P o
    → Returns Q o
Returns-mono P Q (ok a s) weaken h = weaken s h
Returns-mono P Q (resumed s) weaken h = h
Returns-mono P Q (panicked site s) weaken h = h
Returns-mono P Q (reentered s) weaken h = h

-- `t` is where a handler's restart in `s` ends.
abbrev EndedAs : State → State → Type 0
EndedAs s t =
    (b : BugState) × (p : List Event) × (t
      ≡ record s { is_in_restart = false; bug_state = b; printed = p })

exit_lem : (u : State) (arg : ℕ) → (arg == 0) ≡ false → Returns (λ t. t ≡ u) (restart_exit arg u)
unfolding restart_exit panic_if_failed
exit_lem u arg handler = elim (Option-cases u.spec_assert) [
  | inl n ↦ rw (n, panic_if_failed, handler) refl
  | inr (site, n) ↦ rw (n, panic_if_failed) tt
]

restart_exit-Returns :
    (s u : State) (arg : ℕ)
    → (arg == 0) ≡ false
    → EndedAs s u
    → Returns (EndedAs s) (restart_exit arg u)
restart_exit-Returns s u arg handler (b, p, e) =
    Returns-mono (λ t. t ≡ u) (EndedAs s) (restart_exit arg u) (λ t q. (b, p, q ∙ e))
      (exit_lem u arg handler)

after_report :
    (s : State) (arg : ℕ) (o : Out (Unit {0}))
    → (arg == 0) ≡ false
    → CalmOut (record s { is_in_restart = false }) o
    → Returns (EndedAs s) (and_then o λ _. restart_exit arg)
after_report s arg (ok a u) handler e = restart_exit-Returns s u arg handler e
after_report s arg (panicked site u) handler c = tt
after_report s arg (resumed u) handler c = c
after_report s arg (reentered u) handler c = c

restart_end-EndedAs :
    (k : Kernel) (again : Act) (f : Frame) (arg type : ℕ) (s : State)
    → in_spec s ≡ false
    → (arg == 0) ≡ false
    → Returns (EndedAs s) (restart_end k again f arg type s)
unfolding restart_end
restart_end-EndedAs k again f arg type s off handler =
    elim (Bool-cases (not (type == RestartType.timer) && not (type == RestartType.exception))) [
      | inl e ↦ rw e (
          after_report s arg _ handler (
            (Calm-report_print_and_clear k again true (saved_ip s.registers) type).run
              (record s { is_in_restart = false }) off))
      | inr e ↦ rw e (
          after_report s arg (ok tt (record s { is_in_restart = false })) handler
            (s.bug_state, s.printed, refl))
    ]

module _ (k : Kernel) (again : Act) (f : Frame) (frameaddr regs : ℕ) where
  -- Memory after the walk and the copy of the frame.
  abbrev pub memory_after : State → ℕ → ℕ
  memory_after s =
      write_bytes (undo f (frameaddr + 8) regs s.undolog.wl_position s.undolog s.mem)
        (frame_start s.stack) s.stack.wl_stack_len s.stack.wl_stack_bytes

  -- What the restart of a handler leaves.
  pub record IsOver (s t : State) : Type 0 where
    pub memory : t.mem ≡ memory_after s
    pub spec_over : in_spec t ≡ false
    pub log_off : t.undolog.writelog_enabled ≡ false
    pub log_empty : t.undolog.wl_position ≡ 0
    pub not_in_restart : t.is_in_restart ≡ false
    pub same_registers : t.registers ≡ s.registers

  abbrev undone : State → Option SpecAssert → State
  undone s x =
      let t = stop_emulation s in
      record t {
        spec_assert = x;
        undolog = record t.undolog { wl_position = 0 };
        mem = memory_after s;
      }

  over : (s t : State) (x : Option SpecAssert) → EndedAs (undone s x) t → IsOver s t
  unfolding stop_emulation
  over s t x (b, p, e) = record {
    memory = rw e;
    spec_over = rw e;
    log_off = rw e;
    log_empty = rw e;
    not_in_restart = rw e;
    same_registers = rw e;
  }

  restart_undo-IsOver :
      (type : ℕ) (s : State)
      → IsRestarting s
      → (f.at_addr == 0) ≡ false
      → Returns (IsOver s) (restart_undo k again f 1 type frameaddr regs s)
  unfolding restart_undo restore_stack stop_emulation
  restart_undo-IsOver type s r local =
      let x0 = verdict internal_c 81 s.undolog.writelog_enabled s.spec_assert in
      let (x, e, fine) =
        restore_writelog_lem k again f (frameaddr + 8) regs (noted x0 s)
          (record { emulates = r.emulates; restarts = r.restarts }) local in
      rw (lt_assert-noted again internal_c 81 s.undolog.writelog_enabled s r, e)
        (elim (Bool-cases ((frame_start s.stack) == 0)) [
          | inl null ↦ rw null tt
          | inr present ↦ rw present (
              Returns-mono (EndedAs (undone s x)) (IsOver s)
                (restart_end k again f 1 type (undone s x)) (λ t h. over s t x h)
                (restart_end-EndedAs k again f 1 type (undone s x) refl refl))
        ])

  abbrev counted_restart : (type : ℕ) → State → State
  counted_restart type s =
      add_restart_to_statistics type
        (if type == RestartType.call_inline_asm then f.return_address else 0)
        (record s {
          is_in_restart = true;
          spec_assert = none;
          statistics =
              add_bounded (stats_entry FuncType.restart 1 type 0 f.return_address) s.statistics;
        })

  pub restart-IsOver :
      (type : ℕ) (s : State)
      → in_spec s ≡ true
      → (type == RestartType.on_return && ltb 0 s.emulation.spec_call_depth) ≡ false
      → (f.at_addr == 0) ≡ false
      → Returns (IsOver s) (kspecem_restart k again f 1 type f.return_address 0 frameaddr regs s)
  unfolding kspecem_restart add_restart_to_statistics
  restart-IsOver type s spec not_return local = elim (Option-cases s.spec_assert) [
    | inl e ↦
        simp (spec, e, not_return, add_spec_statistics-add_bounded)
          (Returns-mono (IsOver (counted_restart type s)) (IsOver s)
            (restart_undo k again f 1 type frameaddr regs (counted_restart type s))
            (λ t h. same_end s (counted_restart type s) t refl refl refl refl h)
            (restart_undo-IsOver type (counted_restart type s)
              (record { emulates = spec; restarts = refl }) local))
    | inr (site, e) ↦
        let s' = record s { is_in_restart = true; spec_assert = some site } in
        simp (spec, e)
          (Returns-mono (IsOver s') (IsOver s) (restart_undo k again f 1 type frameaddr regs s')
            (λ t h. same_end s s' t refl refl refl refl h)
            (restart_undo-IsOver type s' (record { emulates = spec; restarts = refl }) local))
  ]
    where
      same_end :
          (s s' t : State)
          → s'.undolog ≡ s.undolog
          → s'.mem ≡ s.mem
          → s'.stack ≡ s.stack
          → s'.registers ≡ s.registers
          → IsOver s' t
          → IsOver s t
      same_end s s' t u m st r h = record {
        memory = h.memory ∙ rw (u, m, st);
        spec_over = h.spec_over;
        log_off = h.log_off;
        log_empty = h.log_empty;
        not_in_restart = h.not_in_restart;
        same_registers = h.same_registers ∙ r;
      }
