-- ===== src/Internal/Resumes.antt =====
-- A restart that nothing stops ends at the checkpoint (kspecem_internal.c, kspecem_undolog.c).
use kasper.Prelude.{
  ℕ, ◌<◌, ◌≡◌, refl, ◌∙◌, ap, inl, inr, true, false, none, not, ◌&&◌, ltb, ◌==◌, Bool-cases,
}
use kasper.Machine.{State, in_spec, Act, resumed}
use kasper.Machine.Kernel.{Kernel, Frame}
use kasper.Machine.Types.{internal_c}
use kasper.Machine.Types.RestartType
use kasper.Assert.Within.{noted, verdict, IsRestarting, lt_assert-noted}
use kasper.Statistics.Bounded.{add_spec_statistics-add_bounded}
use kasper.RestartStats.{add_restart_to_statistics}
use kasper.Undolog.Restore.{EntryRestorable, restore_writelog_lem}
use kasper.Bugs.{report_print_and_clear}
use kasper.Internal.{
  frame_start, stop_emulation, panic_if_failed, restore_stack, restart_exit, restart_end,
  restart_undo, kspecem_restart,
}
use kasper.Internal.Rollback.{IsUndoable, IsRolledBack, undone, counted, rolled_back}

-- Nothing stops a restart from ordinary code: no assertion has failed, the log is on, its entries may
-- be restored, the saved frame is somewhere, and no report waits to be printed.
pub record IsUnhindered (k : Kernel) (again : Act) (f : Frame) (s : State) : Type 0 where
  pub no_failure : s.spec_assert ≡ none
  pub log_on : s.undolog.writelog_enabled ≡ true
  pub stack_pointer : (f.rsp == 0) ≡ false
  pub restorable :
      (j : ℕ) → j < s.undolog.wl_position → EntryRestorable k again f f.frame_address 0 s.undolog j
  pub frame_kept : (frame_start s.stack == 0) ≡ false
  pub no_reports : s.bug_state.next_bug_index ≡ 0

module _ (k : Kernel) (again : Act) (f : Frame) (m0 : ℕ → ℕ) where
  abbrev left : State → State
  left s = record s { is_in_restart = false; is_in_rt = false }

  restart_end-left :
      (type : ℕ) (s : State)
      → s.spec_assert ≡ none
      → s.bug_state.next_bug_index ≡ 0
      → restart_end k again f 0 type s ≡ resumed (left s)
  unfolding restart_end restart_exit report_print_and_clear panic_if_failed
  restart_end-left type s fine none_left =
      elim (Bool-cases (not (type == RestartType.timer) && not (type == RestartType.exception))) [
        | inl e ↦ simp (e, none_left, fine)
        | inr e ↦ simp (e, fine)
      ]

  restart_undo-left :
      (type : ℕ) (s : State)
      → IsRestarting s
      → (f.at_addr == 0) ≡ false
      → IsUnhindered k again f s
      → restart_undo k again f 0 type 0 0 s ≡ resumed (left (undone k again f m0 s none))
  unfolding restart_undo restore_stack stop_emulation
  restart_undo-left type s r local h =
      let x0 = verdict internal_c 81 s.undolog.writelog_enabled s.spec_assert in
      let (x, e, fine) =
        restore_writelog_lem k again f f.frame_address 0 (noted x0 s)
          (record { emulates = r.emulates; restarts = r.restarts }) local in
      let same : x ≡ none = fine h.stack_pointer h.restorable ∙ rw h.log_on h.no_failure in
      rw (lt_assert-noted again internal_c 81 s.undolog.writelog_enabled s r, e, h.frame_kept)
        (restart_end-left type (undone k again f m0 s x) same h.no_reports
          ∙ ap (λ y. resumed (left (undone k again f m0 s y))) same)

  -- A restart from ordinary code that nothing stops, in a speculation whose log is undoable and unless
  -- it only leaves a called function, does resume the program at the checkpoint, with its memory.
  pub restart-resumes :
      (type ret_addr call_arg : ℕ) (s : State)
      → in_spec s ≡ true
      → (type == RestartType.on_return && ltb 0 s.emulation.spec_call_depth) ≡ false
      → (f.at_addr == 0) ≡ false
      → IsUndoable m0 s.undolog s.stack s.mem
      → IsUnhindered k again f s
      → (t : State) × (kspecem_restart k again f 0 type ret_addr call_arg 0 0 s ≡ resumed t)
        × IsRolledBack m0 f s.stack s.registers s.undolog.writelog_addrs s.undolog.writelog_data t
  unfolding kspecem_restart add_restart_to_statistics stop_emulation
  restart-resumes type ret_addr call_arg s spec not_return local u h =
      let begun = counted k again f m0 type ret_addr call_arg s in
      (
        left (undone k again f m0 begun none),
        simp (spec, h.no_failure, not_return, add_spec_statistics-add_bounded)
            (restart_undo-left type begun (record { emulates = spec; restarts = refl }) local
              (record {
                no_failure = refl;
                log_on = h.log_on;
                stack_pointer = h.stack_pointer;
                restorable = h.restorable;
                frame_kept = h.frame_kept;
                no_reports = h.no_reports;
              })),
        rolled_back k again f m0 begun (left (undone k again f m0 begun none)) none u
            ((s.bug_state, s.printed, refl), refl),
      )
