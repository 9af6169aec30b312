-- ===== src/Internal/Rollback.antt =====
-- kspecem_restart from ordinary code takes the program back to its checkpoint
-- (kspecem_internal.c, kspecem_undolog.c, kspecem_stack.c).
use kasper.Prelude.{
  ℕ, ◌+◌, ◌-◌, ◌%◌, ◌<◌, ◌≡◌, refl, ◌∙◌, ◌⊎◌, inl, inr, Bool, true, false, Option, none, some, ◌&&◌,
  leb, ltb, ◌==◌, if◌then◌else◌, Bool-cases, Option-cases, align_down,
}
use kasper.Machine.{State, in_spec, Act, write_bytes}
use kasper.Machine.Kernel.{Kernel, Frame}
use kasper.Machine.Types.{StackLog, SpecAssert, Undolog, internal_c}
use kasper.Machine.Types.RestartType
use kasper.Machine.Types.FuncType
use kasper.Assert.Within.{noted, verdict, IsRestarting, lt_assert-noted}
use kasper.Statistics.Bounded.{add_bounded, add_spec_statistics-add_bounded}
use kasper.Statistics.{stats_entry}
use kasper.RestartStats.{add_restart_to_statistics}
use kasper.Undolog.Restore.{is_guarded, undo, restore_writelog_lem}
use kasper.Undolog.Saved.{saved, undo-saved}
use kasper.Internal.{
  frame_start, stop_emulation, restore_stack, restart_end, restart_undo, kspecem_restart,
}
use kasper.Internal.Exit.{LeftAs, Leaves, Leaves-mono, restart_end-Leaves}

-- The bytes of the saved stack frame.
abbrev pub in_saved_frame : StackLog → ℕ → Bool
in_saved_frame t a = let base : ℕ = frame_start t in leb base a && ltb a (base + t.wl_stack_len)

-- What a speculation keeps so that memory `m0` can be had back: the log's words begin at multiples
-- of eight, a byte undone is that of `m0`, and the saved frame is that of `m0`.
pub record IsUndoable (m0 : ℕ → ℕ) (u : Undolog) (t : StackLog) (mem : ℕ → ℕ) : Type 0 where
  pub aligned : (j : ℕ) → j < u.wl_position → u.addr_slots j % 8 ≡ 0
  pub undoes : (a : ℕ) → saved u.wl_position u a (mem a) ≡ m0 a
  pub frame_saved :
      (a : ℕ) → in_saved_frame t a ≡ true → t.wl_stack_bytes (a - (frame_start t)) ≡ m0 a

-- Memory is `m0` again, at every byte that is in the saved frame or not in a word of the frames that
-- run the restart; the emulation, the log and the runtime are at rest.
pub record IsRolledBack (m0 : ℕ → ℕ) (f : Frame) (frame : StackLog) (registers : ℕ → ℕ)
    (addrs regions : ℕ) (t : State) : Type 0 where
  pub restored :
      (a : ℕ)
      → (is_guarded f f.frame_address 0 (align_down 8 a) ≡ false) ⊎ (in_saved_frame frame a ≡ true)
      → t.mem a ≡ m0 a
  pub spec_over : in_spec t ≡ false
  pub log_off : t.undolog.writelog_enabled ≡ false
  pub log_empty : t.undolog.wl_position ≡ 0
  pub no_depth : t.emulation.spec_call_depth ≡ 0
  pub no_swap : t.emulation.swap_branch_condition ≡ false
  pub not_in_rt : t.is_in_rt ≡ false
  pub not_in_restart : t.is_in_restart ≡ false
  pub no_failure : t.spec_assert ≡ none
  pub same_registers : t.registers ≡ registers
  pub same_stack : t.stack ≡ frame
  pub same_addrs : t.undolog.writelog_addrs ≡ addrs
  pub same_regions : t.undolog.writelog_data ≡ regions

module _ (k : Kernel) (again : Act) (f : Frame) (m0 : ℕ → ℕ) where
  -- The memory after the walk and after the copy of the frame.
  restored_lem :
      (s : State)
      → IsUndoable m0 s.undolog s.stack s.mem
      → (a : ℕ)
      → (is_guarded f f.frame_address 0 (align_down 8 a) ≡ false)
        ⊎ (in_saved_frame s.stack a ≡ true)
      → write_bytes
          (undo f f.frame_address 0 s.undolog.wl_position s.undolog s.mem)
          (frame_start s.stack)
          s.stack.wl_stack_len
          s.stack.wl_stack_bytes
          a
        ≡ m0 a
  restored_lem s u a place = elim (Bool-cases (in_saved_frame s.stack a)) [
    | inl e ↦ rw e (u.frame_saved a e)
    | inr e ↦ rw e (
        undo-saved f f.frame_address 0 s.undolog.wl_position s.undolog s.mem a u.aligned
        ∙ unguarded s u a e place)
  ]
    where
      unguarded :
          (s : State) (u : IsUndoable m0 s.undolog s.stack s.mem) (a : ℕ)
          → in_saved_frame s.stack a ≡ false
          → (is_guarded f f.frame_address 0 (align_down 8 a) ≡ false)
            ⊎ (in_saved_frame s.stack a ≡ true)
          → (if is_guarded f f.frame_address 0 (align_down 8 a)
              then s.mem a
              else saved s.undolog.wl_position s.undolog a (s.mem a))
            ≡ m0 a
      unguarded s u a e (inl g) = rw g (u.undoes a)
      unguarded s u a e (inr g) = cc

  -- The state after the walk, the reset and the copy of the frame.
  abbrev pub undone : State → Option SpecAssert → State
  undone s x =
      let t = stop_emulation s in
      record t {
        spec_assert = x;
        undolog = record t.undolog { wl_position = 0 };
        mem =
            write_bytes (undo f f.frame_address 0 s.undolog.wl_position s.undolog s.mem)
              (frame_start s.stack) s.stack.wl_stack_len s.stack.wl_stack_bytes;
      }

  pub rolled_back :
      (s t : State) (x : Option SpecAssert)
      → IsUndoable m0 s.undolog s.stack s.mem
      → LeftAs (undone s x) t × (x ≡ none)
      → IsRolledBack m0 f s.stack s.registers s.undolog.writelog_addrs s.undolog.writelog_data t
  unfolding stop_emulation
  rolled_back s t x u ((b, p, e), n) = record {
    restored = λ a place. rw e (restored_lem s u a place);
    spec_over = rw e;
    log_off = rw e;
    log_empty = rw e;
    no_depth = rw e;
    no_swap = rw e;
    not_in_rt = rw e;
    not_in_restart = rw e;
    no_failure = rw e n;
    same_registers = rw e;
    same_stack = rw e;
    same_addrs = rw e;
    same_regions = rw e;
  }

  restart_undo-Leaves :
      (type : ℕ) (s : State)
      → IsRestarting s
      → (f.at_addr == 0) ≡ false
      → IsUndoable m0 s.undolog s.stack s.mem
      → Leaves
          (IsRolledBack m0 f s.stack s.registers s.undolog.writelog_addrs s.undolog.writelog_data)
          (restart_undo k again f 0 type 0 0 s)
  unfolding restart_undo restore_stack stop_emulation
  restart_undo-Leaves type s r local u =
      let x0 = verdict internal_c 81 s.undolog.writelog_enabled s.spec_assert in
      let (x, e, fine) =
        restore_writelog_lem k again f f.frame_address 0 (noted x0 s)
          (record { emulates = r.emulates; restarts = r.restarts }) local in
      rw (lt_assert-noted again internal_c 81 s.undolog.writelog_enabled s r, e)
        (elim (Bool-cases ((frame_start s.stack) == 0)) [
          | inl null ↦ rw null tt
          | inr present ↦ rw present (
              Leaves-mono (λ t. LeftAs (undone s x) t × (x ≡ none))
                (IsRolledBack m0 f s.stack s.registers s.undolog.writelog_addrs
                  s.undolog.writelog_data)
                (restart_end k again f 0 type (undone s x)) (λ t h. rolled_back s t x u h)
                (restart_end-Leaves k again f type (undone s x) refl))
        ])

  -- The state in which the walk begins, if no assertion has failed.
  abbrev pub counted : (type ret_addr call_arg : ℕ) → State → State
  counted type ret_addr call_arg s =
      add_restart_to_statistics type
        (if type == RestartType.call_inline_asm then ret_addr else call_arg)
        (record s {
          is_in_restart = true;
          spec_assert = none;
          statistics = add_bounded (stats_entry FuncType.restart 0 type 0 ret_addr) s.statistics;
        })

  -- kspecem_restart from ordinary code, in a speculation whose log is undoable and unless it
  -- only leaves a called function, does not return: the program goes on at the checkpoint with
  -- its memory, or the kernel panics.
  pub restart-IsRolledBack :
      (type ret_addr call_arg : ℕ) (s : State)
      → in_spec s ≡ true
      → (type == RestartType.on_return && ltb 0 s.emulation.spec_call_depth) ≡ false
      → (f.at_addr == 0) ≡ false
      → IsUndoable m0 s.undolog s.stack s.mem
      → Leaves
          (IsRolledBack m0 f s.stack s.registers s.undolog.writelog_addrs s.undolog.writelog_data)
          (kspecem_restart k again f 0 type ret_addr call_arg 0 0 s)
  unfolding kspecem_restart add_restart_to_statistics
  restart-IsRolledBack type ret_addr call_arg s spec not_return local u =
      elim (Option-cases s.spec_assert) [
        | inl e ↦
            simp (spec, e, not_return, add_spec_statistics-add_bounded)
              (restart_undo-Leaves type (counted type ret_addr call_arg s)
                (record { emulates = spec; restarts = refl }) local u)
        | inr (site, e) ↦
            simp (spec, e)
              (restart_undo-Leaves type (record s { is_in_restart = true; spec_assert = some site })
                (record { emulates = spec; restarts = refl }) local u)
      ]
