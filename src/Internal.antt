-- ===== src/Internal.antt =====
-- static/kspecem/kspecem_internal.c: the start and the end of a speculation.
pub mod Exit
pub mod Rollback
pub mod Resumes
use kasper.Prelude.{
  ℕ, ◌+◌, ◌-◌, ◌^◌, wrap64, Bool, true, false, not, ◌&&◌, Option, none, some, ltb, ◌==◌,
  if◌then◌else◌,
}
use kasper.Machine.{
  State, Cmd, Act, panicked, resumed, pure, ◌>>=◌, ◌>>◌, modify, read, when, in_spec, write_bytes,
}
use kasper.Machine.Kernel.{Kernel, Frame}
use kasper.Machine.Types.{SpecAssert, StackLog, internal_c}
use kasper.Machine.Types.RestartType
use kasper.Machine.Types.FuncType
use kasper.Assert.{lt_assert, lt_panic}
use kasper.Statistics.{add_spec_statistics}
use kasper.RestartStats.{add_restart_to_statistics}
use kasper.Undolog.{restore_writelog}
use kasper.Bugs.{report_print_and_clear}
use kasper.Registers.{saved_ip}

unfoldable pub init_data : State → State
init_data s = record s {
  emulation = record s.emulation {
    in_speculative_emulation = false;
    swap_branch_condition = false;
    speculative_instr_count = 0;
    spec_call_depth = 0;
    call_depth = 0;
  };
}

-- The assignments of lines 35 and 36, then those of lines 40 to 48.
unfoldable pub reset_trace : State → State
reset_trace s = record s {
  emulation = record s.emulation { speculative_instr_count = 0 };
  statistics = record s.statistics { curr_index = 0 };
}

unfoldable pub start_emulation : State → State
start_emulation s = record s {
  emulation = record s.emulation {
    in_speculative_emulation = true;
    swap_branch_condition =
        if s.emulation.swap_branch_enabled then true else s.emulation.swap_branch_condition;
    spec_call_depth = 0;
    call_depth = 0;
  };
  undolog = record s.undolog { wl_position = 0; writelog_enabled = true };
}

unfoldable pub new_checkpoint : Act → (return_address : ℕ) → Cmd ℕ
new_checkpoint again return_address =
    read (λ s. s.stack.wl_stack) (λ p. lt_assert again internal_c 32 (not (p == 0)))
    >> (read in_spec (λ b. lt_assert again internal_c 33 (not b))
        >> (modify reset_trace
            >> (add_spec_statistics again FuncType.new_checkpoint 0 0 0 return_address
                >> (modify start_emulation >> pure 0))))

-- `kspecem_spec_assert.fmt != (char *)-1`
abbrev pub has_failed : Option SpecAssert → Bool
has_failed none = false
has_failed (some site) = true

-- Lines 93 to 97.
unfoldable pub stop_emulation : State → State
stop_emulation s = record s {
  emulation = record s.emulation {
    in_speculative_emulation = false;
    swap_branch_condition = false;
    spec_call_depth = 0;
    call_depth = 0;
  };
  undolog = record s.undolog { writelog_enabled = false };
}

-- Where the saved frame begins: the difference of line 100 wraps around.
abbrev pub frame_start : StackLog → ℕ
frame_start t = wrap64 (t.wl_stack_base_address + (2 ^ 64 - t.wl_stack_len))

-- Line 100: the saved frame goes back onto the stack.
unfoldable pub restore_stack : Act
restore_stack =
    read (λ s. s.stack)
      λ t.
        let dest : ℕ = frame_start t in
        if dest == 0
        then lt_panic internal_c 101
        else modify λ s. record s { mem = write_bytes s.mem dest t.wl_stack_len t.wl_stack_bytes }

-- Lines 111 to 113.
unfoldable pub panic_if_failed : Option SpecAssert → Act
panic_if_failed none = pure tt
panic_if_failed (some site) = panicked site

-- Lines 111 to 121. A restart from ordinary code (`arg` NULL) restores the registers and does not
-- return.
unfoldable pub restart_exit : (arg : ℕ) → Cmd ℕ
restart_exit arg =
    read (λ s. s.spec_assert) panic_if_failed
    >> (if arg == 0 then (modify (λ s. record s { is_in_rt = false }) >> resumed) else pure 0)

module _ (k : Kernel) (again : Act) (f : Frame) where
  -- Lines 104 to 121.
  unfoldable pub restart_end : (arg restart_type : ℕ) → Cmd ℕ
  restart_end arg type =
      modify (λ s. record s { is_in_restart = false })
      >> (when (not (type == RestartType.timer) && not (type == RestartType.exception))
            (read (λ s. saved_ip s.registers) λ ip. report_print_and_clear k again true ip type)
          >> restart_exit arg)

  -- Lines 81 to 102, and the rest of the function.
  unfoldable pub restart_undo : (arg restart_type frameaddr regs : ℕ) → Cmd ℕ
  restart_undo arg type frameaddr regs =
      let top : ℕ = if arg == 0 then f.frame_address else frameaddr + 8 in
      read (λ s. s.undolog.writelog_enabled) (λ b. lt_assert again internal_c 81 b)
      >> (restore_writelog k again f top regs >>= λ r.
          if r == 0xffff_ffff
          then pure 0xffff_ffff
          else (modify stop_emulation >> (restore_stack >> restart_end arg type)))

  unfoldable pub kspecem_restart : (arg restart_type ret_addr call_arg frameaddr regs : ℕ) → Cmd ℕ
  kspecem_restart arg type ret_addr call_arg frameaddr regs = read in_spec λ spec.
      if not spec
      then pure 0
      else (modify (λ s. record s { is_in_restart = true })
          >> read (λ s. has_failed s.spec_assert)
              λ failed.
                if failed
                then restart_undo arg type frameaddr regs
                else read (λ s. s.emulation.spec_call_depth)
                    λ depth.
                      if type == RestartType.on_return && ltb 0 depth
                      then (add_spec_statistics again FuncType.restart_return arg type 0 ret_addr
                          >> (modify (λ s. record s {
                            emulation = record s.emulation { spec_call_depth = depth - 1 };
                          })
                              >> pure 0))
                      else (add_spec_statistics again FuncType.restart arg type 0 ret_addr
                          >> (modify (
                                add_restart_to_statistics type (
                                  if type == RestartType.call_inline_asm
                                  then ret_addr
                                  else call_arg))
                              >> restart_undo arg type frameaddr regs)))
