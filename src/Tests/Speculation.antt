-- ===== src/Tests/Speculation.antt =====
-- A speculation on the data of Tests: a store across two words, a copy of twenty bytes, a restart.
use kasper.Prelude.{
  align_down, ◌-◌, zero, suc, ℕ, ◌+◌, ◌%◌, ◌≤◌, ◌<◌, ◌≡◌, refl, true, false, Option, none, List, [],
  ◌∷◌, arith, ◌==◌, if◌then◌else◌, All,
}
use kasper.Undolog.{can_restore}
use kasper.Machine.{resumed, State, Act, ok, ◌>>◌}
use kasper.Machine.Kernel.{World}
use kasper.Machine.Types.{SpecAssert, SpecStatistics}
use kasper.Undolog.{restore_writelog}
use kasper.Undolog.Restore.{is_guarded, undo, EntryRestorable, restore_writelog_lem}
use kasper.Undolog.Saved.{AbsentBelow, restore_writelog-oldest}
use kasper.Internal.{start_emulation, reset_trace, kspecem_restart}
use kasper.Internal.Exit.{Leaves}
use kasper.Internal.Rollback.{IsRolledBack, restart-IsRolledBack}
use kasper.Internal.Resumes.{IsUnhindered, restart-resumes}
use kasper.Store.Logged.{pushed, pushed-IsUndoable}
use kasper.Store.{writelog_slots, kspecem_memcpy}
use kasper.Store.Speculating.{BackAt, IsSpeculating, Checkpoint, Continues}
use kasper.Store.Covered.{Writable, Covers, kspecem_memcpy-Covers}
use kasper.Whitelist.{is_whitelist_task}
use kasper.Interface.{may_checkpoint, restart_again, hook_check_call_depth, hook_restart}
use kasper.Interface.Program.{KernelLaws, Write, store, intrinsic, CanWrite}
use kasper.Interface.Checkpoints.{
  MayStart, take_checkpoint, checkpoint, started, started-IsSpeculating,
  take_checkpoint-IsSpeculating,
}
use kasper.Interface.Rollback.{speculate, speculate-IsRolledBack}
use kasper.Interface.Limits.{run_blocks, run_blocks-Leaves}
use kasper.Interface.Depth.{run_calls, run_calls-Leaves}
use kasper.Interface.Calls.{MayCall, returned, call_return}
use kasper.Interrupt.{return_to_checkpoint}
use kasper.Interrupt.Ended.{Returns}
use kasper.Interrupt.Returns.{IsHandedBack, handler-IsHandedBack}
use kasper.Init.Boot.{boot_state}
use kasper.Interface.Transparent.{IsIdle}
use kasper.Init.{Allocations, kspecem_common_late_init}
use kasper.Init.Ready.{IsReady, kspecem_common_late_init-IsReady}
use kasper.Tests.{a_kernel, a_frame, idle_state}

abbrev pub again : Act
again = restart_again a_kernel a_frame

pub laws : KernelLaws a_kernel
laws = record { disables = λ w. refl; nmi_keeps = λ w. refl }

may_start : MayStart a_kernel again a_frame 0x7100 idle_state
unfolding may_checkpoint is_whitelist_task
may_start = record {
  idle = refl;
  allowed = refl;
  initialised = refl;
  flags = refl;
  buffer = refl;
  addrs_present = refl;
  regions_present = refl;
  frame_above = omega arith;
  frame_fits = omega arith;
  frame_word = omega arith;
}

abbrev pub here : Checkpoint
here = checkpoint a_kernel again a_frame (λ i. i) 0x7100 idle_state

-- Memory below the log's arrays and the runtime's variables may be written.
pub low : (from to : ℕ) → to ≤ 0x10_0000 → Writable a_kernel here from to
low from to below a lo hi = record {
  outside_addrs = ground arith;
  outside_regions = ground arith;
  not_own = ground arith;
  word = omega arith;
  not_last = omega arith;
}

abbrev writes : List Write
writes = store 0x8005 8 (λ i. 0xff) ∷ intrinsic 0x9003 20 (λ i. i) ∷ []

can : All (CanWrite a_kernel here) writes
can = ((omega arith, low 0x8005 0x800d (omega arith)), (low 0x9000 0x901f (omega arith), tt))

speculate-IsRolledBack_example :
    Leaves
      (BackAt a_kernel again a_frame here)
      (speculate a_kernel again a_frame (λ i. i) 0x7100 writes 1 0 idle_state)
speculate-IsRolledBack_example =
    speculate-IsRolledBack a_kernel again a_frame laws refl (λ i. i) 0x7100 writes 1 0 idle_state
      may_start can

take_checkpoint-IsSpeculating_example :
    (t : State) × (take_checkpoint a_kernel again a_frame (λ i. i) 0x7100 idle_state ≡ ok 0 t)
    × IsSpeculating here t
take_checkpoint-IsSpeculating_example =
    take_checkpoint-IsSpeculating a_kernel again a_frame laws (λ i. i) 0x7100 idle_state may_start

-- The state behind the checkpoint, and its invariant.
abbrev pub speculating : State
speculating = started a_kernel again a_frame (λ i. i) 0x7100 idle_state

pub in_speculation : IsSpeculating here speculating
in_speculation = started-IsSpeculating a_kernel again a_frame (λ i. i) 0x7100 idle_state may_start

kspecem_memcpy-Covers_example :
    Continues
      (λ _. Covers here 0x9003 0x9017 speculating)
      (BackAt a_kernel again a_frame here)
      (kspecem_memcpy a_kernel again a_frame 0x9003 20 speculating)
kspecem_memcpy-Covers_example =
    kspecem_memcpy-Covers a_kernel again a_frame here refl 0x9003 20 speculating
      (low 0x9000 0x901f (omega arith)) in_speculation

restart-IsRolledBack_example :
    Leaves
      (IsRolledBack idle_state.mem a_frame speculating.stack speculating.registers
        speculating.undolog.writelog_addrs speculating.undolog.writelog_data)
      (kspecem_restart a_kernel again a_frame 0 7 0x100_1234 0 0 0 speculating)
unfolding start_emulation
restart-IsRolledBack_example =
    restart-IsRolledBack a_kernel again a_frame idle_state.mem 7 0x100_1234 0 speculating refl refl
      refl in_speculation.undoable

-- A restart with two logged words, one of them on the stack of the restart.
abbrev logged_state : State
logged_state = record idle_state {
  is_in_restart = true;
  emulation = record idle_state.emulation { in_speculative_emulation = true };
  undolog = record idle_state.undolog {
    addr_slots = λ j. if j == 0 then 0x8000 else 0x6f80;
    regions = λ j i. j + i;
    wl_position = 2;
    writelog_enabled = true;
  };
}

restore_writelog_lem_example :
    (x : Option SpecAssert) × (restore_writelog a_kernel again a_frame 0x7000 0 logged_state
      ≡ ok 0 (record logged_state {
        mem = undo a_frame 0x7000 0 2 logged_state.undolog logged_state.mem;
        undolog = record logged_state.undolog { wl_position = 0 };
        spec_assert = x;
      }))
    × ((a_frame.rsp == 0) ≡ false
        → ((j : ℕ) → j < 2 → EntryRestorable a_kernel again a_frame 0x7000 0 logged_state.undolog j)
        → x ≡ none)
restore_writelog_lem_example =
    restore_writelog_lem a_kernel again a_frame 0x7000 0 logged_state
      (record { emulates = refl; restarts = refl }) refl

two_aligned : (j : ℕ) → j < 2 → logged_state.undolog.addr_slots j % 8 ≡ 0
two_aligned j lt = ground arith

restore_writelog-oldest_example :
    (t : State) × (restore_writelog a_kernel again a_frame 0x7000 0 logged_state ≡ ok 0 t)
    × (t.undolog.wl_position ≡ 0)
    × ((a : ℕ) → is_guarded a_frame 0x7000 0 (align_down 8 a) ≡ true → t.mem a ≡ logged_state.mem a)
    × ((a j : ℕ)
        → is_guarded a_frame 0x7000 0 (align_down 8 a) ≡ false
        → j < 2
        → (logged_state.undolog.addr_slots j == align_down 8 a) ≡ true
        → AbsentBelow logged_state.undolog a j
        → t.mem a ≡ logged_state.undolog.regions j (a - align_down 8 a))
    × ((a : ℕ) → AbsentBelow logged_state.undolog a 2 → t.mem a ≡ logged_state.mem a)
restore_writelog-oldest_example =
    restore_writelog-oldest a_kernel again a_frame 0x7000 0 logged_state
      (record { emulates = refl; restarts = refl }) refl two_aligned

may_call : MayCall speculating
unfolding start_emulation reset_trace
may_call = record {
  emulates = refl;
  initialised = refl;
  outside = refl;
  enabled = refl;
  no_failure = refl;
  depth = omega arith;
  word = omega arith;
}

call_return_example :
    (w : World) × (t : SpecStatistics) × ((hook_check_call_depth a_kernel again a_frame
          >> hook_restart a_kernel again a_frame 0 0 0)
        speculating
      ≡ ok 0 (returned a_kernel laws again a_frame w t speculating))
call_return_example = call_return a_kernel laws again a_frame 0 speculating may_call

abbrev busy_state : State
busy_state = record idle_state { is_in_rt = true }

-- The speculation with one word logged.
has_room : speculating.undolog.wl_position < writelog_slots
unfolding start_emulation
has_room = omega arith

abbrev one_logged : State
one_logged = record speculating {
  undolog = pushed idle_state.mem 0x8000 0x100_1234 speculating has_room;
}

one_restorable :
    (j : ℕ) → j < 1 → EntryRestorable a_kernel again a_frame 0x7000 0 one_logged.undolog j
unfolding start_emulation can_restore reset_trace
one_restorable zero lt h = record {
  free_of_log = refl;
  not_i = refl;
  not_num_entries = refl;
  not_null = refl;
}
one_restorable (suc j) lt h = absurd (omega arith)

unhindered : IsUnhindered a_kernel again a_frame one_logged
unfolding start_emulation reset_trace
unhindered = record {
  no_failure = refl;
  log_on = refl;
  stack_pointer = refl;
  restorable = one_restorable;
  frame_kept = refl;
  no_reports = refl;
}

restart-resumes_example :
    (t : State) × (kspecem_restart a_kernel again a_frame 0 7 0x100_1234 0 0 0 one_logged
      ≡ resumed t)
    × IsRolledBack idle_state.mem a_frame one_logged.stack one_logged.registers
        one_logged.undolog.writelog_addrs one_logged.undolog.writelog_data t
unfolding start_emulation reset_trace
restart-resumes_example =
    restart-resumes a_kernel again a_frame idle_state.mem 7 0x100_1234 0 one_logged refl refl refl
      (pushed-IsUndoable idle_state.mem 0x8000 0x100_1234 speculating has_room refl
        in_speculation.undoable)
      unhindered

handler-IsHandedBack_example :
    Returns
      (IsHandedBack a_kernel again a_frame 0x7200 0x7400 idle_state.mem one_logged)
      (return_to_checkpoint a_kernel again a_frame 0x7400 0x7200 5 70 one_logged)
unfolding start_emulation
handler-IsHandedBack_example =
    handler-IsHandedBack a_kernel again a_frame 0x7200 0x7400 idle_state.mem 5 70 one_logged refl
      refl refl refl refl
      (pushed-IsUndoable idle_state.mem 0x8000 0x100_1234 speculating has_room refl
        in_speculation.undoable)

abbrev allocations : Allocations
allocations = record {
  bugs = 0x60_0000;
  stacklog = 0x61_0000;
  addrs = 0x10_0000;
  regions = 0x20_0000;
  meta = 0x30_0000;
  dummy_region = 0x62_0000;
}

abbrev new_state : State
new_state = boot_state idle_state.mem 0

kspecem_common_late_init-IsReady_example :
    (t : State) × (kspecem_common_late_init a_kernel again allocations new_state ≡ ok tt t)
    × IsReady t
    × IsIdle 0x10_0000 0x20_0000 t
    × (t.mem ≡ new_state.mem)
    × (kspecem_common_late_init a_kernel again allocations t ≡ ok tt t)
kspecem_common_late_init-IsReady_example =
    kspecem_common_late_init-IsReady a_kernel laws again allocations new_state refl (record {
      has_bugs = refl;
      has_stacklog = refl;
      has_addrs = refl;
      has_regions = refl;
      has_meta = refl;
      has_dummy_region = refl;
    })

-- Two blocks of 100 and 150 instructions, with a limit of 250.
run_blocks-Leaves_example :
    Leaves
      (BackAt a_kernel again a_frame here)
      (run_blocks a_kernel again a_frame (100 ∷ 150 ∷ []) speculating)
unfolding start_emulation reset_trace
run_blocks-Leaves_example =
    run_blocks-Leaves a_kernel again a_frame here refl (100 ∷ 150 ∷ []) speculating in_speculation
      (record { outside = refl; no_sanitizer = refl }) (omega arith) (omega arith) (omega arith)

-- Eight calls, with a limit of eight.
run_calls-Leaves_example :
    Leaves (BackAt a_kernel again a_frame here) (run_calls a_kernel again a_frame 8 speculating)
unfolding start_emulation reset_trace
run_calls-Leaves_example =
    run_calls-Leaves a_kernel again a_frame here refl 8 speculating in_speculation refl
      (omega arith) (omega arith) (omega arith)
