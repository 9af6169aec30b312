-- ===== src/Tests/Transparent.antt =====
-- Two branches of a program, one after the other.
use kasper.Prelude.{
  ℕ, ◌%◌, ◌≡◌, ◌≤◌, refl, Bool, true, false, List, [], ◌∷◌, arith, ◌==◌, All, minus_one64, Option,
  some, none,
}
use kasper.Machine.{Act, Out, ok}
use kasper.Machine.Kernel.{Kernel, World}
use kasper.Store.Speculating.{Checkpoint}
use kasper.Store.Covered.{Writable}
use kasper.Assert
use kasper.Bugs
use kasper.Interface
use kasper.Interface.Checkpoints
use kasper.Interface.Program
use kasper.Interface.Transparent
use kasper.Internal
use kasper.RestartStats
use kasper.Stack
use kasper.Statistics
use kasper.Store
use kasper.Undolog
use kasper.Undolog.Restore
use kasper.Whitelist
use kasper.Interface.{restart_again}
use kasper.Interface.Program.{KernelLaws, Write, store, intrinsic, CanWrite}
use kasper.Interface.Transparent.{Branch, plain, run_branches, IsIdle, AgreesWith, CanRun}
use kasper.Interface.Transparent.Outcomes.{Returns}
use kasper.Interface.Transparent.Plain.{run_branches-plain}
use kasper.Tests.{a_kernel, a_frame, idle_state}

-- Its flags are one bit.
abbrev pub bit_kernel : Kernel
bit_kernel = record a_kernel { irq_flags = λ w. w % 2 }

abbrev pub bit_again : Act
bit_again = restart_again bit_kernel a_frame

pub bit_laws : KernelLaws bit_kernel
bit_laws = record { disables = λ w. refl; nmi_keeps = λ w. refl }

pub bit_flags : (w : World) → (w % 2 == minus_one64) ≡ false
bit_flags w = ground arith

-- Taken, the branch stores; not taken, it copies.
abbrev a_branch : Bool → Branch
a_branch taken = record {
  taken = taken;
  writes = λ direction. elim direction [
    | true ↦ store 0x8005 8 (λ i. 0xff) ∷ []
    | false ↦ intrinsic 0x9003 20 (λ i. i) ∷ []
  ];
  restart_type = 1;
  call_arg = 0;
  live = λ i. i;
  frameaddress = 0x7100;
}

abbrev branches : List Branch
branches = a_branch true ∷ a_branch false ∷ []

pub below :
    (c : Checkpoint) (from to : ℕ)
    → c.addrs ≡ 0x10_0000
    → c.regions ≡ 0x20_0000
    → to ≤ 0x10_0000
    → Writable bit_kernel c from to
below c from to at_addrs at_regions le a lo hi = record {
  outside_addrs = rw at_addrs (ground arith);
  outside_regions = rw at_regions (ground arith);
  not_own = ground arith;
  word = omega arith;
  not_last = omega arith;
}

can_run : (taken : Bool) → CanRun bit_kernel a_frame 0x10_0000 0x20_0000 (a_branch taken)
can_run taken = record {
  frame_above = omega arith;
  frame_fits = omega arith;
  frame_word = omega arith;
  loggable = loggable;
}
  where
    loggable :
        (c : Checkpoint)
        → c.addrs ≡ 0x10_0000
        → c.regions ≡ 0x20_0000
        → (direction : Bool) → All (CanWrite bit_kernel c) ((a_branch taken).writes direction)
    loggable c e e' true = ((omega arith, below c 0x8005 0x800d e e' (omega arith)), tt)
    loggable c e e' false = (below c 0x9000 0x901f e e' (omega arith), tt)

pub idle : IsIdle 0x10_0000 0x20_0000 idle_state
idle = record {
  idle = refl;
  log_off = refl;
  no_swap = refl;
  addrs_at = refl;
  regions_at = refl;
  buffer = refl;
}

run_branches-plain_example :
    Returns
      (λ t. IsIdle 0x10_0000 0x20_0000 t × AgreesWith a_frame (plain branches idle_state.mem) t)
      (run_branches bit_kernel bit_again a_frame branches idle_state)
run_branches-plain_example =
    run_branches-plain bit_kernel bit_laws bit_again a_frame 0x10_0000 0x20_0000 refl refl refl
      bit_flags branches idle_state idle (can_run true, (can_run false, tt))

-- Where a program returns: two bytes of memory, and the number of restarts.
seen : Out (Unit {0}) → Option (ℕ × ℕ × ℕ)
seen (ok a t) = some (t.mem 0x8005, t.mem 0x9004, t.total_statistics.total_restarts)
seen o = none

-- Both branches speculate, both speculations are undone, and the program returns.
run_branches-seen :
    seen (run_branches bit_kernel bit_again a_frame branches idle_state) ≡ some (0xff, 1, 2)
unfolding seen Interface.enter_nonmi_rt Interface.enter_rt Interface.leave_nonmi_rt
    Interface.leave_rt Interface.may_checkpoint Interface.hook_new_checkpoint Interface.hook_restart
    Interface.hook_leave_rt Interface.hook_save_stack Interface.hook_store Interface.hook_memcpy
    Internal.reset_trace Internal.start_emulation Internal.new_checkpoint Internal.stop_emulation
    Internal.restore_stack Internal.panic_if_failed Internal.restart_exit Internal.restart_end
    Internal.restart_undo Internal.kspecem_restart Statistics.add_spec_statistics
    Bugs.report_print_and_clear Stack.save_stack Undolog.can_restore Undolog.restore_region
    Undolog.restore_entry Undolog.set_position Undolog.restore_loop Undolog.restore_writelog
    Whitelist.is_whitelist_task Assert.lt_assert Store.push_entry Store.write_wl_aligned
    Store.write_wl Store.kspecem_store Store.memcpy_loop Store.kspecem_memcpy
    RestartStats.add_restart_to_statistics Transparent.run_branches Checkpoints.take_checkpoint
    Program.run_write Program.run_writes Restore.undo
run_branches-seen = refl
