-- ===== src/Interface/Transparent.antt =====
-- A program of branches, as passes/kspecem and passes/kspecem-spec make it: a checkpoint before each
-- branch, the swap of its direction, its writes with their hooks, and a restart's hook behind them.
-- Where a restart resumes the program it goes on behind kspecem_asm_save_registers of that branch.
pub mod Outcomes
pub mod Quiet
pub mod Plain
use kasper.Prelude.{
  ℕ, ◌+◌, ◌≡◌, refl, ap, sym, subst, ◌∙◌, fun_ext, Bool, true, false, not, ◌&&◌, List, [], ◌∷◌,
  ◌==◌, if◌then◌else◌, All, Bool-cases, inl, inr, align_down, leb, ltb, minus_one64, ◌≤◌, ◌<◌, ◌^◌,
}
use kasper.Machine.{
  State, in_spec, Act, Cmd, Out, ok, resumed, panicked, reentered, pure, ◌>>=◌, ◌>>◌, modify, read,
  and_then, write_bytes,
}
use kasper.Machine.Kernel.{Kernel, Frame, World}
use kasper.Assert.{lt_assert, kspecem_panic}
use kasper.Internal.{start_emulation, kspecem_restart}
use kasper.Internal.Exit.{Leaves}
use kasper.Registers.{asm_save_registers}
use kasper.Stack.{stacklog_maxlen}
use kasper.Undolog.Restore.{is_guarded}
use kasper.Store.Speculating.{Checkpoint, IsSpeculating, Continues, Continues-bind, BackAt}
use kasper.Store.Covered.{Continues-mono}
use kasper.Interface.{
  enter_nonmi_rt, enter_rt, leave_rt, within_rt, hook_restart, hook_store, hook_memcpy,
  hook_new_checkpoint, hook_save_stack, hook_leave_rt, may_checkpoint, rt_busy,
}
use kasper.Interface.Program.{
  KernelLaws, Write, store, intrinsic, run_write, run_writes, CanWrite, GoesOn, run_writes-GoesOn,
  busy_with, IsSpeculating-busy_with,
}
use kasper.Interface.Checkpoints.{
  take_checkpoint, flags_at, MayStart, checkpoint, started, take_checkpoint-started,
  started-IsSpeculating,
}
use kasper.Interface.Rollback.{hook_restart-BackAt, at_depth_0, Continues-Leaves}

-- A branch: the direction that its condition gives, what each direction writes, and the restart behind
-- it.
pub record Branch : Type 0 where
  pub taken : Bool
  pub writes : Bool → List Write
  pub restart_type : ℕ
  pub call_arg : ℕ
  pub live : ℕ → ℕ
  pub frameaddress : ℕ

-- What the program without hooks does to memory.
abbrev pub plain_write : Write → (ℕ → ℕ) → ℕ → ℕ
plain_write (store addr len bytes) mem = write_bytes mem addr len bytes
plain_write (intrinsic addr size bytes) mem = write_bytes mem addr size bytes

abbrev pub plain_writes : List Write → (ℕ → ℕ) → ℕ → ℕ
plain_writes [] mem = mem
plain_writes (w ∷ ws) mem = plain_writes ws (plain_write w mem)

abbrev pub plain : List Branch → (ℕ → ℕ) → ℕ → ℕ
plain [] mem = mem
plain (b ∷ bs) mem = plain bs (plain_writes (b.writes b.taken) mem)

-- Where a restart inside resumes, `next` runs.
abbrev pub on_resume : {A : Type 0} → Act → Out A → Out (Unit {0})
on_resume next (ok a s) = ok tt s
on_resume next (resumed s) = next s
on_resume next (panicked site s) = panicked site s
on_resume next (reentered s) = reentered s

module _ (k : Kernel) (again : Act) (f : Frame) where
  -- The branch reads the swap and clears it, and goes the way that the two give. The three bytes
  -- that it reads behind the swap are 0 here (Passes.KSpecEmSpec.Direction has them).
  unfoldable pub run_direction : Branch → Act
  run_direction b =
      read (λ s. s.emulation.swap_branch_condition)
        λ swap.
          modify
            (λ s. record s { emulation = record s.emulation { swap_branch_condition = false } })
          >> run_writes k again f (b.writes (if swap then not b.taken else b.taken))

  unfoldable pub run_path : Branch → Cmd ℕ
  unfolding run_direction
  run_path b = run_direction b >> hook_restart k again f 0 b.restart_type b.call_arg

  unfoldable pub run_branch : Branch → Act
  unfolding run_path
  run_branch b = take_checkpoint k again f b.live b.frameaddress >>= λ flags s.
      on_resume (hook_leave_rt k again f flags >> (run_path b >>= λ _. pure tt)) (run_path b s)

  unfoldable pub run_branches : List Branch → Act
  unfolding run_branch
  run_branches [] = pure tt
  run_branches (b ∷ bs) = run_branch b >> run_branches bs

-- Outside speculation, with the log's arrays at their places.
pub record IsIdle (addrs regions : ℕ) (s : State) : Type 0 where
  pub idle : in_spec s ≡ false
  pub log_off : s.undolog.writelog_enabled ≡ false
  pub no_swap : s.emulation.swap_branch_condition ≡ false
  pub addrs_at : s.undolog.writelog_addrs ≡ addrs
  pub regions_at : s.undolog.writelog_data ≡ regions
  pub buffer : (s.stack.wl_stack == 0) ≡ false

-- Memory is `m` but for the words of the frames that run a restart.
abbrev pub AgreesWith : Frame → (m : ℕ → ℕ) → State → Type 0
AgreesWith f m t = (a : ℕ) → is_guarded f f.frame_address 0 (align_down 8 a) ≡ false → t.mem a ≡ m a

-- The branch's frame fits the stack's buffer, and what either direction writes may be logged.
pub record CanRun (k : Kernel) (f : Frame) (addrs regions : ℕ) (b : Branch) : Type 0 where
  pub frame_above : f.frame_address + 0x10 ≤ b.frameaddress
  pub frame_fits : b.frameaddress ≤ f.frame_address + 0x10 + stacklog_maxlen
  pub frame_word : b.frameaddress < 2 ^ 64
  pub loggable :
      (c : Checkpoint)
      → c.addrs ≡ addrs
      → c.regions ≡ regions
      → (direction : Bool) → All (CanWrite k c) (b.writes direction)
