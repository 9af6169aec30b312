-- ===== src/Interface/Rollback.antt =====
-- A whole speculation, from the checkpoint over the program's writes to the restart
-- (kspecem_interface.c, kspecem_internal.c, kspecem_undolog.c, kspecem_stack.c).
use kasper.Prelude.{
  ℕ, if◌then◌else◌, ◌≡◌, ap, Bool, true, false, arith, not, ◌&&◌, List, ltb, ◌==◌, All,
}
use kasper.Machine.{
  State, Cmd, Act, pure, Out, ok, resumed, panicked, reentered, ◌>>=◌, ◌>>◌, and_then,
}
use kasper.Machine.Kernel.{Kernel, Frame}
use kasper.Machine.Types.RestartType
use kasper.Internal.{start_emulation, kspecem_restart}
use kasper.Internal.Exit.{Leaves, Leaves-bind}
use kasper.Store.Speculating.{Checkpoint, IsSpeculating, Continues, BackAt, restart-BackAt}
use kasper.Interface.{enter_nonmi_rt, enter_rt, leave_rt, within_rt, hook_restart}
use kasper.Interface.Program.{
  KernelLaws, Write, run_writes, CanWrite, busy_with, IsSpeculating-busy_with, GoesOn,
  run_writes-GoesOn,
}
use kasper.Interface.Checkpoints.{
  take_checkpoint, MayStart, checkpoint, started, take_checkpoint-started, started-IsSpeculating,
}

unless_busy :
    (Q : State → Type 0) (b : Bool) (m : Cmd ℕ) (s : State)
    → b ≡ true
    → Leaves Q (m s)
    → Leaves Q ((if not b then pure 0 else m) s)
unless_busy Q true m s e h = h
unless_busy Q false m s e h = absurd (ground arith)

-- After a call that may go on, one that does not.
pub Continues-Leaves :
    {A B : Type 0} (P : A → State → Type 0) (Q : State → Type 0) (o : Out A) (next : A → Cmd B)
    → Continues P Q o
    → ((a : A) (s : State) → P a s → Leaves Q (next a s))
    → Leaves Q (and_then o next)
Continues-Leaves P Q (ok a s) next h step = step a s h
Continues-Leaves P Q (resumed s) next h step = h
Continues-Leaves P Q (panicked site s) next h step = h
Continues-Leaves P Q (reentered s) next h step = h

module _ (k : Kernel) (again : Act) (f : Frame) where
  pub at_depth_0 :
      (type : ℕ) (s : State)
      → s.emulation.spec_call_depth ≡ 0
      → (type == RestartType.on_return && ltb 0 s.emulation.spec_call_depth) ≡ false
  at_depth_0 type s e = rw e (ground arith)

  -- The hook in a speculation: kspecem_restart behind the switch of interrupts.
  pub hook_restart-BackAt :
      (type call_arg : ℕ) (c : Checkpoint) (s : State)
      → (f.at_addr == 0) ≡ false
      → (type == RestartType.on_return && ltb 0 s.emulation.spec_call_depth) ≡ false
      → IsSpeculating c s
      → Leaves (BackAt k again f c) (hook_restart k again f 0 type call_arg s)
  unfolding hook_restart enter_rt enter_nonmi_rt
  hook_restart-BackAt type call_arg c s local not_return v =
      let world = k.stop_nmi (k.local_irq_disable (k.preempt_disable s.world)) in
      let body = kspecem_restart k again f 0 type f.return_address call_arg 0 0 in
      unless_busy (BackAt k again f c) s.init_done (within_rt k again 102 body) s v.initialised (
        Leaves-bind (BackAt k again f c) (body (busy_with true world s))
          (λ a. leave_rt k again 102 (k.irq_flags (k.preempt_disable s.world)) >> pure a)
          (restart-BackAt k again f c type f.return_address call_arg (busy_with true world s)
            not_return local (IsSpeculating-busy_with c true world v)))

  -- The program takes a checkpoint, writes, and the speculation ends.
  unfoldable pub speculate :
      (live : ℕ → ℕ) (frameaddress : ℕ) (writes : List Write) (restart_type call_arg : ℕ) → Cmd ℕ
  speculate live frameaddress writes type call_arg =
      take_checkpoint k again f live frameaddress >>= λ flags.
      run_writes k again f writes >> hook_restart k again f 0 type call_arg

  -- A program that may take a checkpoint, then writes any list of stores of at most eight bytes and
  -- memory intrinsics, if the words that their hooks save are outside the log's arrays and the
  -- log's two variables and end below 2^64, and then reaches kspecem_hook_restart with any restart
  -- type, does not go past the hook: it goes on at the checkpoint with the memory and registers
  -- that it had there (but for words of the runtime's own frames outside the saved frame), the
  -- emulation, the log and the runtime at rest; or the kernel panics. The writes are not bounded in
  -- number, and no failed assertion starts a second restart.
  pub speculate-IsRolledBack :
      KernelLaws k
      → (f.at_addr == 0) ≡ false
      → (live : ℕ → ℕ) (frameaddress : ℕ) (writes : List Write) (type call_arg : ℕ) (s : State)
      → MayStart k again f frameaddress s
      → All (CanWrite k (checkpoint k again f live frameaddress s)) writes
      → Leaves
          (BackAt k again f (checkpoint k again f live frameaddress s))
          (speculate live frameaddress writes type call_arg s)
  unfolding speculate start_emulation
  speculate-IsRolledBack laws local live frameaddress writes type call_arg s m can =
      let c = checkpoint k again f live frameaddress s in
      let t = started k again f live frameaddress s in
      rw (take_checkpoint-started k again f laws live frameaddress s m) (
        Continues-Leaves (GoesOn k laws again f c local t) (BackAt k again f c)
          (run_writes k again f writes t) _
          (run_writes-GoesOn k laws again f c local writes t can
            (started-IsSpeculating k again f live frameaddress s m))
          (λ _ u (v, same).
            hook_restart-BackAt type call_arg c u local
              (at_depth_0 type u (ap (λ e. e.spec_call_depth) same)) v))
