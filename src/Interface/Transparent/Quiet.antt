-- ===== src/Interface/Transparent/Quiet.antt =====
-- A branch of the program outside speculation, and inside (Interface.Transparent).
use kasper.Prelude.{
  ℕ, ◌+◌, ◌≡◌, refl, ap, subst, ◌∙◌, fun_ext, Bool, true, false, not, List, [], ◌∷◌, ◌==◌,
  if◌then◌else◌, All, Bool-cases, inl, inr, minus_one64, ◌≤◌, ◌<◌, ◌^◌,
}
use kasper.Machine.{State, Act, ok}
use kasper.Machine.Kernel.{Kernel, Frame}
use kasper.Assert.{lt_assert, kspecem_panic}
use kasper.Internal.{kspecem_restart}
use kasper.Internal.Exit.{Leaves}
use kasper.Registers.{asm_save_registers}
use kasper.Stack.{stacklog_maxlen}
use kasper.Store.Speculating.{Checkpoint, IsSpeculating, BackAt}
use kasper.Interface.{
  enter_nonmi_rt, enter_rt, leave_rt, hook_restart, hook_store, hook_memcpy, hook_new_checkpoint,
  hook_save_stack, hook_leave_rt, may_checkpoint,
}
use kasper.Interface.Program.{
  KernelLaws, Write, store, intrinsic, run_write, run_writes, CanWrite, GoesOn, run_writes-GoesOn,
}
use kasper.Interface.Checkpoints.{take_checkpoint, MayStart}
use kasper.Interface.Rollback.{hook_restart-BackAt, at_depth_0, Continues-Leaves}
use kasper.Interface.Transparent.{
  Branch, plain_write, plain_writes, run_direction, run_path, IsIdle,
}
use kasper.Interface.Transparent.Outcomes.{
  Returns, IsIdle-busy_with, Returns-bind, unsaved_byte, allowed-initialised,
}

module _ (k : Kernel) (laws : KernelLaws k) (again : Act) (f : Frame) (addrs regions : ℕ) where
  -- The same memory outside speculation.
  abbrev pub Quiet : (m : ℕ → ℕ) → State → Type 0
  Quiet m t = IsIdle addrs regions t × (t.mem ≡ m)

  -- Outside speculation the hooks of the writes do nothing.
  run_write-idle :
      (w : Write) (s : State)
      → s.undolog.writelog_enabled ≡ false
      → run_write k again f w s ≡ ok tt (record s { mem = plain_write w s.mem })
  unfolding run_write hook_store hook_memcpy
  run_write-idle (store addr len bytes) s off = rw off refl
  run_write-idle (intrinsic addr size bytes) s off = rw off refl

  run_writes-idle :
      (ws : List Write) (s : State)
      → s.undolog.writelog_enabled ≡ false
      → run_writes k again f ws s ≡ ok tt (record s { mem = plain_writes ws s.mem })
  unfolding run_writes
  run_writes-idle [] s off = refl
  run_writes-idle (w ∷ ws) s off =
      rw (run_write-idle w s off) (run_writes-idle ws (record s { mem = plain_write w s.mem }) off)

  -- So does the restart's hook, but for the switches of interrupts.
  hook_restart-idle :
      (type call_arg : ℕ) (s : State)
      → IsIdle addrs regions s
      → Returns (Quiet s.mem) (hook_restart k again f 0 type call_arg s)
  unfolding hook_restart enter_rt enter_nonmi_rt leave_rt lt_assert kspecem_restart
  hook_restart-idle type call_arg s v = elim (Bool-cases s.init_done) [
    | inl e ↦
        simp (e, v.idle, laws.nmi_keeps, laws.disables)
          (
            record {
              idle = v.idle;
              log_off = v.log_off;
              no_swap = v.no_swap;
              addrs_at = v.addrs_at;
              regions_at = v.regions_at;
              buffer = v.buffer;
            },
            refl,
          )
    | inr e ↦ simp e (v, refl)
  ]

  -- Behind a restart the switch out of the runtime, which panics if interrupts are on.
  pub hook_leave_rt-idle :
      (flags : ℕ) (s : State)
      → IsIdle addrs regions s
      → Returns (Quiet s.mem) (hook_leave_rt k again f flags s)
  unfolding hook_leave_rt leave_rt lt_assert kspecem_panic
  hook_leave_rt-idle flags s v = elim (Bool-cases (flags == minus_one64)) [
    | inl e ↦ rw e (v, refl)
    | inr e ↦ elim (Bool-cases (k.irqs_disabled s.world)) [
      | inl off ↦ rw (e, off) (IsIdle-busy_with addrs regions false _ s v, refl)
      | inr on ↦ rw (e, on, v.idle) tt
    ]
  ]

  -- The branch outside speculation: the direction that its condition gives.
  run_direction-idle :
      (b : Branch) (s : State)
      → IsIdle addrs regions s
      → Returns (Quiet (plain_writes (b.writes b.taken) s.mem)) (run_direction k again f b s)
  unfolding run_direction
  run_direction-idle b s v =
      let t = record s { emulation = record s.emulation { swap_branch_condition = false } } in
      rw (v.no_swap, run_writes-idle (b.writes b.taken) t v.log_off)
        (
          record {
            idle = v.idle;
            log_off = v.log_off;
            no_swap = refl;
            addrs_at = v.addrs_at;
            regions_at = v.regions_at;
            buffer = v.buffer;
          },
          refl,
        )

  pub run_path-idle :
      (b : Branch) (s : State)
      → IsIdle addrs regions s
      → Returns (Quiet (plain_writes (b.writes b.taken) s.mem)) (run_path k again f b s)
  unfolding run_path
  run_path-idle b s v =
      let m = plain_writes (b.writes b.taken) s.mem in
      Returns-bind (Quiet m) (Quiet m) (run_direction k again f b s) _ (run_direction-idle b s v)
        (λ _ t (w, e).
          subst (λ n. Returns (Quiet n) (hook_restart k again f 0 b.restart_type b.call_arg t)) e
            (hook_restart-idle b.restart_type b.call_arg t w))

  -- In a speculation the way does not matter: it ends at the checkpoint.
  pub run_path-BackAt :
      (b : Branch) (c : Checkpoint) (s : State)
      → (f.at_addr == 0) ≡ false
      → ((direction : Bool) → All (CanWrite k c) (b.writes direction))
      → s.emulation.spec_call_depth ≡ 0
      → IsSpeculating c s
      → Leaves (BackAt k again f c) (run_path k again f b s)
  unfolding run_path run_direction
  run_path-BackAt b c s local can depth v =
      let t = record s { emulation = record s.emulation { swap_branch_condition = false } } in
      let direction : Bool = if s.emulation.swap_branch_condition then not b.taken else b.taken in
      Continues-Leaves (GoesOn k laws again f c local t) (BackAt k again f c)
        (run_writes k again f (b.writes direction) t) _
        (run_writes-GoesOn k laws again f c local (b.writes direction) t (can direction)
          (cleared-IsSpeculating c s v))
        (λ _ u (w, same).
          hook_restart-BackAt k again f b.restart_type b.call_arg c u local
            (at_depth_0 k again f b.restart_type u (ap (λ e. e.spec_call_depth) same ∙ depth)) w)
    where
      cleared-IsSpeculating :
          (c : Checkpoint) (s : State)
          → IsSpeculating c s
          → IsSpeculating c
              (record s { emulation = record s.emulation { swap_branch_condition = false } })
      cleared-IsSpeculating c s v = record {
        emulates = v.emulates;
        enabled = v.enabled;
        initialised = v.initialised;
        addrs_at = v.addrs_at;
        regions_at = v.regions_at;
        addrs_present = v.addrs_present;
        regions_present = v.regions_present;
        fits = v.fits;
        same_frame = v.same_frame;
        same_registers = v.same_registers;
        undoable = v.undoable;
      }

  -- A checkpoint that may not be taken changes nothing.
  pub take_checkpoint-refused :
      (live : ℕ → ℕ) (frameaddress : ℕ) (s : State)
      → may_checkpoint k again f s ≡ false
      → take_checkpoint k again f live frameaddress s ≡ ok minus_one64 s
  unfolding take_checkpoint hook_new_checkpoint hook_save_stack hook_leave_rt
  take_checkpoint-refused live frameaddress s off = rw (off, unsaved live s.registers) refl
    where
      unsaved : (live registers : ℕ → ℕ) → asm_save_registers live registers minus_one64 ≡ registers
      unsaved live registers = fun_ext λ i. unsaved_byte live registers i

  pub MayStart-allowed :
      (frameaddress : ℕ) (s : State)
      → may_checkpoint k again f s ≡ true
      → (k.irq_flags (k.preempt_disable s.world) == minus_one64) ≡ false
      → IsIdle addrs regions s
      → (addrs == 0) ≡ false
      → (regions == 0) ≡ false
      → f.frame_address + 0x10 ≤ frameaddress
      → frameaddress ≤ f.frame_address + 0x10 + stacklog_maxlen
      → frameaddress < 2 ^ 64
      → MayStart k again f frameaddress s
  MayStart-allowed frameaddress s allowed flags v present present' above fits word = record {
    idle = v.idle;
    allowed = allowed;
    initialised = allowed-initialised k again f s allowed;
    flags = flags;
    buffer = v.buffer;
    addrs_present = rw v.addrs_at present;
    regions_present = rw v.regions_at present';
    frame_above = above;
    frame_fits = fits;
    frame_word = word;
  }
