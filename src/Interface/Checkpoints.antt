-- ===== src/Interface/Checkpoints.antt =====
-- The start of a speculation, as passes/kspecem-spec/KSpecEmSpec.cpp puts it before a conditional
-- branch (insertNewCheckpointHook): checkpoint, stack, registers, and out of the runtime.
use kasper.Prelude.{
  sym, subst, ℕ, ◌+◌, ◌-◌, ◌^◌, ◌≤◌, ◌<◌, ◌≡◌, refl, ap, true, false, ◌&&◌, arith, leb, ltb, ◌==◌,
  wrap64, minus_one64,
}
use kasper.Machine.{
  State, in_spec, Act, Cmd, ok, pure, ◌>>=◌, ◌>>◌, modify, write_bytes, read_bytes,
}
use kasper.Machine.Kernel.{Kernel, Frame}
use kasper.Machine.Types.{StackLog}
use kasper.Machine.Types.FuncType
use kasper.Assert.{lt_assert}
use kasper.Statistics.{stats_entry}
use kasper.Statistics.Bounded.{add_bounded, add_spec_statistics-add_bounded}
use kasper.Stack.{save_stack, stacklog_maxlen}
use kasper.Registers.{asm_save_registers}
use kasper.Internal.{frame_start, new_checkpoint, reset_trace, start_emulation}
use kasper.Internal.Rollback.{in_saved_frame}
use kasper.Undolog.Saved.{saved}
use kasper.Store.Speculating.{Checkpoint, IsSpeculating}
use kasper.Interface.{
  enter_nonmi_rt, enter_rt, leave_rt, may_checkpoint, hook_new_checkpoint, hook_save_stack,
  hook_leave_rt,
}
use kasper.Interface.Program.{KernelLaws}

copied :
    (bytes mem : ℕ → ℕ) (base len a : ℕ)
    → (leb base a && ltb a (base + len)) ≡ true
    → write_bytes bytes 0 len (read_bytes mem base) (a - base) ≡ mem a
copied bytes mem base len a h = rw (inside base len a h) (ap mem (within base len a h))
  where
    inside :
        (base len a : ℕ)
        → (leb base a && ltb a (base + len)) ≡ true
        → (leb 0 (a - base) && ltb (a - base) (0 + len)) ≡ true
    inside base len a h = ground arith

    within :
        (base len a : ℕ) → (leb base a && ltb a (base + len)) ≡ true → base + (a - base - 0) ≡ a
    within base len a h = ground arith

module _ (k : Kernel) (again : Act) (f : Frame) where
  -- `live` are the registers, `frameaddress` is the frame of the function that branches.
  unfoldable pub take_checkpoint : (live : ℕ → ℕ) (frameaddress : ℕ) → Cmd ℕ
  take_checkpoint live frameaddress = hook_new_checkpoint k again f >>= λ flags.
      hook_save_stack k again f flags frameaddress
      >> (modify (λ s. record s { registers = asm_save_registers live s.registers flags })
          >> (hook_leave_rt k again f flags >> pure flags))

  -- The flags that the checkpoint returns.
  abbrev pub flags_at : State → ℕ
  flags_at s = k.irq_flags (k.preempt_disable s.world)

  -- A program outside speculation that may take a checkpoint: the arrays are there, and the frame to
  -- be saved fits the stack's buffer.
  pub record MayStart (frameaddress : ℕ) (s : State) : Type 0 where
    pub idle : in_spec s ≡ false
    pub allowed : may_checkpoint k again f s ≡ true
    pub initialised : s.init_done ≡ true
    pub flags : (flags_at s == minus_one64) ≡ false
    pub buffer : (s.stack.wl_stack == 0) ≡ false
    pub addrs_present : (s.undolog.writelog_addrs == 0) ≡ false
    pub regions_present : (s.undolog.writelog_data == 0) ≡ false
    pub frame_above : f.frame_address + 0x10 ≤ frameaddress
    pub frame_fits : frameaddress ≤ f.frame_address + 0x10 + stacklog_maxlen
    pub frame_word : frameaddress < 2 ^ 64

  -- In the runtime, with the emulation on.
  abbrev begun : State → State
  begun s = start_emulation (
      let r = reset_trace (record s {
        is_in_rt = true;
        world = k.stop_nmi (k.local_irq_disable (k.preempt_disable s.world));
      }) in
      record r {
        statistics =
            add_bounded (stats_entry FuncType.new_checkpoint 0 0 0 f.return_address) r.statistics;
      })

  hook_new_checkpoint-begun :
      (frameaddress : ℕ) (s : State)
      → MayStart frameaddress s
      → hook_new_checkpoint k again f s ≡ ok (flags_at s) (begun s)
  unfolding hook_new_checkpoint enter_rt enter_nonmi_rt new_checkpoint lt_assert reset_trace
  hook_new_checkpoint-begun frameaddress s m =
      simp (m.allowed, m.idle, m.buffer, add_spec_statistics-add_bounded)

  frame_len :
      (rsp frameaddress : ℕ)
      → rsp ≤ frameaddress
      → frameaddress < 2 ^ 64
      → wrap64 (frameaddress + (2 ^ 64 - rsp)) ≡ frameaddress - rsp
  frame_len rsp frameaddress above word = ground arith

  nonzero : (n m : ℕ) → 1 ≤ m → m ≤ n → (n == 0) ≡ false
  nonzero n m h le = ground arith

  within_leb : (n m : ℕ) → n ≤ m → leb n m ≡ true
  within_leb n m h = ground arith

  -- The buffer after the copy of the frame from the stack pointer up to `frameaddress`.
  abbrev frame_of : ℕ → StackLog → (ℕ → ℕ) → StackLog
  frame_of frameaddress t mem =
      let rsp : ℕ = f.frame_address + 0x10 in
      let len : ℕ = frameaddress - rsp in
      record {
        wl_stack = t.wl_stack;
        wl_stack_bytes = write_bytes t.wl_stack_bytes 0 len (read_bytes mem (frameaddress - len));
        wl_stack_base_address = frameaddress;
        wl_stack_len = len;
      }

  save_stack-frame_of :
      (frameaddress : ℕ) (s : State)
      → (s.stack.wl_stack == 0) ≡ false
      → f.frame_address + 0x10 ≤ frameaddress
      → frameaddress ≤ f.frame_address + 0x10 + stacklog_maxlen
      → frameaddress < 2 ^ 64
      → save_stack again f frameaddress s
        ≡ ok tt (record s { stack = frame_of frameaddress s.stack s.mem })
  unfolding save_stack lt_assert
  save_stack-frame_of frameaddress s buffer above fits word = simp (
    buffer,
    frame_len (f.frame_address + 0x10) frameaddress above word,
    nonzero frameaddress 0x10 (omega arith) (omega arith),
    nonzero (f.frame_address + 0x10) 0x10 (omega arith) (omega arith),
    within_leb (frameaddress - (f.frame_address + 0x10)) stacklog_maxlen (omega arith),
  )

  frame_at :
      (rsp frameaddress : ℕ)
      → rsp ≤ frameaddress
      → frameaddress < 2 ^ 64
      → wrap64 (frameaddress + (2 ^ 64 - (frameaddress - rsp)))
        ≡ frameaddress - (frameaddress - rsp)
  frame_at rsp frameaddress above word = omega arith

  frame_saved :
      (frameaddress a : ℕ) (t : StackLog) (mem : ℕ → ℕ)
      → f.frame_address + 0x10 ≤ frameaddress
      → frameaddress < 2 ^ 64
      → in_saved_frame (frame_of frameaddress t mem) a ≡ true
      → (frame_of frameaddress t mem).wl_stack_bytes (a - frame_start (frame_of frameaddress t mem))
        ≡ mem a
  frame_saved frameaddress a t mem above word h =
      let rsp : ℕ = f.frame_address + 0x10 in
      let len : ℕ = frameaddress - rsp in
      subst
        (λ n.
          (leb n a && ltb a (n + len)) ≡ true
          → write_bytes t.wl_stack_bytes 0 len (read_bytes mem (frameaddress - len)) (a - n)
            ≡ mem a)
        (sym (frame_at rsp frameaddress above word))
        (copied t.wl_stack_bytes mem (frameaddress - len) len a) h

  -- The program goes on in speculation, with the state of the checkpoint `c` of `s`.
  abbrev pub checkpoint : (live : ℕ → ℕ) (frameaddress : ℕ) → State → Checkpoint
  checkpoint live frameaddress s = record {
    memory = s.mem;
    frame = frame_of frameaddress s.stack s.mem;
    registers = asm_save_registers live s.registers (flags_at s);
    addrs = s.undolog.writelog_addrs;
    regions = s.undolog.writelog_data;
  }

  abbrev pub started : (live : ℕ → ℕ) (frameaddress : ℕ) → State → State
  started live frameaddress s =
      let t = begun s in
      record t {
        stack = frame_of frameaddress s.stack s.mem;
        registers = asm_save_registers live s.registers (flags_at s);
        is_in_rt = false;
        world = k.preempt_enable (k.local_irq_restore (flags_at s) (k.restart_nmi t.world));
      }

  -- A checkpoint that may be taken is taken: the call returns the flags and leaves `started`.
  pub take_checkpoint-started :
      KernelLaws k
      → (live : ℕ → ℕ) (frameaddress : ℕ) (s : State) → MayStart frameaddress s
      → take_checkpoint live frameaddress s ≡ ok (flags_at s) (started live frameaddress s)
  unfolding take_checkpoint hook_save_stack hook_leave_rt leave_rt lt_assert start_emulation
      reset_trace
  take_checkpoint-started laws live frameaddress s m =
      rw
        (
          hook_new_checkpoint-begun frameaddress s m,
          m.flags,
          save_stack-frame_of frameaddress (begun s) m.buffer m.frame_above m.frame_fits
              m.frame_word,
        )
        (simp (laws.nmi_keeps, laws.disables))

  pub started-IsSpeculating :
      (live : ℕ → ℕ) (frameaddress : ℕ) (s : State)
      → MayStart frameaddress s
      → IsSpeculating (checkpoint live frameaddress s) (started live frameaddress s)
  unfolding start_emulation reset_trace saved
  started-IsSpeculating live frameaddress s m = record {
    emulates = refl;
    enabled = refl;
    initialised = m.initialised;
    addrs_at = refl;
    regions_at = refl;
    addrs_present = m.addrs_present;
    regions_present = m.regions_present;
    fits = omega arith;
    same_frame = refl;
    same_registers = refl;
    undoable = record {
      aligned = λ j lt. absurd (omega arith);
      undoes = λ a. refl;
      frame_saved = λ a h. frame_saved frameaddress a s.stack s.mem m.frame_above m.frame_word h;
    };
  }

  -- A program outside speculation that may take a checkpoint takes it: the call returns the flags of
  -- the interrupts, and the program goes on in a speculation whose checkpoint is the memory, the
  -- registers and the frame of the call.
  pub take_checkpoint-IsSpeculating :
      KernelLaws k
      → (live : ℕ → ℕ) (frameaddress : ℕ) (s : State) → MayStart frameaddress s
      → (t : State) × (take_checkpoint live frameaddress s ≡ ok (flags_at s) t)
        × IsSpeculating (checkpoint live frameaddress s) t
  take_checkpoint-IsSpeculating laws live frameaddress s m = (
    started live frameaddress s,
    take_checkpoint-started laws live frameaddress s m,
    started-IsSpeculating live frameaddress s m,
  )
