-- ===== src/Interface/Program.antt =====
-- The writes of an instrumented program: passes/kspecem/KSpecEm.cpp puts kspecem_hook_store before
-- each store and kspecem_hook_memcpy before each memory intrinsic (visitStoreInst,
-- visitMemIntrinsic). Each write of a speculation keeps it undoable.
use kasper.Prelude.{
  ℕ, ◌+◌, ◌≤◌, ◌<◌, ◌≡◌, refl, ◌∙◌, ap, ◌⊎◌, inl, inr, Bool, true, false, ◌&&◌, List, [], ◌∷◌,
  arith, leb, ltb, ◌==◌, Bool-cases, align_down, All,
}
use kasper.Machine.{State, Act, pure, ◌>>◌, modify, write_bytes}
use kasper.Machine.Kernel.{Kernel, Frame, World}
use kasper.Assert.{lt_assert}
use kasper.Undolog.Saved.{saved}
use kasper.Store.{kspecem_store, kspecem_memcpy}
use kasper.Store.Logged.{is_logged, saved-is_logged}
use kasper.Store.Speculating.{Checkpoint, IsSpeculating, Continues, Continues-bind, BackAt}
use kasper.Store.Covered.{
  Writable, Covers, Continues-mono, kspecem_store-Covers, kspecem_memcpy-Covers,
}
use kasper.Interface.{
  enter_nonmi_rt, enter_rt, leave_nonmi_rt, leave_rt, within_rt, within_nonmi_rt, hook_store,
  hook_memcpy,
}

-- Documented behaviour of the kernel: local_irq_save turns interrupts off on the processor, and the
-- switch of the non-maskable interrupts leaves that as it is.
pub record KernelLaws (k : Kernel) : Type 0 where
  pub disables : (w : World) → k.irqs_disabled (k.local_irq_disable w) ≡ true
  pub nmi_keeps : (w : World) → k.irqs_disabled (k.stop_nmi w) ≡ k.irqs_disabled w

pub data Write : Type 0 where
  store : (addr len : ℕ) (bytes : ℕ → ℕ) → Write
  intrinsic : (addr size : ℕ) (bytes : ℕ → ℕ) → Write

module _ (k : Kernel) (again : Act) (f : Frame) where
  -- The hook, then the write itself.
  unfoldable pub run_write : Write → Act
  run_write (store addr len bytes) =
      hook_store k again f addr >> modify λ s. record s { mem = write_bytes s.mem addr len bytes }
  run_write (intrinsic addr size bytes) =
      hook_memcpy k again f addr size
      >> modify λ s. record s { mem = write_bytes s.mem addr size bytes }

  unfoldable pub run_writes : List Write → Act
  run_writes [] = pure tt
  run_writes (w ∷ ws) = run_write w >> run_writes ws

-- A store writes at most eight bytes, and all words that its hook saves may be logged.
abbrev pub CanWrite : Kernel → Checkpoint → Write → Type 0
CanWrite k c (store addr len bytes) = (len ≤ 8) × Writable k c addr (addr + 8)
CanWrite k c (intrinsic addr size bytes) = Writable k c (align_down 4 addr) (addr + size + 8)

-- `s` outside the runtime's record of being busy, and the processor's state.
abbrev pub busy_with : Bool → World → State → State
busy_with b w s = record s { is_in_rt = b; world = w }

pub IsSpeculating-busy_with :
    (c : Checkpoint) (b : Bool) (w : World) {s : State}
    → IsSpeculating c s
    → IsSpeculating c (busy_with b w s)
IsSpeculating-busy_with c b w v = record {
  emulates = v.emulates;
  enabled = v.enabled;
  initialised = v.initialised;
  addrs_at = v.addrs_at;
  regions_at = v.regions_at;
  addrs_present = v.addrs_present;
  regions_present = v.regions_present;
  fits = v.fits;
  same_frame = v.same_frame;
  same_registers = v.same_registers;
  undoable = v.undoable;
}

-- Bytes that the log holds may be overwritten.
written-IsSpeculating :
    (c : Checkpoint) (addr len : ℕ) (bytes : ℕ → ℕ) (s : State)
    → IsSpeculating c s
    → ((a : ℕ) → addr ≤ a → a < addr + len → is_logged s.undolog.wl_position s.undolog a ≡ true)
    → IsSpeculating c (record s { mem = write_bytes s.mem addr len bytes })
written-IsSpeculating c addr len bytes s v logged = record {
  emulates = v.emulates;
  enabled = v.enabled;
  initialised = v.initialised;
  addrs_at = v.addrs_at;
  regions_at = v.regions_at;
  addrs_present = v.addrs_present;
  regions_present = v.regions_present;
  fits = v.fits;
  same_frame = v.same_frame;
  same_registers = v.same_registers;
  undoable = record {
    aligned = v.undoable.aligned;
    undoes = λ a. byte a (Bool-cases (leb addr a && ltb a (addr + len)));
    frame_saved = v.undoable.frame_saved;
  };
}
  where
    byte :
        (a : ℕ)
        → ((leb addr a && ltb a (addr + len)) ≡ true) ⊎ ((leb addr a && ltb a (addr + len)) ≡ false)
        → saved s.undolog.wl_position s.undolog a (write_bytes s.mem addr len bytes a) ≡ c.memory a
    byte a (inl e) =
        saved-is_logged s.undolog.wl_position s.undolog a _ (s.mem a)
          (logged a (ground arith) (ground arith))
        ∙ v.undoable.undoes a
    byte a (inr e) = rw e (v.undoable.undoes a)

module _ (k : Kernel) (laws : KernelLaws k) (again : Act) (f : Frame) (c : Checkpoint)
    (local : (f.at_addr == 0) ≡ false) where
  -- A hook's body that only fills the log, between the switches of interrupts.
  abbrev Filled : (from to : ℕ) → State → Unit {0} → State → Type 0
  Filled from to s _ t =
      IsSpeculating c t
      × (t.emulation ≡ s.emulation)
      × ((a : ℕ) → from ≤ a → a < to → is_logged t.undolog.wl_position t.undolog a ≡ true)

  within_nonmi_rt-Filled :
      (line from to : ℕ) (body : Act) (s : State)
      → ((s' : State)
          → IsSpeculating c s'
          → Continues (λ _. Covers c from to s') (BackAt k again f c) (body s'))
      → IsSpeculating c s
      → Continues (Filled from to s) (BackAt k again f c) (within_nonmi_rt k again line body s)
  unfolding enter_nonmi_rt leave_nonmi_rt lt_assert
  within_nonmi_rt-Filled line from to body s step v =
      let s' = busy_with true (k.local_irq_disable (k.preempt_disable s.world)) s in
      Continues-bind (λ _. Covers c from to s') (Filled from to s) (BackAt k again f c) (body s') _
        (step s' (IsSpeculating-busy_with c true _ v))
        (λ _ t p. rw (ap (λ (x : State). k.irqs_disabled x.world) p.more.same ∙ laws.disables _) (
          IsSpeculating-busy_with c false _ p.speculating,
          ap (λ (x : State). x.emulation) p.more.same,
          p.covered,
        ))

  within_rt-Filled :
      (line from to : ℕ) (body : Act) (s : State)
      → ((s' : State)
          → IsSpeculating c s'
          → Continues (λ _. Covers c from to s') (BackAt k again f c) (body s'))
      → IsSpeculating c s
      → Continues (Filled from to s) (BackAt k again f c) (within_rt k again line body s)
  unfolding enter_rt enter_nonmi_rt leave_rt lt_assert
  within_rt-Filled line from to body s step v =
      let s' = busy_with true (k.stop_nmi (k.local_irq_disable (k.preempt_disable s.world))) s in
      Continues-bind (λ _. Covers c from to s') (Filled from to s) (BackAt k again f c) (body s') _
        (step s' (IsSpeculating-busy_with c true _ v))
        (λ _ t p.
          rw
            (ap (λ (x : State). k.irqs_disabled x.world) p.more.same
              ∙ laws.nmi_keeps _
              ∙ laws.disables _)
            (
              IsSpeculating-busy_with c false _ p.speculating,
              ap (λ (x : State). x.emulation) p.more.same,
              p.covered,
            ))

  -- What one write leaves: the speculation goes on, with the same counters.
  abbrev pub GoesOn : State → Unit {0} → State → Type 0
  GoesOn s _ t = IsSpeculating c t × (t.emulation ≡ s.emulation)

  active : (s : State) → IsSpeculating c s → (s.undolog.writelog_enabled && s.init_done) ≡ true
  active s v = rw (v.enabled, v.initialised)

  run_write-GoesOn :
      (w : Write) (s : State)
      → CanWrite k c w
      → IsSpeculating c s
      → Continues (GoesOn s) (BackAt k again f c) (run_write k again f w s)
  unfolding run_write hook_store hook_memcpy
  run_write-GoesOn (store addr len bytes) s can v = rw (active s v) (
      Continues-bind (Filled addr (addr + 8) s) (GoesOn s) (BackAt k again f c)
        (within_nonmi_rt k again 125 (kspecem_store k again f addr) s) _
        (within_nonmi_rt-Filled 125 addr (addr + 8) (kspecem_store k again f addr) s
          (λ s' v'. kspecem_store-Covers k again f c local addr s' can.1 v') v)
        (λ _ t (v', same, logged). (
          written-IsSpeculating c addr len bytes t v'
              (λ a lo hi. logged a lo (omega (arith, can.0))),
          same,
        )))
  run_write-GoesOn (intrinsic addr size bytes) s can v = rw (active s v) (
      Continues-bind (Filled addr (addr + size) s) (GoesOn s) (BackAt k again f c)
        (within_rt k again 134 (kspecem_memcpy k again f addr size) s) _
        (within_rt-Filled 134 addr (addr + size) (kspecem_memcpy k again f addr size) s
          (λ s' v'. kspecem_memcpy-Covers k again f c local addr size s' can v') v)
        (λ _ t (v', same, logged). (written-IsSpeculating c addr size bytes t v' logged, same)))

  -- After any instrumented writes that may be logged the speculation goes on, undoable and
  -- with the same counters, or the log was full and the program is back at its checkpoint with
  -- the memory that it had there, or the kernel panics.
  pub run_writes-GoesOn :
      (ws : List Write) (s : State)
      → All (CanWrite k c) ws
      → IsSpeculating c s
      → Continues (GoesOn s) (BackAt k again f c) (run_writes k again f ws s)
  unfolding run_writes
  run_writes-GoesOn [] s can v = (v, refl)
  run_writes-GoesOn (w ∷ ws) s can v =
      Continues-bind (GoesOn s) (GoesOn s) (BackAt k again f c) (run_write k again f w s)
        (λ _. run_writes k again f ws) (run_write-GoesOn w s can.0 v)
        (λ _ t (v', same).
          Continues-mono (GoesOn t) (GoesOn s) (BackAt k again f c) (run_writes k again f ws t)
            (run_writes-GoesOn ws t can.1 v') (λ _ u (v'', same'). (v'', same' ∙ same)))
