-- ===== src/Interface/Limits.antt =====
-- The limit of a speculation's length (kspecem_interface.c, lines 27 to 40): the hook at the end of
-- each block counts the block's instructions, as passes/kspecem-check-spec-length puts it there.
use kasper.Prelude.{
  ℕ, ◌+◌, ◌^◌, ◌≤◌, ◌<◌, ◌≡◌, refl, sym, subst, Bool, true, false, ◌||◌, List, [], ◌∷◌, arith, leb,
  ◌==◌, if◌then◌else◌, wrap32, Bool-cases, inl, inr, le→leb, leb→le,
}
use kasper.Machine.{State, in_spec, Act, pure, ok, ◌>>=◌, ◌>>◌, when}
use kasper.Machine.Kernel.{Kernel, Frame}
use kasper.Machine.Types.{interface_c}
use kasper.Machine.Types.RestartType
use kasper.Assert.{lt_panic}
use kasper.Internal.{kspecem_restart}
use kasper.Internal.Exit.{Leaves, Leaves-bind}
use kasper.Store.Speculating.{Checkpoint, IsSpeculating, BackAt, restart-BackAt}
use kasper.Interface.{
  enter_nonmi_rt, enter_rt, leave_rt, within_rt, rt_busy, hook_check_spec_length,
}
use kasper.Interface.Program.{busy_with, IsSpeculating-busy_with}

abbrev pub sum : List ℕ → ℕ
sum [] = 0
sum (n ∷ ns) = n + sum ns

-- `n` more instructions.
abbrev pub counted : ℕ → State → State
counted n s = record s {
  emulation = record s.emulation {
    speculative_instr_count = s.emulation.speculative_instr_count + n;
  };
}

abbrev with_count : ℕ → State → State
with_count n s = record s { emulation = record s.emulation { speculative_instr_count = n } }

pub when-Leaves :
    (Q : State → Type 0) (b : Bool) (m : Act) (s : State)
    → b ≡ true
    → Leaves Q (m s)
    → Leaves Q (when b m s)
when-Leaves Q true m s e h = h
when-Leaves Q false m s e h = absurd (ground arith)

else-Leaves :
    (Q : State → Type 0) (b : Bool) (m n : Act) (s : State)
    → b ≡ false
    → Leaves Q (n s)
    → Leaves Q ((if b then m else n) s)
else-Leaves Q true m n s e h = absurd (ground arith)
else-Leaves Q false m n s e h = h

IsSpeculating-counted :
    (c : Checkpoint) (n : ℕ) {s : State} → IsSpeculating c s → IsSpeculating c (counted n s)
IsSpeculating-counted c n v = record {
  emulates = v.emulates;
  enabled = v.enabled;
  initialised = v.initialised;
  addrs_at = v.addrs_at;
  regions_at = v.regions_at;
  addrs_present = v.addrs_present;
  regions_present = v.regions_present;
  fits = v.fits;
  same_frame = v.same_frame;
  same_registers = v.same_registers;
  undoable = v.undoable;
}

pub no_wrap : (a n : ℕ) → a + n < 2 ^ 32 → wrap32 (a + n) ≡ a + n
no_wrap a n word = ground arith

pub lt→leb : (most n : ℕ) → n < most → leb most n ≡ false
lt→leb most n lt = ground arith

module _ (k : Kernel) (again : Act) (f : Frame) where
  -- The blocks of a run, by their numbers of instructions.
  unfoldable pub run_blocks : List ℕ → Act
  run_blocks [] = pure tt
  run_blocks (n ∷ ns) = hook_check_spec_length k again f n >> run_blocks ns

  -- Neither the runtime nor the sanitizer's runs.
  pub record IsProgram (s : State) : Type 0 where
    pub outside : s.is_in_rt ≡ false
    pub no_sanitizer : (k.kdfinit_in_rt s.world || k.kdf_in_rt s.world) ≡ false

  module _ (c : Checkpoint) (local : (f.at_addr == 0) ≡ false) where
    hook_check_spec_length-below :
        (n : ℕ) (s : State)
        → IsSpeculating c s
        → IsProgram s
        → s.emulation.speculative_instr_count + n < 2 ^ 32
        → s.emulation.speculative_instr_count + n < s.emulation.max_speculative_instructions
        → hook_check_spec_length k again f n s ≡ ok tt (counted n s)
    unfolding hook_check_spec_length
    hook_check_spec_length-below n s v p word below = simp (
      v.emulates,
      v.initialised,
      p.outside,
      p.no_sanitizer,
      no_wrap s.emulation.speculative_instr_count n word,
      lt→leb s.emulation.max_speculative_instructions (s.emulation.speculative_instr_count + n)
          below,
    )

    idle :
        (s : State)
        → IsSpeculating c s
        → IsProgram s
        → (rt_busy s || (k.kdfinit_in_rt s.world || k.kdf_in_rt s.world)) ≡ false
    idle s v p = rw (v.initialised, p.outside, p.no_sanitizer) refl

    hook_check_spec_length-reached :
        (n : ℕ) (s : State)
        → IsSpeculating c s
        → IsProgram s
        → s.emulation.speculative_instr_count + n < 2 ^ 32
        → s.emulation.max_speculative_instructions ≤ s.emulation.speculative_instr_count + n
        → Leaves (BackAt k again f c) (hook_check_spec_length k again f n s)
    unfolding hook_check_spec_length enter_rt enter_nonmi_rt
    hook_check_spec_length-reached n s v p word reached =
        let world = k.stop_nmi (k.local_irq_disable (k.preempt_disable s.world)) in
        let busy = busy_with true world (counted n s) in
        let restart = kspecem_restart k again f 0 RestartType.limit_spec f.return_address 0 0 0 in
        let body = restart >>= λ _. lt_panic interface_c 36 in
        let most = s.emulation.max_speculative_instructions in
        let count = s.emulation.speculative_instr_count in
        let Q = BackAt k again f c in
        when-Leaves Q (in_spec s) _ s v.emulates (
          else-Leaves Q (rt_busy s || (k.kdfinit_in_rt s.world || k.kdf_in_rt s.world)) (pure tt) _
            s (idle s v p)
            (subst (λ m. Leaves Q (when (leb most m) (within_rt k again 37 body) (with_count m s)))
              (sym (no_wrap count n word))
              (when-Leaves Q (leb most (count + n)) (within_rt k again 37 body) (counted n s)
                (le→leb most (count + n) reached)
                (Leaves-bind Q (body busy)
                  (λ a. leave_rt k again 37 (k.irq_flags (k.preempt_disable s.world)) >> pure a)
                  (Leaves-bind Q (restart busy) (λ _. lt_panic interface_c 36)
                    (restart-BackAt k again f c RestartType.limit_spec f.return_address 0 busy refl
                      local
                      (IsSpeculating-busy_with c true world (IsSpeculating-counted c n v))))))))

    -- A speculation that runs through blocks with as many instructions together as the limit, or
    -- more, does not reach the end of the last block: on the way the program is back at its
    -- checkpoint with its memory, or the kernel panics.
    pub run_blocks-Leaves :
        (ns : List ℕ) (s : State)
        → IsSpeculating c s
        → IsProgram s
        → s.emulation.speculative_instr_count < s.emulation.max_speculative_instructions
        → s.emulation.max_speculative_instructions ≤ s.emulation.speculative_instr_count + sum ns
        → s.emulation.speculative_instr_count + sum ns < 2 ^ 32
        → Leaves (BackAt k again f c) (run_blocks ns s)
    unfolding run_blocks
    run_blocks-Leaves [] s v p below reached word = absurd (omega arith)
    run_blocks-Leaves (n ∷ ns) s v p below reached word =
        let count = s.emulation.speculative_instr_count in
        elim (Bool-cases (leb s.emulation.max_speculative_instructions (count + n))) [
          | inl limit ↦
              Leaves-bind (BackAt k again f c) (hook_check_spec_length k again f n s)
                (λ _. run_blocks ns)
                (hook_check_spec_length-reached n s v p (omega arith) (leb→le _ _ limit))
          | inr more ↦ rw (hook_check_spec_length-below n s v p (omega arith) (ground arith)) (
              run_blocks-Leaves ns (counted n s) (IsSpeculating-counted c n v)
                (record { outside = p.outside; no_sanitizer = p.no_sanitizer }) (ground arith)
                (omega arith) (omega arith))
        ]
