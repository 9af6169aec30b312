-- ===== src/Interrupt/Returns.antt =====
-- An interrupt or an exception during speculation (kspecem_interrupt.c, kspecem_internal.c): the
-- handler returns, and the interrupted program goes on at the checkpoint.
use kasper.Prelude.{
  ℕ, ◌+◌, ◌-◌, ◌%◌, ◌≤◌, ◌<◌, ◌≡◌, refl, ◌∙◌, ap, ◌⊎◌, inl, inr, Bool, true, false, ◌&&◌, ◌||◌,
  arith, leb, ltb, ◌==◌, if◌then◌else◌, Bool-cases, align_down, subst, ltb→lt, leb→le,
}
use kasper.Machine.{State, in_spec, Act}
use kasper.Machine.Kernel.{Kernel, Frame}
use kasper.Machine.Types.RestartType
use kasper.Assert.{lt_assert}
use kasper.Undolog.{on_running_stack, in_regs}
use kasper.Undolog.Restore.{is_guarded}
use kasper.Undolog.Saved.{undo-saved}
use kasper.Registers.{saved_ip, rip, word_at, copied_offsets, copy_registers}
use kasper.Registers.Copied.{is_kept, copy_registers-copied, copy_registers-outside}
use kasper.Internal.{kspecem_restart}
use kasper.Internal.Rollback.{in_saved_frame, IsUndoable}
use kasper.Store.Speculating.{Continues-bind}
use kasper.Interrupt.{return_to_checkpoint}
use kasper.Interrupt.Ended.{Returns, IsOver, restart-IsOver}

or_true : (b : Bool) → (b || true) ≡ true
or_true true = refl
or_true false = refl

no_both : {b : Bool} → b ≡ true → b ≡ false → ⊥
no_both e e' = ground arith

in_word :
    (regs i : ℕ)
    → regs % 8 ≡ 0
    → i < 168
    → (leb regs (align_down 8 (regs + i)) && ltb (align_down 8 (regs + i)) (regs + 168)) ≡ true
in_word regs i aligned lt = ground arith

module _ (k : Kernel) (again : Act) (f : Frame) (frameaddr regs : ℕ) where
  guarded_regs :
      (i : ℕ)
      → regs % 8 ≡ 0
      → (regs == 0) ≡ false
      → i < 168
      → is_guarded f (frameaddr + 8) regs (align_down 8 (regs + i)) ≡ true
  unfolding is_guarded in_regs
  guarded_regs i aligned there lt =
      rw (there, in_word regs i aligned lt)
        (or_true (on_running_stack f (frameaddr + 8) (align_down 8 (regs + i))))

  apart :
      (a : ℕ)
      → regs % 8 ≡ 0
      → (regs == 0) ≡ false
      → is_guarded f (frameaddr + 8) regs (align_down 8 a) ≡ false
      → (a < regs) ⊎ (regs + 168 ≤ a)
  apart a aligned there g = elim (Bool-cases (ltb a regs)) [
    | inl e ↦ inl (ltb→lt a regs e)
    | inr e ↦ elim (Bool-cases (leb (regs + 168) a)) [
      | inl e' ↦ inr (leb→le (regs + 168) a e')
      | inr e' ↦ absurd (
          no_both
            (subst (λ x. is_guarded f (frameaddr + 8) regs (align_down 8 x) ≡ true) (inside a e)
              (guarded_regs (a - regs) aligned there (near a e e')))
            g)
    ]
  ]
    where
      inside : (a : ℕ) → ltb a regs ≡ false → regs + (a - regs) ≡ a
      inside a e = ground arith

      near : (a : ℕ) → ltb a regs ≡ false → leb (regs + 168) a ≡ false → a - regs < 168
      near a e e' = ground arith

  restored :
      (m0 : ℕ → ℕ) (s t : State)
      → regs % 8 ≡ 0
      → (regs == 0) ≡ false
      → IsUndoable m0 s.undolog s.stack s.mem
      → IsOver k again f frameaddr regs
          (record s { mem = copy_registers regs s.registers copied_offsets s.mem })
          t
      → (a : ℕ)
      → (is_guarded f (frameaddr + 8) regs (align_down 8 a) ≡ false)
        ⊎ (in_saved_frame s.stack a ≡ true)
      → (in_saved_frame s.stack a ≡ true) ⊎ (in_saved_frame s.stack a ≡ false)
      → t.mem a ≡ m0 a
  restored m0 s t aligned there u h a place (inl e) =
      ap (λ (m : ℕ → ℕ). m a) h.memory ∙ rw e (u.frame_saved a e)
  restored m0 s t aligned there u h a (inr e') (inr e) = absurd (no_both e' e)
  restored m0 s t aligned there u h a (inl g) (inr e) =
      ap (λ (m : ℕ → ℕ). m a) h.memory
      ∙ rw e (
          undo-saved f (frameaddr + 8) regs s.undolog.wl_position s.undolog
            (copy_registers regs s.registers copied_offsets s.mem) a u.aligned
          ∙ rw (g, copy_registers-outside regs s.registers s.mem a (apart a aligned there g))
              (u.undoes a))

  registers_of :
      (m0 : ℕ → ℕ) (s t : State)
      → regs % 8 ≡ 0
      → (regs == 0) ≡ false
      → IsUndoable m0 s.undolog s.stack s.mem
      → IsOver k again f frameaddr regs
          (record s { mem = copy_registers regs s.registers copied_offsets s.mem })
          t
      → (i : ℕ) → i < 168
      → in_saved_frame s.stack (regs + i) ≡ false
      → t.mem (regs + i) ≡ (if is_kept i then s.mem (regs + i) else s.registers i)
  registers_of m0 s t aligned there u h i lt free =
      ap (λ (m : ℕ → ℕ). m (regs + i)) h.memory
      ∙ rw free (
          undo-saved f (frameaddr + 8) regs s.undolog.wl_position s.undolog
            (copy_registers regs s.registers copied_offsets s.mem) (regs + i) u.aligned
          ∙ rw (guarded_regs i aligned there lt)
              (copy_registers-copied regs s.registers s.mem i lt))

  -- What a handler hands back: each byte outside the guarded words and the interrupt's registers, or in
  -- the saved frame, is that of the checkpoint; the interrupt's registers are the checkpoint's, but
  -- for orig_ax, cs and ss; and the emulation is over.
  pub record IsHandedBack (m0 : ℕ → ℕ) (s t : State) : Type 0 where
    pub memory :
        (a : ℕ)
        → (is_guarded f (frameaddr + 8) regs (align_down 8 a) ≡ false)
          ⊎ (in_saved_frame s.stack a ≡ true)
        → t.mem a ≡ m0 a
    pub returned :
        (i : ℕ)
        → i < 168
        → in_saved_frame s.stack (regs + i) ≡ false
        → t.mem (regs + i) ≡ (if is_kept i then s.mem (regs + i) else s.registers i)
    pub emulation_over : in_spec t ≡ false
    pub log_disabled : t.undolog.writelog_enabled ≡ false
    pub log_emptied : t.undolog.wl_position ≡ 0
    pub restart_over : t.is_in_restart ≡ false

  -- Both handlers, with an aligned place for the interrupt's registers, in a speculation whose log is
  -- undoable: they return with the program handed back, or the kernel panics.
  pub handler-IsHandedBack :
      (m0 : ℕ → ℕ) (type line : ℕ) (s : State)
      → in_spec s ≡ true
      → (type == RestartType.on_return) ≡ false
      → (f.at_addr == 0) ≡ false
      → regs % 8 ≡ 0
      → (regs == 0) ≡ false
      → IsUndoable m0 s.undolog s.stack s.mem
      → Returns (IsHandedBack m0 s) (return_to_checkpoint k again f regs frameaddr type line s)
  unfolding return_to_checkpoint lt_assert
  handler-IsHandedBack m0 type line s spec not_return local aligned there u =
      let mem' = copy_registers regs s.registers copied_offsets s.mem in
      let s' = record s { mem = mem' } in
      Continues-bind (λ _. IsOver k again f frameaddr regs s') (λ _. IsHandedBack m0 s) (λ _. ⊥)
        (kspecem_restart k again f 1 type f.return_address 0 frameaddr regs s') _
        (restart-IsOver k again f frameaddr regs type s' spec (rw not_return refl) local)
        (λ _ t h. elim (Bool-cases (saved_ip t.registers == word_at t.mem (regs + rip))) [
          | inl e ↦ rw e (handed_back m0 s t aligned there u h)
          | inr e ↦ rw (e, h.spec_over) tt
        ])
    where
      handed_back :
          (m0 : ℕ → ℕ) (s t : State)
          → regs % 8 ≡ 0
          → (regs == 0) ≡ false
          → IsUndoable m0 s.undolog s.stack s.mem
          → IsOver k again f frameaddr regs
              (record s { mem = copy_registers regs s.registers copied_offsets s.mem })
              t
          → IsHandedBack m0 s t
      handed_back m0 s t aligned there u h = record {
        memory = λ a place.
            restored m0 s t aligned there u h a place (Bool-cases (in_saved_frame s.stack a));
        returned = λ i lt free. registers_of m0 s t aligned there u h i lt free;
        emulation_over = h.spec_over;
        log_disabled = h.log_off;
        log_emptied = h.log_empty;
        restart_over = h.not_in_restart;
      }
