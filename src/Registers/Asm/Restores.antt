-- ===== src/Registers/Asm/Restores.antt =====
-- kspecem_asm_restore_registers (kspecem_regs.S) on a buffer that kspecem_asm_save_registers filled.
use kasper.Prelude.{
  ℕ, ◌+◌, ◌*◌, ◌/◌, ◌%◌, ◌^◌, ◌≤◌, ◌<◌, ◌⊎◌, ◌≡◌, refl, sym, ap, subst, ◌∙◌, inl, inr, Bool, true,
  false, arith, leb, ◌==◌, wrap64,
}
use kasper.Registers.{asm_save_registers, is_saved_slot}
use kasper.Registers.Asm.{
  Reg, rax, rbx, rcx, rdx, rsi, rdi, rbp, rsp, r8, r9, r10, r11, r12, r13, r14, r15, Cpu, Alu,
  slot_of, store64, load64, top_word, step, tick, exec, save_registers, restore_registers, minus_8,
}
use kasper.Registers.Asm.Words.{Apart, store64-outside, load64-bytes, load64-store64, load64-Apart}
use kasper.Registers.Asm.Slots.{store_slots}
use kasper.Registers.Asm.Body.{
  body, tested, with_flags, exec-enter, IsCall, flags_read, value_at, live_byte,
}
use kasper.Registers.Asm.Saves.{return-with_flags, exec-save_registers}

-- The registers that the restore brings back, besides the stack pointer.
abbrev pub is_restored : Reg → Bool
is_restored rdx = false
is_restored rsi = false
is_restored rdi = false
is_restored rsp = false
is_restored r = true

-- `c` calls kspecem_asm_save_registers, with words in its registers, and `d` calls
-- kspecem_asm_restore_registers later, with that buffer; the word that it pushes is none of it.
pub record IsRestore (alu : Alu) (c d : Cpu) : Type 0 where
  pub saves : IsCall c
  pub nonnegative : leb (2 ^ 63) (c.regs rsi) ≡ false
  pub words : (r : Reg) → c.regs r < 2 ^ 64
  pub flag_word : flags_read alu c < 2 ^ 64
  pub return_word : top_word c < 2 ^ 64
  pub running : d.seeking ≡ false
  pub buffer : d.regs rdi + 168 ≤ 2 ^ 64
  pub same :
      (i : ℕ) → i < 168 → d.mem (d.regs rdi + i) ≡ (exec alu save_registers c).mem (c.regs rdi + i)
  pub apart : (c.regs rsp + 8 ≤ d.regs rdi) ⊎ (d.regs rdi + 168 ≤ c.regs rsp)

-- Where the restore leaves to: the processor is as kspecem_asm_save_registers left it, but for the
-- flags, which are those that were read, rax, which is the caller's, and the registers that are not
-- restored. Of the memory only the word below the stack is written.
pub record IsResumed (alu : Alu) (c d u t : Cpu) : Type 0 where
  pub same_ip : t.ip ≡ u.ip
  pub same_stack : t.regs rsp ≡ u.regs rsp
  pub same_regs : (r : Reg) → is_restored r ≡ true → (slot_of r == 10) ≡ false → t.regs r ≡ u.regs r
  pub old_rax : t.regs rax ≡ c.regs rax
  pub old_flags : t.eflags ≡ flags_read alu c
  pub left_rdx : t.regs rdx ≡ u.ip
  pub left_rsi : t.regs rsi ≡ d.regs rsi
  pub left_rdi : t.regs rdi ≡ d.regs rdi
  pub same_mem : (x : ℕ) → (x < c.regs rsp) ⊎ (c.regs rsp + 8 ≤ x) → t.mem x ≡ d.mem x

-- The two processors, spelled out.
same_running : (d : Cpu) → d.seeking ≡ false → d ≡ record d { seeking = false }
same_running d e = ap (λ b. record d { seeking = b }) e

module _ (alu : Alu) (c d : Cpu) (h : IsRestore alu c d) where
  saved-byte :
      (i : ℕ) → i < 168 → is_saved_slot (i / 8) ≡ true → d.mem (d.regs rdi + i) ≡ live_byte alu c i
  unfolding asm_save_registers
  saved-byte i lt saved =
      h.same i lt ∙ exec-save_registers alu c h.saves i lt ∙ rw (h.nonnegative, saved) refl

  -- A word of the buffer.
  restored :
      (slot v : ℕ)
      → slot < 21
      → is_saved_slot slot ≡ true
      → value_at alu c slot ≡ v
      → v < 2 ^ 64
      → load64 d.mem (wrap64 (d.regs rdi + slot * 8)) ≡ v
  restored slot v lt saved e word = rw (small (d.regs rdi) slot h.buffer lt) (
      load64-bytes d.mem (d.regs rdi + slot * 8) v (λ j less.
        ap d.mem (assoc (d.regs rdi) slot j)
        ∙ saved-byte (slot * 8 + j) (omega arith) (rw (place slot j less) saved)
        ∙ rw (place slot j less, offset slot j less, e) refl)
      ∙ whole v word)
    where
      small : (a slot : ℕ) → a + 168 ≤ 2 ^ 64 → slot < 21 → wrap64 (a + slot * 8) ≡ a + slot * 8
      small a slot le lt = omega arith

      assoc : (a slot j : ℕ) → a + slot * 8 + j ≡ a + (slot * 8 + j)
      assoc a slot j = omega arith

      place : (slot j : ℕ) → j < 8 → (slot * 8 + j) / 8 ≡ slot
      place slot j less = omega arith

      offset : (slot j : ℕ) → j < 8 → (slot * 8 + j) % 8 ≡ j
      offset slot j less = omega arith

      whole : (v : ℕ) → v < 2 ^ 64 → wrap64 v ≡ v
      whole v lt = omega arith

  word_of : ℕ → ℕ
  word_of slot = load64 d.mem (wrap64 (d.regs rdi + slot * 8))

  word_of-slot :
      (slot v : ℕ)
      → slot < 21
      → is_saved_slot slot ≡ true
      → value_at alu c slot ≡ v
      → v < 2 ^ 64
      → word_of slot ≡ v
  unfolding word_of
  word_of-slot slot v lt saved e word = restored slot v lt saved e word

  stack_word : word_of 19 ≡ c.regs rsp + 8
  stack_word = word_of-slot 19 (c.regs rsp + 8) (omega arith) refl refl h.saves.above

  -- The flags are pushed where the saved call's return address was.
  push_place : minus_8 (word_of 19) ≡ c.regs rsp
  push_place = rw stack_word (back (c.regs rsp) h.saves.above)
    where
      back : (a : ℕ) → a + 8 < 2 ^ 64 → minus_8 (a + 8) ≡ a
      back a lt = omega arith

  -- The memory with the flags on the stack.
  pushed : ℕ → ℕ
  pushed = store64 d.mem (minus_8 (word_of 19)) (word_of 18)

  pushed-flags : load64 pushed (minus_8 (word_of 19)) ≡ flags_read alu c
  unfolding pushed
  pushed-flags =
      load64-store64 d.mem (minus_8 (word_of 19)) (word_of 18)
      ∙ rw (word_of-slot 18 (flags_read alu c) (omega arith) refl refl h.flag_word)
          (whole (flags_read alu c) h.flag_word)
    where
      whole : (v : ℕ) → v < 2 ^ 64 → wrap64 v ≡ v
      whole v lt = omega arith

  pushed-rax : load64 pushed (wrap64 (d.regs rdi + 80)) ≡ c.regs rax
  unfolding pushed word_of
  pushed-rax =
      load64-Apart d.mem (minus_8 (word_of 19)) (word_of 18) (wrap64 (d.regs rdi + 80))
        (rw push_place (off (c.regs rsp) (d.regs rdi) h.buffer h.apart))
      ∙ word_of-slot 10 (c.regs rax) (omega arith) refl refl (h.words rax)
    where
      off : (a b : ℕ) → b + 168 ≤ 2 ^ 64 → (a + 8 ≤ b) ⊎ (b + 168 ≤ a) → Apart a (wrap64 (b + 80))
      off a b fits (inl le) = inl (omega arith)
      off a b fits (inr le) = inr (omega arith)

  pushed-beside : (x : ℕ) → (x < c.regs rsp) ⊎ (c.regs rsp + 8 ≤ x) → pushed x ≡ d.mem x
  unfolding pushed
  pushed-beside x out =
      store64-outside d.mem (minus_8 (word_of 19)) (word_of 18) x (rw push_place out)

  -- Where the stack is after the two pairs of push and pop.
  resumed_rsp : wrap64 (minus_8 (word_of 19) + 8) ≡ wrap64 (wrap64 (minus_8 (c.regs rsp) + 8) + 8)
  resumed_rsp = rw push_place (again (c.regs rsp) h.saves.below h.saves.above)
    where
      again :
          (a : ℕ) → 8 ≤ a → a + 8 < 2 ^ 64 → wrap64 (a + 8) ≡ wrap64 (wrap64 (minus_8 a + 8) + 8)
      again a le lt = omega arith

  returned : load64 (with_flags alu c) (wrap64 (minus_8 (c.regs rsp) + 8)) ≡ top_word c
  returned = rw (back (c.regs rsp) h.saves.below h.saves.above) (return-with_flags alu c h.saves)
    where
      back : (a : ℕ) → 8 ≤ a → a + 8 < 2 ^ 64 → wrap64 (minus_8 a + 8) ≡ a
      back a le lt = omega arith

  ip_word : word_of 16 ≡ load64 (with_flags alu c) (wrap64 (minus_8 (c.regs rsp) + 8))
  ip_word = word_of-slot 16 (top_word c) (omega arith) refl refl h.return_word ∙ sym returned

  -- The processors behind the save and the restore.
  saved_cpu : Cpu
  saved_cpu = exec alu body (tested alu c false)

  restored_cpu : Cpu
  restored_cpu = exec alu restore_registers (record d { seeking = false })

  restored_cpu-regs :
      (r : Reg)
      → is_restored r ≡ true
      → (slot_of r == 10) ≡ false
      → restored_cpu.regs r ≡ saved_cpu.regs r
  unfolding exec tick step word_of saved_cpu restored_cpu
  restored_cpu-regs rax e n = cc
  restored_cpu-regs rbx e n = word_of-slot 5 (c.regs rbx) (omega arith) refl refl (h.words rbx)
  restored_cpu-regs rcx e n = word_of-slot 11 (c.regs rcx) (omega arith) refl refl (h.words rcx)
  restored_cpu-regs rdx e n = cc
  restored_cpu-regs rsi e n = cc
  restored_cpu-regs rdi e n = cc
  restored_cpu-regs rbp e n = word_of-slot 4 (c.regs rbp) (omega arith) refl refl (h.words rbp)
  restored_cpu-regs rsp e n = cc
  restored_cpu-regs r8 e n = word_of-slot 9 (c.regs r8) (omega arith) refl refl (h.words r8)
  restored_cpu-regs r9 e n = word_of-slot 8 (c.regs r9) (omega arith) refl refl (h.words r9)
  restored_cpu-regs r10 e n = word_of-slot 7 (c.regs r10) (omega arith) refl refl (h.words r10)
  restored_cpu-regs r11 e n = word_of-slot 6 (c.regs r11) (omega arith) refl refl (h.words r11)
  restored_cpu-regs r12 e n = word_of-slot 3 (c.regs r12) (omega arith) refl refl (h.words r12)
  restored_cpu-regs r13 e n = word_of-slot 2 (c.regs r13) (omega arith) refl refl (h.words r13)
  restored_cpu-regs r14 e n = word_of-slot 1 (c.regs r14) (omega arith) refl refl (h.words r14)
  restored_cpu-regs r15 e n = word_of-slot 0 (c.regs r15) (omega arith) refl refl (h.words r15)

  IsResumed-run : IsResumed alu c d saved_cpu restored_cpu
  unfolding exec tick step store_slots word_of pushed saved_cpu restored_cpu
  IsResumed-run = record {
    same_ip = ip_word;
    same_stack = resumed_rsp;
    same_regs = restored_cpu-regs;
    old_rax = pushed-rax;
    old_flags = pushed-flags;
    left_rdx = ip_word;
    left_rsi = refl;
    left_rdi = refl;
    same_mem = pushed-beside;
  }

  -- A restore from a buffer that a save has filled, whatever ran in between, goes on where that
  -- save returned: at its address, with its stack and its registers, but for rax, which is the
  -- caller's and not the save's result, the flags, which are those that the save has read, and
  -- rdx, rsi and rdi, of which the first holds the address and the others stay. Of the memory only
  -- the word that the save's return address was in is written. The save's arguments and stack are
  -- as in the property of kspecem_asm_save_registers, its test is not negative, its registers hold
  -- words, and the word that the restore pushes is none of the buffer.
  pub exec-restore_registers :
      IsResumed alu c d (exec alu save_registers c) (exec alu restore_registers d)
  unfolding saved_cpu restored_cpu
  exec-restore_registers =
      subst (λ u. IsResumed alu c d u (exec alu restore_registers d)) (sym saved)
        (subst (λ e. IsResumed alu c d saved_cpu (exec alu restore_registers e))
          (sym (same_running d h.running)) IsResumed-run)
    where
      saved : exec alu save_registers c ≡ saved_cpu
      saved = exec-enter alu c h.saves ∙ ap (λ b. exec alu body (tested alu c b)) h.nonnegative
