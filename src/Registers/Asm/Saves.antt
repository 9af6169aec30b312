-- ===== src/Registers/Asm/Saves.antt =====
-- kspecem_asm_save_registers (kspecem_regs.S) fills the registers' buffer as the model of the hook
-- does.
use kasper.Prelude.{
  ℕ, ◌+◌, ◌-◌, ◌/◌, ◌%◌, ◌^◌, ◌≤◌, ◌<◌, ◌⊎◌, ◌≡◌, refl, ◌∙◌, inl, inr, Bool, true, false, List, [],
  ◌∷◌, arith, leb, if◌then◌else◌, wrap64,
}
use kasper.Registers.{asm_save_registers, is_saved_slot}
use kasper.Registers.Asm.{rsi, rdi, rsp, Cpu, Alu, load64, top_word, exec, save_registers, minus_8}
use kasper.Registers.Asm.Slots.{
  store_slots, InBuffer, store_slots-found, store_slots-beside, byte_of-wrap64,
}
use kasper.Registers.Asm.Words.{store64-outside, load64-store64, load64-same}
use kasper.Registers.Asm.Body.{
  IsCall, flags_read, live_byte, body, tested, exec-enter, first_words, with_words, with_rip,
  with_pushed, with_flags, exec-body-mem, exec-body-seeking, chosen,
}

module _ (alu : Alu) (c : Cpu) (call : IsCall c) where
  first-InBuffer : InBuffer (first_words (wrap64 (c.regs rsp + 8)) c)
  first-InBuffer = omega arith

  -- Words stored in the buffer do not change the stack's last word.
  kept :
      (ws : List (ℕ × ℕ)) (m : ℕ → ℕ)
      → InBuffer ws
      → (j : ℕ) → j < 8
      → store_slots (c.regs rdi) ws m (c.regs rsp + j) ≡ m (c.regs rsp + j)
  kept ws m p j lt =
      store_slots-beside (c.regs rdi) (c.regs rsp + j) ws m call.buffer p
        (beside (c.regs rsp) (c.regs rdi) j lt call.apart)
    where
      beside :
          (a b j : ℕ) → j < 8 → (a + 8 ≤ b) ⊎ (b + 168 ≤ a - 8) → (a + j < b) ⊎ (b + 168 ≤ a + j)
      beside a b j lt (inl le) = inl (omega arith)
      beside a b j lt (inr le) = inr (omega arith)

  -- That word is where the caller goes on.
  return-word : load64 (with_words c) (wrap64 (c.regs rsp + 0)) ≡ top_word c
  return-word = rw (small (c.regs rsp) call.above) (
      load64-same (with_words c) c.mem (c.regs rsp) (c.regs rsp)
        (kept (first_words (wrap64 (c.regs rsp + 8)) c) c.mem first-InBuffer))
    where
      small : (a : ℕ) → a + 8 < 2 ^ 64 → wrap64 (a + 0) ≡ a
      small a lt = omega arith

  pushed-outside :
      (i : ℕ) → i < 168 → with_pushed alu c (c.regs rdi + i) ≡ with_rip c (c.regs rdi + i)
  pushed-outside i lt =
      store64-outside (with_rip c) (minus_8 (c.regs rsp)) (flags_read alu c) (c.regs rdi + i)
        (outside (c.regs rsp) (c.regs rdi) call.below call.above call.apart)
    where
      outside :
          (a b : ℕ)
          → 8 ≤ a
          → a + 8 < 2 ^ 64
          → (a + 8 ≤ b) ⊎ (b + 168 ≤ a - 8)
          → (b + i < minus_8 a) ⊎ (minus_8 a + 8 ≤ b + i)
      outside a b le above (inl h) = inr (omega arith)
      outside a b le above (inr h) = inl (omega arith)

  -- What is stored is what the processor holds.
  saved-found :
      (i : ℕ)
      → i < 168
      → with_flags alu c (c.regs rdi + i)
        ≡ (if is_saved_slot (i / 8) then live_byte alu c i else c.mem (c.regs rdi + i))
  saved-found i lt =
      store_slots-found (c.regs rdi) i
        ((18, load64 (with_pushed alu c) (minus_8 (c.regs rsp))) ∷ []) (with_pushed alu c)
        call.buffer (omega arith)
      ∙ rw
          (
            load64-store64 (with_rip c) (minus_8 (c.regs rsp)) (flags_read alu c),
            pushed-outside i lt,
            store_slots-found (c.regs rdi) i
                ((16, load64 (with_words c) (wrap64 (c.regs rsp + 0))) ∷ []) (with_words c)
                call.buffer (omega arith),
            return-word,
            store_slots-found (c.regs rdi) i (first_words (wrap64 (c.regs rsp + 8)) c) c.mem
                call.buffer first-InBuffer,
            top (c.regs rsp) call.above,
            byte_of-wrap64 (flags_read alu c) (i % 8) (omega arith),
          )
          (chosen alu c (i % 8) (c.mem (c.regs rdi + i)) (i / 8) (omega arith))
    where
      top : (a : ℕ) → a + 8 < 2 ^ 64 → wrap64 (a + 8) ≡ a + 8
      top a lt = omega arith

  -- kspecem_asm_save_registers leaves in the buffer what the model of the hook leaves there: with a
  -- negative `are_irqs_disabled` the old bytes, and otherwise each register of the caller at its
  -- place of `struct pt_regs`, with the stack pointer, the address and the flags behind the call,
  -- and at the other places the old bytes. The buffer does not reach into the stack's last word, or
  -- the word below it, nor wraps around.
  pub exec-save_registers :
      (i : ℕ)
      → i < 168
      → (exec alu save_registers c).mem (c.regs rdi + i)
        ≡ asm_save_registers (live_byte alu c) (λ j. c.mem (c.regs rdi + j)) (c.regs rsi) i
  unfolding asm_save_registers
  exec-save_registers i lt = rw (exec-enter alu c call) (either (leb (2 ^ 63) (c.regs rsi)))
    where
      either :
          (negative : Bool)
          → (exec alu body (tested alu c negative)).mem (c.regs rdi + i) ≡ (
              if negative
              then c.mem (c.regs rdi + i)
              else if is_saved_slot (i / 8)
              then live_byte alu c i
              else c.mem (c.regs rdi + i))
      either true = rw (exec-body-seeking alu c) refl
      either false = rw (exec-body-mem alu c) (saved-found i lt)

  -- Behind the call the stack's last word is still the address to return to.
  pub return-with_flags : load64 (with_flags alu c) (c.regs rsp) ≡ top_word c
  return-with_flags = load64-same (with_flags alu c) c.mem (c.regs rsp) (c.regs rsp) λ j lt.
      kept ((18, load64 (with_pushed alu c) (minus_8 (c.regs rsp))) ∷ []) (with_pushed alu c)
        (omega arith) j lt
      ∙ store64-outside (with_rip c) (minus_8 (c.regs rsp)) (flags_read alu c) (c.regs rsp + j)
          (inr (behind (c.regs rsp) j call.below call.above))
      ∙ kept ((16, load64 (with_words c) (wrap64 (c.regs rsp + 0))) ∷ []) (with_words c)
          (omega arith) j lt
      ∙ kept (first_words (wrap64 (c.regs rsp + 8)) c) c.mem first-InBuffer j lt
    where
      behind : (a j : ℕ) → 8 ≤ a → a + 8 < 2 ^ 64 → minus_8 a + 8 ≤ a + j
      behind a j le lt = omega arith
