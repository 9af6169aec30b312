-- ===== src/Registers/Asm/Body.antt =====
-- What kspecem_asm_save_registers (kspecem_regs.S) does behind its test, and what it stores.
use kasper.Prelude.{
  ℕ, ◌+◌, ◌-◌, ◌/◌, ◌%◌, ◌^◌, ◌≤◌, ◌<◌, ◌⊎◌, ◌≡◌, refl, Bool, true, false, List, [], ◌∷◌, arith,
  leb, ◌==◌, if◌then◌else◌, wrap64, minus_one64,
}
use kasper.Registers.{is_saved_slot}
use kasper.Registers.Asm.{
  rax, rbx, rcx, rdx, rsi, rdi, rbp, rsp, r8, r9, r10, r11, r12, r13, r14, r15, Cpu, Alu, Insn,
  byte_of, store64, load64, top_word, step, tick, exec, save_registers, minus_8,
}
use kasper.Registers.Asm.Slots.{store_slots, found, at_below}

-- A call with the buffer at rdi, in which the stack's last word and the one below do not lie.
pub record IsCall (c : Cpu) : Type 0 where
  pub running : c.seeking ≡ false
  pub buffer : c.regs rdi + 168 ≤ 2 ^ 64
  pub below : 8 ≤ c.regs rsp
  pub above : c.regs rsp + 8 < 2 ^ 64
  pub apart : (c.regs rsp + 8 ≤ c.regs rdi) ⊎ (c.regs rdi + 168 ≤ c.regs rsp - 8)
  pub argument : c.regs rsi < 2 ^ 64

-- The flags that the routine reads: its comparison and its `xor` have changed them.
abbrev pub flags_read : Alu → Cpu → ℕ
flags_read alu c = alu.cleared (alu.compared c.eflags (c.regs rsi) minus_one64)

-- The registers behind the call, by their place in `struct pt_regs`.
abbrev pub value_at : Alu → Cpu → ℕ → ℕ
value_at alu c slot =
    if slot == 0
    then c.regs r15
    else if slot == 1
    then c.regs r14
    else if slot == 2
    then c.regs r13
    else if slot == 3
    then c.regs r12
    else if slot == 4
    then c.regs rbp
    else if slot == 5
    then c.regs rbx
    else if slot == 6
    then c.regs r11
    else if slot == 7
    then c.regs r10
    else if slot == 8
    then c.regs r9
    else if slot == 9
    then c.regs r8
    else if slot == 10
    then c.regs rax
    else if slot == 11
    then c.regs rcx
    else if slot == 12
    then c.regs rdx
    else if slot == 16
    then top_word c
    else if slot == 18
    then flags_read alu c
    else if slot == 19
    then c.regs rsp + 8
    else 0

abbrev pub live_byte : Alu → Cpu → ℕ → ℕ
live_byte alu c i = byte_of (value_at alu c (i / 8)) (i % 8)

-- What the routine does after its test.
abbrev pub body : List Insn
body = elim save_registers [ [] ↦ [] | i ∷ is ↦ elim is [ [] ↦ [] | j ∷ js ↦ js ] ]

-- The processor in front of the body.
abbrev pub tested : Alu → Cpu → Bool → Cpu
tested alu c negative = record c {
  eflags = alu.compared c.eflags (c.regs rsi) minus_one64;
  seeking = negative;
}

pub exec-enter :
    (alu : Alu) (c : Cpu)
    → IsCall c
    → exec alu save_registers c ≡ exec alu body (tested alu c (leb (2 ^ 63) (c.regs rsi)))
unfolding exec tick step
exec-enter alu c call = rw (call.running, alu.le, signed (c.regs rsi) call.argument) refl
  where
    signed :
        (a : ℕ)
        → a < 2 ^ 64
        → leb (wrap64 (a + 2 ^ 63)) (wrap64 (minus_one64 + 2 ^ 63)) ≡ leb (2 ^ 63) a
    signed a lt = ground arith

-- The first fourteen stores, and the fifteenth.
abbrev pub first_words : (top : ℕ) → Cpu → List (ℕ × ℕ)
first_words top c =
    (10, c.regs rax)
    ∷ (5, c.regs rbx)
    ∷ (11, c.regs rcx)
    ∷ (12, c.regs rdx)
    ∷ (4, c.regs rbp)
    ∷ (9, c.regs r8)
    ∷ (8, c.regs r9)
    ∷ (7, c.regs r10)
    ∷ (6, c.regs r11)
    ∷ (3, c.regs r12)
    ∷ (2, c.regs r13)
    ∷ (1, c.regs r14)
    ∷ (0, c.regs r15)
    ∷ (19, top)
    ∷ []

abbrev pub with_words : Cpu → ℕ → ℕ
with_words c = store_slots (c.regs rdi) (first_words (wrap64 (c.regs rsp + 8)) c) c.mem

abbrev pub with_rip : Cpu → ℕ → ℕ
with_rip c =
    store_slots (c.regs rdi) ((16, load64 (with_words c) (wrap64 (c.regs rsp + 0))) ∷ [])
      (with_words c)

abbrev pub with_pushed : Alu → Cpu → ℕ → ℕ
with_pushed alu c = store64 (with_rip c) (minus_8 (c.regs rsp)) (flags_read alu c)

abbrev pub with_flags : Alu → Cpu → ℕ → ℕ
with_flags alu c =
    store_slots (c.regs rdi) ((18, load64 (with_pushed alu c) (minus_8 (c.regs rsp))) ∷ [])
      (with_pushed alu c)

pub exec-body-mem :
    (alu : Alu) (c : Cpu) → (exec alu body (tested alu c false)).mem ≡ with_flags alu c
unfolding exec tick step store_slots
exec-body-mem alu c = refl

pub exec-body-seeking : (alu : Alu) (c : Cpu) → (exec alu body (tested alu c true)).mem ≡ c.mem
unfolding exec tick step
exec-body-seeking alu c = refl

-- The words that are found at a place are those of the places that are saved.
abbrev pub Chosen : Alu → Cpu → (j d slot : ℕ) → Type 0
Chosen alu c j d slot =
    (if slot == 18
      then byte_of (flags_read alu c) j
      else if slot == 16
      then byte_of (top_word c) j
      else found (first_words (c.regs rsp + 8) c) slot j d)
    ≡ (if is_saved_slot slot then byte_of (value_at alu c slot) j else d)

pub chosen : (alu : Alu) (c : Cpu) (j d slot : ℕ) → slot < 21 → Chosen alu c j d slot
chosen alu c j d slot lt =
    at_below (Chosen alu c j d) 21 slot
      (
        refl,
        (
          refl,
          (
            refl,
            (
              refl,
              (
                refl,
                (
                  refl,
                  (
                    refl,
                    (
                      refl,
                      (
                        refl,
                        (
                          refl,
                          (
                            refl,
                            (
                              refl,
                              (
                                refl,
                                (refl, (refl, (refl, (refl, (refl, (refl, (refl, (refl, tt)))))))),
                              ),
                            ),
                          ),
                        ),
                      ),
                    ),
                  ),
                ),
              ),
            ),
          ),
        ),
      )
      lt
