-- ===== src/Registers.antt =====
-- static/kspecem/kspecem_registers.c with the offsets of include/calling.h: `struct pt_regs` is 168
-- bytes, by offset. kspecem_interrupt.c copies the checkpoint's registers word by word.
pub mod Copied
pub mod Asm
use kasper.Prelude.{ℕ, ◌+◌, ◌*◌, ◌/◌, ◌^◌, Bool, ◌||◌, List, [], ◌∷◌, leb, ◌==◌, if◌then◌else◌}
use kasper.Machine.{write_bytes, read_bytes}

-- The little-endian word of eight bytes at `a`.
abbrev pub word_at : (ℕ → ℕ) → ℕ → ℕ
word_at m a =
    m a
    + 0x100
      * (m (a + 1)
          + 0x100
            * (m (a + 2)
                + 0x100
                  * (m (a + 3)
                      + 0x100
                        * (m (a + 4)
                            + 0x100 * (m (a + 5) + 0x100 * (m (a + 6) + 0x100 * m (a + 7)))))))

-- RIP of calling.h
abbrev pub rip : ℕ
rip = 128

unfoldable pub saved_ip : (ℕ → ℕ) → ℕ
saved_ip registers = word_at registers rip

-- The offsets in the order of the assembly: r15 r14 r13 r12 r11 r10 r9 r8 rbp rax rbx rcx rdx rsi
-- rdi eflags rip rsp.
abbrev pub copied_offsets : List ℕ
copied_offsets =
    0x0 ∷ 0x8 ∷ 0x10 ∷ 0x18 ∷ 0x30 ∷ 0x38 ∷ 0x40 ∷ 0x48 ∷ 0x20 ∷ 0x50 ∷ 0x28 ∷ 0x58 ∷ 0x60 ∷ 0x68
    ∷ 0x70 ∷ 0x90 ∷ 0x80 ∷ 0x98 ∷ []

-- A pair of `movq`: eight bytes from the saved registers into the interrupt's at the same offset.
unfoldable pub copy_registers : (regs : ℕ) (registers : ℕ → ℕ) → List ℕ → (ℕ → ℕ) → ℕ → ℕ
copy_registers regs registers [] mem = mem
copy_registers regs registers (offset ∷ offsets) mem =
    copy_registers regs registers offsets
      (write_bytes mem (regs + offset) 8 (read_bytes registers offset))

-- The slots that kspecem_asm_save_registers of kspecem_regs.S fills: rax rbx rcx rdx rbp r8 to r15
-- rsp rip eflags.
abbrev pub is_saved_slot : ℕ → Bool
is_saved_slot slot =
    slot == 10
    || slot == 5
    || slot == 11
    || slot == 12
    || slot == 4
    || slot == 9
    || slot == 8
    || slot == 7
    || slot == 6
    || slot == 3
    || slot == 2
    || slot == 1
    || slot == 0
    || slot == 19
    || slot == 16
    || slot == 18

-- kspecem_asm_save_registers: `live` are the processor's registers in the layout of `struct pt_regs`;
-- with `are_irqs_disabled` negative as a signed word nothing is saved.
unfoldable pub asm_save_registers : (live registers : ℕ → ℕ) (are_irqs_disabled : ℕ) → ℕ → ℕ
asm_save_registers live registers are_irqs_disabled i =
    if leb (2 ^ 63) are_irqs_disabled
    then registers i
    else if is_saved_slot (i / 8)
    then live i
    else registers i
