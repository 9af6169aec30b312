-- ===== src/Registers/Asm.antt =====
-- static/kspecem/kspecem_regs.S: the two routines as instruction sequences of a processor that has
-- the registers, the flags and a memory of bytes; the offsets are those of include/calling.h. What
-- the arithmetic instructions do to the flags is a parameter.
pub mod Words
pub mod Slots
pub mod Body
pub mod Saves
pub mod Restores
use kasper.Prelude.{
  ℕ, ◌+◌, ◌*◌, ◌/◌, ◌%◌, ◌^◌, ◌≡◌, Bool, true, false, List, [], ◌∷◌, leb, ◌==◌, if◌then◌else◌,
  wrap64, minus_one64,
}
use kasper.Machine.{write_bytes}
use kasper.Registers.{word_at}

pub data Reg : Type 0 where
  rax rbx rcx rdx rsi rdi rbp rsp r8 r9 r10 r11 r12 r13 r14 r15 : Reg

-- The place of a register in `struct pt_regs`, in words (calling.h), and those of the instruction
-- pointer and the flags.
abbrev pub slot_of : Reg → ℕ
slot_of r15 = 0
slot_of r14 = 1
slot_of r13 = 2
slot_of r12 = 3
slot_of rbp = 4
slot_of rbx = 5
slot_of r11 = 6
slot_of r10 = 7
slot_of r9 = 8
slot_of r8 = 9
slot_of rax = 10
slot_of rcx = 11
slot_of rdx = 12
slot_of rsi = 13
slot_of rdi = 14
slot_of rsp = 19

abbrev pub rip_slot : ℕ
rip_slot = 16

abbrev pub eflags_slot : ℕ
eflags_slot = 18

-- `seeking` says that a jump to the end label was taken; `ip` is where the routine leaves to.
pub record Cpu : Type 0 where
  pub regs : Reg → ℕ
  pub eflags : ℕ
  pub seeking : Bool
  pub ip : ℕ
  pub mem : ℕ → ℕ

-- The flags after a comparison of two words and after the `xor` of a register with itself, and
-- whether a jump on "less or equal" is taken.
pub record Alu : Type 0 where
  pub compared : (eflags a b : ℕ) → ℕ
  pub cleared : (eflags : ℕ) → ℕ
  pub is_le : (eflags : ℕ) → Bool
  -- the comparison is that of signed words
  pub le :
      (eflags a b : ℕ)
      → is_le (compared eflags a b) ≡ leb (wrap64 (a + 2 ^ 63)) (wrap64 (b + 2 ^ 63))

-- A word's bytes, and a word in memory.
abbrev pub byte_of : ℕ → ℕ → ℕ
byte_of v j = v / 0x100 ^ j % 0x100

unfoldable pub store64 : (mem : ℕ → ℕ) (a v : ℕ) → ℕ → ℕ
store64 mem a v = write_bytes mem a 8 (byte_of v)

unfoldable pub load64 : (mem : ℕ → ℕ) (a : ℕ) → ℕ
load64 mem a = word_at mem a

abbrev pub set : Reg → ℕ → (Reg → ℕ) → Reg → ℕ
set r v regs q = if slot_of q == slot_of r then v else regs q

-- In the order of the assembler's operands: the source first.
pub data Insn : Type 0 where
  cmp : (immediate : ℕ) → Reg → Insn
  jle_end end_label : Insn
  store : Reg → (displacement : ℕ) → (base : Reg) → Insn
  load : (displacement : ℕ) → (base : Reg) → Reg → Insn
  lea : (displacement : ℕ) → (base : Reg) → Reg → Insn
  mov mov32 : Reg → Reg → Insn
  clear push pop : Reg → Insn
  pushfq popfq retq : Insn
  jmpq : Reg → Insn

abbrev pub minus_8 : ℕ → ℕ
minus_8 a = wrap64 (a + 0xffff_ffff_ffff_fff8)

abbrev pub push_word : ℕ → Cpu → Cpu
push_word v c = record c {
  regs = set rsp (minus_8 (c.regs rsp)) c.regs;
  mem = store64 c.mem (minus_8 (c.regs rsp)) v;
}

-- The word on the stack, and the stack without it.
abbrev pub top_word : Cpu → ℕ
top_word c = load64 c.mem (c.regs rsp)

abbrev pub pop_regs : Cpu → Reg → ℕ
pop_regs c = set rsp (wrap64 (c.regs rsp + 8)) c.regs

module _ (alu : Alu) where
  unfoldable pub step : Insn → Cpu → Cpu
  step (cmp immediate r) c = record c { eflags = alu.compared c.eflags (c.regs r) immediate }
  step jle_end c = record c { seeking = alu.is_le c.eflags }
  step end_label c = c
  step (store r displacement base) c = record c {
    mem = store64 c.mem (wrap64 (c.regs base + displacement)) (c.regs r);
  }
  step (load displacement base r) c = record c {
    regs = set r (load64 c.mem (wrap64 (c.regs base + displacement))) c.regs;
  }
  step (lea displacement base r) c = record c {
    regs = set r (wrap64 (c.regs base + displacement)) c.regs;
  }
  step (mov q r) c = record c { regs = set r (c.regs q) c.regs }
  step (mov32 q r) c = record c { regs = set r (c.regs q % 2 ^ 32) c.regs }
  step (clear r) c = record c { regs = set r 0 c.regs; eflags = alu.cleared c.eflags }
  step (push r) c = push_word (c.regs r) c
  step (pop r) c = record c { regs = set r (top_word c) (pop_regs c) }
  step pushfq c = push_word c.eflags c
  step popfq c = record c { eflags = top_word c; regs = pop_regs c }
  step retq c = record c { ip = top_word c; regs = pop_regs c }
  step (jmpq r) c = record c { ip = c.regs r }

  -- A taken jump passes over everything up to the label.
  unfoldable pub tick : Insn → Cpu → Cpu
  unfolding step
  tick end_label c = record c { seeking = false }
  tick i c = if c.seeking then c else step i c

  unfoldable pub exec : List Insn → Cpu → Cpu
  unfolding tick
  exec [] c = c
  exec (i ∷ is) c = exec is (tick i c)

abbrev pub store_slot : Reg → Insn
store_slot r = store r (slot_of r * 8) rdi

abbrev pub load_slot : Reg → Insn
load_slot r = load (slot_of r * 8) rdi r

abbrev pub save_registers : List Insn
save_registers =
    cmp minus_one64 rsi
    ∷ jle_end
    ∷ store_slot rax
    ∷ store_slot rbx
    ∷ store_slot rcx
    ∷ store_slot rdx
    ∷ store_slot rbp
    ∷ store_slot r8
    ∷ store_slot r9
    ∷ store_slot r10
    ∷ store_slot r11
    ∷ store_slot r12
    ∷ store_slot r13
    ∷ store_slot r14
    ∷ store_slot r15
    ∷ lea 8 rsp rdx
    ∷ store rdx (slot_of rsp * 8) rdi
    ∷ load 0 rsp rax
    ∷ store rax (rip_slot * 8) rdi
    ∷ clear rax
    ∷ pushfq
    ∷ pop rax
    ∷ store rax (eflags_slot * 8) rdi
    ∷ end_label
    ∷ clear rax
    ∷ retq
    ∷ []

abbrev pub restore_registers : List Insn
restore_registers =
    load (slot_of rsp * 8) rdi r8
    ∷ load (slot_of rbp * 8) rdi r9
    ∷ load (rip_slot * 8) rdi rdx
    ∷ load_slot rbx
    ∷ load_slot r10
    ∷ load_slot r11
    ∷ load_slot r12
    ∷ load_slot r13
    ∷ load_slot r14
    ∷ load_slot r15
    ∷ load_slot rcx
    ∷ mov32 rsi rax
    ∷ mov r8 rsp
    ∷ mov r9 rbp
    ∷ load_slot r8
    ∷ load_slot r9
    ∷ load (eflags_slot * 8) rdi rax
    ∷ push rax
    ∷ popfq
    ∷ load_slot rax
    ∷ jmpq rdx
    ∷ []

-- The calls of the routines from C, with the buffer `kspecem_registers` and 1: the two arguments and
-- the address behind the call, which the routine finds on the stack.
abbrev pub call_routine : (kspecem_registers return_to : ℕ) → Cpu → Cpu
call_routine kspecem_registers return_to c =
    push_word return_to (record c { regs = set rdi kspecem_registers (set rsi 1 c.regs) })

module _ (alu : Alu) (kspecem_registers : ℕ) where
  unfoldable pub kspecem_save_registers : (return_to : ℕ) → Cpu → Cpu
  unfolding exec
  kspecem_save_registers return_to c =
      exec alu save_registers (call_routine kspecem_registers return_to c)

  unfoldable pub kspecem_restore_registers : (return_to : ℕ) → Cpu → Cpu
  unfolding exec
  kspecem_restore_registers return_to c =
      exec alu restore_registers (call_routine kspecem_registers return_to c)
