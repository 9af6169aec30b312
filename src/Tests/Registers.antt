-- ===== src/Tests/Registers.antt =====
-- The assembly routines on a processor of small numbers.
use kasper.Prelude.{
  ◌+◌, ◌%◌, ◌^◌, ◌<◌, ◌≡◌, refl, inr, Bool, true, false, arith, leb, ◌==◌, if◌then◌else◌, wrap64,
}
use kasper.Registers.{asm_save_registers}
use kasper.Registers.Asm.{
  Reg, rax, rbx, rcx, rdx, rsi, rdi, rbp, rsp, r8, r9, r10, r11, r12, r13, r14, r15, slot_of, Cpu,
  Alu, exec, save_registers, restore_registers, load64,
}
use kasper.Registers.Asm.Body.{IsCall, live_byte}
use kasper.Registers.Asm.Saves.{exec-save_registers}
use kasper.Registers.Asm.Restores.{IsRestore, IsResumed, exec-restore_registers}

-- Flags that only tell whether the last comparison was "less or equal".
abbrev an_alu : Alu
an_alu = record {
  compared = λ flags a b. if leb (wrap64 (a + 2 ^ 63)) (wrap64 (b + 2 ^ 63)) then 1 else 0;
  cleared = λ flags. 0x46;
  is_le = λ flags. flags == 1;
  le = λ flags a b. read_back (leb (wrap64 (a + 2 ^ 63)) (wrap64 (b + 2 ^ 63)));
}
  where
    read_back : (b : Bool) → ((if b then 1 else 0) == 1) ≡ b
    read_back true = refl
    read_back false = refl

-- The buffer at 0x1000, the stack at 0x2000, and `are_irqs_disabled` 1.
abbrev a_cpu : Cpu
a_cpu = record {
  regs = λ r.
      if slot_of r == 14
      then 0x1000
      else if slot_of r == 19
      then 0x2000
      else if slot_of r == 13
      then 1
      else slot_of r + 100;
  eflags = 0x202;
  seeking = false;
  ip = 0;
  mem = λ a. a % 251;
}

a_cpu-IsCall : IsCall a_cpu
a_cpu-IsCall = record {
  running = refl;
  buffer = omega arith;
  below = omega arith;
  above = omega arith;
  apart = inr (omega arith);
  argument = omega arith;
}

exec-save_registers_example :
    (exec an_alu save_registers a_cpu).mem 0x1028
    ≡ asm_save_registers (live_byte an_alu a_cpu) (λ j. a_cpu.mem (0x1000 + j)) 1 0x28
exec-save_registers_example = exec-save_registers an_alu a_cpu a_cpu-IsCall 0x28 (omega arith)

-- Later, with other registers and a stack elsewhere.
abbrev later_cpu : Cpu
later_cpu = record (exec an_alu save_registers a_cpu) {
  regs = λ r. if slot_of r == 14 then 0x1000 else 0x3000;
  seeking = false;
}

a_cpu-word : (r : Reg) → a_cpu.regs r < 2 ^ 64
a_cpu-word rax = omega arith
a_cpu-word rbx = omega arith
a_cpu-word rcx = omega arith
a_cpu-word rdx = omega arith
a_cpu-word rsi = omega arith
a_cpu-word rdi = omega arith
a_cpu-word rbp = omega arith
a_cpu-word rsp = omega arith
a_cpu-word r8 = omega arith
a_cpu-word r9 = omega arith
a_cpu-word r10 = omega arith
a_cpu-word r11 = omega arith
a_cpu-word r12 = omega arith
a_cpu-word r13 = omega arith
a_cpu-word r14 = omega arith
a_cpu-word r15 = omega arith

later_cpu-IsRestore : IsRestore an_alu a_cpu later_cpu
unfolding load64
later_cpu-IsRestore = record {
  saves = a_cpu-IsCall;
  nonnegative = refl;
  words = a_cpu-word;
  flag_word = omega arith;
  return_word = omega arith;
  running = refl;
  buffer = omega arith;
  same = λ i lt. refl;
  apart = inr (omega arith);
}

exec-restore_registers_example :
    IsResumed an_alu a_cpu later_cpu
      (exec an_alu save_registers a_cpu)
      (exec an_alu restore_registers later_cpu)
exec-restore_registers_example = exec-restore_registers an_alu a_cpu later_cpu later_cpu-IsRestore
