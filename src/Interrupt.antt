-- ===== src/Interrupt.antt =====
-- static/kspecem/kspecem_interrupt.c: an interrupt or an exception during speculation is made to
-- return to the checkpoint.
pub mod Ended
pub mod Returns
use kasper.Prelude.{ℕ, ◌+◌, ◌==◌, if◌then◌else◌}
use kasper.Machine.{Act, ◌>>=◌, ◌>>◌, modify, read}
use kasper.Machine.Kernel.{Kernel, Frame}
use kasper.Machine.Types.{interrupt_c}
use kasper.Machine.Types.RestartType
use kasper.Assert.{lt_assert}
use kasper.Registers.{word_at, rip, saved_ip, copied_offsets, copy_registers}
use kasper.Internal.{kspecem_restart}

module _ (k : Kernel) (again : Act) (f : Frame) where
  -- What both handlers do: the copy of the registers, the restart, and the last assertion.
  unfoldable pub return_to_checkpoint : (regs frameaddr restart_type line : ℕ) → Act
  return_to_checkpoint regs frameaddr type line =
      modify (λ s. record s { mem = copy_registers regs s.registers copied_offsets s.mem })
      >> (kspecem_restart k again f 1 type f.return_address 0 frameaddr regs >>= λ _.
          read (λ s. saved_ip s.registers == word_at s.mem (regs + rip))
            λ b. lt_assert again interrupt_c line b)

  unfoldable pub interrupt_timer : (arg frameaddr : ℕ) → Act
  interrupt_timer arg frameaddr = return_to_checkpoint arg frameaddr RestartType.timer 70

  unfoldable pub interrupt_exception : (arg frameaddr exception_type : ℕ) → Act
  interrupt_exception arg frameaddr exception_type =
      return_to_checkpoint arg frameaddr
        (if exception_type == 1 then RestartType.page_fault else RestartType.exception) 140
