-- ===== src/Passes/Checkpointing.antt =====
-- The checkpoint that passes/kspecem-spec puts before a branch, run as the runtime's hooks.
use kasper.Prelude.{ℕ, List, [], ◌∷◌, if◌then◌else◌}
use kasper.Machine.{Act, Cmd, pure, ◌>>=◌, ◌>>◌, modify}
use kasper.Machine.Kernel.{Kernel, Frame}
use kasper.Registers.{asm_save_registers}
use kasper.Interface.{hook_new_checkpoint, hook_save_stack, hook_leave_rt}
use kasper.Passes.Names.{Name, same_name}
use kasper.Passes.Ir.{Value, frame_address, result, Instruction, call, direct}
use kasper.Passes.KSpecEmSpec.{
  new_checkpoint_func_name, save_stack_func_name, save_registers_func_name, leave_rt_func_name,
}

module _ (k : Kernel) (again : Act) (f : Frame) (live : ℕ → ℕ) (frameaddress : ℕ) where
  -- A value of the inserted code: the result of the checkpoint, or the frame's address.
  abbrev value_of : (flags : ℕ) → Value → ℕ
  value_of flags (result n t) = flags
  value_of flags frame_address = frameaddress
  value_of flags v = 0

  -- A call of a hook, and what follows it with the checkpoint's result.
  abbrev run_hook : Name → List Value → (flags : ℕ) → (next : ℕ → Cmd ℕ) → Cmd ℕ
  run_hook n [] flags next =
      if same_name n new_checkpoint_func_name
      then hook_new_checkpoint k again f >>= next
      else next flags
  run_hook n (v ∷ []) flags next =
      if same_name n leave_rt_func_name
      then hook_leave_rt k again f (value_of flags v) >> next flags
      else next flags
  run_hook n (v ∷ w ∷ vs) flags next =
      if same_name n save_stack_func_name
      then hook_save_stack k again f (value_of flags v) (value_of flags w) >> next flags
      else if same_name n save_registers_func_name
      then modify
          (λ s. record s { registers = asm_save_registers live s.registers (value_of flags w) })
        >> next flags
      else next flags

  abbrev pub run_hooks : List Instruction → (flags : ℕ) → Cmd ℕ
  run_hooks [] flags = pure flags
  run_hooks (call (direct n) vs ∷ is) flags = run_hook n vs flags (run_hooks is)
  run_hooks (i ∷ is) flags = run_hooks is flags
