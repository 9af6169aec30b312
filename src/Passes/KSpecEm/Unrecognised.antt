-- ===== src/Passes/KSpecEm/Unrecognised.antt =====
-- The two string constants of passes/kspecem/KSpecEm.cpp, lines 284 and 285, that end at an octal
-- escape.
use kasper.Prelude.{◌≡◌, refl, ap, true, false, List, [], ◌∷◌, ◌++◌, codes}
use kasper.Passes.Names.{Name}
use kasper.Passes.Names.AbiList.{KSpecEmAbiList}
use kasper.Passes.Ir.{null_ptr, constant_int, inline_asm, Function, is_in, hook_call}
use kasper.Passes.KSpecEm.SafeAsm.{has_memory_clobber, is_always_safe, is_safe_asm}
use kasper.Passes.KSpecEm.Hooks.{restart_func_name}
use kasper.Passes.KSpecEm.{
  get_called_function, asm_called, restart_for, visit_call_inst, insert_restart_hook,
}

unsafe_in_memory :
    (s : Name) (constraints : List (List Name))
    → has_memory_clobber constraints ≡ true
    → is_always_safe (codes "1:" ++ s) ≡ false
    → is_safe_asm (codes "1:" ++ s) (has_memory_clobber constraints) ≡ false
unfolding is_safe_asm
unsafe_in_memory s constraints memory unlisted = rw (memory, unlisted) refl

-- In a function that may run speculatively, inline assembly that starts with the label "1:" and has
-- no operand in memory gets no restart, whatever follows the label; with one it gets a restart,
-- unless it is one of the strings that are always safe.
pub visit_call_inst-label :
    (l : KSpecEmAbiList) (f : Function) (s : Name) (in_registers in_memory : List (List Name))
    → is_in l f (codes "nospec") ≡ false
    → has_memory_clobber in_registers ≡ false
    → has_memory_clobber in_memory ≡ true
    → is_always_safe (codes "1:" ++ s) ≡ false
    → (visit_call_inst l f (inline_asm (codes "1:" ++ s) in_registers) ≡ [])
      × (visit_call_inst l f (inline_asm (codes "1:" ++ s) in_memory)
          ≡ hook_call restart_func_name (null_ptr ∷ constant_int 32 3 ∷ null_ptr ∷ []) ∷ [])
unfolding visit_call_inst get_called_function is_safe_asm insert_restart_hook
visit_call_inst-label l f s in_registers in_memory speculative registers memory unlisted = (
  rw (speculative, registers, unlisted) refl,
  rw speculative
      (ap (λ b. restart_for (asm_called b)) (unsafe_in_memory s in_memory memory unlisted)),
)
