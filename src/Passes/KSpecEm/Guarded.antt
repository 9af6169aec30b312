-- ===== src/Passes/KSpecEm/Guarded.antt =====
-- Which hook of passes/kspecem/KSpecEm.cpp must stand directly before an instruction, and that it
-- does in an instrumented function.
use kasper.Prelude.{
  ℕ, ◌≡◌, refl, sym, subst, Bool, true, false, not, ◌&&◌, Option, none, some, List, [], ◌∷◌, ◌++◌,
  if◌then◌else◌, codes,
}
use kasper.Passes.Names.{starts_with}
use kasper.Passes.Names.AbiList.{KSpecEmAbiList}
use kasper.Passes.Ir.{
  i8_ptr, Value, constant_int, null_ptr, cast, return_address, direct, cast_function, computed,
  inline_asm, Instruction, store, mem_intrinsic, call, ret, compute, hook_call, Function, is_in,
  visit_instructions, pointer_cast, inserted, to_width, has_width, type_of, is_constant, cast_int,
  is_i8_ptr,
}
use kasper.Passes.KSpecEm.SafeAsm.{is_safe_asm, has_memory_clobber}
use kasper.Passes.KSpecEm.Hooks.{restart_func_name, store_hook_name, memcpy_func_name}
use kasper.Passes.KSpecEm.{
  length_width, visit, visit_store_inst, visit_mem_intrinsic, visit_return_inst, visit_call_inst,
  restart_for, asm_called, get_called_function, insert_restart_hook,
}

abbrev restart_call : (restart_type : ℕ) → Value → Instruction
restart_call restart_type called =
    hook_call restart_func_name (null_ptr ∷ constant_int 32 restart_type ∷ called ∷ [])

-- Every write is logged, and every return, call of a computed address and inline assembly that is
-- not known to be safe ends a speculation.
abbrev guarded : (safe : Bool) → Option Instruction
guarded safe = if safe then none else some (restart_call 3 null_ptr)

abbrev pub guard_of : (pointer_bits : ℕ) → Instruction → Option Instruction
guard_of bits (store value pointer size marked) =
    some (hook_call store_hook_name (cast pointer i8_ptr ∷ []))
guard_of bits (mem_intrinsic dest source len marked) =
    some (hook_call memcpy_func_name (cast dest i8_ptr ∷ to_width (length_width bits) len ∷ []))
guard_of bits ret = some (restart_call 0 return_address)
guard_of bits (call (computed v) arguments) = some (restart_call 2 (pointer_cast v))
guard_of bits (call (inline_asm [] constraints) arguments) = none
guard_of bits (call (inline_asm (c ∷ s) constraints) arguments) =
    guarded (is_safe_asm (c ∷ s) (has_memory_clobber constraints))
guard_of bits i = none

abbrev Guards : (guard : Option Instruction) (previous : Instruction) → Type 0
Guards none previous = Unit
Guards (some hook) previous = previous ≡ hook

-- Each instruction that needs a hook has it directly before it; `previous` is what stands before
-- the list.
abbrev pub IsGuarded : (pointer_bits : ℕ) (previous : Instruction) → List Instruction → Type 0
IsGuarded bits previous [] = Unit
IsGuarded bits previous (i ∷ is) = Guards (guard_of bits i) previous × IsGuarded bits i is

module _ (bits : ℕ) where
  inserted-IsGuarded :
      (b : Bool) (v : Value) (previous : Instruction) (hooks : List Instruction) (i : Instruction)
      (is : List Instruction)
      → ((p : Instruction) → IsGuarded bits p (hooks ++ i ∷ [] ++ is))
      → IsGuarded bits previous (inserted b v ++ hooks ++ i ∷ [] ++ is)
  inserted-IsGuarded true v previous hooks i is rest = (tt, rest (compute v))
  inserted-IsGuarded false v previous hooks i is rest = rest previous

  module _ (l : KSpecEmAbiList) (f : Function)
      (outside : starts_with (codes "kspecem_") f.name ≡ false)
      (speculative : is_in l f (codes "nospec") ≡ false) where
    visit-IsGuarded :
        (i previous : Instruction) (is : List Instruction)
        → IsGuarded bits i is
        → IsGuarded bits previous (visit l bits f i ++ is)
    unfolding visit visit_store_inst visit_mem_intrinsic visit_return_inst visit_call_inst
        get_called_function insert_restart_hook
    visit-IsGuarded (store value pointer size marked) previous is rest =
        rw outside (tt, (tt, (refl, rest)))
    visit-IsGuarded (mem_intrinsic dest source len marked) previous is rest = rw outside (
      tt,
      inserted-IsGuarded
          (not (has_width (length_width bits) (type_of len)) && not (is_constant len))
          (cast_int (length_width bits) len) (compute (cast dest i8_ptr))
          (hook_call memcpy_func_name (cast dest i8_ptr ∷ to_width (length_width bits) len ∷ [])
            ∷ [])
          (mem_intrinsic dest source len marked) is λ p. (tt, (refl, rest)),
    )
    visit-IsGuarded ret previous is rest = rw speculative (tt, (tt, (refl, rest)))
    visit-IsGuarded (call (computed v) args) previous is rest = rw speculative (
        inserted-IsGuarded (not (is_i8_ptr (type_of v)) && not (is_constant v)) (cast v i8_ptr)
          previous
          (hook_call restart_func_name (null_ptr ∷ constant_int 32 2 ∷ pointer_cast v ∷ []) ∷ [])
          (call (computed v) args) is λ p. (tt, (refl, rest)))
    visit-IsGuarded (call (inline_asm (c ∷ s) cs) args) previous is rest =
        rw speculative (asm-IsGuarded (is_safe_asm (c ∷ s) (has_memory_clobber cs)) refl)
      where
        asm-IsGuarded :
            (safe : Bool)
            → is_safe_asm (c ∷ s) (has_memory_clobber cs) ≡ safe
            → IsGuarded bits previous
                ((restart_for (asm_called safe) ++ call (inline_asm (c ∷ s) cs) args ∷ []) ++ is)
        asm-IsGuarded true e = (subst (λ b. Guards (guarded b) previous) (sym e) tt, rest)
        asm-IsGuarded false e =
            (tt, (subst (λ b. Guards (guarded b) (restart_call 3 null_ptr)) (sym e) refl, rest))
    visit-IsGuarded (call (inline_asm [] cs) args) previous is rest = rw speculative (tt, rest)
    visit-IsGuarded (call (direct g) args) previous is rest = rw speculative (tt, rest)
    visit-IsGuarded (call (cast_function g) args) previous is rest = rw speculative (tt, rest)
    visit-IsGuarded i previous is rest = (tt, rest)

    -- In a function outside the runtime that may run speculatively, every store and memory intrinsic
    -- has the hook that logs its bytes directly before it, and every return, call of a computed
    -- address and inline assembly that is not known to be safe the hook that ends the speculation.
    pub visit-IsGuarded_all :
        (is : List Instruction) (previous : Instruction)
        → IsGuarded bits previous (visit_instructions (visit l bits f) is)
    visit-IsGuarded_all [] previous = tt
    visit-IsGuarded_all (i ∷ is) previous =
        visit-IsGuarded i previous (visit_instructions (visit l bits f) is)
          (visit-IsGuarded_all is i)
