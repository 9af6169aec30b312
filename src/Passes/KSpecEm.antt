-- ===== src/Passes/KSpecEm.antt =====
-- passes/kspecem/KSpecEm.cpp: the pass that puts the hooks of writes, restarts and interrupts into
-- a module. The list of functions is `l`, the size of a pointer `pointer_bits`, and LLVM's choice of
-- a new block's label and its renaming in phis are `new_label` and `replace_phi_uses`.
pub mod SafeAsm
pub mod Hooks
pub mod Guarded
pub mod Handler
pub mod Typed
pub mod Unrecognised
pub mod Visitor
use kasper.Prelude.{
  ℕ, Bool, true, false, ◌||◌, Option, none, some, List, [], ◌∷◌, ◌++◌, ◌==◌, if◌then◌else◌, codes,
}
use kasper.Passes.Names.{Name, same_name, starts_with}
use kasper.Passes.Names.AbiList.{KSpecEmAbiList}
use kasper.Passes.Ir.{
  int, i8_ptr, Value, constant_int, null_ptr, cast, frame_address, return_address, type_of, Callee,
  direct, cast_function, computed, inline_asm, Instruction, store, mem_intrinsic, call, ret,
  compute, hook_call, Function, is_in, pointer_cast, compute_cast, to_width, compute_to_width,
}
use kasper.Passes.KSpecEm.SafeAsm.{has_memory_clobber, is_safe_asm}
use kasper.Passes.KSpecEm.Hooks.{
  restart_func_name, timer_func_name, exception_func_name, store_hook_name, memcpy_func_name,
}

pub record CalledFunction : Type 0 where
  pub return_type : Option ℕ
  pub called_function : Option Name
  pub called_value : Option Value

abbrev no_restart : CalledFunction
no_restart = record { return_type = none; called_function = none; called_value = none }

abbrev pub asm_called : (safe : Bool) → CalledFunction
asm_called true = no_restart
asm_called false = record { return_type = some 3; called_function = none; called_value = none }

-- `return_type` is the restart type if one is set.
unfoldable pub get_called_function : Callee → CalledFunction
get_called_function (direct f) = record {
  return_type = some 1;
  called_function = some f;
  called_value = none;
}
get_called_function (cast_function f) = record {
  return_type = some 2;
  called_function = some f;
  called_value = none;
}
get_called_function (computed v) = record {
  return_type = some 2;
  called_function = none;
  called_value = some v;
}
get_called_function (inline_asm [] constraints) = no_restart
get_called_function (inline_asm (c ∷ s) constraints) =
    asm_called (is_safe_asm (c ∷ s) (has_memory_clobber constraints))

unfoldable pub insert_restart_hook : (restart_type : ℕ) → Option Value → List Instruction
insert_restart_hook restart_type none =
    hook_call restart_func_name (null_ptr ∷ constant_int 32 restart_type ∷ null_ptr ∷ []) ∷ []
insert_restart_hook restart_type (some v) =
    compute_cast v
    ++ hook_call restart_func_name (null_ptr ∷ constant_int 32 restart_type ∷ pointer_cast v ∷ [])
      ∷ []

unfoldable pub insert_timer_interrupt_hook : (arg : Value) → List Instruction
insert_timer_interrupt_hook arg =
    compute frame_address ∷ compute_cast arg
    ++ hook_call timer_func_name (pointer_cast arg ∷ frame_address ∷ []) ∷ []

-- Also the value that the hook returns.
unfoldable pub insert_exception_interrupt_hook : (f : Function) (arg : Value) → List Instruction
insert_exception_interrupt_hook f arg =
    compute frame_address ∷ compute_cast arg
    ++ hook_call exception_func_name (
        pointer_cast arg
        ∷ frame_address
        ∷ constant_int 32 (if same_name f.name (codes "exc_page_fault") then 1 else 0)
        ∷ [])
      ∷ []

-- The width of the length that the hook is given: a 64-bit pointer's length has 64 bits.
unfoldable pub length_width : (pointer_bits : ℕ) → ℕ
length_width pointer_bits = if pointer_bits == 32 then 32 else 64

-- A restart type is set, and no function is known.
abbrev pub restart_for : CalledFunction → List Instruction
restart_for called = elim called.return_type [
  | none ↦ []
  | some restart_type ↦ elim called.called_function [
    | some g ↦ []
    | none ↦ insert_restart_hook restart_type called.called_value
  ]
]

module _ (l : KSpecEmAbiList) where
  -- What each visitor inserts before its instruction.
  unfoldable pub visit_call_inst : Function → Callee → List Instruction
  unfolding get_called_function
  visit_call_inst f callee =
      if is_in l f (codes "nospec") then [] else restart_for (get_called_function callee)

  unfoldable pub visit_return_inst : Function → List Instruction
  unfolding insert_restart_hook
  visit_return_inst f =
      if is_in l f (codes "nospec")
      then []
      else compute return_address ∷ insert_restart_hook 0 (some return_address)

  unfoldable pub visit_store_inst : Function → (pointer : Value) → List Instruction
  visit_store_inst f pointer =
      if starts_with (codes "kspecem_") f.name
      then []
      else compute (cast pointer i8_ptr) ∷ hook_call store_hook_name (cast pointer i8_ptr ∷ []) ∷ []

  unfoldable pub visit_mem_intrinsic :
      (pointer_bits : ℕ) → Function → (dest len : Value) → List Instruction
  unfolding length_width
  visit_mem_intrinsic pointer_bits f dest len =
      let width = length_width pointer_bits in
      if starts_with (codes "kspecem_") f.name
      then []
      else compute (cast dest i8_ptr) ∷ compute_to_width width len
        ++ hook_call memcpy_func_name (cast dest i8_ptr ∷ to_width width len ∷ []) ∷ []

  unfoldable pub visit : (pointer_bits : ℕ) → Function → Instruction → List Instruction
  unfolding visit_call_inst visit_return_inst visit_store_inst visit_mem_intrinsic
  visit pointer_bits f (call callee arguments) =
      visit_call_inst f callee ++ call callee arguments ∷ []
  visit pointer_bits f ret = visit_return_inst f ++ ret ∷ []
  visit pointer_bits f (store value pointer size marked) =
      visit_store_inst f pointer ++ store value pointer size marked ∷ []
  visit pointer_bits f (mem_intrinsic dest source len marked) =
      visit_mem_intrinsic pointer_bits f dest len ++ mem_intrinsic dest source len marked ∷ []
  visit pointer_bits f i = i ∷ []
