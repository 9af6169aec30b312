-- ===== src/Passes/PfCheckerPass.antt =====
-- passes/kspecem-pf-checker/KSpecEmPfChecker.cpp: the pass that sends the address of each access that
-- the address sanitizer checks through kspecem_hook_access.
pub mod Accesses
use kasper.Prelude.{Option, ℕ, Bool, true, false, not, List, [], ◌∷◌, ◌++◌, if◌then◌else◌, codes}
use kasper.Passes.Names.{Name, contains}
use kasper.Passes.Ir.{
  int, i8_ptr, Value, constant_int, cast, result, type_of, Instruction, load, store, mem_intrinsic,
  hook_call, Function, Module, visit_instructions, visit_blocks, Declaration, declare, is_i8_ptr,
  inserted, pointer_cast, compute_cast, to_width, compute_to_width,
}

abbrev pub access_func_name : Name
access_func_name = codes "kspecem_hook_access"

unfoldable pub init : (pointer_bits : ℕ) → List Declaration
init pointer_bits = declare access_func_name (i8_ptr ∷ int pointer_bits ∷ []) i8_ptr ∷ []

abbrev pub access_result : Value
access_result = result access_func_name i8_ptr

-- What the hook returns, as a pointer of the type of `pointer`.
abbrev pub new_ptr : (pointer : Value) → Value
new_ptr pointer =
    if is_i8_ptr (type_of pointer) then access_result else cast access_result (type_of pointer)

abbrev pub compute_new_ptr : (pointer : Value) → List Instruction
compute_new_ptr pointer =
    inserted (not (is_i8_ptr (type_of pointer))) (cast access_result (type_of pointer))

abbrev pub call_access : (pointer size : Value) → List Instruction
call_access pointer size =
    compute_cast pointer
    ++ hook_call access_func_name (pointer_cast pointer ∷ size ∷ []) ∷ compute_new_ptr pointer

module _ (pointer_bits : ℕ) where
  unfoldable pub visit_load_inst : (pointer : Value) (size : ℕ) (marked : Bool) → List Instruction
  visit_load_inst pointer size false = load pointer size false ∷ []
  visit_load_inst pointer size true =
      call_access pointer (constant_int pointer_bits size) ++ load (new_ptr pointer) size true ∷ []

  unfoldable pub visit_store_inst :
      (value pointer : Value) (size : ℕ) (marked : Bool) → List Instruction
  visit_store_inst value pointer size false = store value pointer size false ∷ []
  visit_store_inst value pointer size true =
      call_access pointer (constant_int pointer_bits size)
      ++ store value (new_ptr pointer) size true ∷ []

  -- The cast of the destination, that of the length, the hook; its result is the destination. The source stays.
  unfoldable pub visit_mem_intrinsic :
      (dest : Value) (source : Option Value) (len : Value) (marked : Bool) → List Instruction
  visit_mem_intrinsic dest source len false = mem_intrinsic dest source len false ∷ []
  visit_mem_intrinsic dest source len true =
      compute_cast dest
      ++ compute_to_width pointer_bits len
      ++ hook_call access_func_name (pointer_cast dest ∷ to_width pointer_bits len ∷ [])
        ∷ mem_intrinsic access_result source len true
        ∷ []

  unfoldable pub visit : Instruction → List Instruction
  unfolding visit_load_inst visit_store_inst visit_mem_intrinsic
  visit (load pointer size marked) = visit_load_inst pointer size marked
  visit (store value pointer size marked) = visit_store_inst value pointer size marked
  visit (mem_intrinsic dest source len marked) = visit_mem_intrinsic dest source len marked
  visit i = i ∷ []

  unfoldable pub visitor : Function → Function
  unfolding visit
  visitor f = record f { blocks = visit_blocks (visit_instructions visit) f.blocks }

abbrev pub visit_functions : (pointer_bits : ℕ) → List Function → List Function
visit_functions pointer_bits [] = []
visit_functions pointer_bits (f ∷ fs) = visitor pointer_bits f ∷ visit_functions pointer_bits fs

unfoldable pub run_impl : Module → Module
unfolding visitor
run_impl m =
    if contains (codes "libkspecem.a") m.identifier
    then m
    else record m { functions = visit_functions m.pointer_bits m.functions }
