-- ===== src/Passes/KSpecEmSpec.antt =====
-- passes/kspecem-spec/KSpecEmSpec.cpp: the pass that puts a checkpoint before each conditional
-- branch, and the check of the depth of calls into each function.
pub mod Direction
use kasper.Prelude.{
  ℕ, ◌+◌, ◌%◌, Bool, false, not, ◌||◌, List, [], ◌∷◌, ◌++◌, Option, none, some, if◌then◌else◌,
  codes,
}
use kasper.Passes.Names.{Name, contains}
use kasper.Passes.Names.AbiList.{KSpecEmAbiList}
use kasper.Passes.Ir.{
  void, int, i8_ptr, Value, constant_int, function_address, global, cast, frame_address,
  return_address, load_global, result, inverted, equals, select, Instruction, store, cond_branch,
  compute, hook_call, Block, Function, Module, is_in, visit_instructions, visit_blocks,
  split_at_non_phi, Declaration, declare, pointer_cast, compute_cast, inserted, is_constant,
}

abbrev pub new_checkpoint_func_name : Name
new_checkpoint_func_name = codes "kspecem_hook_new_checkpoint"

abbrev pub save_stack_func_name : Name
save_stack_func_name = codes "kspecem_hook_save_stack"

abbrev pub save_registers_func_name : Name
save_registers_func_name = codes "kspecem_asm_save_registers"

abbrev pub leave_rt_func_name : Name
leave_rt_func_name = codes "kspecem_hook_leave_rt"

abbrev pub check_call_depth_func_name : Name
check_call_depth_func_name = codes "kspecem_hook_check_call_depth"

unfoldable pub init : List Declaration
init =
    declare new_checkpoint_func_name [] (int 64)
    ∷ declare save_registers_func_name (i8_ptr ∷ int 64 ∷ []) void
    ∷ declare save_stack_func_name (int 64 ∷ i8_ptr ∷ []) void
    ∷ declare leave_rt_func_name (int 64 ∷ []) void
    ∷ declare check_call_depth_func_name (i8_ptr ∷ i8_ptr ∷ []) void
    ∷ []

-- The result of kspecem_hook_new_checkpoint, and the global that holds the saved registers' address.
abbrev pub checkpoint_flags : Value
checkpoint_flags = result new_checkpoint_func_name (int 64)

abbrev pub registers_ptr : Value
registers_ptr = load_global (codes "kspecem_registers_ptr") i8_ptr

unfoldable pub insert_new_checkpoint_hook : List Instruction
insert_new_checkpoint_hook =
    hook_call new_checkpoint_func_name []
    ∷ compute frame_address
    ∷ hook_call save_stack_func_name (checkpoint_flags ∷ frame_address ∷ [])
    ∷ compute registers_ptr
    ∷ hook_call save_registers_func_name (registers_ptr ∷ checkpoint_flags ∷ [])
    ∷ hook_call leave_rt_func_name (checkpoint_flags ∷ [])
    ∷ []

abbrev pub swap_branch_condition : Name
swap_branch_condition = codes "kspecem_swap_branch_condition"

-- The inverse comparison, or a negation; that of a constant is a constant.
abbrev pub invert : Value → Value
invert (constant_int w n) = constant_int w ((n + 1) % 2)
invert v = inverted v

abbrev pub compute_inverted : Value → List Instruction
compute_inverted v = inserted (not (is_constant v)) (inverted v)

-- The global, which is read as 32 bits, is 1.
abbrev pub is_swapped : Value
is_swapped = equals (load_global swap_branch_condition (int 32)) (constant_int 32 1)

abbrev pub new_condition : Value → Value
new_condition condition = select is_swapped (invert condition) condition

unfoldable pub visit_branch_inst : (condition : Value) (when_true when_false : ℕ) → List Instruction
unfolding insert_new_checkpoint_hook
visit_branch_inst condition when_true when_false =
    insert_new_checkpoint_hook
    ++ compute_inverted condition
    ++ compute (load_global swap_branch_condition (int 32))
      ∷ compute is_swapped
      ∷ compute (new_condition condition)
      ∷ store (constant_int 32 0) (global swap_branch_condition) 4 false
      ∷ cond_branch (new_condition condition) when_true when_false
      ∷ []

unfoldable pub visit : Instruction → List Instruction
unfolding visit_branch_inst
visit (cond_branch condition when_true when_false) =
    visit_branch_inst condition when_true when_false
visit i = i ∷ []

abbrev pub check_call_depth_hook : Function → List Instruction
check_call_depth_hook f =
    compute_cast (function_address f.name)
    ++ compute return_address
      ∷ hook_call check_call_depth_func_name
          (pointer_cast (function_address f.name) ∷ return_address ∷ [])
      ∷ []

-- The hook at the beginning of a function, before the first block's first instruction that is no
-- phi.
unfoldable pub insert_check_call_depth : Function → List Block → List Block
insert_check_call_depth f [] = []
insert_check_call_depth f (b ∷ bs) = elim (split_at_non_phi b.instructions) [
  | none ↦ b ∷ bs
  | some (before, rest) ↦ record b { instructions = before ++ check_call_depth_hook f ++ rest } ∷ bs
]

unfoldable pub visitor : KSpecEmAbiList → Function → Function
unfolding insert_check_call_depth visit
visitor l f =
    if is_in l f (codes "blacklist")
      || is_in l f (codes "exception")
      || is_in l f (codes "timer")
      || is_in l f (codes "nospec")
    then f
    else record f {
      blocks = visit_blocks (visit_instructions visit) (insert_check_call_depth f f.blocks);
    }

abbrev pub visit_functions : KSpecEmAbiList → List Function → List Function
visit_functions l [] = []
visit_functions l (f ∷ fs) = visitor l f ∷ visit_functions l fs

unfoldable pub run_impl : KSpecEmAbiList → Module → Module
unfolding visitor
run_impl l m =
    if contains (codes "libkspecem.a") m.identifier
    then m
    else record m { functions = visit_functions l m.functions }
