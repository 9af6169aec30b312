-- ===== src/Passes/CheckSpecLength.antt =====
-- passes/kspecem-check-spec-length/KSpecEmCheckSpecLength.cpp and passes/count-instrs/CountInstrs.cpp:
-- the hook that counts a block's instructions at its end, and the count of a function's.
pub mod Counts
use kasper.Prelude.{
  ℕ, ◌+◌, not, ◌&&◌, ◌||◌, List, [], ◌∷◌, if◌then◌else◌, ◌==◌, codes, length, wrap32,
}
use kasper.Passes.Names.{Name, same_name, starts_with, contains}
use kasper.Passes.Ir.{
  void, int, constant_int, Instruction, hook_call, Block, Function, Module, visit_blocks,
  Declaration, declare,
}

abbrev pub check_spec_length_func_name : Name
check_spec_length_func_name = codes "kspecem_hook_check_spec_length"

unfoldable pub init : List Declaration
init = declare check_spec_length_func_name (int 32 ∷ []) void ∷ []

-- Before the terminator, which is the last instruction.
abbrev pub insert_before_last : Instruction → List Instruction → List Instruction
insert_before_last hook [] = []
insert_before_last hook (i ∷ []) = hook ∷ i ∷ []
insert_before_last hook (i ∷ j ∷ is) = i ∷ insert_before_last hook (j ∷ is)

unfoldable pub visit_block : List Instruction → List Instruction
visit_block is =
    insert_before_last
      (hook_call check_spec_length_func_name (constant_int 32 (wrap32 (length is)) ∷ [])) is

unfoldable pub visitor : Function → Function
unfolding visit_block
visitor f =
    if starts_with (codes "__dfsan") f.name
      || same_name f.name (codes "stop_nmi")
      || same_name f.name (codes "unset_rt")
      || starts_with (codes "kspecem_") f.name
    then f
    else record f { blocks = visit_blocks visit_block f.blocks }

abbrev pub visit_functions : List Function → List Function
visit_functions [] = []
visit_functions (f ∷ fs) = visitor f ∷ visit_functions fs

unfoldable pub run_impl : Module → Module
unfolding visitor
run_impl m =
    if contains (codes "libkspecem.a") m.identifier
    then m
    else if (contains (codes "kdfsan") m.identifier || contains (codes "kdfinit") m.identifier)
        && not (contains (codes "test_kdfsan") m.identifier)
    then m
    else record m { functions = visit_functions m.functions }

-- CountInstrs: the number of a function's instructions, and the functions that it is printed for.
unfoldable pub count_instrs : List Block → ℕ
count_instrs [] = 0
count_instrs (b ∷ bs) = length b.instructions + count_instrs bs

unfoldable pub print_counts : List Function → List (Name × ℕ)
unfolding count_instrs
print_counts [] = []
print_counts (f ∷ fs) =
    let rest = print_counts fs in
    if count_instrs f.blocks == 0 then rest else (f.name, count_instrs f.blocks) ∷ rest
