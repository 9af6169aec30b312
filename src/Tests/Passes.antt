-- ===== src/Tests/Passes.antt =====
-- One function of the kernel on its way through the passes.
use kasper.Prelude.{
  ℕ, ◌+◌, ◌≡◌, refl, true, false, ◌&&◌, ◌||◌, List, [], ◌∷◌, arith, length, some, none, ne→==, ◌≤◌,
  codes,
}
use kasper.Store.Speculating.{Continues, BackAt}
use kasper.Interface.Program.{GoesOn}
use kasper.Passes.Names.{same_name}
use kasper.Passes.Names.AbiList.{KSpecEmAbiList, is_module_in, is_function_in}
use kasper.Passes.Names.Matching.{is_function_in-name}
use kasper.Passes.Ir.{
  int, i8_ptr, other_ptr, Value, argument, local, constant_int, null_ptr, inline_asm, computed,
  Instruction, phi, store, mem_intrinsic, call, ret, branch, cond_branch, hook_call, Block,
  Function, visit_instructions,
}
use kasper.Passes.KSpecEm.{visit, visit_call_inst, length_width}
use kasper.Passes.KSpecEm.SafeAsm.{has_memory_clobber, is_always_safe}
use kasper.Passes.KSpecEm.Hooks.{restart_func_name}
use kasper.Passes.KSpecEm.Visitor
use kasper.Passes.KSpecEm.Visitor.{visit_exception}
use kasper.Passes.KSpecEm.Handler.{find_block, after_hook, visit_exception-skips}
use kasper.Passes.KSpecEm.Guarded.{IsGuarded, visit-IsGuarded_all}
use kasper.Passes.KSpecEm.Unrecognised.{visit_call_inst-label}
use kasper.Passes.KSpecEm.Typed.Functions.{FunctionIsTyped, visitor-IsTyped}
use kasper.Passes.CheckSpecLength
use kasper.Passes.CheckSpecLength.{count_instrs}
use kasper.Passes.CheckSpecLength.Counts.{total_counted, visitor-counts}
use kasper.Passes.PfCheckerPass
use kasper.Passes.Run.{Meaning, run_instructions, visited-GoesOn}
use kasper.Tests.{a_kernel, a_frame}
use kasper.Tests.Speculation.{again, laws, here, speculating, in_speculation, low}

-- Functions named panic are not run speculatively; names may start with "asan_".
abbrev pub a_list : KSpecEmAbiList
a_list = record {
  in_section = λ section part query category.
      same_name category (codes "blacklist") && same_name query (codes "panic");
  func_prefix = codes "asan_";
}

abbrev condition : Value
condition = local 1 (int 1)

-- A store across two words and a copy of twenty bytes; a number is the address of a value.
abbrev writes_code : List Instruction
writes_code =
    store (local 7 (int 64)) (local 0x9005 other_ptr) 8 false
    ∷ mem_intrinsic (local 0x9003 i8_ptr) (some (local 0xa003 i8_ptr)) (constant_int 64 20) true
    ∷ []

abbrev entry_code : List Instruction
entry_code =
    phi 0
    ∷ store (local 7 (int 64)) (local 0x9005 other_ptr) 8 false
    ∷ mem_intrinsic (local 0x9003 i8_ptr) (some (local 0xa003 i8_ptr)) (local 20 (int 32)) true
    ∷ call (inline_asm (codes "wrmsr") []) []
    ∷ call (computed (local 3 other_ptr)) []
    ∷ cond_branch condition 1 2
    ∷ []

abbrev pub a_function : Function
a_function = record {
  name = codes "sys_read";
  parent = codes "kernel/sys.o";
  arguments = argument 0 other_ptr ∷ [];
  blocks =
      record { label = 0; instructions = entry_code }
      ∷ record { label = 1; instructions = branch 2 ∷ [] }
      ∷ record { label = 2; instructions = ret ∷ [] }
      ∷ [];
}

abbrev pub next_label : Function → ℕ
next_label f = length f.blocks

abbrev pub same_blocks : (old new : ℕ) → List Block → List Block
same_blocks old new bs = bs

visit-IsGuarded_all_example :
    IsGuarded 64 ret (visit_instructions (visit a_list 64 a_function) entry_code)
unfolding is_function_in is_module_in
visit-IsGuarded_all_example = visit-IsGuarded_all 64 a_list a_function refl refl entry_code ret

visitor-IsTyped_example :
    FunctionIsTyped (Visitor.visitor a_list 64 next_label same_blocks a_function)
visitor-IsTyped_example =
    visitor-IsTyped next_label same_blocks (λ old new bs typed. typed) a_list 64 a_function refl
      (((tt, (tt, (refl, (tt, (tt, (tt, tt)))))), (((tt, tt), ((tt, tt), tt)))))

visitor-counts_example :
    total_counted (CheckSpecLength.visitor a_function).blocks
    ≡ count_instrs a_function.blocks + total_counted a_function.blocks
visitor-counts_example =
    visitor-counts a_function refl (omega arith, (omega arith, (omega arith, tt)))

is_function_in-name_example :
    (is_function_in a_list (codes "mm.o") (codes "panic") (codes "blacklist")
      ≡ is_function_in a_list (codes "mm.o") (codes "panic.llvm.77") (codes "blacklist"))
    × (is_function_in a_list (codes "mm.o") (codes "asan_panic") (codes "blacklist") ≡ (
        is_module_in a_list (codes "mm.o") (codes "blacklist")
        || a_list.in_section (codes "dataflow") (codes "fun") (codes "panic") (codes "blacklist")))
is_function_in-name_example =
    is_function_in-name a_list (codes "mm.o") (codes "panic.llvm.77") (codes "panic")
      (codes "blacklist") refl

visit_call_inst-label_example :
    (visit_call_inst a_list a_function (inline_asm (codes "1: rdmsr") []) ≡ [])
    × (visit_call_inst a_list a_function
          (inline_asm (codes "1: rdmsr") ((codes "{memory}" ∷ []) ∷ []))
        ≡ hook_call restart_func_name (null_ptr ∷ constant_int 32 3 ∷ null_ptr ∷ []) ∷ [])
unfolding has_memory_clobber is_always_safe is_function_in is_module_in
visit_call_inst-label_example =
    visit_call_inst-label a_list a_function (codes " rdmsr") [] ((codes "{memory}" ∷ []) ∷ []) refl
      refl refl refl

-- The program's values: a condition that holds, and addresses.
abbrev own : Value → ℕ
own (local n t) = n
own (constant_int w n) = n
own v = 0

abbrev pub meaning : Meaning
meaning = record { number = own; stored = λ v i. 7; copied = λ d n i. i }

visited-GoesOn_example :
    Continues
      (GoesOn a_kernel laws again a_frame here refl speculating)
      (BackAt a_kernel again a_frame here)
      (run_instructions a_kernel again a_frame meaning
        (visit_instructions (visit a_list 64 a_function) writes_code)
        speculating)
unfolding length_width
visited-GoesOn_example =
    visited-GoesOn a_kernel again a_frame meaning a_list 64 a_function refl laws here refl
      writes_code speculating (tt, (refl, tt))
      ((omega arith, low 0x9005 0x900d (omega arith)), (low 0x9000 0x901f (omega arith), tt))
      in_speculation

-- A label above all labels of a function.
abbrev above : List Block → ℕ
above [] = 0
above (b ∷ bs) = b.label + 1 + above bs

abbrev fresh_label : Function → ℕ
fresh_label f = above f.blocks

above-fresh : (n : ℕ) (bs : List Block) → above bs ≤ n → find_block n bs ≡ none
above-fresh n [] le = refl
above-fresh n (b ∷ bs) le =
    rw (ne→== b.label n (λ same. absurd (omega arith))) (above-fresh n bs (omega arith))

abbrev a_handler : Function
a_handler = record {
  name = codes "exc_page_fault";
  parent = codes "arch/fault.o";
  arguments = argument 0 other_ptr ∷ [];
  blocks = record { label = 0; instructions = call (computed condition) [] ∷ ret ∷ [] } ∷ [];
}

visit_exception-skips_example :
    (g : Function) × (visit_exception fresh_label same_blocks a_handler ≡ some g)
    × (after_hook 0 g.blocks ≡ some ([], call (computed condition) [] ∷ ret ∷ []))
    × (after_hook 1 g.blocks ≡ some ([], ret ∷ []))
visit_exception-skips_example =
    visit_exception-skips fresh_label same_blocks
      (λ f. above-fresh (above f.blocks) f.blocks (omega arith)) a_handler
      (record { label = 0; instructions = call (computed condition) [] ∷ ret ∷ [] }) []
      (argument 0 other_ptr) [] [] (call (computed condition) [] ∷ ret ∷ []) 0 refl refl refl
