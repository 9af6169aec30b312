-- ===== src/Passes/KSpecEm/Visitor.antt =====
-- The visitor of passes/kspecem/KSpecEm.cpp for a function and its run over a module. LLVM's choice
-- of a new block's label and its renaming of a block in phis are `new_label` and `replace_phi_uses`.
use kasper.Prelude.{ℕ, Option, none, some, List, [], ◌∷◌, ◌++◌, if◌then◌else◌, codes}
use kasper.Passes.Names.{contains}
use kasper.Passes.Names.AbiList.{KSpecEmAbiList}
use kasper.Passes.Ir.{
  int, Value, function_address, result, is_null, Instruction, ret, cond_branch, compute, Block,
  Function, Module, visit_instructions, visit_blocks, split_at_non_phi, is_in,
}
use kasper.Passes.KSpecEm.Hooks.{exception_func_name}
use kasper.Passes.KSpecEm.{
  insert_restart_hook, insert_timer_interrupt_hook, insert_exception_interrupt_hook, visit,
}

-- A function that is never run speculatively: a restart before its first instruction.
abbrev pub insert_first : List Instruction → List Block → List Block
insert_first hooks [] = []
insert_first hooks (b ∷ bs) = elim b.instructions [
  | [] ↦ b ∷ bs
  | i ∷ is ↦ record b { instructions = hooks ++ i ∷ is } ∷ bs
]

-- The hook after the entry block's phis; `none` if the pass reads what is not there: the entry
-- block or the argument.
abbrev pub visit_timer_entry : Function → List Block → (arguments : List Value) → Option Function
visit_timer_entry f [] arguments = none
visit_timer_entry f (b ∷ bs) [] = none
visit_timer_entry f (b ∷ bs) (arg ∷ args) = elim (split_at_non_phi b.instructions) [
  | none ↦ none
  | some (before, rest) ↦
      let is = before ++ insert_timer_interrupt_hook arg ++ rest in
      some (record f { blocks = record b { instructions = is } ∷ bs })
]

unfoldable pub visit_timer : Function → Option Function
unfolding insert_timer_interrupt_hook
visit_timer f = visit_timer_entry f f.blocks f.arguments

module _ (new_label : Function → ℕ)
    (replace_phi_uses : (old new : ℕ) → List Block → List Block) where
  -- SplitBlock, the conditional branch in place of the one that it leaves, and the block that
  -- returns. The second new label is that of the function with one block more.
  abbrev pub split_entry :
      Function → Block → List Block → (before rest hook : List Instruction) → Function
  split_entry f b bs before rest hook =
      let new_bb = new_label f in
      let split =
        record { label = new_bb; instructions = rest } ∷ replace_phi_uses b.label new_bb bs in
      let return_bb = new_label (record f { blocks = b ∷ split }) in
      let condition = is_null (result exception_func_name (int 32)) in
      let entry =
        before ++ hook ++ compute condition ∷ cond_branch condition new_bb return_bb ∷ [] in
      record f {
        blocks =
            record b { instructions = entry } ∷ split
            ++ record { label = return_bb; instructions = ret ∷ [] } ∷ [];
      }

  abbrev pub visit_exception_entry :
      Function → List Block → (arguments : List Value) → Option Function
  visit_exception_entry f [] arguments = none
  visit_exception_entry f (b ∷ bs) [] = none
  visit_exception_entry f (b ∷ bs) (arg ∷ args) = elim (split_at_non_phi b.instructions) [
    | none ↦ none
    | some (before, rest) ↦
        some (split_entry f b bs before rest (insert_exception_interrupt_hook f arg))
  ]

  unfoldable pub visit_exception : Function → Option Function
  unfolding insert_exception_interrupt_hook
  visit_exception f = visit_exception_entry f f.blocks f.arguments

module _ (l : KSpecEmAbiList) (pointer_bits : ℕ) (new_label : Function → ℕ)
    (replace_phi_uses : (old new : ℕ) → List Block → List Block) where
  unfoldable pub visitor : Function → Option Function
  unfolding insert_restart_hook visit_timer visit_exception visit
  visitor f =
      if is_in l f (codes "blacklist")
      then some (record f {
        blocks = insert_first (insert_restart_hook 4 (some (function_address f.name))) f.blocks;
      })
      else if is_in l f (codes "timer")
      then visit_timer f
      else if is_in l f (codes "exception")
      then visit_exception new_label replace_phi_uses f
      else some (record f {
        blocks = visit_blocks (visit_instructions (visit l pointer_bits f)) f.blocks;
      })

  abbrev pub visit_functions : List Function → Option (List Function)
  visit_functions [] = some []
  visit_functions (f ∷ fs) = elim (visitor f) [
    | none ↦ none
    | some g ↦ elim (visit_functions fs) [ none ↦ none | some gs ↦ some (g ∷ gs) ]
  ]

  unfoldable pub run_impl : Module → Option Module
  unfolding visitor
  run_impl m =
      if contains (codes "libkspecem.a") m.identifier
      then some m
      else elim (visit_functions m.functions) [
        | none ↦ none
        | some fs ↦ some (record m { functions = fs })
      ]
