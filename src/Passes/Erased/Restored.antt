-- ===== src/Passes/Erased/Restored.antt =====
-- Each pass, undone: what is erased is what the pass put in.
use kasper.Prelude.{
  ℕ, ◌≡◌, refl, ap, ◌∙◌, Bool, true, false, not, ◌||◌, Option, none, some, List, [], ◌∷◌, ◌++◌,
  if◌then◌else◌, codes,
}
use kasper.Passes.Names.{starts_with, same_name}
use kasper.Passes.Names.AbiList.{KSpecEmAbiList}
use kasper.Passes.Ir.{
  int, global, inverted, load_global, Instruction, store, cond_branch, compute, Block, Function,
  is_in, visit_instructions, visit_blocks, split_at_non_phi, constant_int, is_constant,
}
use kasper.Passes.Erased.{
  kept, erase, erase_blocks, inserted-erase, visit_instructions-erase, visit_blocks-erase, Appends,
  split_at_non_phi-Appends, between-erase,
}
use kasper.Passes.KSpecEm.{
  length_width, CalledFunction, visit_call_inst, visit_return_inst, visit_store_inst,
  visit_mem_intrinsic, restart_for, get_called_function, insert_restart_hook,
  insert_timer_interrupt_hook,
}
use kasper.Passes.KSpecEm
use kasper.Passes.Erased.Hooked.{Restores, visitor-Restores}
use kasper.Passes.KSpecEm.Visitor.{insert_first, visit_timer_entry, visit_timer, visitor}
use kasper.Passes.KSpecEmSpec
use kasper.Passes.KSpecEmSpec.{
  swap_branch_condition, is_swapped, new_condition, visit_branch_inst, insert_new_checkpoint_hook,
  insert_check_call_depth, swap_branch_condition, is_swapped, new_condition, check_call_depth_hook,
}
use kasper.Passes.CheckSpecLength
use kasper.Passes.CheckSpecLength.{insert_before_last, visit_block}

spec-visit-erase :
    (i : Instruction) (is : List Instruction)
    → erase (KSpecEmSpec.visit i ++ is) ≡ kept i ++ erase is
unfolding KSpecEmSpec.visit visit_branch_inst insert_new_checkpoint_hook
spec-visit-erase (cond_branch condition when_true when_false) is =
    inserted-erase (not (is_constant condition)) (inverted condition)
      (compute (load_global swap_branch_condition (int 32))
        ∷ compute is_swapped
        ∷ compute (new_condition condition)
        ∷ store (constant_int 32 0) (global swap_branch_condition) 4 false
        ∷ cond_branch (new_condition condition) when_true when_false
        ∷ [])
      is
spec-visit-erase i is = refl

check_call_depth-erase :
    (f : Function) (bs : List Block) → erase_blocks (insert_check_call_depth f bs) ≡ erase_blocks bs
unfolding insert_check_call_depth
check_call_depth-erase f [] = refl
check_call_depth-erase f (b ∷ bs) =
    go (split_at_non_phi b.instructions) (split_at_non_phi-Appends b.instructions)
  where
    go :
        (o : Option (List Instruction × List Instruction))
        → Appends o b.instructions
        → erase_blocks (elim o [
          | none ↦ b ∷ bs
          | some (before, rest) ↦
              record b { instructions = before ++ check_call_depth_hook f ++ rest } ∷ bs
        ])
          ≡ erase_blocks (b ∷ bs)
    go none h = refl
    go (some (before, rest)) h =
        ap (λ js. record { label = b.label; instructions = js } ∷ erase_blocks bs)
          (between-erase b.instructions before (check_call_depth_hook f) rest h (λ js. refl))

-- A function that a pass leaves alone, or gives new blocks.
either-erase :
    (b : Bool) (f : Function) (bs : List Block)
    → erase_blocks bs ≡ erase_blocks f.blocks
    → erase_blocks (if b then f else record f { blocks = bs }).blocks ≡ erase_blocks f.blocks
either-erase true f bs e = refl
either-erase false f bs e = e

pub spec-visitor-erase :
    (l : KSpecEmAbiList) (f : Function)
    → erase_blocks (KSpecEmSpec.visitor l f).blocks ≡ erase_blocks f.blocks
unfolding KSpecEmSpec.visitor
spec-visitor-erase l f =
    either-erase
      (is_in l f (codes "blacklist")
        || is_in l f (codes "exception")
        || is_in l f (codes "timer")
        || is_in l f (codes "nospec"))
      f (visit_blocks (visit_instructions KSpecEmSpec.visit) (insert_check_call_depth f f.blocks))
      (visit_blocks-erase (visit_instructions KSpecEmSpec.visit)
          (visit_instructions-erase KSpecEmSpec.visit spec-visit-erase)
          (insert_check_call_depth f f.blocks)
        ∙ check_call_depth-erase f f.blocks)

insert_before_last-erase :
    (hook : Instruction) (is : List Instruction)
    → kept hook ≡ []
    → erase (insert_before_last hook is) ≡ erase is
insert_before_last-erase hook [] e = refl
insert_before_last-erase hook (i ∷ []) e = rw e refl
insert_before_last-erase hook (i ∷ j ∷ is) e =
    ap (λ x. kept i ++ x) (insert_before_last-erase hook (j ∷ is) e)

pub check-visitor-erase :
    (f : Function) → erase_blocks (CheckSpecLength.visitor f).blocks ≡ erase_blocks f.blocks
unfolding CheckSpecLength.visitor visit_block
check-visitor-erase f =
    either-erase
      (starts_with (codes "__dfsan") f.name
        || same_name f.name (codes "stop_nmi")
        || same_name f.name (codes "unset_rt")
        || starts_with (codes "kspecem_") f.name)
      f (visit_blocks visit_block f.blocks)
      (visit_blocks-erase visit_block (λ is. insert_before_last-erase _ is refl) f.blocks)

-- Without what it put in, each of the three passes that only add gives the function that it was
-- given: the same instructions in the same blocks, each conditional branch on its own condition. The
-- exception is a function in the category of exception handlers, whose entry block is split.
pub passes-erase :
    (l spec_l : KSpecEmAbiList) (bits : ℕ) (new_label : Function → ℕ)
    (replace_phi_uses : (old new : ℕ) → List Block → List Block) (f : Function)
    → is_in l f (codes "exception") ≡ false
    → Restores f.blocks (KSpecEm.Visitor.visitor l bits new_label replace_phi_uses f)
      × (erase_blocks (KSpecEmSpec.visitor spec_l f).blocks ≡ erase_blocks f.blocks)
      × (erase_blocks (CheckSpecLength.visitor f).blocks ≡ erase_blocks f.blocks)
passes-erase l spec_l bits new_label replace_phi_uses f e = (
  visitor-Restores l bits new_label replace_phi_uses f e,
  spec-visitor-erase spec_l f,
  check-visitor-erase f,
)
