-- ===== src/Passes/KSpecEm/Typed/Functions.antt =====
-- A whole function after the visitor of passes/kspecem/KSpecEm.cpp calls the hooks with arguments of
-- the declared types.
use kasper.Prelude.{
  ℕ, ◌≡◌, sym, subst, Bool, true, false, Option, none, some, List, [], ◌∷◌, ◌++◌, ◌==◌,
  if◌then◌else◌, All, codes,
}
use kasper.Passes.Names.AbiList.{KSpecEmAbiList}
use kasper.Passes.Ir.{
  function_address, Value, Instruction, Block, Function, is_in, split_at_non_phi,
  visit_instructions, visit_blocks,
}
use kasper.Passes.Erased.{Appends, split_at_non_phi-Appends}
use kasper.Passes.KSpecEm.{
  visit, insert_restart_hook, insert_timer_interrupt_hook, insert_exception_interrupt_hook,
}
use kasper.Passes.KSpecEm.Visitor.{
  insert_first, visit_timer_entry, visit_timer, split_entry, visit_exception_entry, visit_exception,
  visitor,
}
use kasper.Passes.KSpecEm.Typed.{
  IsTyped, All-append, restart_hook-IsTyped, timer_hook-IsTyped, exception_hook-IsTyped,
  visit_instructions-IsTyped,
}

abbrev pub BlockIsTyped : Block → Type 0
BlockIsTyped b = All IsTyped b.instructions

-- `none` is a crash of the pass.
abbrev pub FunctionIsTyped : Option Function → Type 0
FunctionIsTyped none = Unit
FunctionIsTyped (some g) = All BlockIsTyped g.blocks

All-parts :
    (before rest : List Instruction)
    → All IsTyped (before ++ rest)
    → All IsTyped before × All IsTyped rest
All-parts [] rest p = (tt, p)
All-parts (i ∷ before) rest p = let q = All-parts before rest p.1 in ((p.0, q.0), q.1)

parts :
    (is before rest : List Instruction)
    → before ++ rest ≡ is
    → All IsTyped is
    → All IsTyped before × All IsTyped rest
parts is before rest e p = All-parts before rest (subst (All IsTyped) (sym e) p)

insert_first-IsTyped :
    (hooks : List Instruction) (bs : List Block)
    → All IsTyped hooks
    → All BlockIsTyped bs
    → All BlockIsTyped (insert_first hooks bs)
insert_first-IsTyped hooks [] h p = tt
insert_first-IsTyped hooks (b ∷ bs) h p = go b.label b.instructions p.0
  where
    go :
        (n : ℕ) (is : List Instruction)
        → All IsTyped is
        → All BlockIsTyped (insert_first hooks (record { label = n; instructions = is } ∷ bs))
    go n [] q = (tt, p.1)
    go n (i ∷ is) q = (All-append hooks (i ∷ is) h q, p.1)

visit_timer-IsTyped :
    (f : Function) (bs : List Block) (arguments : List Value)
    → All BlockIsTyped bs
    → FunctionIsTyped (visit_timer_entry f bs arguments)
visit_timer-IsTyped f [] arguments p = tt
visit_timer-IsTyped f (b ∷ bs) [] p = tt
visit_timer-IsTyped f (b ∷ bs) (arg ∷ args) p =
    go (split_at_non_phi b.instructions) (split_at_non_phi-Appends b.instructions)
  where
    go :
        (o : Option (List Instruction × List Instruction))
        → Appends o b.instructions
        → FunctionIsTyped (elim o [
          | none ↦ none
          | some (before, rest) ↦
              let is = before ++ insert_timer_interrupt_hook arg ++ rest in
              some (record f { blocks = record b { instructions = is } ∷ bs })
        ])
    go none h = tt
    go (some (before, rest)) h =
        let q = parts b.instructions before rest h p.0 in
        let hook = insert_timer_interrupt_hook arg in
        (
          All-append (before ++ hook) rest (All-append before hook q.0 (timer_hook-IsTyped arg))
              q.1,
          p.1,
        )

All-blocks :
    (cs bs : List Block) → All BlockIsTyped cs → All BlockIsTyped bs → All BlockIsTyped (cs ++ bs)
All-blocks [] bs p q = q
All-blocks (c ∷ cs) bs p q = (p.0, All-blocks cs bs p.1 q)

visit_blocks-IsTyped :
    (visit_block : List Instruction → List Instruction)
    → ((is : List Instruction) → All IsTyped is → All IsTyped (visit_block is))
    → (bs : List Block) → All BlockIsTyped bs
    → All BlockIsTyped (visit_blocks visit_block bs)
visit_blocks-IsTyped visit_block typed [] p = tt
visit_blocks-IsTyped visit_block typed (b ∷ bs) p =
    (typed b.instructions p.0, visit_blocks-IsTyped visit_block typed bs p.1)

module _ (new_label : Function → ℕ) (replace_phi_uses : (old new : ℕ) → List Block → List Block)
    (only_phis : (old new : ℕ) (bs : List Block)
      → All BlockIsTyped bs
      → All BlockIsTyped (replace_phi_uses old new bs)) where
  visit_exception-IsTyped :
      (f : Function) (bs : List Block) (arguments : List Value)
      → All BlockIsTyped bs
      → FunctionIsTyped (visit_exception_entry new_label replace_phi_uses f bs arguments)
  visit_exception-IsTyped f [] arguments p = tt
  visit_exception-IsTyped f (b ∷ bs) [] p = tt
  visit_exception-IsTyped f (b ∷ bs) (arg ∷ args) p =
      go (split_at_non_phi b.instructions) (split_at_non_phi-Appends b.instructions)
    where
      go :
          (o : Option (List Instruction × List Instruction))
          → Appends o b.instructions
          → FunctionIsTyped (elim o [
            | none ↦ none
            | some (before, rest) ↦ some (
                split_entry new_label replace_phi_uses f b bs before rest
                  (insert_exception_interrupt_hook f arg))
          ])
      go none h = tt
      go (some (before, rest)) h =
          let q = parts b.instructions before rest h p.0 in
          let hook = insert_exception_interrupt_hook f arg in
          (
            All-append (before ++ hook) _
                (All-append before hook q.0 (exception_hook-IsTyped f arg)) (tt, (tt, tt)),
            (q.1, All-blocks _ _ (only_phis b.label (new_label f) bs p.1) ((tt, tt), tt)),
          )

  -- Every call of a hook in a function that the visitor gives has arguments of the types that the
  -- pass declares the hook with, if pointers do not have 32 bits, the function's own calls of hooks
  -- and the lengths of its memory intrinsics are typed, and LLVM's renaming of a block keeps that.
  pub visitor-IsTyped :
      (l : KSpecEmAbiList) (bits : ℕ) (f : Function)
      → (bits == 32) ≡ false
      → All BlockIsTyped f.blocks
      → FunctionIsTyped (visitor l bits new_label replace_phi_uses f)
  unfolding visitor visit_timer visit_exception
  visitor-IsTyped l bits f wide p =
      go (is_in l f (codes "blacklist")) (is_in l f (codes "timer")) (is_in l f (codes "exception"))
    where
      go :
          (blacklist timer exception : Bool)
          → FunctionIsTyped (
              if blacklist
              then some (record f {
                blocks =
                    insert_first (insert_restart_hook 4 (some (function_address f.name))) f.blocks;
              })
              else if timer
              then visit_timer f
              else if exception
              then visit_exception new_label replace_phi_uses f
              else some (record f {
                blocks = visit_blocks (visit_instructions (visit l bits f)) f.blocks;
              }))
      go true timer exception =
          insert_first-IsTyped (insert_restart_hook 4 (some (function_address f.name))) f.blocks
            (restart_hook-IsTyped 4 (some (function_address f.name))) p
      go false true exception = visit_timer-IsTyped f f.blocks f.arguments p
      go false false true = visit_exception-IsTyped f f.blocks f.arguments p
      go false false false =
          visit_blocks-IsTyped (visit_instructions (visit l bits f))
            (visit_instructions-IsTyped l bits f wide) f.blocks p
