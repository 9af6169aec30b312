-- ===== src/Passes/KSpecEm/Handler.antt =====
-- Where an exception handler goes after the hook that passes/kspecem puts into its entry block
-- (KSpecEm.cpp, lines 193 to 219).
use kasper.Prelude.{
  not, ◌&&◌, All, Bool-cases, inl, inr, codes, ℕ, suc, ◌≡◌, refl, ap, subst, ◌∙◌, Bool, true, false,
  Option, none, some, List, [], ◌∷◌, ◌++◌, arith, ◌==◌, if◌then◌else◌, eq→==,
}
use kasper.Passes.Names.{same_name}
use kasper.Passes.Ir.{
  int, i8_ptr, Value, constant_int, cast, frame_address, result, is_null, type_of, Instruction, phi,
  call, direct, ret, cond_branch, compute, hook_call, Block, Function, split_at_non_phi, is_phi,
  is_i8_ptr, is_constant, inserted, pointer_cast,
}
use kasper.Passes.KSpecEm.Hooks.{exception_func_name}
use kasper.Passes.KSpecEm.{insert_exception_interrupt_hook}
use kasper.Passes.KSpecEm.Visitor.{split_entry, visit_exception_entry, visit_exception}

abbrev pub find_block : ℕ → List Block → Option (List Instruction)
find_block n [] = none
find_block n (b ∷ bs) =
    let rest = find_block n bs in if b.label == n then some b.instructions else rest

-- An instruction of the handler's own has run.
abbrev pub with_own :
    Instruction
    → Option (List Instruction × List Instruction)
    → Option (List Instruction × List Instruction)
with_own i none = none
with_own i (some (own, target)) = some (i ∷ own, target)

abbrev pub branch_to :
    (returned : Option ℕ)
    → List Block
    → (when_null when_not : ℕ) → Option (List Instruction × List Instruction)
branch_to none bs when_null when_not = none
branch_to (some n) bs when_null when_not =
    elim (find_block (if n == 0 then when_null else when_not) bs) [
      | none ↦ none
      | some is ↦ some ([], is)
    ]

-- The run of a block up to the branch on the hook's result: the instructions of the handler's own that
-- have run, phis and values apart, and the block that the branch leads to. The hook returns
-- `hook_result` where it is called; `returned` is what it has returned so far.
abbrev pub enter :
    (hook_result : ℕ) (returned : Option ℕ)
    → List Block
    → List Instruction
    → Option (List Instruction × List Instruction)
enter r returned bs [] = none
enter r returned bs (phi n ∷ is) = enter r returned bs is
enter r returned bs (compute v ∷ is) = enter r returned bs is
enter r returned bs (call (direct n) arguments ∷ is) =
    let hooked = enter r (some r) bs is in
    let own = with_own (call (direct n) arguments) (enter r returned bs is) in
    if same_name n exception_func_name then hooked else own
enter r returned bs (cond_branch (is_null (result hook t)) when_null when_not ∷ is) =
    branch_to returned bs when_null when_not
enter r returned bs (i ∷ is) = with_own i (enter r returned bs is)

-- The entry block's run.
abbrev pub after_hook :
    (hook_result : ℕ) → List Block → Option (List Instruction × List Instruction)
after_hook r [] = none
after_hook r (b ∷ bs) = enter r none (b ∷ bs) b.instructions

abbrev IsPhi : Instruction → Type 0
IsPhi i = is_phi i ≡ true

abbrev StartsWithPhis : Option (List Instruction × List Instruction) → Type 0
StartsWithPhis none = Unit
StartsWithPhis (some (before, rest)) = All IsPhi before

split_at_non_phi-StartsWithPhis : (is : List Instruction) → StartsWithPhis (split_at_non_phi is)
split_at_non_phi-StartsWithPhis [] = tt
split_at_non_phi-StartsWithPhis (i ∷ is) = elim (Bool-cases (is_phi i)) [
  | inl e ↦ rw e (step e (split_at_non_phi is) (split_at_non_phi-StartsWithPhis is))
  | inr e ↦ rw e tt
]
  where
    step :
        is_phi i ≡ true
        → (o : Option (List Instruction × List Instruction)) → StartsWithPhis o
        → StartsWithPhis (elim o as (λ x. Option (List Instruction × List Instruction)) [
          | none ↦ none
          | some (before, after) ↦ some (i ∷ before, after)
        ])
    step e none p = tt
    step e (some (before, after)) p = (e, p)

enter-phis :
    (r : ℕ) (returned : Option ℕ) (bs : List Block) (before is rest : List Instruction)
    → All IsPhi before
    → enter r returned bs ((before ++ is) ++ rest) ≡ enter r returned bs (is ++ rest)
enter-phis r returned bs [] is rest p = refl
enter-phis r returned bs (phi n ∷ before) is rest p = enter-phis r returned bs before is rest p.1
enter-phis r returned bs (i ∷ before) is rest p = cc p.0

find_block-skip :
    (n : ℕ) (b : Block) (bs : List Block)
    → find_block n (b ∷ bs) ≡ none
    → ((b.label == n) ≡ false) × (find_block n bs ≡ none)
find_block-skip n b bs e = go (b.label == n) e
  where
    go :
        (same : Bool)
        → (if same then some b.instructions else find_block n bs) ≡ none
        → (same ≡ false) × (find_block n bs ≡ none)
    go true h = cc h
    go false h = (refl, h)

find_block-append :
    (n : ℕ) (bs cs : List Block)
    → find_block n bs ≡ none
    → find_block n (bs ++ cs) ≡ find_block n cs
find_block-append n [] cs e = refl
find_block-append n (b ∷ bs) cs e =
    let skip = find_block-skip n b bs e in rw (skip.0) (find_block-append n bs cs skip.1)

abbrev hook_branch : (n m : ℕ) → Instruction
hook_branch n m = cond_branch (is_null (result exception_func_name (int 32))) n m

abbrev block : ℕ → List Instruction → Block
block n is = record { label = n; instructions = is }

suc-nonzero : (n : ℕ) → (suc n == 0) ≡ false
suc-nonzero n = ground arith

branch_to-block :
    (r when_null when_not : ℕ) (bs : List Block) (is : List Instruction)
    → find_block (if r == 0 then when_null else when_not) bs ≡ some is
    → branch_to (some r) bs when_null when_not ≡ some ([], is)
branch_to-block r when_null when_not bs is e =
    ap
      (λ o. elim o as (λ x. Option (List Instruction × List Instruction)) [
        | none ↦ none
        | some js ↦ some ([], js)
      ])
      e

-- The entry block of phis, the hook and the branch, the handler's block, the others, and the one that
-- returns.
module _ (f : Function) (arg : Value) (a n m : ℕ) (before rest : List Instruction) (cs : List Block)
    (phis : All IsPhi before) where
  abbrev hook_tail : List Instruction
  hook_tail = compute (is_null (result exception_func_name (int 32))) ∷ hook_branch n m ∷ []

  abbrev entry_block : List Instruction
  entry_block = (before ++ insert_exception_interrupt_hook f arg) ++ hook_tail

  abbrev split_blocks : List Block
  split_blocks = block a entry_block ∷ block n rest ∷ (cs ++ block m (ret ∷ []) ∷ [])

  -- Nothing of the handler's own runs before the branch, which reads what the hook returned.
  after_hook-branch : (r : ℕ) → after_hook r split_blocks ≡ branch_to (some r) split_blocks n m
  unfolding insert_exception_interrupt_hook
  after_hook-branch r =
      enter-phis r none split_blocks before (insert_exception_interrupt_hook f arg) hook_tail phis
      ∙ cast_skipped (not (is_i8_ptr (type_of arg)) && not (is_constant arg))
    where
      cast_skipped :
          (b : Bool)
          → enter r none split_blocks (
              (inserted b (cast arg i8_ptr)
                ++ hook_call exception_func_name (
                    pointer_cast arg
                    ∷ frame_address
                    ∷ constant_int 32 (if same_name f.name (codes "exc_page_fault") then 1 else 0)
                    ∷ [])
                  ∷ [])
              ++ hook_tail)
            ≡ branch_to (some r) split_blocks n m
      cast_skipped true = refl
      cast_skipped false = refl

  after_hook-split :
      (r : ℕ)
      → (a == n) ≡ false
      → (a == m) ≡ false
      → (n == m) ≡ false
      → find_block m cs ≡ none
      → (after_hook 0 split_blocks ≡ some ([], rest))
        × (after_hook (suc r) split_blocks ≡ some ([], ret ∷ []))
  after_hook-split r an am nm others = (
    after_hook-branch 0 ∙ branch_to-block 0 n m split_blocks rest found_handler,
    after_hook-branch (suc r)
        ∙ branch_to-block (suc r) n m split_blocks (ret ∷ [])
            (ap (λ b. find_block (if b then n else m) split_blocks) (suc-nonzero r) ∙ found_return),
  )
    where
      found_handler : find_block n split_blocks ≡ some rest
      found_handler = rw (an, eq→== n n refl) refl

      found_return : find_block m split_blocks ≡ some (ret ∷ [])
      found_return =
          rw (am, nm)
            (find_block-append m cs (block m (ret ∷ []) ∷ []) others ∙ rw (eq→== m m refl) refl)

module _ (new_label : Function → ℕ) (replace_phi_uses : (old new : ℕ) → List Block → List Block)
    (fresh : (f : Function) → find_block (new_label f) f.blocks ≡ none) where
  -- The handler in which the pass finds an entry block and an argument: after a hook that returns 0
  -- it goes on with what followed its phis, and after one that does not, it returns; the hook is
  -- called first, and nothing of the handler's own but its phis runs before. LLVM's labels of new blocks are not those of the function's blocks.
  pub visit_exception-skips :
      (f : Function) (b : Block) (bs : List Block) (arg : Value) (args : List Value)
      (before rest : List Instruction) (r : ℕ)
      → f.blocks ≡ b ∷ bs
      → f.arguments ≡ arg ∷ args
      → split_at_non_phi b.instructions ≡ some (before, rest)
      → (g : Function) × (visit_exception new_label replace_phi_uses f ≡ some g)
        × (after_hook 0 g.blocks ≡ some ([], rest))
        × (after_hook (suc r) g.blocks ≡ some ([], ret ∷ []))
  unfolding visit_exception
  visit_exception-skips f b bs arg args before rest r blocks arguments split = (
    split_entry new_label replace_phi_uses f b bs before rest
        (insert_exception_interrupt_hook f arg),
    entered,
    targets.0,
    targets.1,
  )
    where
      hook : List Instruction
      hook = insert_exception_interrupt_hook f arg

      cs : List Block
      cs = replace_phi_uses b.label (new_label f) bs

      with_split : Function
      with_split = record f { blocks = b ∷ block (new_label f) rest ∷ cs }

      entered :
          visit_exception new_label replace_phi_uses f
          ≡ some (split_entry new_label replace_phi_uses f b bs before rest hook)
      entered =
          ap (λ x. visit_exception_entry new_label replace_phi_uses f x f.arguments) blocks
          ∙ ap (λ x. visit_exception_entry new_label replace_phi_uses f (b ∷ bs) x) arguments
          ∙ ap
              (λ o. elim o as (λ x. Option Function) [
                | none ↦ none
                | some (start, end) ↦
                    some (split_entry new_label replace_phi_uses f b bs start end hook)
              ])
              split

      first : ((b.label == new_label f) ≡ false) × (find_block (new_label f) bs ≡ none)
      first =
          find_block-skip (new_label f) b bs
            (subst (λ x. find_block (new_label f) x ≡ none) blocks (fresh f))

      second :
          ((b.label == new_label with_split) ≡ false)
          × (find_block (new_label with_split) (block (new_label f) rest ∷ cs) ≡ none)
      second =
          find_block-skip (new_label with_split) b (block (new_label f) rest ∷ cs)
            (fresh with_split)

      third :
          ((new_label f == new_label with_split) ≡ false)
          × (find_block (new_label with_split) cs ≡ none)
      third = find_block-skip (new_label with_split) (block (new_label f) rest) cs second.1

      phis : All IsPhi before
      phis = subst StartsWithPhis split (split_at_non_phi-StartsWithPhis b.instructions)

      targets :
          (after_hook 0 (split_entry new_label replace_phi_uses f b bs before rest hook).blocks
            ≡ some ([], rest))
          × (after_hook
                (suc r)
                (split_entry new_label replace_phi_uses f b bs before rest hook).blocks
              ≡ some ([], ret ∷ []))
      targets =
          after_hook-split f arg b.label (new_label f) (new_label with_split) before rest cs phis r
            first.0 second.0 third.0 third.1
