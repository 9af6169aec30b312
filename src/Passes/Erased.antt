-- ===== src/Passes/Erased.antt =====
-- A function without what the passes put into it: the hooks, the instructions that compute their
-- arguments, the writes of the runtime's variables and the swap of a branch's condition.
pub mod Hooked
pub mod Restored
use kasper.Prelude.{
  ℕ, ◌≡◌, refl, sym, ap, ◌∙◌, Bool, true, false, not, ◌&&◌, Option, none, some, List, [], ◌∷◌, ◌++◌,
  if◌then◌else◌, codes,
}
use mathlib.Core.List.{append_assoc}
use kasper.Passes.Names.{Name, starts_with}
use kasper.Passes.Ir.{
  Value, global, select, direct, Instruction, phi, store, call, cond_branch, compute, Block, i8_ptr,
  type_of, cast, is_i8_ptr, is_constant, compute_cast, is_phi, inserted, visit_instructions,
  visit_blocks, split_at_non_phi,
}

-- The condition that the program gave a branch.
abbrev pub own_condition : Value → Value
own_condition (select c v w) = own_condition w
own_condition v = v

abbrev pub is_runtime : Name → Bool
is_runtime n = starts_with (codes "kspecem_") n

-- What is left of an instruction.
abbrev pub kept : Instruction → List Instruction
kept (compute v) = []
kept (call (direct n) arguments) = if is_runtime n then [] else call (direct n) arguments ∷ []
kept (store v (global n) size marked) =
    if is_runtime n then [] else store v (global n) size marked ∷ []
kept (cond_branch condition when_true when_false) =
    cond_branch (own_condition condition) when_true when_false ∷ []
kept i = i ∷ []

abbrev pub erase : List Instruction → List Instruction
erase [] = []
erase (i ∷ is) = kept i ++ erase is

abbrev pub erase_blocks : List Block → List Block
erase_blocks [] = []
erase_blocks (b ∷ bs) = record b { instructions = erase b.instructions } ∷ erase_blocks bs

pub erase-append : (is js : List Instruction) → erase (is ++ js) ≡ erase is ++ erase js
erase-append [] js = refl
erase-append (i ∷ is) js =
    ap (λ x. kept i ++ x) (erase-append is js) ∙ sym (append_assoc (kept i) (erase is) (erase js))

pub inserted-erase :
    (b : Bool) (v : Value) (hooks is : List Instruction)
    → erase ((inserted b v ++ hooks) ++ is) ≡ erase (hooks ++ is)
inserted-erase true v hooks is = refl
inserted-erase false v hooks is = refl

pub compute_cast-erase :
    (v : Value) (hooks is : List Instruction)
    → erase ((compute_cast v ++ hooks) ++ is) ≡ erase (hooks ++ is)
compute_cast-erase v hooks is =
    inserted-erase (not (is_i8_ptr (type_of v)) && not (is_constant v)) (cast v i8_ptr) hooks is

-- A visitor that keeps its instruction, over a whole block and a whole function.
pub visit_instructions-erase :
    (visit : Instruction → List Instruction)
    → ((i : Instruction) (is : List Instruction) → erase (visit i ++ is) ≡ kept i ++ erase is)
    → (is : List Instruction) → erase (visit_instructions visit is) ≡ erase is
visit_instructions-erase visit keeps [] = refl
visit_instructions-erase visit keeps (i ∷ is) =
    keeps i (visit_instructions visit is)
    ∙ ap (λ x. kept i ++ x) (visit_instructions-erase visit keeps is)

pub visit_blocks-erase :
    (visit : List Instruction → List Instruction)
    → ((is : List Instruction) → erase (visit is) ≡ erase is)
    → (bs : List Block) → erase_blocks (visit_blocks visit bs) ≡ erase_blocks bs
visit_blocks-erase visit keeps [] = refl
visit_blocks-erase visit keeps (b ∷ bs) =
    rw (keeps b.instructions, visit_blocks-erase visit keeps bs) refl

-- The phis of a block and what follows them are the block.
abbrev pub Appends : Option (List Instruction × List Instruction) → List Instruction → Type 0
Appends none is = Unit
Appends (some (before, rest)) is = before ++ rest ≡ is

pub split_at_non_phi-Appends : (is : List Instruction) → Appends (split_at_non_phi is) is
split_at_non_phi-Appends [] = tt
split_at_non_phi-Appends (i ∷ is) =
    go (is_phi i) (split_at_non_phi is) (split_at_non_phi-Appends is)
  where
    go :
        (b : Bool) (o : Option (List Instruction × List Instruction))
        → Appends o is
        → Appends
            (if b
              then elim o [ none ↦ none | some (before, after) ↦ some (i ∷ before, after) ]
              else some ([], i ∷ is))
            (i ∷ is)
    go true none h = tt
    go true (some (before, after)) h = ap (λ x. i ∷ x) h
    go false o h = refl

-- Hooks between the two.
pub between-erase :
    (is before hooks rest : List Instruction)
    → before ++ rest ≡ is
    → ((js : List Instruction) → erase (hooks ++ js) ≡ erase js)
    → erase (before ++ hooks ++ rest) ≡ erase is
between-erase is before hooks rest e vanish =
    ap erase (append_assoc before hooks rest)
    ∙ erase-append before (hooks ++ rest)
    ∙ ap (λ x. erase before ++ x) (vanish rest)
    ∙ sym (erase-append before rest)
    ∙ ap erase e
