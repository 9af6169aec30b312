-- ===== src/Passes/Pipeline/Same.antt =====
-- When two modules are the same program but for what the passes put into them.
use kasper.Prelude.{◌≡◌, refl, ◌∙◌, Bool, true, false, List, [], ◌∷◌, if◌then◌else◌, All, codes}
use kasper.Passes.Names.AbiList.{KSpecEmAbiList}
use kasper.Passes.Ir.{Block, Function, Module, is_in}
use kasper.Passes.Erased.{erase_blocks}

-- The same function without what passes put in.
pub record SameFunction (f g : Function) : Type 0 where
  pub same_name : g.name ≡ f.name
  pub same_parent : g.parent ≡ f.parent
  pub same_arguments : g.arguments ≡ f.arguments
  pub same_blocks : erase_blocks g.blocks ≡ erase_blocks f.blocks

abbrev pub SameFunctions : (fs gs : List Function) → Type 0
SameFunctions [] [] = Unit
SameFunctions [] (g ∷ gs) = true ≡ false
SameFunctions (f ∷ fs) [] = true ≡ false
SameFunctions (f ∷ fs) (g ∷ gs) = SameFunction f g × SameFunctions fs gs

pub record SameModule (m n : Module) : Type 0 where
  pub same_identifier : n.identifier ≡ m.identifier
  pub same_pointer_bits : n.pointer_bits ≡ m.pointer_bits
  pub same_functions : SameFunctions m.functions n.functions

-- No handler of timers or exceptions, into whose entry block the hook pass reads and splits.
pub record IsPlain (l : KSpecEmAbiList) (f : Function) : Type 0 where
  pub no_timer : is_in l f (codes "timer") ≡ false
  pub no_exception : is_in l f (codes "exception") ≡ false

pub SameFunction-refl : (f : Function) → SameFunction f f
SameFunction-refl f = record {
  same_name = refl;
  same_parent = refl;
  same_arguments = refl;
  same_blocks = refl;
}

pub SameFunctions-refl : (fs : List Function) → SameFunctions fs fs
SameFunctions-refl [] = tt
SameFunctions-refl (f ∷ fs) = (SameFunction-refl f, SameFunctions-refl fs)

pub SameFunctions-trans :
    (fs gs hs : List Function) → SameFunctions fs gs → SameFunctions gs hs → SameFunctions fs hs
SameFunctions-trans [] [] hs p q = q
SameFunctions-trans [] (g ∷ gs) hs p q = cc
SameFunctions-trans (f ∷ fs) [] hs p q = cc
SameFunctions-trans (f ∷ fs) (g ∷ gs) [] p q = cc
SameFunctions-trans (f ∷ fs) (g ∷ gs) (h ∷ hs) p q = (
  record {
    same_name = q.0.same_name ∙ p.0.same_name;
    same_parent = q.0.same_parent ∙ p.0.same_parent;
    same_arguments = q.0.same_arguments ∙ p.0.same_arguments;
    same_blocks = q.0.same_blocks ∙ p.0.same_blocks;
  },
  SameFunctions-trans fs gs hs p.1 q.1,
)

pub SameModule-refl : (m : Module) → SameModule m m
SameModule-refl m = record {
  same_identifier = refl;
  same_pointer_bits = refl;
  same_functions = SameFunctions-refl m.functions;
}

pub SameModule-trans : (m n o : Module) → SameModule m n → SameModule n o → SameModule m o
SameModule-trans m n o p q = record {
  same_identifier = q.same_identifier ∙ p.same_identifier;
  same_pointer_bits = q.same_pointer_bits ∙ p.same_pointer_bits;
  same_functions =
      SameFunctions-trans m.functions n.functions o.functions p.same_functions q.same_functions;
}

-- A function keeps its categories.
pub IsPlain-same :
    (l : KSpecEmAbiList) (fs gs : List Function)
    → SameFunctions fs gs
    → All (IsPlain l) fs
    → All (IsPlain l) gs
IsPlain-same l [] [] p all = tt
IsPlain-same l [] (g ∷ gs) p all = cc
IsPlain-same l (f ∷ fs) [] p all = cc
IsPlain-same l (f ∷ fs) (g ∷ gs) p all = (
  record {
    no_timer = rw (p.0.same_name, p.0.same_parent) all.0.no_timer;
    no_exception = rw (p.0.same_name, p.0.same_parent) all.0.no_exception;
  },
  IsPlain-same l fs gs p.1 all.1,
)

-- New blocks that hold the old ones.
pub with_blocks :
    (f : Function) (bs : List Block)
    → erase_blocks bs ≡ erase_blocks f.blocks
    → SameFunction f (record f { blocks = bs })
with_blocks f bs e = record {
  same_name = refl;
  same_parent = refl;
  same_arguments = refl;
  same_blocks = e;
}

pub either-same :
    (b : Bool) (f : Function) (bs : List Block)
    → erase_blocks (if b then f else record f { blocks = bs }).blocks ≡ erase_blocks f.blocks
    → SameFunction f (if b then f else record f { blocks = bs })
either-same true f bs e = SameFunction-refl f
either-same false f bs e = with_blocks f bs e
