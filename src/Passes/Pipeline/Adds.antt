-- ===== src/Passes/Pipeline/Adds.antt =====
-- Each plugin's pass, undone over a whole module.
use kasper.Prelude.{
  ℕ, ◌≡◌, refl, subst, Bool, true, false, Option, none, some, List, [], ◌∷◌, ◌++◌, if◌then◌else◌,
  All, codes, ◌&&◌, ◌||◌, not,
}
use kasper.Passes.Names.{Name, contains, same_name}
use kasper.Passes.Names.AbiList.{KSpecEmAbiList}
use kasper.Passes.Ir.{
  Block, Function, Module, is_in, function_address, visit_blocks, visit_instructions,
}
use kasper.Passes.Erased.Hooked.{Restores, visitor-Restores}
use kasper.Passes.Erased.Restored.{spec-visitor-erase, check-visitor-erase}
use kasper.Passes.KSpecEm
use kasper.Passes.KSpecEm.{insert_restart_hook}
use kasper.Passes.KSpecEm.Visitor
use kasper.Passes.KSpecEm.Visitor.{insert_first}
use kasper.Passes.KSpecEmSpec
use kasper.Passes.CheckSpecLength
use kasper.Passes.Plugin.{
  Pass, PassManager, PreservedAnalyses, none_preserved, all_preserved, preserved, with_preserved,
  add_pass, add_named,
}
use kasper.Passes.Plugin.Hook
use kasper.Passes.Plugin.Checkpoint
use kasper.Passes.Plugin.SpecLength
use kasper.Passes.Plugin.Counting
use kasper.Passes.Pipeline.Same.{
  SameFunction, SameFunctions, SameModule, IsPlain, SameModule-refl, with_blocks, either-same,
}
use kasper.Passes.Pipeline.{
  Plugin, hook, checkpoint, spec_length, page_fault, counting, Settings, parse_callback,
}

-- A pass that only adds to a module without handlers.
abbrev pub Adds : KSpecEmAbiList → Pass → Type 0
Adds l p =
    (m : Module)
    → All (IsPlain l) m.functions
    → (n : Module) × (analyses : PreservedAnalyses) × (p m ≡ some (n, analyses)) × SameModule m n

-- The page-fault pass replaces addresses.
abbrev pub only_adds : Plugin → Bool
only_adds page_fault = false
only_adds p = true

module _ (s : Settings) where
  -- The hook pass, on one function, on several and on a module.
  hook-function :
      (bits : ℕ) (f : Function)
      → IsPlain s.functions f
      → (g : Function) × (KSpecEm.Visitor.visitor s.functions bits s.new_label s.replace_phi_uses f
          ≡ some g)
        × SameFunction f g
  unfolding KSpecEm.Visitor.visitor
  hook-function bits f plain = (
    record f { blocks = new_blocks },
    visited,
    with_blocks f new_blocks (
        subst (Restores f.blocks) visited
          (visitor-Restores s.functions bits s.new_label s.replace_phi_uses f plain.no_exception)),
  )
    where
      new_blocks : List Block
      new_blocks =
          if is_in s.functions f (codes "blacklist")
          then insert_first (insert_restart_hook 4 (some (function_address f.name))) f.blocks
          else visit_blocks (visit_instructions (KSpecEm.visit s.functions bits f)) f.blocks

      either :
          (b : Bool) (xs ys : List Block)
          → ◌≡◌ {A = Option Function}
              (if b then some (record f { blocks = xs }) else some (record f { blocks = ys }))
              (some (record f { blocks = if b then xs else ys }))
      either true xs ys = refl
      either false xs ys = refl

      visited :
          KSpecEm.Visitor.visitor s.functions bits s.new_label s.replace_phi_uses f
          ≡ some (record f { blocks = new_blocks })
      visited =
          rw (plain.no_timer, plain.no_exception)
            (either (is_in s.functions f (codes "blacklist")) _ _)

  hook-functions :
      (bits : ℕ) (fs : List Function)
      → All (IsPlain s.functions) fs
      → (gs : List Function) × (KSpecEm.Visitor.visit_functions s.functions bits s.new_label
            s.replace_phi_uses fs
          ≡ some gs)
        × SameFunctions fs gs
  hook-functions bits [] all = ([], refl, tt)
  hook-functions bits (f ∷ fs) all =
      let (g, e, same) = hook-function bits f all.0 in
      let (gs, es, sames) = hook-functions bits fs all.1 in
      (
        g ∷ gs,
        both (KSpecEm.Visitor.visitor s.functions bits s.new_label s.replace_phi_uses f)
            (KSpecEm.Visitor.visit_functions s.functions bits s.new_label s.replace_phi_uses fs) g
            gs e es,
        (same, sames),
      )
    where
      both :
          (o : Option Function) (os : Option (List Function)) (g : Function) (gs : List Function)
          → o ≡ some g
          → os ≡ some gs
          → ◌≡◌ {A = Option (List Function)}
              (elim o [ none ↦ none | some g ↦ elim os [ none ↦ none | some gs ↦ some (g ∷ gs) ] ])
              (some (g ∷ gs))
      both o os g gs e es = rw (e, es) refl

  hook-Adds : Adds s.functions (Hook.run s.functions s.new_label s.replace_phi_uses)
  unfolding Hook.run KSpecEm.Visitor.run_impl
  hook-Adds m plain = go (contains (codes "libkspecem.a") m.identifier)
    where
      go :
          (b : Bool)
          → (n : Module) × (analyses : PreservedAnalyses) × (with_preserved (not b) (
                if b
                then some m
                else elim (KSpecEm.Visitor.visit_functions s.functions m.pointer_bits s.new_label
                    s.replace_phi_uses m.functions) [
                      | none ↦ none
                      | some fs ↦ some (record m { functions = fs })
                    ])
              ≡ some (n, analyses))
            × SameModule m n
      go true = (m, all_preserved, refl, SameModule-refl m)
      go false =
          let (gs, e, same) = hook-functions m.pointer_bits m.functions plain in
          (
            record m { functions = gs },
            none_preserved,
            rw e refl,
            record { same_identifier = refl; same_pointer_bits = refl; same_functions = same },
          )

  checkpoint-functions :
      (l : KSpecEmAbiList) (fs : List Function)
      → SameFunctions fs (KSpecEmSpec.visit_functions l fs)
  unfolding KSpecEmSpec.visitor
  checkpoint-functions l [] = tt
  checkpoint-functions l (f ∷ fs) =
      (either-same _ f _ (spec-visitor-erase l f), checkpoint-functions l fs)

  -- A module whose functions may be visited.
  either-Adds :
      (visit_functions : List Function → List Function)
      → ((fs : List Function) → SameFunctions fs (visit_functions fs))
      → (m : Module) (b changed : Bool)
      → (n : Module) × (analyses : PreservedAnalyses) × (with_preserved changed
            (some (if b then m else record m { functions = visit_functions m.functions }))
          ≡ some (n, analyses))
        × SameModule m n
  either-Adds visit_functions same m true changed = (m, preserved changed, refl, SameModule-refl m)
  either-Adds visit_functions same m false changed = (
    record m { functions = visit_functions m.functions },
    preserved changed,
    refl,
    record { same_identifier = refl; same_pointer_bits = refl; same_functions = same m.functions },
  )

  checkpoint-Adds : Adds s.functions (Checkpoint.run s.spec_functions)
  unfolding Checkpoint.run KSpecEmSpec.run_impl
  checkpoint-Adds m plain =
      either-Adds (KSpecEmSpec.visit_functions s.spec_functions)
        (checkpoint-functions s.spec_functions) m (contains (codes "libkspecem.a") m.identifier) _

  spec_length-functions :
      (fs : List Function) → SameFunctions fs (CheckSpecLength.visit_functions fs)
  unfolding CheckSpecLength.visitor
  spec_length-functions [] = tt
  spec_length-functions (f ∷ fs) =
      (either-same _ f _ (check-visitor-erase f), spec_length-functions fs)

  spec_length-Adds : Adds s.functions SpecLength.run
  unfolding SpecLength.run CheckSpecLength.run_impl
  spec_length-Adds m plain =
      subst
        (λ (o : Option Module).
          (n : Module) × (analyses : PreservedAnalyses) × (with_preserved (SpecLength.changes m) o
            ≡ some (n, analyses))
          × SameModule m n)
        (joined (contains (codes "libkspecem.a") m.identifier) _)
        (either-Adds CheckSpecLength.visit_functions spec_length-functions m
          (contains (codes "libkspecem.a") m.identifier
            || (contains (codes "kdfsan") m.identifier || contains (codes "kdfinit") m.identifier)
              && not (contains (codes "test_kdfsan") m.identifier))
          (SpecLength.changes m))
    where
      joined :
          (a b : Bool)
          → ◌≡◌ {A = Option Module}
              (some (
                if a || b
                then m
                else record m { functions = CheckSpecLength.visit_functions m.functions }))
              (some (
                if a
                then m
                else if b
                then m
                else record m { functions = CheckSpecLength.visit_functions m.functions }))
      joined true b = refl
      joined false b = refl

  counting-Adds : Adds s.functions Counting.run
  unfolding Counting.run
  counting-Adds m plain = (m, none_preserved, refl, SameModule-refl m)

  All-add_named :
      (own n : Name) (p : Pass) (manager : PassManager)
      → Adds s.functions p
      → All (Adds s.functions) manager
      → All (Adds s.functions) (add_named own p n manager).1
  All-add_named own n p manager adds all = go (same_name n own)
    where
      behind :
          (ps : PassManager) → All (Adds s.functions) ps → All (Adds s.functions) (ps ++ p ∷ [])
      behind [] all = (adds, tt)
      behind (q ∷ ps) all = (all.0, behind ps all.1)

      go :
          (b : Bool)
          → let r : Bool × PassManager =
              if b then (true, add_pass p manager) else (false, manager) in
            All (Adds s.functions) r.1
      go true = behind manager all
      go false = all

  pub parse_callback-Adds :
      (p : Plugin) (n : Name) (manager : PassManager)
      → only_adds p ≡ true
      → All (Adds s.functions) manager
      → All (Adds s.functions) (parse_callback s p n manager).1
  unfolding parse_callback Hook.parse Checkpoint.parse SpecLength.parse Counting.parse
  parse_callback-Adds hook n manager e all = All-add_named _ n _ manager hook-Adds all
  parse_callback-Adds checkpoint n manager e all = All-add_named _ n _ manager checkpoint-Adds all
  parse_callback-Adds spec_length n manager e all = All-add_named _ n _ manager spec_length-Adds all
  parse_callback-Adds page_fault n manager e all = cc
  parse_callback-Adds counting n manager e all = All-add_named _ n _ manager counting-Adds all
