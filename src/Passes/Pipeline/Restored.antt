-- ===== src/Passes/Pipeline/Restored.antt =====
-- A whole pipeline, undone: what is erased is what its passes put into the module.
use kasper.Prelude.{◌≡◌, refl, subst, Bool, true, false, Option, none, some, List, [], ◌∷◌, All}
use kasper.Passes.Names.{Name}
use kasper.Passes.Ir.{Module}
use kasper.Passes.Plugin.{PassManager, run_passes}
use kasper.Passes.Pipeline.{Plugin, Settings, parse_callback, parse_pass_name, parse_pipeline}
use kasper.Passes.Pipeline.Same.{
  SameModule, IsPlain, SameModule-refl, SameModule-trans, IsPlain-same,
}
use kasper.Passes.Pipeline.Adds.{Adds, only_adds, parse_callback-Adds}

module _ (s : Settings) where
  -- What a parser adds.
  abbrev AllAdd : Option PassManager → Type 0
  AllAdd none = Unit
  AllAdd (some manager) = All (Adds s.functions) manager

  parse_pass_name-AllAdd :
      (ps : List Plugin) (n : Name) (manager : PassManager)
      → All (λ p. only_adds p ≡ true) ps
      → All (Adds s.functions) manager
      → AllAdd (parse_pass_name s ps n manager)
  unfolding parse_pass_name
  parse_pass_name-AllAdd [] n manager e all = tt
  parse_pass_name-AllAdd (p ∷ ps) n manager e all =
      go (parse_callback s p n manager).0 (parse_callback s p n manager).1
        (parse_pass_name s ps n manager) (parse_callback-Adds s p n manager e.0 all)
        (parse_pass_name-AllAdd ps n manager e.1 all)
    where
      go :
          (b : Bool) (longer : PassManager) (o : Option PassManager)
          → All (Adds s.functions) longer
          → AllAdd o
          → AllAdd (elim b [ true ↦ some longer | false ↦ o ])
      go true longer o h rest = h
      go false longer o h rest = rest

  parse_pipeline-AllAdd :
      (ps : List Plugin) (ns : List Name) (manager : PassManager)
      → All (λ p. only_adds p ≡ true) ps
      → All (Adds s.functions) manager
      → AllAdd (parse_pipeline s ps ns manager)
  unfolding parse_pipeline
  parse_pipeline-AllAdd ps [] manager e all = all
  parse_pipeline-AllAdd ps (n ∷ ns) manager e all =
      go (parse_pass_name s ps n manager) (parse_pass_name-AllAdd ps n manager e all)
        (λ longer h. parse_pipeline-AllAdd ps ns longer e h)
    where
      go :
          (o : Option PassManager)
          → AllAdd o
          → ((longer : PassManager)
              → All (Adds s.functions) longer
              → AllAdd (parse_pipeline s ps ns longer))
          → AllAdd (elim o [ none ↦ none | some longer ↦ parse_pipeline s ps ns longer ])
      go none h next = tt
      go (some longer) h next = next longer h

  -- Passes that only add, one after another.
  run_passes-SameModule :
      (manager : PassManager) (m : Module)
      → All (Adds s.functions) manager
      → All (IsPlain s.functions) m.functions
      → (n : Module) × (run_passes manager m ≡ some n) × SameModule m n
  unfolding run_passes
  run_passes-SameModule [] m all plain = (m, refl, SameModule-refl m)
  run_passes-SameModule (p ∷ ps) m all plain =
      let (n, analyses, e, same) = all.0 m plain in
      let (o, rest, sames) =
        run_passes-SameModule ps n all.1
          (IsPlain-same s.functions m.functions n.functions same.same_functions plain) in
      (o, rw e rest, SameModule-trans m n o same sames)

  -- Where the loaded plugins are those that only add, a text of their passes' names, in any order
  -- and with repetitions, makes of a module without handlers of timers or exceptions the same
  -- module with the same functions in the same order, each of which is, without what the passes
  -- put in, the function that it was; and the compiler does not crash.
  pub parse_pipeline-restores :
      (ps : List Plugin) (ns : List Name) (manager : PassManager) (m : Module)
      → All (λ p. only_adds p ≡ true) ps
      → All (IsPlain s.functions) m.functions
      → parse_pipeline s ps ns [] ≡ some manager
      → (n : Module) × (run_passes manager m ≡ some n) × SameModule m n
  parse_pipeline-restores ps ns manager m only plain e =
      run_passes-SameModule manager m (subst AllAdd e (parse_pipeline-AllAdd ps ns [] only tt))
        plain
