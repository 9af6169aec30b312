-- ===== src/Passes/Plugin/Hook.antt =====
-- The plugin of passes/kspecem/KSpecEm.cpp.
use kasper.Prelude.{ℕ, Bool, not, List, codes}
use kasper.Passes.Names.{Name, contains}
use kasper.Passes.Names.AbiList.{KSpecEmAbiList}
use kasper.Passes.Ir.{Block, Function, Module}
use kasper.Passes.KSpecEm.Visitor.{run_impl}
use kasper.Passes.Plugin.{
  ExtensionPoint, optimizer_last, full_link_time_optimization_last, Pass, PassManager,
  with_preserved, add_pass, add_named,
}

-- What runImpl returns.
abbrev pub changes : Module → Bool
changes m = not (contains (codes "libkspecem.a") m.identifier)

module _ (l : KSpecEmAbiList) (new_label : Function → ℕ)
    (replace_phi_uses : (old new : ℕ) → List Block → List Block) where
  unfoldable pub run : Pass
  unfolding run_impl
  run m = with_preserved (changes m) (run_impl l m.pointer_bits new_label replace_phi_uses m)

  -- The callback behind the optimizer, that of the legacy manager, and that by name.
  unfoldable pub at_optimizer_last : PassManager → PassManager
  unfolding run
  at_optimizer_last manager = add_pass run manager

  unfoldable pub legacy_extension : ExtensionPoint → PassManager → PassManager
  unfolding run
  legacy_extension optimizer_last manager = add_pass run manager
  legacy_extension full_link_time_optimization_last manager = add_pass run manager

  unfoldable pub parse : (name : Name) → PassManager → Bool × PassManager
  unfolding run
  parse name manager = add_named (codes "kspecem") run name manager
