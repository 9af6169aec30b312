-- ===== src/Passes/Plugin/PageFault.antt =====
-- The plugin of passes/kspecem-pf-checker/KSpecEmPfChecker.cpp.
use kasper.Prelude.{Bool, not, some, codes}
use kasper.Passes.Names.{Name, contains}
use kasper.Passes.Ir.{Module}
use kasper.Passes.PfCheckerPass.{run_impl}
use kasper.Passes.Plugin.{
  ExtensionPoint, optimizer_last, full_link_time_optimization_last, Pass, PassManager,
  with_preserved, add_pass, add_named,
}

-- What runImpl returns.
abbrev pub changes : Module → Bool
changes m = not (contains (codes "libkspecem.a") m.identifier)

unfoldable pub run : Pass
unfolding run_impl
run m = with_preserved (changes m) (some (run_impl m))

-- The callback behind the optimizer, that of the legacy manager, and that by name.
unfoldable pub at_optimizer_last : PassManager → PassManager
unfolding run
at_optimizer_last manager = add_pass run manager

unfoldable pub legacy_extension : ExtensionPoint → PassManager → PassManager
unfolding run
legacy_extension optimizer_last manager = add_pass run manager
legacy_extension full_link_time_optimization_last manager = add_pass run manager

unfoldable pub parse : (name : Name) → PassManager → Bool × PassManager
unfolding run
parse name manager = add_named (codes "kspecem-pf-checker") run name manager
