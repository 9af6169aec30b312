-- ===== src/Passes/Plugin/Counting.antt =====
-- The plugin of passes/count-instrs/CountInstrs.cpp, which changes nothing and says that it does.
use kasper.Prelude.{Bool, true, some, codes}
use kasper.Passes.Names.{Name}
use kasper.Passes.Plugin.{
  ExtensionPoint, optimizer_last, full_link_time_optimization_last, Pass, PassManager,
  with_preserved, add_pass, add_named,
}

unfoldable pub run : Pass
run m = with_preserved true (some m)

-- The callback behind the optimizer, that of the legacy manager, and that by name.
unfoldable pub at_optimizer_last : PassManager → PassManager
unfolding run
at_optimizer_last manager = add_pass run manager

unfoldable pub legacy_extension : ExtensionPoint → PassManager → PassManager
unfolding run
legacy_extension optimizer_last manager = add_pass run manager
legacy_extension full_link_time_optimization_last manager = add_pass run manager

unfoldable pub parse : (name : Name) → PassManager → Bool × PassManager
unfolding run
parse name manager = add_named (codes "count-instrs") run name manager
