-- ===== src/Passes/Plugin.antt =====
-- How the passes are run: what each plugin (passes/*/*.cpp) adds to a pass manager, and a manager's
-- passes one after another.
pub mod Hook
pub mod Checkpoint
pub mod SpecLength
pub mod PageFault
pub mod Counting
use kasper.Prelude.{Bool, true, false, Option, none, some, List, [], ◌∷◌, ◌++◌, if◌then◌else◌}
use kasper.Passes.Names.{Name, same_name}
use kasper.Passes.Ir.{Module}

pub data PreservedAnalyses : Type 0 where
  none_preserved all_preserved : PreservedAnalyses

-- Where the legacy pass manager adds passes: behind the optimizer of a file, and of a whole program.
pub data ExtensionPoint : Type 0 where
  optimizer_last full_link_time_optimization_last : ExtensionPoint

-- `none` is a crash of the compiler.
abbrev pub Pass : Type 0
Pass = Module → Option (Module × PreservedAnalyses)

abbrev pub PassManager : Type 0
PassManager = List Pass

-- `Changed ? PreservedAnalyses::none() : PreservedAnalyses::all()`
abbrev pub preserved : (changed : Bool) → PreservedAnalyses
preserved changed = if changed then none_preserved else all_preserved

abbrev pub with_preserved : (changed : Bool) → Option Module → Option (Module × PreservedAnalyses)
with_preserved changed none = none
with_preserved changed (some m) = some (m, preserved changed)

abbrev pub add_pass : Pass → PassManager → PassManager
add_pass p manager = manager ++ p ∷ []

-- A callback for the text of a pipeline: whether the name is the plugin's.
abbrev pub add_named : (own : Name) → Pass → (name : Name) → PassManager → Bool × PassManager
add_named own p name manager =
    if same_name name own then (true, add_pass p manager) else (false, manager)

unfoldable pub run_passes : PassManager → Module → Option Module
run_passes [] m = some m
run_passes (p ∷ ps) m = elim (p m) [ none ↦ none | some (m', analyses) ↦ run_passes ps m' ]
