-- ===== src/Tests/Pipeline.antt =====
-- A pipeline over a module of one function.
use kasper.Prelude.{◌≡◌, refl, some, List, [], ◌∷◌, codes}
use kasper.Passes.Names.{Name}
use kasper.Passes.Names.AbiList.{is_module_in, is_function_in}
use kasper.Passes.Ir.{Module}
use kasper.Passes.Plugin.{PassManager, run_passes}
use kasper.Passes.Plugin.Hook
use kasper.Passes.Plugin.Checkpoint
use kasper.Passes.Plugin.SpecLength
use kasper.Passes.Plugin.PageFault
use kasper.Passes.Plugin.Counting
use kasper.Passes.Pipeline.{
  Plugin, hook, checkpoint, spec_length, counting, Settings, parse_callback, parse_pass_name,
  parse_pipeline,
}
use kasper.Passes.Pipeline.Same.{SameModule}
use kasper.Passes.Pipeline.Restored.{parse_pipeline-restores}
use kasper.Tests.Passes.{a_list, a_function, next_label, same_blocks}

abbrev settings : Settings
settings = record {
  functions = a_list;
  spec_functions = a_list;
  new_label = next_label;
  replace_phi_uses = same_blocks;
}

abbrev a_module : Module
a_module = record { identifier = codes "fs/open.c"; pointer_bits = 64; functions = a_function ∷ [] }

abbrev loaded : List Plugin
loaded = hook ∷ checkpoint ∷ spec_length ∷ counting ∷ []

abbrev text : List Name
text = codes "kspecem-spec" ∷ codes "count-instrs" ∷ codes "kspecem" ∷ codes "count-instrs" ∷ []

abbrev manager : PassManager
manager =
    Checkpoint.run a_list
    ∷ Counting.run
    ∷ Hook.run a_list next_label same_blocks
    ∷ Counting.run
    ∷ []

text-parsed : parse_pipeline settings loaded text [] ≡ some manager
unfolding parse_pipeline parse_pass_name parse_callback Hook.parse Checkpoint.parse SpecLength.parse
    Counting.parse PageFault.parse
text-parsed = refl

parse_pipeline-restores_example :
    (n : Module) × (run_passes manager a_module ≡ some n) × SameModule a_module n
unfolding is_function_in is_module_in
parse_pipeline-restores_example =
    parse_pipeline-restores settings loaded text manager a_module (refl, (refl, (refl, (refl, tt))))
      (record { no_timer = refl; no_exception = refl }, tt) text-parsed
