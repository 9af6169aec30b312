-- ===== src/Passes/Pipeline.antt =====
-- A pipeline of the plugins' passes over a module, by the names in its text: LLVM offers a name to
-- the loaded plugins in turn until one takes it.
pub mod Same
pub mod Adds
pub mod Restored
use kasper.Prelude.{ℕ, Bool, true, false, Option, none, some, List, [], ◌∷◌}
use kasper.Passes.Names.{Name}
use kasper.Passes.Names.AbiList.{KSpecEmAbiList}
use kasper.Passes.Ir.{Block, Function}
use kasper.Passes.Plugin.{PassManager}
use kasper.Passes.Plugin.Hook
use kasper.Passes.Plugin.Checkpoint
use kasper.Passes.Plugin.SpecLength
use kasper.Passes.Plugin.PageFault
use kasper.Passes.Plugin.Counting

pub data Plugin : Type 0 where
  hook checkpoint spec_length page_fault counting : Plugin

-- The lists of functions that the options name, and LLVM's split of a block.
pub record Settings : Type 0 where
  pub functions : KSpecEmAbiList
  pub spec_functions : KSpecEmAbiList
  pub new_label : Function → ℕ
  pub replace_phi_uses : (old new : ℕ) → List Block → List Block

module _ (s : Settings) where
  unfoldable pub parse_callback : Plugin → Name → PassManager → Bool × PassManager
  unfolding Hook.parse Checkpoint.parse SpecLength.parse PageFault.parse Counting.parse
  parse_callback hook n manager = Hook.parse s.functions s.new_label s.replace_phi_uses n manager
  parse_callback checkpoint n manager = Checkpoint.parse s.spec_functions n manager
  parse_callback spec_length n manager = SpecLength.parse n manager
  parse_callback page_fault n manager = PageFault.parse n manager
  parse_callback counting n manager = Counting.parse n manager

  -- `none`: no plugin knows the name.
  unfoldable pub parse_pass_name : List Plugin → Name → PassManager → Option PassManager
  unfolding parse_callback
  parse_pass_name [] n manager = none
  parse_pass_name (p ∷ ps) n manager =
      let called = parse_callback p n manager in
      elim called.0 [ true ↦ some called.1 | false ↦ parse_pass_name ps n manager ]

  unfoldable pub parse_pipeline : List Plugin → List Name → PassManager → Option PassManager
  unfolding parse_pass_name
  parse_pipeline ps [] manager = some manager
  parse_pipeline ps (n ∷ ns) manager = elim (parse_pass_name ps n manager) [
    | none ↦ none
    | some longer ↦ parse_pipeline ps ns longer
  ]
