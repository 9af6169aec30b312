-- ===== src/Passes.antt =====
-- The LLVM passes (passes/): the hooks that they put into the kernel's functions.
pub mod Names
pub mod Ir
pub mod Erased
pub mod KSpecEm
pub mod KSpecEmSpec
pub mod CheckSpecLength
pub mod PfCheckerPass
pub mod Run
pub mod Checkpointing
pub mod Program
pub mod Plugin
pub mod Pipeline
