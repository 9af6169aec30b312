-- ===== src/Lib.antt =====
-- Kasper finds gadgets of transient execution in the Linux kernel: LLVM passes put hooks into the
-- kernel, and the runtime behind the hooks (static/kspecem) emulates mispredicted branches in
-- software. At a branch the program takes a checkpoint and goes the wrong way; each write is first
-- logged; policies queue reports; at a limit, an unsafe instruction, an interrupt or a failed
-- assertion the runtime restores memory and registers, prints what is new, and the program goes on
-- at the checkpoint. This library models that runtime and proves that it keeps its promises.
--
-- State. The runtime's globals are one record, Machine.State, with one field for each source file's
-- variables; Machine.Types has the structures. The program's memory is a function from addresses to
-- bytes, apart from the runtime's own variables. A C function that touches the globals is a command,
-- from a state to an outcome (Machine.Out): it returns a value, or the registers of the checkpoint are
-- restored and the program goes on there (`resumed`), or the kernel panics, or an assertion inside a
-- restart starts another restart. Functions of the kernel and of the data-flow sanitizer, and the
-- addresses that compiler and linker choose, are the fields of Machine.Kernel.Kernel and of
-- Machine.Kernel.Frame; Interface.Program.KernelLaws is the kernel's documented behaviour that the
-- proofs use. A failed assertion starts kspecem_hook_restart, which stands above all that asserts, so
-- the restart is a parameter (`again`), and Interface.restart_again is its value.
--
-- Files. Assert: kspecem_assert.c. Statistics: kspecem_statistics.c. RestartStats and InlineAsm:
-- kspecem_stats_restarts.c and kspecem_stats_inlineasm.c. Undolog (the walk that restores) and
-- Store (the writes): kspecem_undolog.c. Stack: kspecem_stack.c. Registers: kspecem_registers.c
-- and kspecem_regs.S, whose instructions run in Registers.Asm. Internal: kspecem_internal.c.
-- Report and Bugs: kspecem_report.c and kspecem_bugs.c. Interrupt: kspecem_interrupt.c. Init:
-- kspecem_init.c, with its debugfs files in Settings and the variables' first values
-- (kspecem_common.c) in Boot. Whitelist: kspecem_whitelist.c. PfChecker: kspecem_pf_checker.c.
-- Utils: kspecem_utils.c. Interface: kspecem_interface.c and the macros of its header, with the
-- order in which passes/kspecem and passes/kspecem-spec insert the hooks (Interface.Program,
-- Interface.Checkpoints) and a whole program of branches (Interface.Transparent). Passes: the
-- compiler's side. Passes.Ir is the part of LLVM IR that the passes read and build, blocks of
-- instructions with the terminator last; an instruction that a pass inserts for an argument is
-- `compute v`. Names.AbiList: passes/include/kspecem/KSpecEmABIList.h. KSpecEm:
-- passes/kspecem/KSpecEm.cpp, with its declarations in Hooks, its list of inline assembly in
-- SafeAsm and the function visitor in Visitor. KSpecEmSpec: passes/kspecem-spec. CheckSpecLength:
-- passes/kspecem-check-spec-length and passes/count-instrs. PfCheckerPass: passes/kspecem-pf-
-- checker. Run, Checkpointing and Program give the code of KSpecEm and of KSpecEmSpec its meaning
-- in the runtime's hooks, and Erased takes out what the passes put in. Plugin: what each pass
-- registers with LLVM. Pipeline: passes one after another. Prelude holds what all modules share,
-- Tests the data of the examples.
--
-- Bounds. The loops are recursion on a count that the code has: the entries of the log, the reports
-- of the list, the bytes left. kspecem_memcpy has `size + 4` rounds, which reach the end since each
-- advances by eight bytes (Store.Covered), unless the region ends in the last seven bytes of the
-- address space, where the code's pointer starts again at 0. Only kspecem_strlen takes fuel, as it runs
-- to a NUL. Sums and differences of addresses and counters that the code stores or compares wrap
-- around at 2^64 or 2^32 (kspecem_memcpy, write_wl, the saved frame, the counters); the bounds of
-- the log's arrays and of memory blocks are not wrapped, as the kernel's addresses lie below them.
--
-- Not modelled: LLVM's library, of which SpecialCaseList and the split of a block are parameters;
-- the scripts; the text of what is printed; what the program's reads see (a write's bytes are
-- given with it); the jump to the restored registers inside the commands, where it is an outcome;
-- the assembler macros of the GNU C Library; other processors (a hook runs with interrupts off).
pub mod Prelude
pub mod Machine
pub mod Assert
pub mod Statistics
pub mod InlineAsm
pub mod RestartStats
pub mod Undolog
pub mod Report
pub mod Bugs
pub mod Stack
pub mod Registers
pub mod Internal
pub mod Store
pub mod Utils
pub mod Whitelist
pub mod Passes
pub mod PfChecker
pub mod Interrupt
pub mod Interface
pub mod Init
pub mod Tests
