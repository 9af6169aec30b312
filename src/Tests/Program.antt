-- ===== src/Tests/Program.antt =====
-- A branch of a program with the code of both directions, made by the passes.
use kasper.Prelude.{◌≡◌, refl, some, Bool, true, false, List, [], ◌∷◌, arith, All}
use kasper.Machine.{State, ok}
use kasper.Store.Speculating.{Checkpoint}
use kasper.Interface.Program.{CanWrite}
use kasper.Interface.Transparent.{IsIdle, AgreesWith, CanRun}
use kasper.Interface.Transparent.Outcomes.{Returns}
use kasper.Passes.Ir.{
  int, i8_ptr, other_ptr, local, constant_int, Instruction, store, mem_intrinsic,
}
use kasper.Passes.KSpecEm.{length_width}
use kasper.Passes.Names.AbiList.{is_function_in, is_module_in}
use kasper.Passes.Run.{IsWrite, writes_of}
use kasper.Passes.Program.{
  CodeBranch, to_branch, run_own, run_instrumented, IsCode, run_instrumented-own,
}
use kasper.Tests.{a_frame, idle_state}
use kasper.Tests.Passes.{a_list, a_function, meaning}
use kasper.Tests.Transparent.{bit_kernel, bit_again, bit_laws, bit_flags, below, idle}

-- Taken, the branch stores; not taken, it copies.
abbrev code : Bool → List Instruction
code true = store (local 7 (int 64)) (local 0x8005 other_ptr) 8 false ∷ []
code false =
    mem_intrinsic (local 0x9003 i8_ptr) (some (local 0xa003 i8_ptr)) (constant_int 64 20) true ∷ []

abbrev a_code_branch : CodeBranch
a_code_branch = record {
  condition = local 1 (int 1);
  code = code;
  live = λ i. i;
  frameaddress = 0x7100;
}

is_code : IsCode bit_kernel bit_again a_frame meaning 64 a_code_branch
unfolding length_width
is_code = record { writes = writes; fixed = λ swap. refl; truth = omega arith }
  where
    writes : (direction : Bool) → All (IsWrite 64 meaning) (a_code_branch.code direction)
    writes true = (tt, tt)
    writes false = (refl, tt)

can_run : CanRun bit_kernel a_frame 0x10_0000 0x20_0000 (to_branch meaning a_code_branch)
can_run = record {
  frame_above = omega arith;
  frame_fits = omega arith;
  frame_word = omega arith;
  loggable = loggable;
}
  where
    loggable :
        (c : Checkpoint)
        → c.addrs ≡ 0x10_0000
        → c.regions ≡ 0x20_0000
        → (direction : Bool)
        → All (CanWrite bit_kernel c) (writes_of meaning (a_code_branch.code direction))
    loggable c e e' true = ((omega arith, below c 0x8005 0x800d e e' (omega arith)), tt)
    loggable c e e' false = (below c 0x9000 0x901f e e' (omega arith), tt)

run_instrumented-own_example :
    (u : State) × (run_own bit_kernel bit_again a_frame meaning (a_code_branch ∷ []) idle_state
      ≡ ok tt u)
    × Returns
        (λ t. IsIdle 0x10_0000 0x20_0000 t × AgreesWith a_frame u.mem t)
        (run_instrumented bit_kernel bit_again a_frame meaning a_list 64 a_function
          (a_code_branch ∷ [])
          idle_state)
unfolding is_function_in is_module_in
run_instrumented-own_example =
    run_instrumented-own bit_kernel bit_again a_frame meaning a_list 64 a_function refl refl
      bit_laws refl bit_flags 0x10_0000 0x20_0000 (a_code_branch ∷ []) idle_state refl refl idle
      (is_code, tt) (can_run, tt)
