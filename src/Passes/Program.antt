-- ===== src/Passes/Program.antt =====
-- A program of branches on its way through passes/kspecem and passes/kspecem-spec: its code with the
-- hooks that they insert, run in the runtime, against its own code.
use kasper.Prelude.{
  ℕ, ◌≡◌, refl, ap, ◌∙◌, fun_ext, Bool, false, not, List, [], ◌∷◌, ◌==◌, if◌then◌else◌, true, false,
  ◌≤◌, ◌&&◌, ◌-◌, ◌++◌, Option, none, some, arith, All, codes, map, minus_one64,
}
use kasper.Machine.{State, Act, Cmd, Out, ok, pure, ◌>>=◌, ◌>>◌, modify, and_then}
use kasper.Machine.Kernel.{Kernel, Frame, World}
use kasper.Registers.{asm_save_registers}
use kasper.Interface.{hook_restart, hook_leave_rt, hook_new_checkpoint, hook_save_stack}
use kasper.Interface.Program.{run_writes, KernelLaws}
use kasper.Interface.Checkpoints.{take_checkpoint}
use kasper.Interface.Transparent.{
  Branch, plain_writes, plain, on_resume, run_direction, run_path, run_branch, run_branches, IsIdle,
  AgreesWith, CanRun,
}
use kasper.Interface.Transparent.Outcomes.{Returns}
use kasper.Interface.Transparent.Plain.{run_branches-plain}
use kasper.Machine.Types.RestartType
use kasper.Passes.Names.{Name, same_name, starts_with}
use kasper.Passes.Names.AbiList.{KSpecEmAbiList}
use kasper.Passes.Ir.{
  int, Value, constant_int, global, load_global, null_ptr, return_address, inverted, Instruction,
  store, mem_intrinsic, call, direct, ret, cond_branch, compute, inserted, is_constant, is_in,
  Function, visit_instructions,
}
use kasper.Passes.KSpecEm.{visit, visit_return_inst, insert_restart_hook}
use kasper.Passes.KSpecEm.Hooks.{restart_func_name}
use kasper.Passes.KSpecEmSpec
use kasper.Passes.KSpecEmSpec.{
  insert_new_checkpoint_hook, visit_branch_inst, compute_inverted, swap_branch_condition,
  is_swapped, new_condition,
}
use kasper.Passes.KSpecEmSpec.Direction.{
  Swap, swap_of, set_swap, value, run, behind_save, visit_branch_inst-resumed,
}
use kasper.Passes.Run.{
  Meaning, run_instructions, writes_of, IsWrite, run-visit_instructions, and_then_assoc,
}
use kasper.Passes.Checkpointing.{run_hooks}

-- A branch with the code of both directions, each of which ends in a return. Block 1 is the direction
-- taken, block 0 the other.
pub record CodeBranch : Type 0 where
  pub condition : Value
  pub code : Bool → List Instruction
  pub live : ℕ → ℕ
  pub frameaddress : ℕ

abbrev pub is_taken : Meaning → CodeBranch → Bool
is_taken m b = not (m.number b.condition == 0)

abbrev pub to_branch : Meaning → CodeBranch → Branch
to_branch m b = record {
  taken = is_taken m b;
  writes = λ direction. writes_of m (b.code direction);
  restart_type = RestartType.on_return;
  call_arg = m.number return_address;
  live = b.live;
  frameaddress = b.frameaddress;
}

-- What passes/kspecem-spec makes of the branch.
abbrev pub branch_code : CodeBranch → List Instruction
branch_code b = KSpecEmSpec.visit (cond_branch b.condition 1 0)

module _ (k : Kernel) (again : Act) (f : Frame) (m : Meaning) where
  -- The program's own code.
  unfoldable pub run_own : List CodeBranch → Act
  run_own [] = pure tt
  run_own (b ∷ bs) = run_instructions k again f m (b.code (is_taken m b)) >> run_own bs

  -- A constant argument of a hook, or one that the program computes.
  abbrev pub argument_of : Value → ℕ
  argument_of null_ptr = 0
  argument_of (constant_int w n) = n
  argument_of v = m.number v

  -- The restart that stands before a return.
  abbrev pub run_restart_hook : Name → List Value → Cmd ℕ
  run_restart_hook n (arg ∷ type ∷ call_arg ∷ []) =
      if same_name n restart_func_name
      then hook_restart k again f (argument_of arg) (argument_of type) (argument_of call_arg)
      else pure 0
  run_restart_hook n arguments = pure 0

  abbrev pub run_return : List Instruction → Cmd ℕ
  run_return [] = pure 0
  run_return (call (direct n) arguments ∷ is) = run_restart_hook n arguments
  run_return (i ∷ is) = run_return is

  module _ (l : KSpecEmAbiList) (bits : ℕ) (g : Function) where
    -- The block that a branch leads to, with its hooks and its return's.
    abbrev pub run_block : CodeBranch → (Option ℕ × State × ℕ) → Out ℕ
    run_block b (none, s, beside) = ok 0 s
    run_block b (some label, s, beside) =
        (run_instructions k again f m
              (visit_instructions (visit l bits g) (b.code (not (label == 0))))
            >> run_return (visit l bits g ret))
          s

    -- The instructions behind the checkpoint, up to the branch, then its block. The three bytes behind
    -- the variable are zero.
    unfoldable pub run_visited : CodeBranch → Cmd ℕ
    run_visited b s = run_block b (run m.number (swap_of s 0) s 0 (behind_save (branch_code b)))

    -- The code of the branch; a restart resumes behind the save of the registers.
    unfoldable pub run_instrumented : List CodeBranch → Act
    unfolding run_visited
    run_instrumented [] = pure tt
    run_instrumented (b ∷ bs) =
        (run_hooks k again f b.live b.frameaddress (branch_code b) 0 >>= λ flags s.
        on_resume
          (run_hooks k again f b.live b.frameaddress (behind_save (branch_code b)) flags >>= λ _.
            run_visited b >>= λ _. pure tt)
          (run_visited b s))
        >> run_instrumented bs

  -- Both directions are stores and memory intrinsics, and the condition is 0 or 1 and does not read the
  -- variable.
  pub record IsCode (bits : ℕ) (b : CodeBranch) : Type 0 where
    pub writes : (direction : Bool) → All (IsWrite bits m) (b.code direction)
    pub fixed : (swap : Swap) → value m.number swap b.condition ≡ m.number b.condition
    pub truth : m.number b.condition ≤ 1

  -- The program's own code writes as the plain program does.
  run_instructions-plain :
      (bits : ℕ) (is : List Instruction) (s : State)
      → All (IsWrite bits m) is
      → run_instructions k again f m is s
        ≡ ok tt (record s { mem = plain_writes (writes_of m is) s.mem })
  run_instructions-plain bits [] s p = refl
  run_instructions-plain bits (store value pointer size marked ∷ is) s p =
      run_instructions-plain bits is _ p.1
  run_instructions-plain bits (mem_intrinsic dest source len marked ∷ is) s p =
      run_instructions-plain bits is _ p.1
  run_instructions-plain bits (i ∷ is) s p = cc p.0

  run_own-plain :
      (bits : ℕ) (bs : List CodeBranch) (s : State)
      → All (IsCode bits) bs
      → run_own bs s ≡ ok tt (record s { mem = plain (map (to_branch m) bs) s.mem })
  unfolding run_own
  run_own-plain bits [] s p = refl
  run_own-plain bits (b ∷ bs) s p =
      rw (run_instructions-plain bits (b.code (is_taken m b)) s (p.0.writes (is_taken m b)))
        (run_own-plain bits bs _ p.1)

  module _ (l : KSpecEmAbiList) (bits : ℕ) (g : Function)
      (outside : starts_with (codes "kspecem_") g.name ≡ false)
      (speculates : is_in l g (codes "nospec") ≡ false) where
    run_return-hook :
        run_return (visit l bits g ret)
        ≡ hook_restart k again f 0 RestartType.on_return (m.number return_address)
    unfolding visit visit_return_inst insert_restart_hook
    run_return-hook = rw speculates refl

    -- The direction that the swap gives.
    direction_of :
        (swap : Bool) (n : ℕ)
        → n ≤ 1
        → not ((if (if swap && true then 1 - n else n) == 0 then 0 else 1) == 0)
          ≡ (if swap then not (not (n == 0)) else not (n == 0))
    direction_of true n small = ground arith
    direction_of false n small = ground arith

    run_visited-run_path :
        (b : CodeBranch)
        → IsCode bits b
        → run_visited l bits g b ≡ run_path k again f (to_branch m b)
    unfolding run_visited run_path run_direction KSpecEmSpec.visit
    run_visited-run_path b p = fun_ext λ s.
        let swap = s.emulation.swap_branch_condition in
        let direction : Bool = if swap then not (is_taken m b) else is_taken m b in
        ap (run_block l bits g b)
          (visit_branch_inst-resumed m.number b.condition (swap_of s 0) s 0 1 0 p.fixed p.truth)
        ∙ ap
            (λ (d : Bool).
              (run_instructions k again f m (visit_instructions (visit l bits g) (b.code d))
                  >> run_return (visit l bits g ret))
                (set_swap 0 s))
            (direction_of swap (m.number b.condition) p.truth)
        ∙ ap (λ (act : Act). (act >> run_return (visit l bits g ret)) (set_swap 0 s))
            (run-visit_instructions k again f m l bits g outside (b.code direction)
              (p.writes direction))
        ∙ ap
            (λ (last : Cmd ℕ).
              (run_writes k again f (writes_of m (b.code direction)) >> last) (set_swap 0 s))
            run_return-hook

    run-inserted :
        (x : Bool) (v : Value) (b : CodeBranch) (flags : ℕ) (is : List Instruction)
        → run_hooks k again f b.live b.frameaddress (inserted x v ++ is) flags
          ≡ run_hooks k again f b.live b.frameaddress is flags
    run-inserted true v b flags is = refl
    run-inserted false v b flags is = refl

    behind_branch :
        (b : CodeBranch) (flags : ℕ)
        → run_hooks k again f b.live b.frameaddress
            (compute_inverted b.condition
              ++ compute (load_global swap_branch_condition (int 32))
                ∷ compute is_swapped
                ∷ compute (new_condition b.condition)
                ∷ store (constant_int 32 0) (global swap_branch_condition) 4 false
                ∷ cond_branch (new_condition b.condition) 1 0
                ∷ [])
            flags
          ≡ pure flags
    behind_branch b flags =
        run-inserted (not (is_constant b.condition)) (inverted b.condition) b flags (
          compute (load_global swap_branch_condition (int 32))
          ∷ compute is_swapped
          ∷ compute (new_condition b.condition)
          ∷ store (constant_int 32 0) (global swap_branch_condition) 4 false
          ∷ cond_branch (new_condition b.condition) 1 0
          ∷ [])

    branch_code-run :
        (b : CodeBranch) (flags : ℕ) (s : State)
        → run_hooks k again f b.live b.frameaddress (branch_code b) flags s
          ≡ take_checkpoint k again f b.live b.frameaddress s
    unfolding KSpecEmSpec.visit visit_branch_inst insert_new_checkpoint_hook take_checkpoint
    branch_code-run b flags s =
        ap
          (λ (next : ℕ → Cmd ℕ).
            (hook_new_checkpoint k again f >>= λ flags.
            hook_save_stack k again f flags b.frameaddress
            >> (modify (λ s. record s { registers = asm_save_registers b.live s.registers flags })
                >> (hook_leave_rt k again f flags >> next flags)))
              s)
          (fun_ext λ flags. behind_branch b flags)

    branch_code-resumed :
        (b : CodeBranch) (flags : ℕ) (s : State)
        → run_hooks k again f b.live b.frameaddress (behind_save (branch_code b)) flags s
          ≡ (hook_leave_rt k again f flags >> pure flags) s
    unfolding KSpecEmSpec.visit visit_branch_inst insert_new_checkpoint_hook
    branch_code-resumed b flags s =
        ap (λ (next : Cmd ℕ). (hook_leave_rt k again f flags >> next) s) (behind_branch b flags)

    -- What runs where a restart resumes.
    resumed-leave :
        (b : CodeBranch) (flags : ℕ)
        → IsCode bits b
        → (run_hooks k again f b.live b.frameaddress (behind_save (branch_code b)) flags >>= λ _.
            run_visited l bits g b >>= λ _. pure tt)
          ≡ (hook_leave_rt k again f flags >> (run_path k again f (to_branch m b) >>= λ _. pure tt))
    resumed-leave b flags p = fun_ext λ s.
        ap (λ o. and_then o (λ _. run_visited l bits g b >>= λ _. pure tt))
          (branch_code-resumed b flags s)
        ∙ and_then_assoc (hook_leave_rt k again f flags s) _ _
        ∙ ap
            (λ (act : Cmd ℕ).
              and_then (hook_leave_rt k again f flags s) (λ _. act >>= λ _. pure tt))
            (run_visited-run_path b p)

    run_instrumented-run_branches :
        (bs : List CodeBranch)
        → All (IsCode bits) bs
        → run_instrumented l bits g bs ≡ run_branches k again f (map (to_branch m) bs)
    unfolding run_instrumented run_branches run_branch
    run_instrumented-run_branches [] p = refl
    run_instrumented-run_branches (b ∷ bs) p = fun_ext λ s.
        let start = take_checkpoint k again f b.live b.frameaddress in
        let path = run_path k again f (to_branch m b) in
        let resume : ℕ → Act = λ flags. hook_leave_rt k again f flags >> (path >>= λ _. pure tt) in
        let old : ℕ → Act = λ flags.
          run_hooks k again f b.live b.frameaddress (behind_save (branch_code b)) flags >>= λ _.
          run_visited l bits g b >>= λ _. pure tt in
        let next : (ℕ → Act) → Cmd ℕ → Act → Out ℕ → Out (Unit {0}) = λ after way rest o.
          and_then (and_then o (λ flags t. on_resume (after flags) (way t))) (λ _. rest) in
        ap (next old (run_visited l bits g b) (run_instrumented l bits g bs))
          (branch_code-run b 0 s)
        ∙ ap (λ after. next after (run_visited l bits g b) (run_instrumented l bits g bs) (start s))
            (fun_ext λ flags. resumed-leave b flags p.0)
        ∙ ap (λ way. next resume way (run_instrumented l bits g bs) (start s))
            (run_visited-run_path b p.0)
        ∙ ap (λ rest. next resume path rest (start s)) (run_instrumented-run_branches bs p.1)

    -- The code that passes/kspecem-spec makes of branches, with the code of both directions and the
    -- return behind it as passes/kspecem makes them, run in the runtime with each speculation down
    -- either way, ends outside speculation with the memory that the program's own code leaves, but
    -- for words of the frames that run the restarts; or the kernel panics. It starts outside
    -- speculation with the memory of the log and of the stack's buffer there. The three bytes
    -- behind kspecem_swap_branch_condition are zero; each condition is 0 or 1 and does not read the
    -- variable; both directions are stores of at most eight bytes and memory intrinsics whose
    -- lengths fit the hook's width; the words that their hooks save are outside the log's arrays
    -- and the log's two variables and end below 2^64; each branch's frame fits the buffer; the
    -- function is neither the runtime's nor in the section nospec; and the flags of interrupts are
    -- never -1.
    pub run_instrumented-own :
        KernelLaws k
        → (f.at_addr == 0) ≡ false
        → ((w : World) → (k.irq_flags w == minus_one64) ≡ false)
        → (addrs regions : ℕ) (bs : List CodeBranch) (s : State) → (addrs == 0) ≡ false
        → (regions == 0) ≡ false
        → IsIdle addrs regions s
        → All (IsCode bits) bs
        → All (CanRun k f addrs regions) (map (to_branch m) bs)
        → (u : State) × (run_own bs s ≡ ok tt u)
          × Returns
              (λ t. IsIdle addrs regions t × AgreesWith f u.mem t)
              (run_instrumented l bits g bs s)
    run_instrumented-own laws local flags addrs regions bs s present present' v code can = (
      record s { mem = plain (map (to_branch m) bs) s.mem },
      run_own-plain bits bs s code,
      rw (run_instrumented-run_branches bs code) (
          run_branches-plain k laws again f addrs regions local present present' flags
            (map (to_branch m) bs) s v can),
    )
