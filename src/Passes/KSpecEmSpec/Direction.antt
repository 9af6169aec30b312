-- ===== src/Passes/KSpecEmSpec/Direction.antt =====
-- Which way a branch goes after passes/kspecem-spec, once its checkpoint is taken. The pass reads the
-- variable kspecem_swap_branch_condition, a byte of the runtime, as 32 bits: `beside` are the three
-- bytes behind it.
use kasper.Prelude.{
  ℕ, ◌+◌, ◌*◌, ◌-◌, ◌≤◌, ◌≡◌, refl, sym, subst, ap, ◌∙◌, arith, ◌/◌, ◌%◌, ◌^◌, Bool, true, false,
  not, ◌&&◌, Option, none, some, List, [], ◌∷◌, ◌++◌, ◌==◌, if◌then◌else◌,
}
use kasper.Machine.{State}
use kasper.Internal.{start_emulation}
use kasper.Passes.Names.{Name, same_name}
use kasper.Passes.Ir.{
  int, Value, constant_int, global, load_global, inverted, equals, select, Instruction, store,
  cond_branch, call, direct, compute, inserted, is_constant,
}
use kasper.Passes.KSpecEmSpec.{
  new_checkpoint_func_name, save_registers_func_name, compute_inverted, swap_branch_condition,
  invert, is_swapped, new_condition, visit_branch_inst, insert_new_checkpoint_hook,
}

-- The variable's byte and what lies behind it.
pub record Swap : Type 0 where
  pub swap : Bool
  pub beside : ℕ

-- The values of a branch's condition: `own` are the program's, and `g` is the variable when it was
-- read.
abbrev pub value : (own : Value → ℕ) → Swap → Value → ℕ
value own g (constant_int w n) = n
value own g (load_global n t) =
    if same_name n swap_branch_condition then (if g.swap then 1 else 0) + 256 * g.beside else 0
value own g (inverted v) = 1 - value own g v
value own g (equals v w) = if value own g v == value own g w then 1 else 0
value own g (select c v w) = if value own g c == 0 then value own g w else value own g v
value own g v = own v

abbrev pub swap_of : State → (beside : ℕ) → Swap
swap_of s beside = record { swap = s.emulation.swap_branch_condition; beside = beside }

-- The variable's byte holds the low byte of `n`.
abbrev pub set_swap : (n : ℕ) → State → State
set_swap n s = record s {
  emulation = record s.emulation { swap_branch_condition = not (n % 2 ^ 8 == 0) };
}

-- What the inserted calls do to the emulation: the checkpoint's hook starts it.
abbrev pub after_call : Name → State → State
after_call n s = if same_name n new_checkpoint_func_name then start_emulation s else s

-- The run of instructions up to the branch: where it goes, the state, and the bytes behind the
-- variable afterwards. `loaded` is the variable when it was last read.
abbrev pub run :
    (own : Value → ℕ) (loaded : Swap) (s : State) (beside : ℕ)
    → List Instruction
    → Option ℕ × State × ℕ
run own loaded s beside [] = (none, s, beside)
run own loaded s beside (compute (load_global n t) ∷ is) = run own (swap_of s beside) s beside is
run own loaded s beside (store v (global n) size marked ∷ is) =
    let here = same_name n swap_branch_condition in
    let number = value own loaded v in
    run own loaded (if here then set_swap number s else s) (if here then number / 2 ^ 8 else beside)
      is
run own loaded s beside (call (direct n) arguments ∷ is) = run own loaded (after_call n s) beside is
run own loaded s beside (cond_branch condition when_true when_false ∷ is) =
    (some (if value own loaded condition == 0 then when_false else when_true), s, beside)
run own loaded s beside (i ∷ is) = run own loaded s beside is

-- The instructions behind the call of kspecem_asm_save_registers, where a restart resumes.
abbrev pub behind_save : List Instruction → List Instruction
behind_save [] = []
behind_save (call (direct n) vs ∷ is) =
    let rest = behind_save is in if same_name n save_registers_func_name then is else rest
behind_save (i ∷ is) = behind_save is

value-invert :
    (own : Value → ℕ) (g : Swap) (v : Value)
    → value own g v ≤ 1
    → value own g (invert v) ≡ 1 - value own g v
value-invert own g (constant_int w n) small = ground arith
value-invert own g v small = refl

chosen :
    (swap : Bool) (beside n : ℕ)
    → (if (if (if swap then 1 else 0) + 256 * beside == 1 then 1 else 0) == 0 then n else 1 - n)
      ≡ (if swap && beside == 0 then 1 - n else n)
chosen true beside n = ground arith
chosen false beside n = ground arith

module _ (own : Value → ℕ) (condition : Value) where
  run-inserted :
      (b : Bool) (v : Value) (loaded : Swap) (s : State) (beside : ℕ) (is : List Instruction)
      → run own loaded s beside (inserted b (inverted v) ++ is) ≡ run own loaded s beside is
  run-inserted true v loaded s beside is = refl
  run-inserted false v loaded s beside is = refl

  -- The new condition is the own one, or its inverse where the 32 bits are 1.
  value-new_condition :
      (g : Swap)
      → value own g condition ≤ 1
      → value own g (new_condition condition)
        ≡ (if g.swap && g.beside == 0 then 1 - value own g condition else value own g condition)
  value-new_condition g small =
      ap (λ n. if value own g is_swapped == 0 then value own g condition else n)
        (value-invert own g condition small)
      ∙ chosen g.swap g.beside (value own g condition)

  -- Where the branch goes.
  abbrev pub target : (truth when_true when_false : ℕ) → ℕ
  target truth when_true when_false = if truth == 0 then when_false else when_true

  -- What the pass puts behind the checkpoint.
  abbrev behind_checkpoint : (when_true when_false : ℕ) → List Instruction
  behind_checkpoint when_true when_false =
      compute_inverted condition
      ++ compute (load_global swap_branch_condition (int 32))
        ∷ compute is_swapped
        ∷ compute (new_condition condition)
        ∷ store (constant_int 32 0) (global swap_branch_condition) 4 false
        ∷ cond_branch (new_condition condition) when_true when_false
        ∷ []

  behind_checkpoint-run :
      (loaded : Swap) (s : State) (beside when_true when_false : ℕ)
      → value own (swap_of s beside) condition ≡ own condition
      → own condition ≤ 1
      → run own loaded s beside (behind_checkpoint when_true when_false) ≡ (
        some (
            target
              (if s.emulation.swap_branch_condition && beside == 0
                then 1 - own condition
                else own condition)
              when_true
              when_false),
        set_swap 0 s,
        0,
      )
  behind_checkpoint-run loaded s beside when_true when_false fixed small =
      let g = swap_of s beside in
      run-inserted (not (is_constant condition)) condition loaded s beside (
        compute (load_global swap_branch_condition (int 32))
        ∷ compute is_swapped
        ∷ compute (new_condition condition)
        ∷ store (constant_int 32 0) (global swap_branch_condition) 4 false
        ∷ cond_branch (new_condition condition) when_true when_false
        ∷ [])
      ∙ ap (λ n. (some (target n when_true when_false), set_swap 0 s, 0))
          (value-new_condition g (subst (λ n. n ≤ 1) (sym fixed) small)
            ∙ ap (λ n. if g.swap && beside == 0 then 1 - n else n) fixed)

  -- The code that the pass makes of a branch, from the checkpoint's hook on.
  pub visit_branch_inst-run :
      (loaded : Swap) (s : State) (beside when_true when_false : ℕ)
      → ((g : Swap) → value own g condition ≡ own condition)
      → own condition ≤ 1
      → run own loaded s beside (visit_branch_inst condition when_true when_false) ≡ (
        some (
            target
              (if (start_emulation s).emulation.swap_branch_condition && beside == 0
                then 1 - own condition
                else own condition)
              when_true
              when_false),
        set_swap 0 (start_emulation s),
        0,
      )
  unfolding visit_branch_inst insert_new_checkpoint_hook
  visit_branch_inst-run loaded s beside when_true when_false fixed small =
      behind_checkpoint-run (swap_of (start_emulation s) beside) (start_emulation s) beside
        when_true when_false (fixed (swap_of (start_emulation s) beside)) small

  -- The code where a restart resumes.
  pub visit_branch_inst-resumed :
      (loaded : Swap) (s : State) (beside when_true when_false : ℕ)
      → ((g : Swap) → value own g condition ≡ own condition)
      → own condition ≤ 1
      → run own loaded s beside (behind_save (visit_branch_inst condition when_true when_false)) ≡ (
        some (
            target
              (if s.emulation.swap_branch_condition && beside == 0
                then 1 - own condition
                else own condition)
              when_true
              when_false),
        set_swap 0 s,
        0,
      )
  unfolding visit_branch_inst insert_new_checkpoint_hook
  visit_branch_inst-resumed loaded s beside when_true when_false fixed small =
      behind_checkpoint-run loaded s beside when_true when_false (fixed (swap_of s beside)) small
