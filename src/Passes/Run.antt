-- ===== src/Passes/Run.antt =====
-- What the instrumented code of a straight line of writes does: the hooks that passes/kspecem puts
-- into it run as the runtime's, each before its write.
use kasper.Prelude.{
  Option, ℕ, ◌≡◌, refl, sym, fun_ext, ap, ◌∙◌, subst, Bool, true, false, not, ◌&&◌, List, [], ◌∷◌,
  ◌++◌, ◌==◌, if◌then◌else◌, All, codes,
}
use kasper.Machine.{
  State, Act, Cmd, Out, ok, resumed, panicked, reentered, and_then, pure, ◌>>◌, modify, write_bytes,
}
use kasper.Machine.Kernel.{Kernel, Frame}
use kasper.Store.Speculating.{Checkpoint, IsSpeculating, Continues, BackAt}
use kasper.Interface.{hook_store, hook_memcpy}
use kasper.Interface.Program.{
  KernelLaws, Write, run_write, run_writes, CanWrite, GoesOn, run_writes-GoesOn,
}
use kasper.Passes.Names.{Name, same_name, starts_with}
use kasper.Passes.Names.AbiList.{KSpecEmAbiList}
use kasper.Passes.Ir.{
  i8_ptr, Value, constant_int, cast, type_of, Instruction, store, mem_intrinsic, call, direct,
  hook_call, Function, visit_instructions, inserted, has_width, is_constant, cast_int, to_width,
}
use kasper.Passes.KSpecEm.Hooks.{store_hook_name, memcpy_func_name}
use kasper.Passes.KSpecEm.{length_width, visit, visit_store_inst, visit_mem_intrinsic}

-- What the program's values are, and the bytes that an instruction writes.
pub record Meaning : Type 0 where
  pub number : Value → ℕ
  pub stored : Value → ℕ → ℕ
  pub copied : (dest len : Value) → ℕ → ℕ

-- A cast keeps an address and a length that fits its width.
abbrev pub number_of : Meaning → Value → ℕ
number_of m (cast v t) = number_of m v
number_of m (constant_int w n) = n
number_of m v = m.number v

-- Stores and memory intrinsics are the code of this fragment; everything else returns.
module _ (k : Kernel) (again : Act) (f : Frame) (m : Meaning) where
  abbrev pub run_hook : Name → List Value → Act
  run_hook n [] = pure tt
  run_hook n (address ∷ []) =
      if same_name n store_hook_name then hook_store k again f (number_of m address) else pure tt
  run_hook n (address ∷ len ∷ arguments) =
      if same_name n memcpy_func_name
      then hook_memcpy k again f (number_of m address) (number_of m len)
      else pure tt

  abbrev pub run_instruction : Instruction → Act
  run_instruction (call (direct n) arguments) = run_hook n arguments
  run_instruction (store value pointer size marked) =
      modify λ s. record s { mem = write_bytes s.mem (number_of m pointer) size (m.stored value) }
  run_instruction (mem_intrinsic dest source len marked) = modify λ s. record s {
    mem = write_bytes s.mem (number_of m dest) (number_of m len) (m.copied dest len);
  }
  run_instruction i = pure tt

  abbrev pub run_instructions : List Instruction → Act
  run_instructions [] = pure tt
  run_instructions (i ∷ is) = run_instruction i >> run_instructions is

-- The writes of the fragment.
abbrev pub writes_of : Meaning → List Instruction → List Write
writes_of m [] = []
writes_of m (store value pointer size marked ∷ is) =
    Write.store (number_of m pointer) size (m.stored value) ∷ writes_of m is
writes_of m (mem_intrinsic dest source len marked ∷ is) =
    Write.intrinsic (number_of m dest) (number_of m len) (m.copied dest len) ∷ writes_of m is
writes_of m (i ∷ is) = writes_of m is

-- Stores, and memory intrinsics whose length fits the width that the hook is given.
abbrev pub IsWrite : (bits : ℕ) → Meaning → Instruction → Type 0
IsWrite bits m (store value pointer size marked) = Unit
IsWrite bits m (mem_intrinsic dest source len marked) =
    number_of m (to_width (length_width bits) len) ≡ number_of m len
IsWrite bits m i = false ≡ true

pub and_then_assoc :
    {A B C : Type 0} (o : Out A) (next : A → Cmd B) (last : B → Cmd C)
    → and_then (and_then o next) last ≡ and_then o (λ a s. and_then (next a s) last)
and_then_assoc (ok a s) next last = refl
and_then_assoc (resumed s) next last = refl
and_then_assoc (panicked site s) next last = refl
and_then_assoc (reentered s) next last = refl

module _ (k : Kernel) (again : Act) (f : Frame) (m : Meaning) (l : KSpecEmAbiList) (bits : ℕ)
    (g : Function) (outside : starts_with (codes "kspecem_") g.name ≡ false) where
  run-inserted :
      (b : Bool) (v : Value) (hooks : List Instruction) (i : Instruction) (is : List Instruction)
      → run_instructions k again f m (inserted b v ++ hooks ++ i ∷ [] ++ is)
        ≡ run_instructions k again f m (hooks ++ i ∷ [] ++ is)
  run-inserted true v hooks i is = refl
  run-inserted false v hooks i is = refl

  -- One visited write, with `rest` behind it.
  run-visit_store :
      (value pointer : Value) (size : ℕ) (marked : Bool) (is : List Instruction) (s : State)
      → run_instructions k again f m (visit l bits g (store value pointer size marked) ++ is) s
        ≡ (run_write k again f (Write.store (number_of m pointer) size (m.stored value))
              >> run_instructions k again f m is)
            s
  unfolding visit visit_store_inst run_write
  run-visit_store value pointer size marked is s =
      rw outside (sym (and_then_assoc (hook_store k again f (number_of m pointer) s) _ _))

  run-visit_intrinsic :
      (dest : Value) (source : Option Value) (len : Value) (marked : Bool) (is : List Instruction)
      (s : State)
      → number_of m (to_width (length_width bits) len) ≡ number_of m len
      → run_instructions k again f m (visit l bits g (mem_intrinsic dest source len marked) ++ is) s
        ≡ (run_write k again f
                (Write.intrinsic (number_of m dest) (number_of m len) (m.copied dest len))
              >> run_instructions k again f m is)
            s
  unfolding visit visit_mem_intrinsic run_write
  run-visit_intrinsic dest source len marked is s fits = rw outside (
      let width = length_width bits in
      let write = mem_intrinsic dest source len marked in
      ap (λ (act : Act). act s)
        (run-inserted (not (has_width width (type_of len)) && not (is_constant len))
          (cast_int width len)
          (hook_call memcpy_func_name (cast dest i8_ptr ∷ to_width width len ∷ []) ∷ []) write is)
      ∙ ap
          (λ n.
            (hook_memcpy k again f (number_of m dest) n
                >> run_instructions k again f m (write ∷ is))
              s)
          fits
      ∙ sym (and_then_assoc (hook_memcpy k again f (number_of m dest) (number_of m len) s) _ _))

  -- The visited code of a straight line of writes is the instrumented writes.
  pub run-visit_instructions :
      (is : List Instruction)
      → All (IsWrite bits m) is
      → run_instructions k again f m (visit_instructions (visit l bits g) is)
        ≡ run_writes k again f (writes_of m is)
  unfolding run_writes
  run-visit_instructions [] p = refl
  run-visit_instructions (store value pointer size marked ∷ is) p =
      let rest = visit_instructions (visit l bits g) is in
      fun_ext λ s.
        run-visit_store value pointer size marked rest s
        ∙ ap
            (λ act.
              (run_write k again f (Write.store (number_of m pointer) size (m.stored value)) >> act)
                s)
            (run-visit_instructions is p.1)
  run-visit_instructions (mem_intrinsic dest source len marked ∷ is) p =
      let rest = visit_instructions (visit l bits g) is in
      fun_ext λ s.
        run-visit_intrinsic dest source len marked rest s p.0
        ∙ ap
            (λ act.
              (run_write k again f
                    (Write.intrinsic (number_of m dest) (number_of m len) (m.copied dest len))
                  >> act)
                s)
            (run-visit_instructions is p.1)
  run-visit_instructions (i ∷ is) p = cc p.0

  -- In a speculation the code that passes/kspecem makes of a straight line of stores of at most
  -- eight bytes and memory intrinsics whose lengths fit the hook's width, in a function outside the
  -- runtime, runs to its end and keeps the speculation undoable, with the same counters, if the
  -- words that the hooks save are outside the log's arrays and the log's two variables and end
  -- below 2^64; or the log is full and the program is back at its checkpoint with its memory; or
  -- the kernel panics.
  pub visited-GoesOn :
      (laws : KernelLaws k) (c : Checkpoint) (local : (f.at_addr == 0) ≡ false)
      (is : List Instruction) (s : State)
      → All (IsWrite bits m) is
      → All (CanWrite k c) (writes_of m is)
      → IsSpeculating c s
      → Continues
          (GoesOn k laws again f c local s)
          (BackAt k again f c)
          (run_instructions k again f m (visit_instructions (visit l bits g) is) s)
  visited-GoesOn laws c local is s writes can v =
      subst
        (λ (act : Act). Continues (GoesOn k laws again f c local s) (BackAt k again f c) (act s))
        (sym (run-visit_instructions is writes))
        (run_writes-GoesOn k laws again f c local (writes_of m is) s can v)
