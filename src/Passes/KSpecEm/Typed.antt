-- ===== src/Passes/KSpecEm/Typed.antt =====
-- The calls that passes/kspecem/KSpecEm.cpp inserts have arguments of the types that it declares the
-- hooks with.
pub mod Functions
use kasper.Prelude.{
  ℕ, ◌≡◌, refl, ap, ◌∙◌, Bool, true, false, not, ◌&&◌, Option, none, some, List, [], ◌∷◌, ◌++◌,
  ◌==◌, map, All, if◌then◌else◌, ==→eq, Bool-cases, inl, inr, codes,
}
use kasper.Passes.Names.{Name, same_name, starts_with}
use kasper.Passes.Names.AbiList.{KSpecEmAbiList}
use kasper.Passes.Ir.{
  IrType, void, int, i8_ptr, other_ptr, Value, constant_int, null_ptr, cast, frame_address,
  return_address, type_of, Callee, direct, cast_function, computed, inline_asm, Instruction, phi,
  load, store, mem_intrinsic, call, ret, branch, cond_branch, other, compute, hook_call, Function,
  Declaration, is_in, inserted, is_i8_ptr, has_width, is_constant, pointer_cast, compute_cast,
  cast_int, to_width, compute_to_width, visit_instructions,
}
use kasper.Passes.KSpecEm.Hooks.{
  restart_func_name, timer_func_name, exception_func_name, store_hook_name, memcpy_func_name, init,
}
use kasper.Passes.KSpecEm.{
  length_width, CalledFunction, visit, visit_store_inst, visit_mem_intrinsic, visit_return_inst,
  visit_call_inst, restart_for, get_called_function, insert_restart_hook,
  insert_timer_interrupt_hook, insert_exception_interrupt_hook,
}

abbrev pub find_declaration : Name → List Declaration → Option Declaration
find_declaration n [] = none
find_declaration n (d ∷ ds) =
    let rest = find_declaration n ds in if same_name n d.hook then some d else rest

abbrev HasParams : Option Declaration → List Value → Type 0
HasParams none arguments = Unit
HasParams (some d) arguments = map type_of arguments ≡ d.params

abbrev pub is_int : IrType → Bool
is_int (int w) = true
is_int t = false

-- A call of a declared hook has the declared parameters, and a memory intrinsic's length is an
-- integer.
abbrev pub IsTyped : Instruction → Type 0
IsTyped (call (direct n) arguments) = HasParams (find_declaration n init) arguments
IsTyped (mem_intrinsic dest source len marked) = is_int (type_of len) ≡ true
IsTyped i = Unit

type_of-pointer_cast : (v : Value) → type_of (pointer_cast v) ≡ i8_ptr
type_of-pointer_cast v = go (type_of v) refl
  where
    go : (t : IrType) → type_of v ≡ t → type_of (if is_i8_ptr t then v else cast v i8_ptr) ≡ i8_ptr
    go i8_ptr e = e
    go void e = refl
    go (int w) e = refl
    go other_ptr e = refl

type_of-cast_int : (width : ℕ) (v : Value) → type_of (cast_int width v) ≡ int width
type_of-cast_int width (constant_int w n) = refl
type_of-cast_int width v = refl

type_of-to_width :
    (width : ℕ) (len : Value)
    → is_int (type_of len) ≡ true
    → type_of (to_width width len) ≡ int width
type_of-to_width width len = go (type_of len) refl
  where
    sized :
        (w : ℕ) (same : Bool)
        → type_of len ≡ int w
        → (w == width) ≡ same
        → type_of (if same then len else cast_int width len) ≡ int width
    sized w true e h = e ∙ ap int (==→eq w width h)
    sized w false e h = type_of-cast_int width len

    go :
        (t : IrType)
        → type_of len ≡ t
        → is_int t ≡ true
        → type_of (if has_width width t then len else cast_int width len) ≡ int width
    go (int w) e h = sized w (w == width) e refl
    go void e h = cc h
    go i8_ptr e h = cc h
    go other_ptr e h = cc h

pub All-append :
    (is js : List Instruction) → All IsTyped is → All IsTyped js → All IsTyped (is ++ js)
All-append [] js p q = q
All-append (i ∷ is) js p q = (p.0, All-append is js p.1 q)

inserted-IsTyped : (b : Bool) (v : Value) → All IsTyped (inserted b v)
inserted-IsTyped true v = (tt, tt)
inserted-IsTyped false v = tt

compute_cast-IsTyped : (v : Value) → All IsTyped (compute_cast v)
compute_cast-IsTyped v =
    inserted-IsTyped (not (is_i8_ptr (type_of v)) && not (is_constant v)) (cast v i8_ptr)

pub restart_hook-IsTyped :
    (restart_type : ℕ) (called : Option Value)
    → All IsTyped (insert_restart_hook restart_type called)
unfolding insert_restart_hook init
restart_hook-IsTyped restart_type none = (refl, tt)
restart_hook-IsTyped restart_type (some v) =
    All-append (compute_cast v) _ (compute_cast-IsTyped v)
      (ap (λ t. i8_ptr ∷ int 32 ∷ t ∷ []) (type_of-pointer_cast v), tt)

pub timer_hook-IsTyped : (arg : Value) → All IsTyped (insert_timer_interrupt_hook arg)
unfolding insert_timer_interrupt_hook init
timer_hook-IsTyped arg = (
  tt,
  All-append (compute_cast arg) _ (compute_cast-IsTyped arg)
      (ap (λ t. t ∷ i8_ptr ∷ []) (type_of-pointer_cast arg), tt),
)

pub exception_hook-IsTyped :
    (f : Function) (arg : Value) → All IsTyped (insert_exception_interrupt_hook f arg)
unfolding insert_exception_interrupt_hook init
exception_hook-IsTyped f arg = (
  tt,
  All-append (compute_cast arg) _ (compute_cast-IsTyped arg)
      (ap (λ t. t ∷ i8_ptr ∷ int 32 ∷ []) (type_of-pointer_cast arg), tt),
)

restart_for-IsTyped :
    (t : Option ℕ) (g : Option Name) (v : Option Value)
    → All IsTyped (restart_for (record { return_type = t; called_function = g; called_value = v }))
restart_for-IsTyped none g v = tt
restart_for-IsTyped (some t) none v = restart_hook-IsTyped t v
restart_for-IsTyped (some t) (some g) v = tt

unless-IsTyped :
    (b : Bool) (hooks : List Instruction) (i : Instruction)
    → All IsTyped hooks
    → IsTyped i
    → All IsTyped ((if b then [] else hooks) ++ i ∷ [])
unless-IsTyped true hooks i p q = (q, tt)
unless-IsTyped false hooks i p q = All-append hooks (i ∷ []) p (q, tt)

module _ (l : KSpecEmAbiList) (bits : ℕ) (f : Function) (wide : (bits == 32) ≡ false) where
  visit-IsTyped : (i : Instruction) → IsTyped i → All IsTyped (visit l bits f i)
  unfolding visit visit_call_inst visit_return_inst visit_store_inst visit_mem_intrinsic
      length_width init
  visit-IsTyped (call callee arguments) p =
      let called = get_called_function callee in
      unless-IsTyped (is_in l f (codes "nospec")) (restart_for called) (call callee arguments)
        (restart_for-IsTyped called.return_type called.called_function called.called_value) p
  visit-IsTyped ret p =
      unless-IsTyped (is_in l f (codes "nospec"))
        (compute return_address ∷ insert_restart_hook 0 (some return_address)) ret
        (tt, restart_hook-IsTyped 0 (some return_address)) tt
  visit-IsTyped (store value pointer size marked) p =
      unless-IsTyped (starts_with (codes "kspecem_") f.name)
        (compute (cast pointer i8_ptr) ∷ hook_call store_hook_name (cast pointer i8_ptr ∷ []) ∷ [])
        (store value pointer size marked) (tt, (refl, tt)) tt
  visit-IsTyped (mem_intrinsic dest source len marked) p =
      let width = length_width bits in
      unless-IsTyped (starts_with (codes "kspecem_") f.name)
        (compute (cast dest i8_ptr) ∷ compute_to_width width len
          ++ hook_call memcpy_func_name (cast dest i8_ptr ∷ to_width width len ∷ []) ∷ [])
        (mem_intrinsic dest source len marked)
        (
          tt,
          All-append (compute_to_width width len) _
              (inserted-IsTyped (not (has_width width (type_of len)) && not (is_constant len))
                (cast_int width len))
              (
                ap (λ t. i8_ptr ∷ t ∷ [])
                    (type_of-to_width width len p ∙ ap (λ b. int (if b then 32 else 64)) wide),
                tt,
              ),
        )
        p
  visit-IsTyped i p = (p, tt)

  pub visit_instructions-IsTyped :
      (is : List Instruction)
      → All IsTyped is
      → All IsTyped (visit_instructions (visit l bits f) is)
  visit_instructions-IsTyped [] p = tt
  visit_instructions-IsTyped (i ∷ is) p =
      All-append (visit l bits f i) (visit_instructions (visit l bits f) is) (visit-IsTyped i p.0)
        (visit_instructions-IsTyped is p.1)
