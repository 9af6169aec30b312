-- ===== src/Passes/Erased/Hooked.antt =====
-- The hooks of passes/kspecem/KSpecEm.cpp, erased again.
use mathlib.Core.List.{append_assoc}
use kasper.Prelude.{
  ℕ, ◌≡◌, refl, ap, ◌∙◌, Bool, true, false, not, ◌&&◌, Option, none, some, List, [], ◌∷◌, ◌++◌,
  if◌then◌else◌, codes,
}
use kasper.Passes.Names.{Name, starts_with}
use kasper.Passes.Names.AbiList.{KSpecEmAbiList}
use kasper.Passes.Ir.{
  i8_ptr, Value, function_address, return_address, type_of, Instruction, store, mem_intrinsic, call,
  ret, compute, Block, Function, is_in, visit_instructions, visit_blocks, split_at_non_phi,
  hook_call, null_ptr, constant_int, pointer_cast, frame_address, is_constant, cast, has_width,
  cast_int, to_width, compute_to_width,
}
use kasper.Passes.Erased.{
  compute_cast-erase, kept, erase, erase_blocks, inserted-erase, visit_instructions-erase,
  visit_blocks-erase, Appends, split_at_non_phi-Appends, between-erase,
}
use kasper.Passes.KSpecEm.{
  length_width, CalledFunction, visit_call_inst, visit_return_inst, visit_store_inst,
  visit_mem_intrinsic, restart_for, get_called_function, insert_restart_hook,
  insert_timer_interrupt_hook,
}
use kasper.Passes.KSpecEm.Hooks.{
  restart_func_name, timer_func_name, store_hook_name, memcpy_func_name,
}
use kasper.Passes.KSpecEm
use kasper.Passes.KSpecEm.Visitor.{insert_first, visit_timer_entry, visit_timer, visitor}

compute_to_width-erase :
    (width : ℕ) (v : Value) (hooks is : List Instruction)
    → erase ((compute_to_width width v ++ hooks) ++ is) ≡ erase (hooks ++ is)
compute_to_width-erase width v hooks is =
    inserted-erase (not (has_width width (type_of v)) && not (is_constant v)) (cast_int width v)
      hooks is

-- The restart hook vanishes.
insert_restart_hook-erase :
    (restart_type : ℕ) (called : Option Value) (is : List Instruction)
    → erase (insert_restart_hook restart_type called ++ is) ≡ erase is
unfolding insert_restart_hook
insert_restart_hook-erase restart_type none is = refl
insert_restart_hook-erase restart_type (some v) is =
    compute_cast-erase v
      (hook_call restart_func_name (null_ptr ∷ constant_int 32 restart_type ∷ pointer_cast v ∷ [])
        ∷ [])
      is

restart_for-erase :
    (return_type : Option ℕ) (called_function : Option Name) (called_value : Option Value)
    (is : List Instruction)
    → erase (
        restart_for (record {
          return_type = return_type;
          called_function = called_function;
          called_value = called_value;
        })
        ++ is)
      ≡ erase is
restart_for-erase none g v is = refl
restart_for-erase (some t) none v is = insert_restart_hook-erase t v is
restart_for-erase (some t) (some g) v is = refl

insert_timer-erase :
    (arg : Value) (is : List Instruction) → erase (insert_timer_interrupt_hook arg ++ is) ≡ erase is
unfolding insert_timer_interrupt_hook
insert_timer-erase arg is =
    compute_cast-erase arg (hook_call timer_func_name (pointer_cast arg ∷ frame_address ∷ []) ∷ [])
      is

module _ (l : KSpecEmAbiList) (bits : ℕ) where
  -- Where the visitor inserts `hooks`, or nothing.
  unless-erase :
      (b : Bool) (hooks is : List Instruction) (i : Instruction)
      → ((js : List Instruction) → erase (hooks ++ js) ≡ erase js)
      → erase (((if b then [] else hooks) ++ i ∷ []) ++ is) ≡ kept i ++ erase is
  unless-erase true hooks is i vanish = refl
  unless-erase false hooks is i vanish = ap erase (append_assoc hooks (i ∷ []) is) ∙ vanish (i ∷ is)

  visit-erase :
      (f : Function) (i : Instruction) (is : List Instruction)
      → erase (KSpecEm.visit l bits f i ++ is) ≡ kept i ++ erase is
  unfolding KSpecEm.visit visit_call_inst visit_return_inst visit_store_inst visit_mem_intrinsic
  visit-erase f (call callee arguments) is =
      unless-erase (is_in l f (codes "nospec")) (restart_for (get_called_function callee)) is
        (call callee arguments)
        (λ js.
          let called = get_called_function callee in
          restart_for-erase called.return_type called.called_function called.called_value js)
  visit-erase f ret is =
      unless-erase (is_in l f (codes "nospec"))
        (compute return_address ∷ insert_restart_hook 0 (some return_address)) is ret
        (λ js. insert_restart_hook-erase 0 (some return_address) js)
  visit-erase f (store value pointer size marked) is =
      unless-erase (starts_with (codes "kspecem_") f.name)
        (compute (cast pointer i8_ptr) ∷ hook_call store_hook_name (cast pointer i8_ptr ∷ []) ∷ [])
        is (store value pointer size marked) (λ js. refl)
  visit-erase f (mem_intrinsic dest source len marked) is =
      let width = length_width bits in
      let hook = hook_call memcpy_func_name (cast dest i8_ptr ∷ to_width width len ∷ []) ∷ [] in
      unless-erase (starts_with (codes "kspecem_") f.name)
        (compute (cast dest i8_ptr) ∷ compute_to_width width len ++ hook) is
        (mem_intrinsic dest source len marked) (λ js. compute_to_width-erase width len hook js)
  visit-erase f i is = refl

-- What a visitor gives without its hooks is the function without them; `none` is a crash.
abbrev pub Restores : List Block → Option Function → Type 0
Restores bs none = Unit
Restores bs (some g) = erase_blocks g.blocks ≡ erase_blocks bs

insert_first-erase :
    (hooks : List Instruction) (bs : List Block)
    → ((js : List Instruction) → erase (hooks ++ js) ≡ erase js)
    → erase_blocks (insert_first hooks bs) ≡ erase_blocks bs
insert_first-erase hooks [] vanish = refl
insert_first-erase hooks (b ∷ bs) vanish = go b.label b.instructions
  where
    go :
        (n : ℕ) (is : List Instruction)
        → erase_blocks (insert_first hooks (record { label = n; instructions = is } ∷ bs))
          ≡ erase_blocks (record { label = n; instructions = is } ∷ bs)
    go n [] = refl
    go n (i ∷ is) =
        ap (λ js. record { label = n; instructions = js } ∷ erase_blocks bs) (vanish (i ∷ is))

visit_timer-Restores :
    (f : Function) (bs : List Block) (arguments : List Value)
    → Restores bs (visit_timer_entry f bs arguments)
visit_timer-Restores f [] arguments = tt
visit_timer-Restores f (b ∷ bs) [] = tt
visit_timer-Restores f (b ∷ bs) (arg ∷ args) =
    go (split_at_non_phi b.instructions) (split_at_non_phi-Appends b.instructions)
  where
    go :
        (o : Option (List Instruction × List Instruction))
        → Appends o b.instructions
        → Restores (b ∷ bs) (elim o [
          | none ↦ none
          | some (before, rest) ↦
              let is = before ++ insert_timer_interrupt_hook arg ++ rest in
              some (record f { blocks = record b { instructions = is } ∷ bs })
        ])
    go none h = tt
    go (some (before, rest)) h =
        ap (λ js. record { label = b.label; instructions = js } ∷ erase_blocks bs)
          (between-erase b.instructions before (insert_timer_interrupt_hook arg) rest h
            (insert_timer-erase arg))

module _ (l : KSpecEmAbiList) (bits : ℕ) (new_label : Function → ℕ)
    (replace_phi_uses : (old new : ℕ) → List Block → List Block) where
  pub visitor-Restores :
      (f : Function)
      → is_in l f (codes "exception") ≡ false
      → Restores f.blocks (visitor l bits new_label replace_phi_uses f)
  unfolding visitor visit_timer
  visitor-Restores f e = rw e (go (is_in l f (codes "blacklist")) (is_in l f (codes "timer")))
    where
      go :
          (blacklist timer : Bool)
          → Restores f.blocks (
              if blacklist
              then some (record f {
                blocks =
                    insert_first (insert_restart_hook 4 (some (function_address f.name))) f.blocks;
              })
              else if timer
              then visit_timer f
              else if false
              then none
              else some (record f {
                blocks = visit_blocks (visit_instructions (KSpecEm.visit l bits f)) f.blocks;
              }))
      go true timer =
          insert_first-erase (insert_restart_hook 4 (some (function_address f.name))) f.blocks
            (insert_restart_hook-erase 4 (some (function_address f.name)))
      go false true = visit_timer-Restores f f.blocks f.arguments
      go false false =
          visit_blocks-erase (visit_instructions (KSpecEm.visit l bits f))
            (visit_instructions-erase (KSpecEm.visit l bits f) (visit-erase l bits f)) f.blocks
