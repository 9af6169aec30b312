-- ===== src/Passes/Ir.antt =====
-- The part of LLVM IR that the passes read and build. An instruction that a pass inserts only to
-- compute an argument is `compute v`, and `v` stands for its result where it is used; the program's
-- own values are `argument` and `local`. What LLVM's library does to a function's other blocks when
-- one is split is a parameter of the pass that splits.
use kasper.Prelude.{
  ℕ, ◌%◌, ◌^◌, Bool, true, false, not, ◌&&◌, ◌==◌, Option, none, some, List, [], ◌∷◌, ◌++◌,
  if◌then◌else◌,
}
use kasper.Passes.Names.{Name}
use kasper.Passes.Names.AbiList.{KSpecEmAbiList, is_function_in}

pub data IrType : Type 0 where
  void : IrType
  int : (width : ℕ) → IrType
  i8_ptr : IrType
  other_ptr : IrType

pub data Value : Type 0 where
  argument : ℕ → IrType → Value
  local : ℕ → IrType → Value
  constant_int : (width n : ℕ) → Value
  null_ptr : Value
  function_address : Name → Value
  global : Name → Value
  cast : Value → IrType → Value
  frame_address : Value
  return_address : Value
  load_global : Name → IrType → Value
  -- the result of the last call of a hook
  result : (hook : Name) → IrType → Value
  is_null : Value → Value
  inverted : Value → Value
  equals : Value → Value → Value
  select : (condition when_true when_false : Value) → Value

abbrev pub type_of : Value → IrType
type_of (argument i t) = t
type_of (local i t) = t
type_of (constant_int w n) = int w
type_of null_ptr = i8_ptr
type_of (function_address f) = other_ptr
type_of (global n) = other_ptr
type_of (cast v t) = t
type_of frame_address = i8_ptr
type_of return_address = i8_ptr
type_of (load_global n t) = t
type_of (result hook t) = t
type_of (is_null v) = int 1
type_of (inverted v) = int 1
type_of (equals v w) = int 1
type_of (select c v w) = type_of v

-- What a call calls: a function by name, a function behind a cast, a computed address, or inline
-- assembly with its constraints' codes.
pub data Callee : Type 0 where
  direct : Name → Callee
  cast_function : Name → Callee
  computed : Value → Callee
  inline_asm : (asm_string : Name) (constraints : List (List Name)) → Callee

-- `size` is the size in memory of what is loaded or stored; `marked` says that the instruction has
-- the metadata is-asan-instr. A memset has no `source`. `other` is any other instruction, also a terminator such as switch.
pub data Instruction : Type 0 where
  phi : ℕ → Instruction
  load : (pointer : Value) (size : ℕ) (marked : Bool) → Instruction
  store : (value pointer : Value) (size : ℕ) (marked : Bool) → Instruction
  mem_intrinsic : (dest : Value) (source : Option Value) (len : Value) (marked : Bool) → Instruction
  call : Callee → (arguments : List Value) → Instruction
  ret : Instruction
  branch : (target : ℕ) → Instruction
  cond_branch : (condition : Value) (when_true when_false : ℕ) → Instruction
  other : ℕ → Instruction
  compute : Value → Instruction

abbrev pub hook_call : Name → List Value → Instruction
hook_call hook arguments = call (direct hook) arguments

abbrev pub is_phi : Instruction → Bool
is_phi (phi n) = true
is_phi i = false

-- The last instruction of a block is its terminator.
pub record Block : Type 0 where
  pub label : ℕ
  pub instructions : List Instruction

pub record Function : Type 0 where
  pub name : Name
  pub parent : Name
  pub arguments : List Value
  pub blocks : List Block

abbrev pub is_in : KSpecEmAbiList → Function → (category : Name) → Bool
is_in l f category = is_function_in l f.parent f.name category

-- `parent` of the functions is the module's identifier.
pub record Module : Type 0 where
  pub identifier : Name
  pub pointer_bits : ℕ
  pub functions : List Function

-- A function that a pass declares (getOrInsertFunction).
pub record Declaration : Type 0 where
  pub hook : Name
  pub params : List IrType
  pub returns : IrType

abbrev pub declare : Name → List IrType → IrType → Declaration
declare hook params returns = record { hook = hook; params = params; returns = returns }

abbrev pub is_i8_ptr : IrType → Bool
is_i8_ptr i8_ptr = true
is_i8_ptr t = false

-- No integer type of another width.
abbrev pub has_width : (width : ℕ) → IrType → Bool
has_width width (int w) = w == width
has_width width t = true

abbrev pub is_constant : Value → Bool
is_constant (function_address f) = true
is_constant (global n) = true
is_constant (constant_int w n) = true
is_constant null_ptr = true
is_constant v = false

-- The instruction for a value, where one is needed.
abbrev pub inserted : Bool → Value → List Instruction
inserted true v = compute v ∷ []
inserted false v = []

-- IRBuilder's CreatePointerCast and CreateBitCast to i8*: nothing is inserted for a value of that
-- type or for a constant.
abbrev pub pointer_cast : Value → Value
pointer_cast v = if is_i8_ptr (type_of v) then v else cast v i8_ptr

abbrev pub compute_cast : Value → List Instruction
compute_cast v = inserted (not (is_i8_ptr (type_of v)) && not (is_constant v)) (cast v i8_ptr)

-- IRBuilder's casts between integer types: that of a constant is a constant.
abbrev pub cast_int : (width : ℕ) → Value → Value
cast_int width (constant_int w n) = constant_int width (n % 2 ^ width)
cast_int width v = cast v (int width)

abbrev pub to_width : (width : ℕ) → Value → Value
to_width width v = if has_width width (type_of v) then v else cast_int width v

abbrev pub compute_to_width : (width : ℕ) → Value → List Instruction
compute_to_width width v =
    inserted (not (has_width width (type_of v)) && not (is_constant v)) (cast_int width v)

-- What InstVisitor does with a visitor that puts instructions before the one it visits: those are
-- not visited again.
abbrev pub visit_instructions :
    (Instruction → List Instruction) → List Instruction → List Instruction
visit_instructions visit [] = []
visit_instructions visit (i ∷ is) = visit i ++ visit_instructions visit is

abbrev pub visit_blocks : (List Instruction → List Instruction) → List Block → List Block
visit_blocks visit [] = []
visit_blocks visit (b ∷ bs) =
    record b { instructions = visit b.instructions } ∷ visit_blocks visit bs

-- Before the first instruction that is no phi; `none` if there is none.
abbrev pub split_at_non_phi : List Instruction → Option (List Instruction × List Instruction)
split_at_non_phi [] = none
split_at_non_phi (i ∷ is) =
    let rest = split_at_non_phi is in
    if is_phi i
    then elim rest [ none ↦ none | some (before, after) ↦ some (i ∷ before, after) ]
    else some ([], i ∷ is)
