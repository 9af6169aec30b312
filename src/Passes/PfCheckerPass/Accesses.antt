-- ===== src/Passes/PfCheckerPass/Accesses.antt =====
-- The addresses that code reads and writes after passes/kspecem-pf-checker, with the hook that
-- static/kspecem/kspecem_pf_checker.c implements.
use kasper.Prelude.{
  Option, none, some, ℕ, ◌≡◌, Bool, true, false, List, [], ◌∷◌, ◌++◌, if◌then◌else◌,
}
use kasper.PfChecker.{kspecem_access}
use kasper.Passes.Names.{Name, same_name}
use kasper.Passes.Ir.{
  Value, constant_int, cast, result, Instruction, load, store, mem_intrinsic, call, direct,
  to_width,
}
use kasper.Passes.PfCheckerPass.{access_func_name, visit}

module _ (region : ℕ) (valid : ℕ → Bool) (own : Value → ℕ) where
  -- A value, where the last call of the hook returned `last`.
  abbrev pub number_of : (last : ℕ) → Value → ℕ
  number_of last (result hook t) = last
  number_of last (cast v t) = number_of last v
  number_of last (constant_int w n) = n
  number_of last v = own v

  abbrev pub access : (pointer size : ℕ) → ℕ
  access pointer size = kspecem_access region (valid pointer) pointer size

  abbrev pub after_call : (last : ℕ) → Name → List Value → ℕ
  after_call last n (pointer ∷ size ∷ []) =
      if same_name n access_func_name
      then access (number_of last pointer) (number_of last size)
      else last
  after_call last n arguments = last

  -- The address that a memory intrinsic reads from, if it copies.
  abbrev pub source_of : (last : ℕ) → Option Value → List ℕ
  source_of last none = []
  source_of last (some v) = number_of last v ∷ []

  -- The addresses of the accesses, in order; a copy's are its destination and its source.
  abbrev pub addresses : (last : ℕ) → List Instruction → List ℕ
  addresses last [] = []
  addresses last (load pointer size marked ∷ is) = number_of last pointer ∷ addresses last is
  addresses last (store value pointer size marked ∷ is) = number_of last pointer ∷ addresses last is
  addresses last (mem_intrinsic dest source len marked ∷ is) =
      number_of last dest ∷ source_of last source ++ addresses last is
  addresses last (call (direct n) arguments ∷ is) = addresses (after_call last n arguments) is
  addresses last (i ∷ is) = addresses last is

  abbrev pub checked : (marked : Bool) (pointer size : ℕ) → ℕ
  checked true pointer size = access pointer size
  checked false pointer size = pointer

  abbrev pub own_source : Option Value → List ℕ
  own_source none = []
  own_source (some v) = own v ∷ []

  -- What they should be: the marked ones go through the check, except the source of a copy.
  abbrev pub checked_addresses : List Instruction → List ℕ
  checked_addresses [] = []
  checked_addresses (load pointer size marked ∷ is) =
      checked marked (own pointer) size ∷ checked_addresses is
  checked_addresses (store value pointer size marked ∷ is) =
      checked marked (own pointer) size ∷ checked_addresses is
  checked_addresses (mem_intrinsic dest source len marked ∷ is) =
      checked marked (own dest) (own len) ∷ own_source source ++ checked_addresses is
  checked_addresses (i ∷ is) = checked_addresses is

  abbrev pub IsOwn : Option Value → Type 0
  IsOwn none = Unit
  IsOwn (some v) = (last : ℕ) → number_of last v ≡ own v

  -- The program's own addresses do not depend on the hook, nor do its lengths, which fit a pointer.
  abbrev pub OwnAddresses : (bits : ℕ) → Instruction → Type 0
  OwnAddresses bits (load pointer size marked) = (last : ℕ) → number_of last pointer ≡ own pointer
  OwnAddresses bits (store value pointer size marked) =
      (last : ℕ) → number_of last pointer ≡ own pointer
  OwnAddresses bits (mem_intrinsic dest source len marked) =
      ((last : ℕ) → number_of last dest ≡ own dest)
      × ((last : ℕ) → number_of last (to_width bits len) ≡ own len)
      × IsOwn source
  OwnAddresses bits i = Unit

  -- One visited access, and what is left.
  abbrev Checks : (bits : ℕ) → Instruction → List Instruction → Type 0
  Checks bits i is =
      (last : ℕ)
      → (next : ℕ) × (addresses last (visit bits i ++ is)
          ≡ checked_addresses (i ∷ []) ++ addresses next is)
