-- ===== src/Machine.antt =====
-- The state of the kspecem runtime (static/kspecem) and the commands over it. A field of `State`
-- stands for the globals of one source file; `mem` is the memory of the instrumented program, byte
-- by byte, apart from the runtime's own variables.
pub mod Types
pub mod Kernel
use kasper.Prelude.{
  ℕ, ◌+◌, ◌-◌, Bool, true, false, ◌&&◌, Option, List, ◌∷◌, leb, ltb, if◌then◌else◌,
}
use Types.{
  SpecStatistics, FunctionStats, InlineasmStats, BugState, Emulation, Undolog, StackLog, SpecAssert,
  Event,
}
use Kernel.{World}

pub record State : Type 0 where
  pub is_in_rt : Bool
  pub is_in_restart : Bool
  pub init_done : Bool
  pub spec_assert : Option SpecAssert
  pub whitelist_type : ℕ
  pub report_error_dump_stack : Bool
  pub emulation : Emulation
  pub undolog : Undolog
  pub stack : StackLog
  pub statistics : SpecStatistics
  pub total_statistics : FunctionStats
  pub inlineasm : InlineasmStats
  pub bug_state : BugState
  pub registers : ℕ → ℕ
  pub pf_dummy_region : ℕ
  pub mem : ℕ → ℕ
  pub world : World
  pub printed : List Event

abbrev pub in_spec : State → Bool
in_spec s = s.emulation.in_speculative_emulation

-- How a call ends: it returns; the checkpoint's registers are restored, so that the program goes on
-- behind the checkpoint; the kernel panics; or an assertion inside a restart starts another restart.
pub data Out (A : Type 0) : Type 0 where
  ok : A → State → Out A
  resumed : State → Out A
  panicked : SpecAssert → State → Out A
  reentered : State → Out A

abbrev pub Cmd : Type 0 → Type 0
Cmd A = State → Out A

abbrev pub Act : Type 0
Act = Cmd (Unit {0})

abbrev pub pure : {A : Type 0} → A → Cmd A
pure a s = ok a s

module _ {A B : Type 0} where
  abbrev pub and_then : Out A → (A → Cmd B) → Out B
  and_then (ok a s) next = next a s
  and_then (resumed s) next = resumed s
  and_then (panicked site s) next = panicked site s
  and_then (reentered s) next = reentered s

  infixl 5 ◌>>=◌
  abbrev pub ◌>>=◌ : Cmd A → (A → Cmd B) → Cmd B
  m >>= next = λ s. and_then (m s) next

infixl 5 ◌>>◌
abbrev pub ◌>>◌ : {B : Type 0} → Act → Cmd B → Cmd B
m >> next = m >>= λ _. next

-- An assignment to globals.
abbrev pub modify : (State → State) → Act
modify f s = ok tt (f s)

-- A test of a global, and a branch.
abbrev pub read {ℓ} : {A : Type ℓ} {B : Type 0} → (State → A) → (A → Cmd B) → Cmd B
read f next s = next (f s) s

abbrev pub when : Bool → Act → Act
when b m = if b then m else pure tt

abbrev pub print : Event → Act
print e = modify λ s. record s { printed = e ∷ s.printed }

-- `memcpy(dest, src, len)` into a memory, from the bytes of `src` by offset; and the bytes at `a`.
abbrev pub write_bytes : (ℕ → ℕ) → (dest len : ℕ) → (src : ℕ → ℕ) → ℕ → ℕ
write_bytes mem dest len src x = if leb dest x && ltb x (dest + len) then src (x - dest) else mem x

abbrev pub read_bytes : (ℕ → ℕ) → ℕ → ℕ → ℕ
read_bytes mem a i = mem (a + i)
