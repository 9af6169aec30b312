-- ===== src/Interface/Transparent/Outcomes.antt =====
-- Calls that return, speculations that resume, and memories that agree.
use kasper.Prelude.{
  ℕ, ◌≡◌, refl, Bool, true, false, List, [], ◌∷◌, Bool-cases, inl, inr, minus_one64,
}
use kasper.Machine.{State, Act, Cmd, Out, ok, resumed, panicked, reentered, and_then}
use kasper.Machine.Kernel.{Kernel, Frame, World}
use kasper.Internal.Exit.{Leaves}
use kasper.Registers.{asm_save_registers}
use kasper.Store.Speculating.{Continues, Continues-bind}
use kasper.Interface.{may_checkpoint}
use kasper.Interface.Program.{Write, store, intrinsic, busy_with}
use kasper.Interface.Transparent.{Branch, plain_write, plain_writes, plain, on_resume, IsIdle}

-- A call returns in a state that satisfies `P`, or the kernel panics.
abbrev pub Returns : {A : Type 0} → (State → Type 0) → Out A → Type 0
Returns P o = Continues (λ _. P) (λ _. ⊥) o

pub IsIdle-busy_with :
    (addrs regions : ℕ) (b : Bool) (w : World) (s : State)
    → IsIdle addrs regions s
    → IsIdle addrs regions (busy_with b w s)
IsIdle-busy_with addrs regions b w s v = record {
  idle = v.idle;
  log_off = v.log_off;
  no_swap = v.no_swap;
  addrs_at = v.addrs_at;
  regions_at = v.regions_at;
  buffer = v.buffer;
}

-- The same writes to memories that agree.
pub plain_writes-same :
    (ws : List Write) (m n : ℕ → ℕ) (a : ℕ) → m a ≡ n a → plain_writes ws m a ≡ plain_writes ws n a
plain_writes-same [] m n a e = e
plain_writes-same (w ∷ ws) m n a e =
    plain_writes-same ws (plain_write w m) (plain_write w n) a (one w)
  where
    one : (w : Write) → plain_write w m a ≡ plain_write w n a
    one (store addr len bytes) = rw e refl
    one (intrinsic addr size bytes) = rw e refl

pub plain-same : (bs : List Branch) (m n : ℕ → ℕ) (a : ℕ) → m a ≡ n a → plain bs m a ≡ plain bs n a
plain-same [] m n a e = e
plain-same (b ∷ bs) m n a e = plain-same bs _ _ a (plain_writes-same (b.writes b.taken) m n a e)

-- What runs where a speculation is left.
pub on_resume-Returns :
    {A : Type 0} (P Q : State → Type 0) (o : Out A) (next : Act)
    → Leaves Q o
    → ((t : State) → Q t → Returns P (next t))
    → Returns P (on_resume next o)
on_resume-Returns P Q (ok a s) next h step = absurd h
on_resume-Returns P Q (resumed s) next h step = step s h
on_resume-Returns P Q (panicked site s) next h step = tt
on_resume-Returns P Q (reentered s) next h step = h

pub on_resume-returned :
    {A : Type 0} (P : State → Type 0) (o : Out A) (next : Act)
    → Returns P o
    → Returns P (on_resume next o)
on_resume-returned P (ok a s) next h = h
on_resume-returned P (resumed s) next h = absurd h
on_resume-returned P (panicked site s) next h = tt
on_resume-returned P (reentered s) next h = h

pub Returns-bind :
    {A B : Type 0} (P P' : State → Type 0) (o : Out A) (next : A → Cmd B)
    → Returns P o
    → ((a : A) (s : State) → P s → Returns P' (next a s))
    → Returns P' (and_then o next)
Returns-bind P P' o next h step = Continues-bind (λ _. P) (λ _. P') (λ _. ⊥) o next h step

pub unsaved_byte :
    (live registers : ℕ → ℕ) (i : ℕ) → asm_save_registers live registers minus_one64 i ≡ registers i
unfolding asm_save_registers
unsaved_byte live registers i = refl

pub allowed-initialised :
    (k : Kernel) (again : Act) (f : Frame) (s : State)
    → may_checkpoint k again f s ≡ true
    → s.init_done ≡ true
unfolding may_checkpoint
allowed-initialised k again f s h = elim (Bool-cases s.init_done) [
  | inl e ↦ e
  | inr e ↦ absurd (no_test (simp e at h))
]
  where
    no_test : false ≡ true → ⊥
    no_test e = cc
