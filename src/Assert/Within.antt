-- ===== src/Assert/Within.antt =====
-- An assertion inside a restart (kspecem_assert.c): it is noted and the restart goes on.
use kasper.Prelude.{ℕ, ◌≡◌, refl, Bool, true, false, Option, some, arith, if◌then◌else◌}
use kasper.Machine.{State, in_spec, Act, ok}
use kasper.Machine.Types.{SpecAssert, File}
use kasper.Assert.{assert_at, lt_assert}

-- The state with another kept failure.
abbrev pub noted : Option SpecAssert → State → State
noted x s = record s { spec_assert = x }

-- What is kept after an assertion.
abbrev pub verdict : File → ℕ → Bool → Option SpecAssert → Option SpecAssert
verdict file line condition x = if condition then x else some (assert_at file line)

-- The restart has begun and the emulation still runs.
pub record IsRestarting (s : State) : Type 0 where
  pub emulates : in_spec s ≡ true
  pub restarts : s.is_in_restart ≡ true

pub lt_assert-noted :
    (again : Act) (file : File) (line : ℕ) (condition : Bool) (s : State)
    → IsRestarting s
    → lt_assert again file line condition s
      ≡ ok tt (noted (verdict file line condition s.spec_assert) s)
unfolding lt_assert
lt_assert-noted again file line true s r = refl
lt_assert-noted again file line false s r = ground arith
