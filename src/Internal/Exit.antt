-- ===== src/Internal/Exit.antt =====
-- The end of kspecem_restart from ordinary code (kspecem_internal.c, lines 104 to 121).
use kasper.Prelude.{
  ℕ, ◌≡◌, refl, true, false, none, not, ◌&&◌, ◌==◌, List, Option-cases, Bool-cases, inl, inr,
}
use kasper.Machine.{State, in_spec, Act, Cmd, Out, ok, resumed, panicked, reentered, and_then}
use kasper.Machine.Kernel.{Kernel, Frame}
use kasper.Machine.Types.{BugState, Event}
use kasper.Machine.Types.RestartType
use kasper.Registers.{saved_ip}
use kasper.Bugs.Calm.{CalmOut, Calm-report_print_and_clear}
use kasper.Internal.{panic_if_failed, restart_exit, restart_end}

-- `t` is where the program goes on after the end of a restart in `s`.
abbrev pub LeftAs : State → State → Type 0
LeftAs s t =
    (b : BugState) × (p : List Event) × (t
      ≡ record s { is_in_restart = false; is_in_rt = false; bug_state = b; printed = p })

-- The outcome of a call that does not return: the program goes on at a checkpoint in a state that
-- satisfies `P`, or the kernel panics. No assertion restarts a restart.
abbrev pub Leaves : {A : Type 0} → (State → Type 0) → Out A → Type 0
Leaves P (ok a s) = ⊥
Leaves P (resumed s) = P s
Leaves P (panicked site s) = Unit {0}
Leaves P (reentered s) = ⊥

pub Leaves-mono :
    {A : Type 0} (P Q : State → Type 0) (o : Out A)
    → ((t : State) → P t → Q t)
    → Leaves P o
    → Leaves Q o
Leaves-mono P Q (ok a s) weaken h = h
Leaves-mono P Q (resumed s) weaken h = weaken s h
Leaves-mono P Q (panicked site s) weaken h = h
Leaves-mono P Q (reentered s) weaken h = h

pub Leaves-bind :
    {A B : Type 0} (Q : State → Type 0) (o : Out A) (next : A → Cmd B)
    → Leaves Q o
    → Leaves Q (and_then o next)
Leaves-bind Q (ok a s) next h = absurd h
Leaves-bind Q (resumed s) next h = h
Leaves-bind Q (panicked site s) next h = h
Leaves-bind Q (reentered s) next h = h

exit_lem :
    (s : State)
    → Leaves (λ t. (t ≡ record s { is_in_rt = false }) × (s.spec_assert ≡ none)) (restart_exit 0 s)
unfolding restart_exit panic_if_failed
exit_lem s = elim (Option-cases s.spec_assert) [
  | inl e ↦ rw (e, panic_if_failed) (refl, refl)
  | inr (site, e) ↦ rw (e, panic_if_failed) tt
]

-- The end of the restart, once the reports are printed.
after_report :
    (s : State) (o : Out (Unit {0}))
    → CalmOut (record s { is_in_restart = false }) o
    → Leaves (λ t. LeftAs s t × (s.spec_assert ≡ none)) (and_then o λ _. restart_exit 0)
after_report s (ok a u) (b, p, e) =
    Leaves-mono (λ t. (t ≡ record u { is_in_rt = false }) × (u.spec_assert ≡ none))
      (λ t. LeftAs s t × (s.spec_assert ≡ none)) (restart_exit 0 u)
      (λ t (q, n). ((b, p, rw (q, e)), rw e at n)) (exit_lem u)
after_report s (panicked site u) c = tt
after_report s (resumed u) c = absurd c
after_report s (reentered u) c = c

pub restart_end-Leaves :
    (k : Kernel) (again : Act) (f : Frame) (type : ℕ) (s : State)
    → in_spec s ≡ false
    → Leaves (λ t. LeftAs s t × (s.spec_assert ≡ none)) (restart_end k again f 0 type s)
unfolding restart_end
restart_end-Leaves k again f type s off =
    elim (Bool-cases (not (type == RestartType.timer) && not (type == RestartType.exception))) [
      | inl e ↦ rw e (
          after_report s _ (
            (Calm-report_print_and_clear k again true (saved_ip s.registers) type).run
              (record s { is_in_restart = false }) off))
      | inr e ↦ rw e (
          after_report s (ok tt (record s { is_in_restart = false }))
            (s.bug_state, s.printed, refl))
    ]
