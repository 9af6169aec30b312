-- ===== src/Bugs/Calm.antt =====
-- Printing reports outside speculation (kspecem_bugs.c, kspecem_report.c): it returns or panics, and
-- touches nothing but the report state and the output.
use kasper.Prelude.{ℕ, zero, suc, ◌+◌, ◌≡◌, refl, Bool, true, false, not, List, ◌==◌, if◌then◌else◌}
use kasper.Machine.{
  State, in_spec, Cmd, Act, Out, ok, resumed, panicked, reentered, pure, ◌>>=◌, read, modify, print,
  and_then,
}
use kasper.Machine.Kernel.{Kernel}
use kasper.Machine.Types.{
  BugState, Event, File, Bug, AccessType, undef_access, kasan_access, mds_access, cc_access,
  pc_access, bugs_c, access_bug, restart_begin, restart_end, stack_shown,
}
use kasper.Assert.{lt_assert}
use kasper.Report.{
  has_name, report_print_access_bug, report_print_restart_begin, report_print_restart_end,
}
use kasper.Bugs.{
  print_none, print_default, print_duplicates, get_bug_mask, bug_already_reported,
  set_ip_as_reported, report_clear_globals, get_offset_by_ip, report_once, should_report_access_bug,
  print_loop, report_print_and_clear,
}

-- `s'` is `s` but for the reports and the output.
abbrev pub SameButReports : State → State → Type 0
SameButReports s s' =
    (b : BugState) × (p : List Event) × (s' ≡ record s { bug_state = b; printed = p })

abbrev pub CalmOut : {A : Type 0} → State → Out A → Type 0
CalmOut s (ok a s') = SameButReports s s'
CalmOut s (panicked site s') = SameButReports s s'
CalmOut s (resumed s') = ⊥
CalmOut s (reentered s') = ⊥

-- Outside speculation `m` returns or panics and leaves all else alone.
pub record Calm {A : Type 0} (m : Cmd A) : Type 0 where
  pub run : (s : State) → in_spec s ≡ false → CalmOut s (m s)

Calm-pure : {A : Type 0} (a : A) → Calm (pure a)
Calm-pure a = record { run = λ s _. (s.bug_state, s.printed, refl) }

CalmOut-trans :
    {A : Type 0} (s t : State) (o : Out A) → SameButReports s t → CalmOut t o → CalmOut s o
CalmOut-trans s t (ok a u) (b, p, e) (b', p', e') = (b', p', rw (e', e))
CalmOut-trans s t (panicked site u) (b, p, e) (b', p', e') = (b', p', rw (e', e))
CalmOut-trans s t (resumed u) e h = h
CalmOut-trans s t (reentered u) e h = h

CalmOut-bind :
    {A B : Type 0} (s : State) (o : Out A) (next : A → Cmd B)
    → in_spec s ≡ false
    → CalmOut s o
    → ((a : A) → Calm (next a))
    → CalmOut s (and_then o next)
CalmOut-bind s (ok a t) next off (b, p, e) h =
    CalmOut-trans s t (next a t) (b, p, e) ((h a).run t (rw e off))
CalmOut-bind s (panicked site t) next off c h = c
CalmOut-bind s (resumed t) next off c h = c
CalmOut-bind s (reentered t) next off c h = c

Calm->>= :
    {A B : Type 0} {m : Cmd A} {next : A → Cmd B}
    → Calm m
    → ((a : A) → Calm (next a))
    → Calm (m >>= next)
Calm->>= {m} {next} c h = record { run = λ s off. CalmOut-bind s (m s) next off (c.run s off) h }

Calm-read :
    {A B : Type 0} (f : State → A) {next : A → Cmd B}
    → ((a : A) → Calm (next a))
    → Calm (read f next)
Calm-read f h = record { run = λ s off. (h (f s)).run s off }

Calm-if : {A : Type 0} (b : Bool) {m n : Cmd A} → Calm m → Calm n → Calm (if b then m else n)
Calm-if true c d = c
Calm-if false c d = d

Calm-print : (e : Event) → Calm (print e)
Calm-print e = record { run = λ s _. (s.bug_state, _, refl) }

Calm-lt_assert :
    (again : Act) (file : File) (line : ℕ) (b : Bool) → Calm (lt_assert again file line b)
unfolding lt_assert
Calm-lt_assert again file line true = Calm-pure tt
Calm-lt_assert again file line false = record {
  run = λ s off. rw off (s.bug_state, s.printed, refl);
}

Calm-bug_state : (g : State → BugState) → Calm (modify λ s. record s { bug_state = g s })
Calm-bug_state g = record { run = λ s _. (g s, s.printed, refl) }

Calm-has_name : (t : AccessType) → Calm (has_name t)
unfolding has_name
Calm-has_name undef_access = record { run = λ s _. (s.bug_state, s.printed, refl) }
Calm-has_name kasan_access = Calm-pure tt
Calm-has_name mds_access = Calm-pure tt
Calm-has_name cc_access = Calm-pure tt
Calm-has_name pc_access = Calm-pure tt

module _ (k : Kernel) (again : Act) where
  Calm-get_offset : (ip : ℕ) → Calm (get_offset_by_ip k again ip)
  unfolding get_offset_by_ip
  Calm-get_offset ip =
      Calm->>= (Calm-lt_assert again _ _ _)
        λ _. Calm->>= (Calm-lt_assert again _ _ _) λ _. Calm-pure _

  Calm-report_once : (bug : Bug) → Calm (report_once k again bug)
  unfolding report_once
  Calm-report_once bug =
      let mask : ℕ = get_bug_mask bug.access_type in
      Calm->>= (Calm-get_offset bug.kinfo.ip) λ offset.
        Calm-read (λ s. s.bug_state.previous_bugs_map)
          λ map. Calm-if (bug_already_reported map offset mask) (Calm-pure false) (
            Calm->>= (Calm-get_offset bug.kinfo.ip) λ offset'.
              Calm->>=
                (Calm-bug_state λ s. record s.bug_state {
                  previous_bugs_map = set_ip_as_reported s.bug_state.previous_bugs_map offset' mask;
                })
                λ _. Calm-pure true)

  Calm-should_report : (bug : Bug) → Calm (should_report_access_bug k again bug)
  unfolding should_report_access_bug
  Calm-should_report bug =
      Calm-read (λ s. s.bug_state.print_level)
        λ level. Calm-if (level == print_none) (Calm-pure false) (
          Calm-if (level == print_duplicates) (Calm-pure true) (
            Calm->>= (Calm-lt_assert again bugs_c 118 (level == print_default))
              λ _. Calm-report_once bug))

  Calm-report : (bug : Bug) → Calm (report_print_access_bug bug)
  unfolding report_print_access_bug
  Calm-report bug = Calm->>= (Calm-has_name bug.access_type) λ _. Calm-print (access_bug bug)

  Calm-begin : Calm report_print_restart_begin
  unfolding report_print_restart_begin
  Calm-begin = Calm-print restart_begin

  Calm-end : (nr ip type : ℕ) → Calm (report_print_restart_end nr ip type)
  unfolding report_print_restart_end
  Calm-end nr ip type =
      Calm->>=
        (Calm-read (λ s. s.emulation.speculative_instr_count)
          λ n. Calm-print (restart_end nr ip type n))
        λ _.
          Calm-read (λ s. s.report_error_dump_stack)
            λ dump. Calm-if dump (Calm-print stack_shown) (Calm-pure tt)

  Calm-print_loop : (left i : ℕ) (printed : Bool) → Calm (print_loop k again left i printed)
  unfolding print_loop
  Calm-print_loop zero i printed = Calm-pure printed
  Calm-print_loop (suc left) i printed =
      Calm-read (λ s. s.bug_state.bugs i)
        λ bug. Calm->>= (Calm-should_report bug) λ report.
          Calm->>=
            (Calm-if report
              (Calm->>= (Calm-if (not printed) Calm-begin (Calm-pure tt))
                λ _. Calm->>= (Calm-report bug) λ _. Calm-pure true)
              (Calm-pure printed))
            λ printed'. Calm-print_loop left (i + 1) printed'

  pub Calm-report_print_and_clear :
      (called : Bool) (ip type : ℕ) → Calm (report_print_and_clear k again called ip type)
  unfolding report_print_and_clear
  Calm-report_print_and_clear called ip type =
      Calm-read (λ s. k.syscall_get_nr s.world)
        λ nr.
          Calm-read (λ s. s.bug_state.next_bug_index)
            λ next. Calm-if (next == 0) (Calm-pure tt) (
              Calm->>= (Calm-print_loop next 0 false) λ printed.
                Calm->>=
                  (Calm-if printed (Calm-end nr (if called then ip else 0) type) (Calm-pure tt))
                  λ _. Calm-bug_state λ s. report_clear_globals s.bug_state)
