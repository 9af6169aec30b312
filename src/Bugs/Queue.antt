-- ===== src/Bugs/Queue.antt =====
-- The list of pending reports (kspecem_bugs.c, lines 157 to 193): 100 elements.
use kasper.Prelude.{ℕ, ◌+◌, ◌≤◌, ◌<◌, ◌≡◌, Bool, true, false, some, arith, ◌==◌, update, lt→ltb}
use kasper.Machine.{State, in_spec, Act, ok}
use kasper.Machine.Kernel.{Kernel}
use kasper.Machine.Types.{AccessType, Bug, BugState, File}
use kasper.Assert.{assert_at, lt_assert}
use kasper.Bugs.{bugs_list_size}
use kasper.Bugs.AccessReport.{is_zero_bug, new_bug, access_report}

-- The list is not overfull, and its free slots are zero.
pub record IsQueue (b : BugState) : Type 0 where
  pub fits : b.next_bug_index ≤ bugs_list_size
  pub free : (j : ℕ) → b.next_bug_index ≤ j → is_zero_bug (b.bugs j) ≡ true

-- An assertion that fails in a speculation outside a restart is kept and starts the restart.
lt_assert-restarts :
    (again : Act) (file : File) (line : ℕ) (s : State)
    → in_spec s ≡ true
    → s.is_in_restart ≡ false
    → lt_assert again file line false s
      ≡ again (record s { spec_assert = some (assert_at file line) })
unfolding lt_assert
lt_assert-restarts again file line s spec outside = simp (spec, outside)

module _ (k : Kernel) (again : Act) where
  abbrev pub queued : Bug → State → State
  queued bug s = record s {
    bug_state = record s.bug_state {
      bugs = update s.bug_state.bugs s.bug_state.next_bug_index bug;
      next_bug_index = s.bug_state.next_bug_index + 1;
    };
  }

  -- In speculation, with room in the list, a policy's report is only queued: the call returns, the
  -- report stands in the first free slot, the earlier ones stay, nothing is printed and nothing
  -- else changes, and the list keeps its invariant.
  pub access_report-IsQueue :
      (addr size : ℕ) (is_write : Bool) (ip data_label ptr_label : ℕ) (type : AccessType)
      (s : State)
      → in_spec s ≡ true
      → IsQueue s.bug_state
      → s.bug_state.next_bug_index < bugs_list_size
      → (access_report k again addr size is_write ip data_label ptr_label type s
          ≡ ok tt (queued (new_bug k again addr size is_write ip data_label ptr_label type s) s))
        × IsQueue
            (queued (new_bug k again addr size is_write ip data_label ptr_label type s) s).bug_state
  unfolding access_report lt_assert
  access_report-IsQueue addr size is_write ip data_label ptr_label type s spec q room = (
    simp (
      lt→ltb s.bug_state.next_bug_index bugs_list_size room,
      q.free s.bug_state.next_bug_index (omega arith),
      spec,
    ),
    record {
      fits = omega arith;
      free = λ j le. rw (other s.bug_state.next_bug_index j le) (q.free j (omega arith));
    },
  )
    where
      other : (n j : ℕ) → n + 1 ≤ j → (j == n) ≡ false
      other n j le = ground arith
