-- ===== src/Store/Speculating.antt =====
-- The state of a speculation between two hooks, and that the undo log's writes keep it
-- (kspecem_undolog.c, lines 49 to 114).
use kasper.Prelude.{
  ℕ, ◌+◌, ◌*◌, ◌^◌, ◌%◌, ◌≤◌, ◌<◌, ◌≡◌, refl, subst, ltb→lt, inl, inr, true, false, ◌&&◌, ◌||◌,
  arith, leb, ltb, ◌==◌, Bool-cases, align_down,
}
use kasper.Machine.{State, in_spec, Act, Cmd, Out, ok, resumed, panicked, reentered, and_then}
use kasper.Machine.Kernel.{Kernel, Frame}
use kasper.Machine.Types.{StackLog}
use kasper.Machine.Types.RestartType
use kasper.Assert.{lt_assert}
use kasper.Internal.{kspecem_restart}
use kasper.Internal.Exit.{Leaves, Leaves-mono}
use kasper.Internal.Rollback.{IsUndoable, IsRolledBack, restart-IsRolledBack}
use kasper.Store.{writelog_slots, push_entry, outside, write_wl_aligned}
use kasper.Store.Logged.{is_logged, push_entry-pushed, pushed-IsUndoable, pushed-is_logged}

-- What a checkpoint fixes: the memory, the saved frame and registers, and where the log's arrays are.
pub record Checkpoint : Type 0 where
  pub memory : ℕ → ℕ
  pub frame : StackLog
  pub registers : ℕ → ℕ
  pub addrs : ℕ
  pub regions : ℕ

pub record IsSpeculating (c : Checkpoint) (s : State) : Type 0 where
  pub emulates : in_spec s ≡ true
  pub enabled : s.undolog.writelog_enabled ≡ true
  pub initialised : s.init_done ≡ true
  pub addrs_at : s.undolog.writelog_addrs ≡ c.addrs
  pub regions_at : s.undolog.writelog_data ≡ c.regions
  pub addrs_present : (c.addrs == 0) ≡ false
  pub regions_present : (c.regions == 0) ≡ false
  pub fits : s.undolog.wl_position ≤ writelog_slots
  pub same_frame : s.stack ≡ c.frame
  pub same_registers : s.registers ≡ c.registers
  pub undoable : IsUndoable c.memory s.undolog s.stack s.mem

-- A word that the log may hold: it is neither in the log's arrays nor one of the two variables that
-- write_wl passes over, nor the last of the address space.
pub record Loggable (k : Kernel) (c : Checkpoint) (addr : ℕ) : Type 0 where
  pub outside_addrs : outside addr c.addrs ≡ true
  pub outside_regions : outside addr c.regions ≡ true
  pub not_own : (addr == k.at_wl_position || addr == k.at_writelog_enabled) ≡ false
  pub word : addr % 8 ≡ 0
  pub not_last : addr + 8 < 2 ^ 64

-- `t` is `s` with more of the log filled.
pub record LogsMore (s t : State) : Type 0 where
  pub same : t ≡ record s { undolog = t.undolog }
  pub kept :
      (a : ℕ)
      → is_logged s.undolog.wl_position s.undolog a ≡ true
      → is_logged t.undolog.wl_position t.undolog a ≡ true

-- A call returns in a state that satisfies `P`, or the program goes on at its checkpoint, or the
-- kernel panics.
abbrev pub Continues : {A : Type 0} → (A → State → Type 0) → (State → Type 0) → Out A → Type 0
Continues P Q (ok a s) = P a s
Continues P Q (resumed s) = Q s
Continues P Q (panicked site s) = Unit {0}
Continues P Q (reentered s) = ⊥

pub Continues-bind :
    {A B : Type 0} (P : A → State → Type 0) (P' : B → State → Type 0) (Q : State → Type 0)
    (o : Out A) (next : A → Cmd B)
    → Continues P Q o
    → ((a : A) (s : State) → P a s → Continues P' Q (next a s))
    → Continues P' Q (and_then o next)
Continues-bind P P' Q (ok a s) next h step = step a s h
Continues-bind P P' Q (resumed s) next h step = h
Continues-bind P P' Q (panicked site s) next h step = h
Continues-bind P P' Q (reentered s) next h step = h

pub Leaves-Continues :
    {A B : Type 0} (P : B → State → Type 0) (Q : State → Type 0) (o : Out A) (next : A → Cmd B)
    → Leaves Q o
    → Continues P Q (and_then o next)
Leaves-Continues P Q (ok a s) next h = absurd h
Leaves-Continues P Q (resumed s) next h = h
Leaves-Continues P Q (panicked site s) next h = h
Leaves-Continues P Q (reentered s) next h = h

below_slots : (n : ℕ) → leb writelog_slots n ≡ false → ltb n writelog_slots ≡ true
below_slots n h = ground arith

slot_present : (p n : ℕ) → (p == 0) ≡ false → (p + 8 * n == 0) ≡ false
slot_present p n h = ground arith

module _ (k : Kernel) (again : Act) (f : Frame) (c : Checkpoint) where
  abbrev pub BackAt : State → Type 0
  BackAt = IsRolledBack c.memory f c.frame c.registers c.addrs c.regions

  -- What a write of the word at `addr` leaves.
  abbrev pub Wrote : ℕ → State → Unit {0} → State → Type 0
  Wrote addr s _ t =
      IsSpeculating c t
      × LogsMore s t
      × ((a : ℕ)
          → (addr == align_down 8 a) ≡ true
          → is_logged t.undolog.wl_position t.undolog a ≡ true)

  push_entry-Wrote :
      (addr ret_addr : ℕ) (s : State)
      → Loggable k c addr
      → IsSpeculating c s
      → s.undolog.wl_position < writelog_slots
      → Wrote addr s tt (push_entry addr ret_addr s)
  push_entry-Wrote addr ret_addr s l v room = rw (push_entry-pushed c.memory addr ret_addr s room) (
    record {
      emulates = v.emulates;
      enabled = v.enabled;
      initialised = v.initialised;
      addrs_at = v.addrs_at;
      regions_at = v.regions_at;
      addrs_present = v.addrs_present;
      regions_present = v.regions_present;
      fits = room;
      same_frame = v.same_frame;
      same_registers = v.same_registers;
      undoable = pushed-IsUndoable c.memory addr ret_addr s room l.word v.undoable;
    },
    record {
      same = refl;
      kept = λ a h. pushed-is_logged c.memory addr ret_addr s room a (ground arith);
    },
    λ a h. pushed-is_logged c.memory addr ret_addr s room a (rw h),
  )

  -- A restart in a speculation leads back to its checkpoint.
  pub restart-BackAt :
      (type ret_addr call_arg : ℕ) (s : State)
      → (type == RestartType.on_return && ltb 0 s.emulation.spec_call_depth) ≡ false
      → (f.at_addr == 0) ≡ false
      → IsSpeculating c s
      → Leaves BackAt (kspecem_restart k again f 0 type ret_addr call_arg 0 0 s)
  restart-BackAt type ret_addr call_arg s not_return local v =
      Leaves-mono
        (IsRolledBack c.memory f s.stack s.registers s.undolog.writelog_addrs
          s.undolog.writelog_data)
        BackAt (kspecem_restart k again f 0 type ret_addr call_arg 0 0 s)
        (λ t h.
          subst (λ x. IsRolledBack c.memory f x c.registers c.addrs c.regions t) v.same_frame
            (subst (λ r. IsRolledBack c.memory f s.stack r c.addrs c.regions t) v.same_registers
              (subst (λ n. IsRolledBack c.memory f s.stack s.registers n c.regions t) v.addrs_at
                (subst
                  (λ n. IsRolledBack c.memory f s.stack s.registers s.undolog.writelog_addrs n t)
                  v.regions_at h))))
        (restart-IsRolledBack k again f c.memory type ret_addr call_arg s v.emulates not_return
          local v.undoable)

  pub write_wl_aligned-Wrote :
      (addr ret_addr : ℕ) (s : State)
      → (f.at_addr == 0) ≡ false
      → Loggable k c addr
      → IsSpeculating c s
      → Continues (Wrote addr s) BackAt (write_wl_aligned k again f addr ret_addr s)
  unfolding write_wl_aligned lt_assert
  write_wl_aligned-Wrote addr ret_addr s local l v =
      elim (Bool-cases (leb writelog_slots s.undolog.wl_position)) [
        | inl full ↦
            simp
              (
                v.emulates, v.enabled, v.addrs_at, v.regions_at, v.addrs_present, v.regions_present,
                full,
              )
              (Continues-bind (λ _ _. ⊥) (Wrote addr s) BackAt _ _
                (Leaves-Continues (λ _ _. ⊥) BackAt
                  (kspecem_restart k again f 0 RestartType.writelog_full ret_addr 0 0 0 s) _
                  (restart-BackAt RestartType.writelog_full ret_addr 0 s refl local v))
                (λ a t h. absurd h))
        | inr room ↦
            simp
              (
                v.emulates,
                v.enabled,
                v.addrs_at,
                v.regions_at,
                v.addrs_present,
                v.regions_present,
                room,
                below_slots s.undolog.wl_position room,
                l.outside_addrs,
                l.outside_regions,
                l.not_own,
                slot_present c.addrs s.undolog.wl_position v.addrs_present,
              )
              (push_entry-Wrote addr ret_addr s l v
                (ltb→lt _ _ (below_slots s.undolog.wl_position room)))
      ]
