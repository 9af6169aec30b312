-- ===== src/Undolog/Restore.antt =====
-- kspecem_restore_writelog during a restart: what the loop does to the memory and to the log.
use kasper.Prelude.{
  ℕ, zero, suc, ◌+◌, ◌≡◌, refl, ap, ◌∙◌, ◌<◌, inl, inr, Bool, true, false, not, ◌||◌, Option, arith,
  ltb, leb, ◌==◌, Bool-cases, if◌then◌else◌, eq→==,
}
use kasper.Machine.{State, Act, ok, write_bytes, ◌>>◌, modify, read, pure}
use kasper.Machine.Kernel.{Kernel, Frame}
use kasper.Machine.Types.{SpecAssert, Undolog, File, undolog_c}
use kasper.Assert.{lt_assert}
use kasper.Assert.Within.{noted, verdict, IsRestarting, lt_assert-noted}
use kasper.Undolog.{
  can_restore, on_running_stack, in_regs, restore_region, restore_entry, set_position, restore_loop,
  restore_writelog,
}

abbrev Bytes : Type 0
Bytes = ℕ → ℕ

-- `m` returns with the memory changed by `g`; no assertion fails where the log satisfies `P`.
record Does (P : Undolog → Type 0) (g : Bytes → Bytes) (m : Act) : Type 0 where
  run :
      (s : State)
      → IsRestarting s
      → (x : Option SpecAssert) × (m s ≡ ok tt (record s { mem = g s.mem; spec_assert = x }))
        × (P s.undolog → x ≡ s.spec_assert)

Does-lt_assert :
    (again : Act) (file : File) (line : ℕ) (b : Bool)
    → Does (λ _. b ≡ true) (λ m. m) (lt_assert again file line b)
Does-lt_assert again file line b = record {
  run =
      λ s r. (verdict file line b s.spec_assert, lt_assert-noted again file line b s r, λ e. rw e);
}

Does-skip : {P : Undolog → Type 0} → Does P (λ m. m) (pure tt)
Does-skip = record { run = λ s r. (s.spec_assert, refl, λ _. refl) }

Does-write :
    {P : Undolog → Type 0} (g : Bytes → Bytes) → Does P g (modify λ s. record s { mem = g s.mem })
Does-write g = record { run = λ s r. (s.spec_assert, refl, λ _. refl) }

Does-seq :
    {P Q : Undolog → Type 0} {g h : Bytes → Bytes} {m n : Act}
    → Does P g m
    → Does Q h n
    → Does (λ u. P u × Q u) (λ mem. h (g mem)) (m >> n)
Does-seq {g} dm dn = record {
  run = λ s r.
      let (x, e, fine) = dm.run s r in
      let (y, e', fine') =
        dn.run (record s { mem = g s.mem; spec_assert = x })
          (record { emulates = r.emulates; restarts = r.restarts }) in
      (y, rw e e', λ p. fine' p.1 ∙ fine p.0);
}

Does-mono :
    {P Q : Undolog → Type 0} {g h : Bytes → Bytes} {m : Act}
    → Does P g m
    → ((u : Undolog) → Q u → P u)
    → ((mem : Bytes) → h mem ≡ g mem)
    → Does Q h m
Does-mono d weaken same = record {
  run =
      λ s r. let (x, e, fine) = d.run s r in (x, rw (same s.mem) e, λ q. fine (weaken s.undolog q));
}

-- The check of line 150 reads the log.
Does-can_restore :
    (k : Kernel) (again : Act) (file : File) (line addr : ℕ)
    → Does
        (λ u. can_restore k u addr ≡ true)
        (λ m. m)
        (read (λ s. can_restore k s.undolog addr) (λ b. lt_assert again file line b))
Does-can_restore k again file line addr = record {
  run = λ s r. (Does-lt_assert again file line (can_restore k s.undolog addr)).run s r;
}

-- The addresses that the restart leaves alone.
unfoldable pub is_guarded : Frame → (frameaddr regs addr : ℕ) → Bool
unfolding on_running_stack in_regs
is_guarded f frameaddr regs addr = on_running_stack f frameaddr addr || in_regs regs addr

-- A word that the loop can write back: no assertion of lines 150 to 155 fails.
pub record Restorable (k : Kernel) (f : Frame) (u : Undolog) (addr : ℕ) : Type 0 where
  pub free_of_log : can_restore k u addr ≡ true
  pub not_i : (f.at_i == addr) ≡ false
  pub not_num_entries : (f.at_num_entries == addr) ≡ false
  pub not_null : (addr == 0) ≡ false

module _ (f : Frame) (frameaddr regs : ℕ) where
  -- The memory after one entry, and after the newest `n` entries from the newest on.
  unfoldable pub undo_entry : (addr : ℕ) (region : ℕ → ℕ) → (ℕ → ℕ) → ℕ → ℕ
  unfolding is_guarded
  undo_entry addr region mem =
      if is_guarded f frameaddr regs addr then mem else write_bytes mem addr 8 region

  unfoldable pub undo : (n : ℕ) → Undolog → (ℕ → ℕ) → ℕ → ℕ
  unfolding undo_entry
  undo zero u mem = mem
  undo (suc n) u mem = undo n u (undo_entry (u.addr_slots n) (u.regions n) mem)

  undo_entry_stack :
      (addr : ℕ) (region mem : ℕ → ℕ)
      → on_running_stack f frameaddr addr ≡ true
      → undo_entry addr region mem ≡ mem
  unfolding undo_entry
  undo_entry_stack addr region mem e = rw e

  -- What the loop reads of the log does not depend on the position.
  undo-position :
      (n p : ℕ) (u : Undolog) (mem : ℕ → ℕ)
      → undo n (record u { wl_position = p }) mem ≡ undo n u mem
  unfolding undo
  undo-position zero p u mem = refl
  undo-position (suc n) p u mem =
      undo-position n p u (undo_entry (u.addr_slots n) (u.regions n) mem)

module _ (k : Kernel) (again : Act) (f : Frame) (frameaddr regs : ℕ) where
  outside_stack :
      (addr : ℕ)
      → on_running_stack f frameaddr addr ≡ false
      → (leb addr f.rsp || ltb frameaddr addr) ≡ true
  unfolding on_running_stack
  outside_stack addr off = ground arith

  Does-restore_region :
      (addr : ℕ) (region : ℕ → ℕ)
      → on_running_stack f frameaddr addr ≡ false
      → Does
          (λ u. is_guarded f frameaddr regs addr ≡ false → Restorable k f u addr)
          (undo_entry f frameaddr regs addr region)
          (restore_region k again f frameaddr regs addr region)
  unfolding restore_region undo_entry
  Does-restore_region addr region off = elim (Bool-cases (in_regs regs addr)) [
    | inl e ↦
        rw (off, e)
          (Does-mono (Does-seq (Does-lt_assert again _ _ _) (Does-skip {P = λ _. Unit {0}}))
            (λ u h. (outside_stack addr off, tt)) (λ mem. rw (off, e, is_guarded)))
    | inr e ↦
        rw (off, e)
          (Does-mono
            (Does-seq (Does-lt_assert again _ _ _) (
              Does-seq (Does-can_restore k again _ _ addr) (
                Does-seq (Does-lt_assert again _ _ _) (
                  Does-seq (Does-lt_assert again _ _ _) (
                    Does-seq (Does-write {P = λ _. Unit {0}} λ mem. write_bytes mem addr 8 region)
                      (Does-lt_assert again _ _ _))))))
            (λ u h.
              let q = h refl in
              (
                outside_stack addr off,
                (
                  q.free_of_log,
                  (ap not q.not_i, (ap not q.not_num_entries, (tt, ap not q.not_null))),
                ),
              ))
            (λ mem. rw (off, e, is_guarded)))
  ]

  -- Entry `n`, once restored, fails no assertion.
  abbrev pub EntryRestorable : Undolog → ℕ → Type 0
  EntryRestorable u n =
      is_guarded f frameaddr regs (u.addr_slots n) ≡ false → Restorable k f u (u.addr_slots n)

  restore_entry_lem :
      (n : ℕ) (s : State)
      → IsRestarting s
      → (x : Option SpecAssert) × (restore_entry k again f frameaddr regs n s
          ≡ ok tt (record s {
            mem = undo_entry f frameaddr regs (s.undolog.addr_slots n) (s.undolog.regions n) s.mem;
            spec_assert = x;
          }))
        × (EntryRestorable s.undolog n → x ≡ s.spec_assert)
  unfolding restore_entry
  restore_entry_lem n s r =
      elim (Bool-cases (on_running_stack f frameaddr (s.undolog.addr_slots n))) [
        | inl e ↦ (
          s.spec_assert,
          rw (
            e,
            undo_entry_stack f frameaddr regs (s.undolog.addr_slots n) (s.undolog.regions n) s.mem
                e,
          ),
          λ _. refl,
        )
        | inr e ↦
            let (x, q, fine) =
              (Does-restore_region (s.undolog.addr_slots n) (s.undolog.regions n) e).run s r in
            (x, rw e q, fine)
      ]

  Restorable-position :
      (p : ℕ) {u : Undolog} {addr : ℕ}
      → Restorable k f u addr
      → Restorable k f (record u { wl_position = p }) addr
  unfolding can_restore
  Restorable-position p q = record {
    free_of_log = q.free_of_log;
    not_i = q.not_i;
    not_num_entries = q.not_num_entries;
    not_null = q.not_null;
  }

  -- The loop with `n` entries left: it returns 0, with all of them undone and the log empty.
  restore_loop_lem :
      (n i num_entries : ℕ) (s : State)
      → IsRestarting s
      → (f.at_addr == 0) ≡ false
      → s.undolog.wl_position ≡ n
      → i + n ≡ num_entries
      → (x : Option SpecAssert) × (restore_loop k again f frameaddr regs n i num_entries s
          ≡ ok 0 (record s {
            mem = undo f frameaddr regs n s.undolog s.mem;
            undolog = record s.undolog { wl_position = 0 };
            spec_assert = x;
          }))
        × (((j : ℕ) → j < n → EntryRestorable s.undolog j) → x ≡ s.spec_assert)
  unfolding restore_loop undo set_position lt_assert
  restore_loop_lem zero i num_entries s r local pos count = (
    s.spec_assert,
    rw (eq→== i num_entries (omega arith), eq→== s.undolog.wl_position 0 pos)
        (ap (λ p. ok 0 (record s { undolog = record s.undolog { wl_position = p } })) pos),
    λ _. refl,
  )
  restore_loop_lem (suc n) i num_entries s r local pos count =
      let s1 = record s { undolog = record s.undolog { wl_position = n } } in
      let (x, e, fine) =
        restore_entry_lem n s1 (record { emulates = r.emulates; restarts = r.restarts }) in
      let s2 = record s1 {
        mem = undo_entry f frameaddr regs (s.undolog.addr_slots n) (s.undolog.regions n) s.mem;
        spec_assert = x;
      } in
      let (y, e', fine') =
        restore_loop_lem n (i + 1) num_entries s2
          (record { emulates = r.emulates; restarts = r.restarts }) local refl (omega arith) in
      (
        y,
        rw (local, e)
            (e'
              ∙ ap
                  (λ m. ok 0 (record s {
                    mem = m;
                    undolog = record s.undolog { wl_position = 0 };
                    spec_assert = y;
                  }))
                  (undo-position f frameaddr regs n n s.undolog (
                    undo_entry f frameaddr regs (s.undolog.addr_slots n) (s.undolog.regions n)
                      s.mem))),
        λ all.
            fine' (λ j lt h. Restorable-position n (all j (omega arith) h))
            ∙ fine (λ h. Restorable-position n (all n (omega arith) h)),
      )

  -- In a restart, and if the local `addr` has an address, the walk of the log returns 0 for a
  -- log of any length, with every entry undone from the newest on and the log empty. It
  -- records no failed assertion if the stack pointer is not NULL and every entry that is not
  -- guarded may be restored.
  pub restore_writelog_lem :
      (s : State)
      → IsRestarting s
      → (f.at_addr == 0) ≡ false
      → (x : Option SpecAssert) × (restore_writelog k again f frameaddr regs s
          ≡ ok 0 (record s {
            mem = undo f frameaddr regs s.undolog.wl_position s.undolog s.mem;
            undolog = record s.undolog { wl_position = 0 };
            spec_assert = x;
          }))
        × ((f.rsp == 0) ≡ false
            → ((j : ℕ) → j < s.undolog.wl_position → EntryRestorable s.undolog j)
            → x ≡ s.spec_assert)
  unfolding restore_writelog
  restore_writelog_lem s r local =
      let b : Bool = not (f.rsp == 0) in
      let x0 = verdict undolog_c 125 b s.spec_assert in
      let (x, e, fine) =
        restore_loop_lem s.undolog.wl_position 0 s.undolog.wl_position (noted x0 s)
          (record { emulates = r.emulates; restarts = r.restarts }) local refl (omega arith) in
      (x, rw (lt_assert-noted again undolog_c 125 b s r) e, λ rsp all. fine all ∙ rw rsp)
