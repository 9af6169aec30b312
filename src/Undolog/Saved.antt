-- ===== src/Undolog/Saved.antt =====
-- The undo log seen byte by byte: what the log keeps for an address, and that the walk of
-- kspecem_restore_writelog writes just that back.
use kasper.Prelude.{
  ℕ, zero, suc, ◌-◌, ◌%◌, ◌<◌, ◌≡◌, refl, ap, sym, ◌∙◌, inl, inr, Bool, true, false, arith, ◌==◌,
  Bool-cases, if◌then◌else◌, align_down, ==→eq,
}
use native.Mathlib.Decide.{dec_lt}
use kasper.Machine.{State, Act, ok, write_bytes}
use kasper.Machine.Kernel.{Kernel, Frame}
use kasper.Machine.Types.{Undolog}
use kasper.Undolog.{restore_writelog}
use kasper.Assert.Within.{IsRestarting}
use kasper.Undolog.Restore.{restore_writelog_lem, is_guarded, undo_entry, undo}

-- The byte at `a` after the newest `n` entries are undone, if it is `d` now.
unfoldable pub saved : ℕ → Undolog → (a d : ℕ) → ℕ
saved zero u a d = d
saved (suc n) u a d =
    saved n u a (if u.addr_slots n == align_down 8 a then u.regions n (a - align_down 8 a) else d)

write_bytes-aligned :
    (mem region : ℕ → ℕ) (addr a : ℕ)
    → addr % 8 ≡ 0
    → write_bytes mem addr 8 region a
      ≡ (if addr == align_down 8 a then region (a - align_down 8 a) else mem a)
write_bytes-aligned mem region addr a h = elim (Bool-cases (addr == align_down 8 a)) [
  | inl e ↦ ground arith
  | inr e ↦ ground arith
]

-- `g` guards the byte's word, `g'` the entry's, and `e` says that they are one.
one_word :
    (g g' e : Bool) (x y : ℕ) (rest : ℕ → ℕ)
    → (e ≡ true → g' ≡ g)
    → (if g
        then (if g' then x else if e then y else x)
        else rest (if g' then x else if e then y else x))
      ≡ (if g then x else rest (if e then y else x))
one_word true true e x y rest same = refl
one_word true false true x y rest same = cc (same refl)
one_word true false false x y rest same = refl
one_word false true true x y rest same = cc (same refl)
one_word false true false x y rest same = refl
one_word false false e x y rest same = refl

module _ (f : Frame) (frameaddr regs : ℕ) where
  undo_entry-byte :
      (addr : ℕ) (region mem : ℕ → ℕ) (a : ℕ)
      → addr % 8 ≡ 0
      → undo_entry f frameaddr regs addr region mem a ≡ (
          if is_guarded f frameaddr regs addr
          then mem a
          else if addr == align_down 8 a
          then region (a - align_down 8 a)
          else mem a)
  unfolding undo_entry
  undo_entry-byte addr region mem a h = elim (Bool-cases (is_guarded f frameaddr regs addr)) [
    | inl e ↦ rw e
    | inr e ↦ rw e (write_bytes-aligned mem region addr a h)
  ]

  -- Where no slot below `n` holds an address inside a word, undoing the newest `n` entries
  -- leaves a byte of a guarded word alone and makes any other byte what the log keeps for it.
  pub undo-saved :
      (n : ℕ) (u : Undolog) (mem : ℕ → ℕ) (a : ℕ)
      → ((j : ℕ) → j < n → u.addr_slots j % 8 ≡ 0)
      → undo f frameaddr regs n u mem a
        ≡ (if is_guarded f frameaddr regs (align_down 8 a) then mem a else saved n u a (mem a))
  unfolding undo saved
  undo-saved zero u mem a aligned = ground arith
  undo-saved (suc n) u mem a aligned =
      undo-saved n u (undo_entry f frameaddr regs (u.addr_slots n) (u.regions n) mem) a
        (λ j lt. aligned j (omega arith))
      ∙ rw (undo_entry-byte (u.addr_slots n) (u.regions n) mem a (aligned n (omega arith))) (
          one_word _ _ _ (mem a) _ (saved n u a)
            (λ e. ap (is_guarded f frameaddr regs) (==→eq (u.addr_slots n) (align_down 8 a) e)))

module _ (u : Undolog) (a : ℕ) where
  -- No slot below `n` holds the byte's word.
  abbrev pub AbsentBelow : ℕ → Type 0
  AbsentBelow n = (i : ℕ) → i < n → (u.addr_slots i == align_down 8 a) ≡ false

  saved-absent : (n d : ℕ) → AbsentBelow n → saved n u a d ≡ d
  unfolding saved
  saved-absent zero d absent = refl
  saved-absent (suc n) d absent =
      rw (absent n (omega arith)) (saved-absent n d (λ i lt. absent i (omega arith)))

  saved-oldest :
      (n j d : ℕ)
      → j < n
      → (u.addr_slots j == align_down 8 a) ≡ true
      → AbsentBelow j
      → saved n u a d ≡ u.regions j (a - align_down 8 a)
  unfolding saved
  saved-oldest zero j d lt here absent = absurd (omega arith)
  saved-oldest (suc n) j d lt here absent = elim (dec_lt j n) [
    | yes below ↦ saved-oldest n j _ below here absent
    | no above ↦
        ap
          (λ m.
            saved n u a
              (if u.addr_slots m == align_down 8 a then u.regions m (a - align_down 8 a) else d))
          (sym (same j n lt above))
        ∙ rw here
            (saved-absent n (u.regions j (a - align_down 8 a)) (λ i below. absent i (omega arith)))
  ]
    where
      same : (j n : ℕ) → j < suc n → ¬ (j < n) → j ≡ n
      same j n lt above = omega arith

-- In a restart, and if the local `addr` has an address, the walk of a log whose slots hold words
-- returns 0 and empties the log. A byte of a guarded word is left alone; any other byte becomes what
-- the oldest entry of its word saved, or stays as it is if the log has no entry of its word.
pub restore_writelog-oldest :
    (k : Kernel) (again : Act) (f : Frame) (frameaddr regs : ℕ) (s : State)
    → IsRestarting s
    → (f.at_addr == 0) ≡ false
    → ((j : ℕ) → j < s.undolog.wl_position → s.undolog.addr_slots j % 8 ≡ 0)
    → (t : State) × (restore_writelog k again f frameaddr regs s ≡ ok 0 t)
      × (t.undolog.wl_position ≡ 0)
      × ((a : ℕ) → is_guarded f frameaddr regs (align_down 8 a) ≡ true → t.mem a ≡ s.mem a)
      × ((a j : ℕ)
          → is_guarded f frameaddr regs (align_down 8 a) ≡ false
          → j < s.undolog.wl_position
          → (s.undolog.addr_slots j == align_down 8 a) ≡ true
          → AbsentBelow s.undolog a j
          → t.mem a ≡ s.undolog.regions j (a - align_down 8 a))
      × ((a : ℕ) → AbsentBelow s.undolog a s.undolog.wl_position → t.mem a ≡ s.mem a)
restore_writelog-oldest k again f frameaddr regs s r local words =
    let n = s.undolog.wl_position in
    let (x, e, fine) = restore_writelog_lem k again f frameaddr regs s r local in
    let byte = λ (a : ℕ). undo-saved f frameaddr regs n s.undolog s.mem a words in
    (
      _,
      e,
      refl,
      (λ a g. byte a ∙ rw g refl),
      (λ a j g lt here absent.
          byte a ∙ rw g (saved-oldest s.undolog a n j (s.mem a) lt here absent)),
      (λ a absent. byte a ∙ either a absent (is_guarded f frameaddr regs (align_down 8 a))),
    )
  where
    either :
        (a : ℕ)
        → AbsentBelow s.undolog a s.undolog.wl_position
        → (g : Bool)
        → (if g then s.mem a else saved s.undolog.wl_position s.undolog a (s.mem a)) ≡ s.mem a
    either a absent true = refl
    either a absent false = saved-absent s.undolog a s.undolog.wl_position (s.mem a) absent
