-- ===== src/Store/Logged.antt =====
-- write_wl (kspecem_undolog.c) keeps a speculation undoable.
use kasper.Prelude.{
  ℕ, zero, suc, ◌+◌, ◌-◌, ◌%◌, ◌<◌, ◌≡◌, refl, ◌∙◌, ap, ◌⊎◌, inl, inr, Bool, true, false, ◌||◌,
  arith, ◌==◌, update, Bool-cases, align_down, wrap64, eq→==, ne→==, ==→eq,
}
use kasper.Machine.{State, read_bytes}
use kasper.Machine.Types.{Undolog}
use kasper.Undolog.Saved.{saved}
use kasper.Internal.Rollback.{IsUndoable}
use kasper.Store.{writelog_slots, push_entry}

-- Some slot below `n` holds the word of `a`.
unfoldable pub is_logged : ℕ → Undolog → ℕ → Bool
is_logged zero u a = false
is_logged (suc n) u a = u.addr_slots n == align_down 8 a || is_logged n u a

-- What the log keeps for a logged byte does not depend on the byte's value now.
pub saved-is_logged :
    (n : ℕ) (u : Undolog) (a d d' : ℕ) → is_logged n u a ≡ true → saved n u a d ≡ saved n u a d'
unfolding saved is_logged
saved-is_logged zero u a d d' h = cc
saved-is_logged (suc n) u a d d' h = elim (Bool-cases (u.addr_slots n == align_down 8 a)) [
  | inl e ↦ rw e
  | inr e ↦ rw e (saved-is_logged n u a d d' (rw e at h))
]

-- Slots from `n` on do not matter.
saved-congr :
    (n : ℕ) (u v : Undolog) (a d : ℕ)
    → ((j : ℕ) → j < n → (v.addr_slots j ≡ u.addr_slots j) × (v.regions j ≡ u.regions j))
    → saved n v a d ≡ saved n u a d
unfolding saved
saved-congr zero u v a d same = refl
saved-congr (suc n) u v a d same =
    let (e, e') = same n (omega arith) in
    rw (e, e') (saved-congr n u v a _ (λ j lt. same j (omega arith)))

is_logged-congr :
    (n : ℕ) (u v : Undolog) (a : ℕ)
    → ((j : ℕ) → j < n → v.addr_slots j ≡ u.addr_slots j)
    → is_logged n v a ≡ is_logged n u a
unfolding is_logged
is_logged-congr zero u v a same = refl
is_logged-congr (suc n) u v a same =
    rw (same n (omega arith), is_logged-congr n u v a (λ j lt. same j (omega arith)))

no_wrap : (n : ℕ) → n < writelog_slots → wrap64 (n + 1) ≡ suc n
no_wrap n h = omega arith

in_word : (addr a : ℕ) → (addr == align_down 8 a) ≡ true → addr + (a - align_down 8 a) ≡ a
in_word addr a e = omega (arith, ==→eq addr (align_down 8 a) e)

module _ (m0 : ℕ → ℕ) (addr ret_addr : ℕ) (s : State)
    (room : s.undolog.wl_position < writelog_slots) where
  abbrev pub pushed : Undolog
  pushed = record s.undolog {
    addr_slots = update s.undolog.addr_slots s.undolog.wl_position addr;
    regions = update s.undolog.regions s.undolog.wl_position (read_bytes s.mem addr);
    meta_slots = update s.undolog.meta_slots s.undolog.wl_position ret_addr;
    wl_position = suc s.undolog.wl_position;
  }

  pub push_entry-pushed : push_entry addr ret_addr s ≡ record s { undolog = pushed }
  unfolding push_entry
  push_entry-pushed =
      ap (λ p. record s { undolog = record pushed { wl_position = p } })
        (no_wrap s.undolog.wl_position room)

  below :
      (j : ℕ)
      → j < s.undolog.wl_position
      → (pushed.addr_slots j ≡ s.undolog.addr_slots j) × (pushed.regions j ≡ s.undolog.regions j)
  below j lt = rw (ne→== j s.undolog.wl_position (omega arith)) (refl, refl)

  pub pushed-IsUndoable :
      addr % 8 ≡ 0 → IsUndoable m0 s.undolog s.stack s.mem → IsUndoable m0 pushed s.stack s.mem
  unfolding saved
  pushed-IsUndoable al u = record {
    aligned = λ j lt. old_or_new j lt (Bool-cases (j == s.undolog.wl_position));
    undoes = λ a. byte a (Bool-cases (addr == align_down 8 a));
    frame_saved = u.frame_saved;
  }
    where
      old_or_new :
          (j : ℕ)
          → j < suc s.undolog.wl_position
          → ((j == s.undolog.wl_position) ≡ true) ⊎ ((j == s.undolog.wl_position) ≡ false)
          → pushed.addr_slots j % 8 ≡ 0
      old_or_new j lt (inl e) = rw e al
      old_or_new j lt (inr e) = rw e (u.aligned j (ground arith))

      byte :
          (a : ℕ)
          → ((addr == align_down 8 a) ≡ true) ⊎ ((addr == align_down 8 a) ≡ false)
          → saved (suc s.undolog.wl_position) pushed a (s.mem a) ≡ m0 a
      byte a (inl e) =
          rw (eq→== s.undolog.wl_position s.undolog.wl_position refl, e, in_word addr a e)
            (saved-congr s.undolog.wl_position s.undolog pushed a (s.mem a) below ∙ u.undoes a)
      byte a (inr e) =
          rw (eq→== s.undolog.wl_position s.undolog.wl_position refl, e)
            (saved-congr s.undolog.wl_position s.undolog pushed a (s.mem a) below ∙ u.undoes a)

  pub pushed-is_logged :
      (a : ℕ)
      → (addr == align_down 8 a || is_logged s.undolog.wl_position s.undolog a) ≡ true
      → is_logged (suc s.undolog.wl_position) pushed a ≡ true
  unfolding is_logged
  pushed-is_logged a h =
      rw
        (
          eq→== s.undolog.wl_position s.undolog.wl_position refl,
          is_logged-congr s.undolog.wl_position s.undolog pushed a (λ j lt. (below j lt).0),
        )
        h
