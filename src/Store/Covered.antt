-- ===== src/Store/Covered.antt =====
-- What kspecem_store and kspecem_memcpy (kspecem_undolog.c) put into the log: every byte that the
-- program is about to write.
use kasper.Prelude.{
  ℕ, zero, suc, ◌+◌, ◌*◌, ◌≤◌, ◌<◌, ◌≡◌, refl, ◌∙◌, ap, ◌⊎◌, inl, inr, true, false, arith, ltb,
  ◌==◌, Bool-cases, align_down, ltb→lt, subst, wrap64, ◌^◌,
}
use kasper.Machine.{State, Act, Out, ok, resumed, panicked, reentered}
use native.Mathlib.Decide.{dec_lt}
use kasper.Machine.Kernel.{Kernel, Frame}
use kasper.Store.{write_wl_aligned, write_wl, kspecem_store, memcpy_loop, kspecem_memcpy}
use kasper.Store.Logged.{is_logged}
use kasper.Store.Speculating.{
  Checkpoint, IsSpeculating, Loggable, LogsMore, Continues, Continues-bind, BackAt, Wrote,
  write_wl_aligned-Wrote,
}

pub Continues-mono :
    {A : Type 0} (P P' : A → State → Type 0) (Q : State → Type 0) (o : Out A)
    → Continues P Q o
    → ((a : A) (s : State) → P a s → P' a s)
    → Continues P' Q o
Continues-mono P P' Q (ok a s) h weaken = weaken a s h
Continues-mono P P' Q (resumed s) h weaken = h
Continues-mono P P' Q (panicked site s) h weaken = h
Continues-mono P P' Q (reentered s) h weaken = absurd h

-- The words of the bytes in `[from, to)` may be logged.
abbrev pub Writable : Kernel → Checkpoint → (from to : ℕ) → Type 0
Writable k c from to = (a : ℕ) → from ≤ a → a < to → Loggable k c (align_down 8 a)

-- `t` is `s` with more of the log filled, every byte in `[from, to)` included.
pub record Covers (c : Checkpoint) (from to : ℕ) (s t : State) : Type 0 where
  pub speculating : IsSpeculating c t
  pub more : LogsMore s t
  pub covered : (a : ℕ) → from ≤ a → a < to → is_logged t.undolog.wl_position t.undolog a ≡ true

LogsMore-refl : (s : State) → LogsMore s s
LogsMore-refl s = record { same = refl; kept = λ a h. h }

LogsMore-trans : {s t u : State} → LogsMore s t → LogsMore t u → LogsMore s u
LogsMore-trans {u} l l' = record {
  same = l'.same ∙ ap (λ (x : State). record x { undolog = u.undolog }) l.same;
  kept = λ a h. l'.kept a (l.kept a h);
}

-- The word of a byte among the eight from `addr` on.
word_of_byte :
    (addr a : ℕ)
    → addr ≤ a
    → a < addr + 8
    → ((align_down 8 addr == align_down 8 a) ≡ true)
      ⊎ ((align_down 8 addr + 8 == align_down 8 a) ≡ true) × ((addr == align_down 8 addr) ≡ false)
word_of_byte addr a lo hi = elim (Bool-cases (align_down 8 addr == align_down 8 a)) [
  | inl e ↦ inl e
  | inr e ↦ inr (ground arith, ground arith)
]

second_word :
    (addr : ℕ)
    → (addr == align_down 8 addr) ≡ false
    → align_down 8 (addr + 7) ≡ align_down 8 addr + 8
second_word addr h = ground arith

-- Writable bytes do not reach the end of the address space.
below_top :
    {k : Kernel} {c : Checkpoint} {from to : ℕ} (a : ℕ)
    → Writable k c from to
    → from ≤ a
    → a < to
    → a < 2 ^ 64
below_top a w lo hi = omega (arith, (w a lo hi).not_last)

in_machine : (n : ℕ) → n < 2 ^ 64 → wrap64 n ≡ n
in_machine n lt = omega arith

module _ (k : Kernel) (again : Act) (f : Frame) (c : Checkpoint)
    (local : (f.at_addr == 0) ≡ false) where
  pub write_wl-Covers :
      (addr ret_addr : ℕ) (s : State)
      → Writable k c addr (addr + 8)
      → IsSpeculating c s
      → Continues
          (λ _. Covers c addr (addr + 8) s)
          (BackAt k again f c)
          (write_wl k again f addr ret_addr s)
  unfolding write_wl
  write_wl-Covers addr ret_addr s w v = elim (Bool-cases (addr == align_down 8 addr)) [
    | inl e ↦ rw e (
        Continues-mono (Wrote k again f c (align_down 8 addr) s) (λ _. Covers c addr (addr + 8) s)
          (BackAt k again f c) (write_wl_aligned k again f (align_down 8 addr) ret_addr s)
          (write_wl_aligned-Wrote k again f c (align_down 8 addr) ret_addr s local
            (w addr (omega arith) (omega arith)) v)
          (λ _ t (v', l, new). record {
            speculating = v';
            more = l;
            covered = λ a lo hi. new a (one_word a lo hi e (word_of_byte addr a lo hi));
          }))
    | inr e ↦
        rw (e, in_machine (align_down 8 addr + 8) (second_bound addr w e))
          (Continues-bind (Wrote k again f c (align_down 8 addr + 8) s)
            (λ _. Covers c addr (addr + 8) s) (BackAt k again f c)
            (write_wl_aligned k again f (align_down 8 addr + 8) ret_addr s)
            (λ _. write_wl_aligned k again f (align_down 8 addr) ret_addr)
            (write_wl_aligned-Wrote k again f c (align_down 8 addr + 8) ret_addr s local
              (subst (Loggable k c) (second_word addr e) (w (addr + 7) (omega arith) (omega arith)))
              v)
            (λ _ t (v', l, new).
              Continues-mono (Wrote k again f c (align_down 8 addr) t)
                (λ _. Covers c addr (addr + 8) s) (BackAt k again f c)
                (write_wl_aligned k again f (align_down 8 addr) ret_addr t)
                (write_wl_aligned-Wrote k again f c (align_down 8 addr) ret_addr t local
                  (w addr (omega arith) (omega arith)) v')
                (λ _ u (v'', l', new'). record {
                  speculating = v'';
                  more = LogsMore-trans l l';
                  covered = λ a lo hi.
                      two_words u a (word_of_byte addr a lo hi) (new' a) (λ h. l'.kept a (new a h));
                })))
  ]
    where
      second_bound :
          (addr : ℕ)
          → Writable k c addr (addr + 8)
          → (addr == align_down 8 addr) ≡ false
          → align_down 8 addr + 8 < 2 ^ 64
      second_bound addr w e =
          omega (arith, (w (addr + 7) (omega arith) (omega arith)).not_last, second_word addr e)

      one_word :
          (a : ℕ)
          → addr ≤ a
          → a < addr + 8
          → (addr == align_down 8 addr) ≡ true
          → ((align_down 8 addr == align_down 8 a) ≡ true)
            ⊎ ((align_down 8 addr + 8 == align_down 8 a) ≡ true)
              × ((addr == align_down 8 addr) ≡ false)
          → (align_down 8 addr == align_down 8 a) ≡ true
      one_word a lo hi e (inl h) = h
      one_word a lo hi e (inr (h, n)) = cc

      two_words :
          (u : State) (a : ℕ)
          → ((align_down 8 addr == align_down 8 a) ≡ true)
            ⊎ ((align_down 8 addr + 8 == align_down 8 a) ≡ true)
              × ((addr == align_down 8 addr) ≡ false)
          → ((align_down 8 addr == align_down 8 a) ≡ true
              → is_logged u.undolog.wl_position u.undolog a ≡ true)
          → ((align_down 8 addr + 8 == align_down 8 a) ≡ true
              → is_logged u.undolog.wl_position u.undolog a ≡ true)
          → is_logged u.undolog.wl_position u.undolog a ≡ true
      two_words u a (inl h) first second = first h
      two_words u a (inr (h, n)) first second = second h

  pub kspecem_store-Covers :
      (addr : ℕ) (s : State)
      → Writable k c addr (addr + 8)
      → IsSpeculating c s
      → Continues
          (λ _. Covers c addr (addr + 8) s)
          (BackAt k again f c)
          (kspecem_store k again f addr s)
  unfolding kspecem_store
  kspecem_store-Covers addr s w v = write_wl-Covers addr f.return_address s w v

  memcpy_loop-Covers :
      (rounds reg end' : ℕ) (s : State)
      → Writable k c reg (end' + 8)
      → end' ≤ reg + 8 * rounds
      → IsSpeculating c s
      → Continues
          (λ _. Covers c reg end' s)
          (BackAt k again f c)
          (memcpy_loop k again f rounds reg end' s)
  unfolding memcpy_loop
  memcpy_loop-Covers zero reg end' s w enough v = record {
    speculating = v;
    more = LogsMore-refl s;
    covered = λ a lo hi. absurd (omega arith);
  }
  memcpy_loop-Covers (suc rounds) reg end' s w enough v = elim (Bool-cases (ltb reg end')) [
    | inl e ↦
        rw (e, in_machine (reg + 8) (next (ltb→lt reg end' e)))
          (Continues-bind (λ _. Covers c reg (reg + 8) s) (λ _. Covers c reg end' s)
            (BackAt k again f c) (write_wl k again f reg f.return_address s)
            (λ _. memcpy_loop k again f rounds (reg + 8) end')
            (write_wl-Covers reg f.return_address s
              (λ a lo hi. w a lo (omega (arith, ltb→lt reg end' e))) v)
            (λ _ t p.
              Continues-mono (λ _. Covers c (reg + 8) end' t) (λ _. Covers c reg end' s)
                (BackAt k again f c) (memcpy_loop k again f rounds (reg + 8) end' t)
                (memcpy_loop-Covers rounds (reg + 8) end' t (λ a lo hi. w a (omega arith) hi)
                  (omega arith) p.speculating)
                (λ _ u q. record {
                  speculating = q.speculating;
                  more = LogsMore-trans p.more q.more;
                  covered = λ a lo hi.
                      split a (λ h. q.more.kept a (p.covered a lo h)) (λ h. q.covered a h hi);
                })))
    | inr e ↦ rw e (record {
      speculating = v;
      more = LogsMore-refl s;
      covered = λ a lo hi. absurd (ground arith);
    })
  ]
    where
      next : reg < end' → reg + 8 < 2 ^ 64
      next lt = omega (arith, lt, below_top (end' + 7) w (omega (arith, lt)) (omega arith))

      split : {P : Type 0} (a : ℕ) → (a < reg + 8 → P) → (reg + 8 ≤ a → P) → P
      split a first second = elim (dec_lt a (reg + 8)) [
        | yes h ↦ first h
        | no h ↦ second (omega arith)
      ]

  -- kspecem_memcpy logs every byte of the region that a memory intrinsic will write, whatever its
  -- alignment and size, if the region's words and those of the eight bytes behind it are outside
  -- the log's arrays and the log's two variables and end below 2^64, and keeps the speculation
  -- undoable; or the log is full and the program is back at its checkpoint; or the kernel panics.
  pub kspecem_memcpy-Covers :
      (addr size : ℕ) (s : State)
      → Writable k c (align_down 4 addr) (addr + size + 8)
      → IsSpeculating c s
      → Continues
          (λ _. Covers c addr (addr + size) s)
          (BackAt k again f c)
          (kspecem_memcpy k again f addr size s)
  unfolding kspecem_memcpy
  kspecem_memcpy-Covers addr size s w v = rw (in_machine (addr + size) (end_bound addr size w)) (
      Continues-mono (λ _. Covers c (align_down 4 addr) (addr + size) s)
        (λ _. Covers c addr (addr + size) s) (BackAt k again f c)
        (memcpy_loop k again f (size + 4) (align_down 4 addr) (addr + size) s)
        (memcpy_loop-Covers (size + 4) (align_down 4 addr) (addr + size) s w (omega arith) v)
        (λ _ t p. record {
          speculating = p.speculating;
          more = p.more;
          covered = λ a lo hi. p.covered a (omega arith) hi;
        }))
    where
      end_bound :
          (addr size : ℕ)
          → Writable k c (align_down 4 addr) (addr + size + 8)
          → addr + size < 2 ^ 64
      end_bound addr size w =
          omega (arith, below_top (addr + size + 7) w (omega arith) (omega arith))
