-- ===== src/InlineAsm/Counted.antt =====
-- What the table of restarts at inline assembly counts (kspecem_stats_inlineasm.c).
use kasper.Prelude.{
  ℕ, ◌+◌, ◌<◌, ◌≡◌, ◌∙◌, inl, inr, false, List, [], ◌∷◌, ◌++◌, arith, ltb, leb, ◌==◌, if◌then◌else◌,
  length, wrap64, Bool-cases, Option, none, some, All, Option-cases, ==→eq, subst,
}
use mathlib.Core.List.{reverse_aux}
use kasper.Machine.Types.{InlineasmRestartStat}
use kasper.InlineAsm.{
  num_inlineasm_restart_ips, stat, shift_forward, count_restart, add_inlineasm_restart,
}
use kasper.InlineAsm.Sorted.{NotFull}

-- The restarts that an element counts for an address, and those that the table counts for it.
abbrev pub counted : ℕ → InlineasmRestartStat → ℕ
counted ip x = if x.restart_ip == ip then x.restart_count else 0

unfoldable pub count_of : ℕ → List InlineasmRestartStat → ℕ
count_of ip [] = 0
count_of ip (x ∷ xs) = counted ip x + count_of ip xs

count_of-reverse_aux :
    (ip : ℕ) (before rest : List InlineasmRestartStat)
    → count_of ip (reverse_aux before rest) ≡ count_of ip before + count_of ip rest
unfolding count_of
count_of-reverse_aux ip [] rest = omega arith
count_of-reverse_aux ip (x ∷ before) rest = count_of-reverse_aux ip before (x ∷ rest) ∙ omega arith

count_of-shift_forward :
    (ip : ℕ) (before : List InlineasmRestartStat) (moved : InlineasmRestartStat)
    (rest : List InlineasmRestartStat)
    → count_of ip (shift_forward before moved rest)
      ≡ count_of ip before + counted ip moved + count_of ip rest
unfolding count_of shift_forward
count_of-shift_forward ip [] moved rest = omega arith
count_of-shift_forward ip (x ∷ before) moved rest =
    elim (Bool-cases (ltb x.restart_count moved.restart_count)) [
      | inl e ↦ rw e (count_of-shift_forward ip before moved (x ∷ rest) ∙ omega arith)
      | inr e ↦ rw e (count_of-reverse_aux ip (x ∷ before) (moved ∷ rest) ∙ omega arith)
    ]

-- One restart at `ip`, as it counts for `asked`.
abbrev pub one_at : (asked ip : ℕ) → ℕ
one_at asked ip = if ip == asked then 1 else 0

one_more :
    (asked ip : ℕ) (x : InlineasmRestartStat)
    → NotFull x
    → x.restart_ip ≡ ip
    → counted asked (stat ip (wrap64 (x.restart_count + 1))) ≡ counted asked x + one_at asked ip
one_more asked ip x small e = ground (arith, e, small)

abbrev Counts : ℕ → ℕ → Option (List InlineasmRestartStat) → Type 0
Counts asked n none = Unit {0}
Counts asked n (some ys) = count_of asked ys ≡ n

Counts-count_restart :
    (asked ip : ℕ) (before xs : List InlineasmRestartStat)
    → All NotFull xs
    → Counts asked
        (count_of asked before + count_of asked xs + one_at asked ip)
        (count_restart ip before xs)
unfolding count_of count_restart
Counts-count_restart asked ip before [] small = tt
Counts-count_restart asked ip before (x ∷ xs) small = elim (Bool-cases (x.restart_ip == ip)) [
  | inl e ↦ rw e (
      count_of-shift_forward asked before (stat ip (wrap64 (x.restart_count + 1))) xs
      ∙ omega (arith, one_more asked ip x small.0 (==→eq x.restart_ip ip e)))
  | inr e ↦ rw e (
      subst (λ n. Counts asked n (count_restart ip (x ∷ before) xs)) (omega arith)
        (Counts-count_restart asked ip (x ∷ before) xs small.1))
]

count_of-snoc :
    (asked ip : ℕ) (xs : List InlineasmRestartStat)
    → count_of asked (xs ++ stat ip 1 ∷ []) ≡ count_of asked xs + one_at asked ip
unfolding count_of
count_of-snoc asked ip [] = omega arith
count_of-snoc asked ip (x ∷ xs) = ground (arith, count_of-snoc asked ip xs)

-- While the table is not full and no counter is about to wrap around, a restart at an address adds
-- one to what the table counts for it and leaves every other address's count, wherever the
-- sorting moves the elements.
pub count_of-add_inlineasm_restart :
    (asked ip : ℕ) (xs : List InlineasmRestartStat)
    → length xs < num_inlineasm_restart_ips
    → All NotFull xs
    → count_of asked (add_inlineasm_restart ip xs) ≡ count_of asked xs + one_at asked ip
unfolding add_inlineasm_restart count_of
count_of-add_inlineasm_restart asked ip xs room small =
    elim (Option-cases (count_restart ip [] xs)) [
      | inl e ↦ rw (add_inlineasm_restart, e, has_room (length xs) room) (count_of-snoc asked ip xs)
      | inr (ys, e) ↦
          let h = Counts-count_restart asked ip [] xs small in
          rw (add_inlineasm_restart, e) (rw e at h ∙ omega arith)
    ]
  where
    has_room : (n : ℕ) → n < 40 → leb 40 n ≡ false
    has_room n h = ground arith
