-- ===== src/InlineAsm/Sorted.antt =====
-- The order and the size of the table of restarts at inline assembly (kspecem_stats_inlineasm.c).
use kasper.Prelude.{
  ℕ, ◌+◌, ◌-◌, ◌^◌, ◌≤◌, ◌<◌, ◌≡◌, refl, ◌∙◌, inl, inr, List, [], ◌∷◌, ◌++◌, arith, ltb, leb, ◌==◌,
  length, wrap64, Bool-cases, Option, none, some, All, Option-cases,
}
use mathlib.Core.List.{reverse_aux}
use kasper.Machine.Types.{InlineasmRestartStat}
use kasper.InlineAsm.{
  num_inlineasm_restart_ips, stat, shift_forward, count_restart, add_inlineasm_restart,
}

-- The counts fall along the list, from at most `bound` to at least 1.
abbrev pub IsFalling : ℕ → List InlineasmRestartStat → Type 0
IsFalling bound [] = 1 ≤ bound
IsFalling bound (x ∷ xs) = (x.restart_count ≤ bound) × IsFalling x.restart_count xs

-- What holds of the table: it is sorted, no count is 0, and it fits the array.
pub record IsTable (xs : List InlineasmRestartStat) : Type 0 where
  pub bound : ℕ
  pub falls : IsFalling bound xs
  pub fits : length xs ≤ num_inlineasm_restart_ips

abbrev pub NotFull : InlineasmRestartStat → Type 0
NotFull x = x.restart_count < 2 ^ 64 - 1

-- The counts rise along the list, which is read backwards, all of them at least `bound`.
abbrev IsRising : ℕ → List InlineasmRestartStat → Type 0
IsRising bound [] = Unit {0}
IsRising bound (x ∷ xs) = (bound ≤ x.restart_count) × IsRising x.restart_count xs

IsRising-weaken :
    (b b' : ℕ) (xs : List InlineasmRestartStat) → b' ≤ b → IsRising b xs → IsRising b' xs
IsRising-weaken b b' [] le h = tt
IsRising-weaken b b' (x ∷ xs) le h = (omega (arith, h.0), h.1)

IsFalling-weaken :
    (b b' : ℕ) (xs : List InlineasmRestartStat) → b ≤ b' → IsFalling b xs → IsFalling b' xs
IsFalling-weaken b b' [] le h = omega arith
IsFalling-weaken b b' (x ∷ xs) le h = (omega (arith, h.0), h.1)

Sorted : List InlineasmRestartStat → Type 0
Sorted xs = (bound : ℕ) × IsFalling bound xs

Sorted-reverse_aux :
    (before rest : List InlineasmRestartStat) (b : ℕ)
    → IsRising b before
    → IsFalling b rest
    → Sorted (reverse_aux before rest)
unfolding Sorted
Sorted-reverse_aux [] rest b up down = (b, down)
Sorted-reverse_aux (x ∷ before) rest b up down =
    Sorted-reverse_aux before (x ∷ rest) x.restart_count up.1
      (omega arith, IsFalling-weaken b x.restart_count rest up.0 down)

Sorted-shift_forward :
    (before : List InlineasmRestartStat) (moved : InlineasmRestartStat)
    (rest : List InlineasmRestartStat) (b : ℕ)
    → IsRising b before
    → IsFalling b rest
    → b ≤ moved.restart_count
    → Sorted (shift_forward before moved rest)
unfolding Sorted shift_forward
Sorted-shift_forward [] moved rest b up down le =
    (moved.restart_count, (omega arith, IsFalling-weaken b moved.restart_count rest le down))
Sorted-shift_forward (x ∷ before) moved rest b up down le =
    elim (Bool-cases (ltb x.restart_count moved.restart_count)) [
      | inl e ↦ rw e (
          Sorted-shift_forward before moved (x ∷ rest) x.restart_count up.1
            (omega arith, IsFalling-weaken b x.restart_count rest up.0 down) (ground arith))
      | inr e ↦ rw e (
          Sorted-reverse_aux (x ∷ before) (moved ∷ rest) moved.restart_count (ground arith, up.1)
            (omega arith, IsFalling-weaken b moved.restart_count rest le down))
    ]

length-reverse_aux :
    (before rest : List InlineasmRestartStat)
    → length (reverse_aux before rest) ≡ length before + length rest
length-reverse_aux [] rest = omega arith
length-reverse_aux (x ∷ before) rest = length-reverse_aux before (x ∷ rest) ∙ omega arith

length-shift_forward :
    (before : List InlineasmRestartStat) (moved : InlineasmRestartStat)
    (rest : List InlineasmRestartStat)
    → length (shift_forward before moved rest) ≡ length before + 1 + length rest
unfolding shift_forward
length-shift_forward [] moved rest = omega arith
length-shift_forward (x ∷ before) moved rest =
    elim (Bool-cases (ltb x.restart_count moved.restart_count)) [
      | inl e ↦ rw e (length-shift_forward before moved (x ∷ rest) ∙ omega arith)
      | inr e ↦ rw e (length-reverse_aux (x ∷ before) (moved ∷ rest) ∙ omega arith)
    ]

-- A result, if there is one, satisfies `P`.
abbrev Found : (List InlineasmRestartStat → Type 0) → Option (List InlineasmRestartStat) → Type 0
Found P none = Unit {0}
Found P (some ys) = P ys

Found-mono :
    (P Q : List InlineasmRestartStat → Type 0) (o : Option (List InlineasmRestartStat))
    → ((ys : List InlineasmRestartStat) → P ys → Q ys)
    → Found P o
    → Found Q o
Found-mono P Q none weaken h = tt
Found-mono P Q (some ys) weaken h = weaken ys h

Found-count_restart :
    (ip : ℕ) (before xs : List InlineasmRestartStat) (b : ℕ)
    → IsRising b before
    → IsFalling b xs
    → All NotFull xs
    → Found (λ ys. Sorted ys × (length ys ≡ length before + length xs)) (count_restart ip before xs)
unfolding count_restart
Found-count_restart ip before [] b up down small = tt
Found-count_restart ip before (x ∷ xs) b up down small = elim (Bool-cases (x.restart_ip == ip)) [
  | inl e ↦ rw e (
    Sorted-shift_forward before (stat ip (wrap64 (x.restart_count + 1))) xs x.restart_count
        (IsRising-weaken b x.restart_count before down.0 up) down.1
        (next_le x.restart_count small.0),
    length-shift_forward before (stat ip (wrap64 (x.restart_count + 1))) xs ∙ omega arith,
  )
  | inr e ↦ rw e (
      Found-mono (λ ys. Sorted ys × (length ys ≡ length (x ∷ before) + length xs))
        (λ ys. Sorted ys × (length ys ≡ length before + length (x ∷ xs)))
        (count_restart ip (x ∷ before) xs) (λ ys h. (h.0, h.1 ∙ omega arith))
        (Found-count_restart ip (x ∷ before) xs x.restart_count
          (omega arith, IsRising-weaken b x.restart_count before down.0 up) down.1 small.1))
]
  where
    next_le : (n : ℕ) → n < 2 ^ 64 - 1 → n ≤ wrap64 (n + 1)
    next_le n h = ground arith

Sorted-snoc :
    (ip b : ℕ) (xs : List InlineasmRestartStat)
    → IsFalling b xs
    → IsFalling b (xs ++ stat ip 1 ∷ [])
Sorted-snoc ip b [] h = (h, omega arith)
Sorted-snoc ip b (x ∷ xs) h = (h.0, Sorted-snoc ip x.restart_count xs h.1)

length-snoc :
    (xs : List InlineasmRestartStat) (y : InlineasmRestartStat)
    → length (xs ++ y ∷ []) ≡ length xs + 1
length-snoc [] y = refl
length-snoc (x ∷ xs) y = ground (arith, length-snoc xs y)

-- Counting a restart keeps the table sorted by falling count, with no count 0 and within the array
-- of 40 elements, as long as no counter is about to wrap around.
pub add_inlineasm_restart-IsTable :
    (ip : ℕ) (xs : List InlineasmRestartStat)
    → IsTable xs
    → All NotFull xs
    → IsTable (add_inlineasm_restart ip xs)
unfolding add_inlineasm_restart Sorted
add_inlineasm_restart-IsTable ip xs t small =
    let found = Found-count_restart ip [] xs t.bound tt t.falls small in
    elim (Option-cases (count_restart ip [] xs)) [
      | inl e ↦
          rw (add_inlineasm_restart, e)
            (elim (Bool-cases (leb num_inlineasm_restart_ips (length xs))) [
              | inl full ↦ rw full t
              | inr room ↦ rw room (record {
                bound = t.bound;
                falls = Sorted-snoc ip t.bound xs t.falls;
                fits = ground (arith, length-snoc xs (stat ip 1));
              })
            ])
      | inr (ys, e) ↦
          let h = rw e at found in
          rw (add_inlineasm_restart, e)
            (record { bound = h.0.0; falls = h.0.1; fits = ground (arith, h.1, t.fits) })
    ]
