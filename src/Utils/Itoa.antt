-- ===== src/Utils/Itoa.antt =====
-- kspecem_itoa (kspecem_utils.c, lines 82 to 103): the string that it writes reads back as the
-- number.
use kasper.Prelude.{
  ℕ, zero, suc, ◌+◌, ◌-◌, ◌*◌, ◌/◌, ◌%◌, ◌^◌, ◌≤◌, ◌<◌, ◌≡◌, refl, sym, ap, ◌∙◌, subst, Bool, true,
  false, Option, none, some, arith, leb, ◌==◌, if◌then◌else◌, update, eq→==, ne→==, ==→eq,
}
use native.Mathlib.Nat.{mod-add-div', mod-lt}
use kasper.Utils.{reverse_str, digit_char, put_digits, finish_number, itoa_signed, itoa}
use kasper.Utils.Digits.{
  between, reverse_from-byte, digit_value, read_digits, low_value, read-low_value,
  digit_value-digit_char,
}

-- What the loop leaves: `count` digits from `i` on, least first, and the bytes before `i`.
pub record Written (base num : ℕ) (str : ℕ → ℕ) (i : ℕ) (out : Option ((ℕ → ℕ) × ℕ)) : Type 0 where
  pub written : ℕ → ℕ
  pub count : ℕ
  pub result : out ≡ some (written, i + count)
  pub value : low_value base written i count ≡ num
  pub before : (j : ℕ) → j < i → written j ≡ str j

-- No digit is left.
nothing-Written :
    (base num : ℕ) (str : ℕ → ℕ) (i : ℕ) → num ≡ 0 → Written base num str i (some (str, i))
nothing-Written base num str i none_left = record {
  written = str;
  count = 0;
  result = ap (λ n. some (str, n)) (omega arith);
  value = sym none_left;
  before = λ j lt. refl;
}

halved : (c q r n : ℕ) → r + q * (2 + c) ≡ n → q * 2 ≤ n
halved c q r n e = omega arith

quotient : (base num bound : ℕ) → 2 ≤ base → num < 2 * bound → num / base < bound
quotient base num bound two small = omega (
  arith,
  halved (base - 2) (num / base) (num % base) num
      (subst (λ b. num % base + num / base * b ≡ num) (at_least base two) (mod-add-div' num base)),
)
  where
    at_least : (base : ℕ) → 2 ≤ base → base ≡ 2 + (base - 2)
    at_least base two = omega arith

pub put_digits-Written :
    (fuel base num : ℕ) (str : ℕ → ℕ) (i : ℕ)
    → 2 ≤ base
    → base ≤ 36
    → num < 2 ^ fuel
    → Written base num str i (put_digits fuel false base num str i)
unfolding put_digits
put_digits-Written zero base num str i two most small =
    rw (eq→== num 0 (omega arith)) (nothing-Written base num str i (omega arith))
put_digits-Written (suc fuel) base num str i two most small = go (num == 0) refl (
    put_digits-Written fuel base (num / base) (update str i (digit_char false (num % base))) (i + 1)
      two most (quotient base num (2 ^ fuel) two (omega arith)))
  where
    digit : digit_value (digit_char false (num % base)) ≡ num % base
    digit = digit_value-digit_char (num % base) (omega (arith, mod-lt num {m = base} (omega arith)))

    go :
        (b : Bool)
        → (num == 0) ≡ b
        → Written base (num / base) (update str i (digit_char false (num % base))) (i + 1) (
            put_digits fuel false base
              (num / base)
              (update str i (digit_char false (num % base)))
              (i + 1))
        → Written base num str i (
            if b
            then some (str, i)
            else put_digits fuel false base
                (num / base)
                (update str i (digit_char false (num % base)))
                (i + 1))
    go true e w = nothing-Written base num str i (==→eq num 0 e)
    go false e w = record {
      written = w.written;
      count = suc w.count;
      result = w.result ∙ ap (λ n. some (w.written, n)) (omega arith);
      value =
          ap (λ c. digit_value c + low_value base w.written (i + 1) w.count * base)
            (w.before i (omega arith) ∙ rw (eq→== i i refl) refl)
          ∙ ap (λ v. v + low_value base w.written (i + 1) w.count * base) digit
          ∙ ap (λ v. num % base + v * base) w.value
          ∙ mod-add-div' num base;
      before =
          λ j lt. w.before j (omega arith) ∙ rw (ne→== j i (λ same. absurd (omega arith))) refl;
    }

-- The reversed digits: the byte at the mirrored place, and the NUL behind them.
reverse_str-byte :
    (str : ℕ → ℕ) (n j : ℕ) → j < n → reverse_str (update str n 0) n j ≡ str (n - 1 - j)
unfolding reverse_str
reverse_str-byte str n j lt =
    reverse_from-byte n (update str n 0) 0 (n - 1) j (omega arith) ∙ picked str n j lt
  where
    picked :
        (str : ℕ → ℕ) (n j : ℕ)
        → j < n
        → (if between 0 (n - 1) j then update str n 0 (0 + (n - 1) - j) else update str n 0 j)
          ≡ str (n - 1 - j)
    picked str n j lt = ground arith

reverse_str-end : (str : ℕ → ℕ) (n : ℕ) → reverse_str (update str n 0) n n ≡ 0
unfolding reverse_str
reverse_str-end str n =
    reverse_from-byte n (update str n 0) 0 (n - 1) n (omega arith) ∙ picked str n
  where
    picked :
        (str : ℕ → ℕ) (n : ℕ)
        → (if between 0 (n - 1) n then update str n 0 (0 + (n - 1) - n) else update str n 0 n) ≡ 0
    picked str n = ground arith

-- The string at `str` is the number's digits to the base, then a NUL.
pub record Spells (base num : ℕ) (start : ℕ) (out : Option (ℕ → ℕ)) : Type 0 where
  pub string : ℕ → ℕ
  pub count : ℕ
  pub result : out ≡ some string
  pub terminated : string (start + count) ≡ 0
  pub value : read_digits base string start count ≡ num

zero_add : (n : ℕ) → 0 + n ≡ n
zero_add n = omega arith

-- What is done with a number's digits, from what the loop leaves.
abbrev finished : (is_negative : Bool) → Option ((ℕ → ℕ) × ℕ) → Option (ℕ → ℕ)
finished is_negative out = elim out [
  | none ↦ none
  | some (digits, i) ↦ some (finish_number is_negative digits i)
]

finished-Spells :
    (base num : ℕ) (str : ℕ → ℕ) (out : Option ((ℕ → ℕ) × ℕ))
    → Written base num str 0 out
    → Spells base num 0 (finished false out)
finished-Spells base num str out w =
    let string = reverse_str (update w.written w.count 0) w.count in
    record {
      string = string;
      count = w.count;
      result =
          ap (finished false) w.result
          ∙ ap (λ n. some (reverse_str (update w.written n 0) n)) (zero_add w.count);
      terminated = ap string (zero_add w.count) ∙ reverse_str-end w.written w.count;
      value =
          read-low_value base string w.written 0 0 w.count (λ j lt.
            ap string (zero_add j)
            ∙ reverse_str-byte w.written w.count j lt
            ∙ ap w.written (sym (zero_add (w.count - 1 - j))))
          ∙ w.value;
    }

-- For a number from 0 to 2 ^ 63 - 1 and a base from 2 to 36 kspecem_itoa returns with the number's
-- digits in the buffer, most significant first, and a NUL behind them: they read back as the
-- number.
pub itoa-Spells :
    (num : ℕ) (str : ℕ → ℕ) (base : ℕ)
    → num < 2 ^ 63
    → 2 ≤ base
    → base ≤ 36
    → Spells base num 0 (itoa num str base)
unfolding itoa
itoa-Spells num str base small two most =
    subst (λ b. Spells base num 0 (itoa_signed b num str base)) (sym (positive num small))
      (go (num == 0) refl)
  where
    positive : (num : ℕ) → num < 2 ^ 63 → leb (2 ^ 63) num ≡ false
    positive num small = ground arith

    go :
        (b : Bool)
        → (num == 0) ≡ b
        → Spells base num 0 (
            if b
            then some (update (update str 0 48) 1 0)
            else elim (put_digits 64 false base num str 0) [
              | none ↦ none
              | some (digits, i) ↦ some (finish_number false digits i)
            ])
    go true e = record {
      string = update (update str 0 48) 1 0;
      count = 1;
      result = refl;
      terminated = refl;
      value = omega (arith, ==→eq num 0 e);
    }
    go false e =
        finished-Spells base num str (put_digits 64 false base num str 0)
          (put_digits-Written 64 base num str 0 two most (omega arith))
