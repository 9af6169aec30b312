-- ===== src/Bugs/Masks.antt =====
-- The masks of kspecem_bugs.c: a mask that was set by `|` is found by `&`, at every width.
use Prim.Native.Nat.{min, max, bit_and, bit_or, digits, bitwise, bit_and-bitwise, bit_or-bitwise}
use kasper.Prelude.{ℕ, zero, suc, ◌+◌, ◌*◌, ◌/◌, ◌%◌, ◌≤◌, ◌≡◌, refl, ◌∙◌, arith}

-- Any fuel from the number on gives the same digits.
module _ (rest : ℕ → ℕ) (op : ℕ → ℕ → ℕ) where
  digits-enough :
      (fuel fuel' x y : ℕ)
      → x ≤ fuel
      → x ≤ fuel'
      → digits rest op fuel x y ≡ digits rest op fuel' x y
  digits-enough zero zero x y le le' = refl
  digits-enough zero (suc fuel') zero y le le' = refl
  digits-enough zero (suc fuel') (suc x) y le le' = absurd (omega arith)
  digits-enough (suc fuel) zero zero y le le' = refl
  digits-enough (suc fuel) zero (suc x) y le le' = absurd (omega arith)
  digits-enough (suc fuel) (suc fuel') zero y le le' = refl
  digits-enough (suc fuel) (suc fuel') (suc x) y le le' =
      let half = suc x / 2 in rw (digits-enough fuel fuel' half (y / 2) (omega arith) (omega arith))

  low_digit :
      (x y : ℕ)
      → bitwise rest op (suc x) y ≡ bitwise rest op (suc x / 2) (y / 2) * 2 + op (suc x % 2) (y % 2)
  low_digit x y =
      omega (arith, digits-enough x (suc x / 2) (suc x / 2) (y / 2) (omega arith) (omega arith))

or_digit : (x y : ℕ) → bit_or x y ≡ bit_or (x / 2) (y / 2) * 2 + max (x % 2) (y % 2)
or_digit zero y = simp bit_or-bitwise (omega arith)
or_digit (suc x) y = simp bit_or-bitwise (low_digit (λ b. b) max x y)

and_digit : (x y : ℕ) → bit_and x y ≡ bit_and (x / 2) (y / 2) * 2 + min (x % 2) (y % 2)
and_digit zero y = simp bit_and-bitwise (omega arith)
and_digit (suc x) y = simp bit_and-bitwise (low_digit (λ b. zero) min x y)

-- `fuel` bounds both numbers.
masked : (fuel x m : ℕ) → x ≤ fuel → m ≤ fuel → bit_and (bit_or x m) m ≡ m
masked zero zero zero le le' = refl
masked zero zero (suc m) le le' = absurd (omega arith)
masked zero (suc x) m le le' = absurd (omega arith)
masked (suc fuel) x m le le' =
    let ih = masked fuel (x / 2) (m / 2) (omega arith) (omega arith) in
    and_digit (bit_or x m) m ∙ rw ((upper x m), (lower x m), ih) (omega arith)
  where
    upper : (x m : ℕ) → bit_or x m / 2 ≡ bit_or (x / 2) (m / 2)
    upper x m = ground (arith, or_digit x m)

    lower : (x m : ℕ) → bit_or x m % 2 ≡ max (x % 2) (m % 2)
    lower x m = ground (arith, or_digit x m)

pub bit_and-bit_or : (x m : ℕ) → bit_and (bit_or x m) m ≡ m
bit_and-bit_or x m = masked (x + m) x m (omega arith) (omega arith)
