-- ===== src/Utils/Digits.antt =====
-- Digits and their reversal (kspecem_utils.c, lines 71 to 81), and the number that digits denote.
use kasper.Prelude.{
  ℕ, zero, suc, ◌+◌, ◌-◌, ◌*◌, ◌≤◌, ◌<◌, ◌≡◌, refl, ap, ◌∙◌, Bool, true, false, ◌&&◌, arith, leb,
  ltb, if◌then◌else◌, update,
}
use kasper.Utils.{reverse_from, digit_char}

-- Whether a place lies between the two ends.
abbrev pub between : (start end j : ℕ) → Bool
between start end j = leb start j && leb j end

stays :
    (str : ℕ → ℕ) (start end j : ℕ)
    → end ≤ start
    → str j ≡ (if between start end j then str (start + end - j) else str j)
stays str start end j met = go (between start end j) refl
  where
    go : (b : Bool) → between start end j ≡ b → str j ≡ (if b then str (start + end - j) else str j)
    go true e = ap str (ground arith)
    go false e = refl

swapped :
    (str : ℕ → ℕ) (start end j : ℕ)
    → start < end
    → (if between (start + 1) (end - 1) j
        then update (update str end (str start)) start (str end) (start + 1 + (end - 1) - j)
        else update (update str end (str start)) start (str end) j)
      ≡ (if between start end j then str (start + end - j) else str j)
swapped str start end j lt = ground arith

-- A reversal takes the byte at the mirrored place.
pub reverse_from-byte :
    (fuel : ℕ) (str : ℕ → ℕ) (start end j : ℕ)
    → end ≤ start + 2 * fuel
    → reverse_from fuel str start end j
      ≡ (if between start end j then str (start + end - j) else str j)
unfolding reverse_from
reverse_from-byte zero str start end j enough = stays str start end j (omega arith)
reverse_from-byte (suc fuel) str start end j enough = go (ltb start end) refl (
    reverse_from-byte fuel (update (update str end (str start)) start (str end)) (start + 1)
      (end - 1) j (omega arith))
  where
    rest : ℕ → ℕ
    rest =
        reverse_from fuel (update (update str end (str start)) start (str end)) (start + 1)
          (end - 1)

    go :
        (b : Bool)
        → ltb start end ≡ b
        → rest j ≡ (
            if between (start + 1) (end - 1) j
            then update (update str end (str start)) start (str end) (start + 1 + (end - 1) - j)
            else update (update str end (str start)) start (str end) j)
        → (if b then rest else str) j
          ≡ (if between start end j then str (start + end - j) else str j)
    go true e again = again ∙ swapped str start end j (ground arith)
    go false e again = stays str start end j (ground arith)

-- The value of a digit, and of the digits from `start` on.
abbrev pub digit_value : ℕ → ℕ
digit_value c = if ltb c 58 then c - 48 else c - 87

abbrev pub read_digits : (base : ℕ) (str : ℕ → ℕ) (start count : ℕ) → ℕ
read_digits base str start zero = 0
read_digits base str start (suc count) =
    read_digits base str start count * base + digit_value (str (start + count))

-- The same for digits that are written least first.
abbrev pub low_value : (base : ℕ) (str : ℕ → ℕ) (i count : ℕ) → ℕ
low_value base str i zero = 0
low_value base str i (suc count) = digit_value (str i) + low_value base str (i + 1) count * base

pub read-low_value :
    (base : ℕ) (str low : ℕ → ℕ) (start i count : ℕ)
    → ((j : ℕ) → j < count → str (start + j) ≡ low (i + (count - 1 - j)))
    → read_digits base str start count ≡ low_value base low i count
read-low_value base str low start i zero mirrored = refl
read-low_value base str low start i (suc count) mirrored =
    ap (λ n. read_digits base str start count * base + digit_value n) (last mirrored)
    ∙ ap (λ n. n * base + digit_value (low i))
        (read-low_value base str low start (i + 1) count
          (λ j lt. mirrored j (omega arith) ∙ ap low (place j lt)))
    ∙ omega arith
  where
    last :
        ((j : ℕ) → j < suc count → str (start + j) ≡ low (i + (suc count - 1 - j)))
        → str (start + count) ≡ low i
    last m = m count (omega arith) ∙ ap low (omega arith)

    place : (j : ℕ) → j < count → i + (suc count - 1 - j) ≡ i + 1 + (count - 1 - j)
    place j lt = omega arith

pub digit_value-digit_char : (rem : ℕ) → rem < 36 → digit_value (digit_char false rem) ≡ rem
digit_value-digit_char rem small = ground arith
