-- ===== src/Utils/Buffers.antt =====
-- kspecem_memset and kspecem_checkzero (kspecem_utils.c, lines 49 to 68).
use kasper.Prelude.{
  ℕ, zero, suc, ◌+◌, ◌<◌, ◌%◌, ◌^◌, ◌≡◌, refl, ◌∙◌, Bool, true, false, ◌&&◌, arith, leb, ltb, ◌==◌,
  if◌then◌else◌, update,
}
use kasper.Machine.{read_bytes}
use kasper.Utils.{memset, checkzero_from, checkzero}

-- kspecem_memset fills the `count` bytes from `xs` on with the char and no other.
pub memset-byte :
    (mem : ℕ → ℕ) (xs c count a : ℕ)
    → memset mem xs c count a ≡ (if leb xs a && ltb a (xs + count) then c % 2 ^ 8 else mem a)
unfolding memset
memset-byte mem xs c zero a = ground arith
memset-byte mem xs c (suc count) a =
    memset-byte (update mem xs (c % 2 ^ 8)) (xs + 1) c count a ∙ split mem xs (c % 2 ^ 8) count a
  where
    split :
        (mem : ℕ → ℕ) (xs c count a : ℕ)
        → (if leb (xs + 1) a && ltb a (xs + 1 + count) then c else if a == xs then c else mem a)
          ≡ (if leb xs a && ltb a (xs + suc count) then c else mem a)
    split mem xs c count a = ground arith

-- The bytes from offset `i` on.
checkzero_from-zero :
    (p : ℕ → ℕ) (i left : ℕ) → ((j : ℕ) → j < left → p (i + j) ≡ 0) → checkzero_from p i left ≡ true
unfolding checkzero_from
checkzero_from-zero p i zero h = refl
checkzero_from-zero p i (suc left) h =
    rw (first p i (h 0 (omega arith)))
      (checkzero_from-zero p (i + 1) left (λ j lt. shifted p i j (h (suc j) (omega arith))))
  where
    first : (p : ℕ → ℕ) (i : ℕ) → p (i + 0) ≡ 0 → (p i == 0) ≡ true
    first p i e = ground arith

    shifted : (p : ℕ → ℕ) (i j : ℕ) → p (i + suc j) ≡ 0 → p (i + 1 + j) ≡ 0
    shifted p i j e = ground arith

checkzero_from-all :
    (p : ℕ → ℕ) (i left : ℕ) → checkzero_from p i left ≡ true → (j : ℕ) → j < left → p (i + j) ≡ 0
unfolding checkzero_from
checkzero_from-all p i zero h j lt = absurd (omega arith)
checkzero_from-all p i (suc left) h zero lt = ground arith
checkzero_from-all p i (suc left) h (suc j) lt = shifted p i j (
    checkzero_from-all p (i + 1) left (rest (p i == 0) (checkzero_from p (i + 1) left) h) j
      (omega arith))
  where
    rest : (b c : Bool) → (if b then c else false) ≡ true → c ≡ true
    rest true c e = e
    rest false true e = refl
    rest false false e = e

    shifted : (p : ℕ → ℕ) (i j : ℕ) → p (i + 1 + j) ≡ 0 → p (i + suc j) ≡ 0
    shifted p i j e = ground arith

-- kspecem_checkzero accepts a buffer just when all its bytes are zero, and it accepts what
-- kspecem_memset has filled with zeros.
pub checkzero_lem :
    (p : ℕ → ℕ) (count : ℕ)
    → (checkzero p count ≡ true → (j : ℕ) → j < count → p j ≡ 0)
      × (((j : ℕ) → j < count → p j ≡ 0) → checkzero p count ≡ true)
      × ((mem : ℕ → ℕ) (xs : ℕ) → checkzero (read_bytes (memset mem xs 0 count) xs) count ≡ true)
unfolding checkzero
checkzero_lem p count = (
  (λ h j lt. start p j (checkzero_from-all p 0 count h j lt)),
  (λ h. checkzero_from-zero p 0 count (λ j lt. start' p j (h j lt))),
  (λ mem xs.
      checkzero_from-zero (read_bytes (memset mem xs 0 count) xs) 0 count
        (λ j lt. memset-byte mem xs 0 count (xs + (0 + j)) ∙ filled mem xs count j lt)),
)
  where
    start : (p : ℕ → ℕ) (j : ℕ) → p (0 + j) ≡ 0 → p j ≡ 0
    start p j e = ground arith

    start' : (p : ℕ → ℕ) (j : ℕ) → p j ≡ 0 → p (0 + j) ≡ 0
    start' p j e = ground arith

    filled :
        (mem : ℕ → ℕ) (xs count j : ℕ)
        → j < count
        → (if leb xs (xs + (0 + j)) && ltb (xs + (0 + j)) (xs + count)
            then 0
            else mem (xs + (0 + j)))
          ≡ 0
    filled mem xs count j lt = ground arith
