-- ===== src/Utils/Strings.antt =====
-- kspecem_strncmp against the definition of equal strings (kspecem_utils.c, lines 10 to 24).
use kasper.Prelude.{
  ℕ, zero, suc, ◌+◌, ◌<◌, ◌≡◌, refl, inl, inr, true, false, arith, ltb, ◌==◌, if◌then◌else◌,
  Bool-cases, minus_one32,
}
use kasper.Utils.{strncmp_from, strncmp}

-- The strings agree up to `count` characters or a common NUL: a character is equal to the other if
-- none before it is NUL.
abbrev pub Agree : (cs ct : ℕ → ℕ) (i count : ℕ) → Type 0
Agree cs ct i count =
    (j : ℕ) → j < count → ((m : ℕ) → m < j → (cs (i + m) == 0) ≡ false) → cs (i + j) ≡ ct (i + j)

differ : (a b : ℕ) → (if ltb a b then minus_one32 else 1) ≡ 0 → ⊥
differ a b e = ground arith

strncmp_from-Agree :
    (cs ct : ℕ → ℕ) (i count : ℕ) → strncmp_from cs ct i count ≡ 0 → Agree cs ct i count
unfolding strncmp_from
strncmp_from-Agree cs ct i zero e j lt before = absurd (omega arith)
strncmp_from-Agree cs ct i (suc count) e zero lt before = ground arith
strncmp_from-Agree cs ct i (suc count) e (suc j) lt before = shifted cs ct i j (
    strncmp_from-Agree cs ct (i + 1) count
      (rest (cs i) (ct i) (strncmp_from cs ct (i + 1) count) e
        (first cs i (before 0 (omega arith))))
      j (omega arith) (λ m le. later cs i m (before (suc m) (omega arith))))
  where
    rest :
        (a b r : ℕ)
        → (if a == b then if a == 0 then 0 else r else if ltb a b then minus_one32 else 1) ≡ 0
        → (a == 0) ≡ false
        → r ≡ 0
    rest a b r e nonzero = ground arith

    first : (cs : ℕ → ℕ) (i : ℕ) → (cs (i + 0) == 0) ≡ false → (cs i == 0) ≡ false
    first cs i e = ground arith

    later : (cs : ℕ → ℕ) (i m : ℕ) → (cs (i + suc m) == 0) ≡ false → (cs (i + 1 + m) == 0) ≡ false
    later cs i m e = ground arith

    shifted :
        (cs ct : ℕ → ℕ) (i j : ℕ)
        → cs (i + 1 + j) ≡ ct (i + 1 + j)
        → cs (i + suc j) ≡ ct (i + suc j)
    shifted cs ct i j e = ground arith

Agree-strncmp_from :
    (cs ct : ℕ → ℕ) (i count : ℕ) → Agree cs ct i count → strncmp_from cs ct i count ≡ 0
unfolding strncmp_from
Agree-strncmp_from cs ct i zero h = refl
Agree-strncmp_from cs ct i (suc count) h = elim (Bool-cases (cs i == 0)) [
  | inl e ↦ rw (same cs ct i (h 0 (omega arith) (λ m lt. absurd (omega arith))), e)
  | inr e ↦
      rw (same cs ct i (h 0 (omega arith) (λ m lt. absurd (omega arith))), e)
        (Agree-strncmp_from cs ct (i + 1) count (λ j lt before.
          shifted cs ct i j (h (suc j) (omega arith) (λ m le. all cs i m j e le before))))
]
  where
    same : (cs ct : ℕ → ℕ) (i : ℕ) → cs (i + 0) ≡ ct (i + 0) → (cs i == ct i) ≡ true
    same cs ct i e = ground arith

    shifted :
        (cs ct : ℕ → ℕ) (i j : ℕ)
        → cs (i + suc j) ≡ ct (i + suc j)
        → cs (i + 1 + j) ≡ ct (i + 1 + j)
    shifted cs ct i j e = ground arith

    all :
        (cs : ℕ → ℕ) (i m j : ℕ)
        → (cs i == 0) ≡ false
        → m < suc j
        → ((m' : ℕ) → m' < j → (cs (i + 1 + m') == 0) ≡ false)
        → (cs (i + m) == 0) ≡ false
    all cs i zero j e le before = ground arith
    all cs i (suc m) j e le before = back cs i m (before m (omega arith))
      where
        back :
            (cs : ℕ → ℕ) (i m : ℕ) → (cs (i + 1 + m) == 0) ≡ false → (cs (i + suc m) == 0) ≡ false
        back cs i m e = ground arith

-- kspecem_strncmp is 0 just when the strings agree up to `count` characters or a common NUL.
pub strncmp_lem :
    (cs ct : ℕ → ℕ) (count : ℕ)
    → (strncmp cs ct count ≡ 0 → Agree cs ct 0 count)
      × (Agree cs ct 0 count → strncmp cs ct count ≡ 0)
unfolding strncmp
strncmp_lem cs ct count =
    ((λ e. strncmp_from-Agree cs ct 0 count e), (λ h. Agree-strncmp_from cs ct 0 count h))
