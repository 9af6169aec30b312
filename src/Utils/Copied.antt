-- ===== src/Utils/Copied.antt =====
-- kspecem_strlen and kspecem_strlcpy (kspecem_utils.c, lines 4 to 8 and 26 to 34).
use kasper.Prelude.{
  ℕ, zero, suc, ◌+◌, ◌-◌, ◌≤◌, ◌<◌, ◌≡◌, refl, ap, ◌∙◌, inl, inr, true, false, Option, none, some,
  arith, leb, ltb, ◌==◌, if◌then◌else◌, Bool-cases,
}
use kasper.Machine.{read_bytes}
use kasper.Utils.{strlen_from, strlen, strlcpy, copy_terminated}

-- `n` bytes that are not NUL, then a NUL.
pub record IsLength (s : ℕ → ℕ) (n : ℕ) : Type 0 where
  pub ends : (s n == 0) ≡ true
  pub inside : (j : ℕ) → j < n → (s j == 0) ≡ false

strlen_from-IsLength :
    (fuel : ℕ) (s : ℕ → ℕ) (i n : ℕ)
    → IsLength s n
    → i ≤ n
    → n < i + fuel
    → strlen_from fuel s i ≡ some n
unfolding strlen_from
strlen_from-IsLength zero s i n l below enough = absurd (omega arith)
strlen_from-IsLength (suc fuel) s i n l below enough = elim (Bool-cases (ltb i n)) [
  | inl more ↦
      rw (l.inside i (ground arith))
        (strlen_from-IsLength fuel s (i + 1) n l (ground arith) (omega arith))
  | inr done ↦ rw (at_end i n below done) (rw l.ends refl)
]
  where
    at_end : (i n : ℕ) → i ≤ n → ltb i n ≡ false → i ≡ n
    at_end i n below done = ground arith

pub strlen-IsLength :
    (fuel : ℕ) (s : ℕ → ℕ) (n : ℕ) → IsLength s n → n < fuel → strlen fuel s ≡ some n
unfolding strlen
strlen-IsLength fuel s n l enough = strlen_from-IsLength fuel s 0 n l (omega arith) (omega arith)

-- The characters that fit beside the NUL.
abbrev pub fitting : (size n : ℕ) → ℕ
fitting size n = if leb size n then size - 1 else n

-- What a copy of `size` bytes at most leaves: nothing outside its bytes is written, and inside are
-- the characters that fit, then a NUL.
pub record IsCopy (mem : ℕ → ℕ) (dest src size n : ℕ) (written : ℕ → ℕ) : Type 0 where
  pub below : (a : ℕ) → a < dest → written a ≡ mem a
  pub above : (a : ℕ) → dest + size ≤ a → written a ≡ mem a
  pub same : (j : ℕ) → j < fitting size n → written (dest + j) ≡ mem (src + j)
  pub ends : written (dest + fitting size n) ≡ 0
  pub fits : fitting size n < size

pub copy_terminated-IsCopy :
    (mem : ℕ → ℕ) (dest src size n : ℕ)
    → 0 < size
    → IsCopy mem dest src size n (copy_terminated mem dest src (fitting size n))
copy_terminated-IsCopy mem dest src size n some_room = record {
  below = λ a lt. before mem dest src (fitting size n) a lt;
  above = λ a le. behind mem dest src (fitting size n) size a (room size n some_room) le;
  same = λ j lt. copied mem dest src (fitting size n) j lt;
  ends = terminated mem dest src (fitting size n);
  fits = room size n some_room;
}
  where
    room : (size n : ℕ) → 0 < size → fitting size n < size
    room size n lt = ground arith

    before :
        (mem : ℕ → ℕ) (dest src len a : ℕ) → a < dest → copy_terminated mem dest src len a ≡ mem a
    before mem dest src len a lt = ground arith

    behind :
        (mem : ℕ → ℕ) (dest src len size a : ℕ)
        → len < size
        → dest + size ≤ a
        → copy_terminated mem dest src len a ≡ mem a
    behind mem dest src len size a lt le = ground arith

    copied :
        (mem : ℕ → ℕ) (dest src len j : ℕ)
        → j < len
        → copy_terminated mem dest src len (dest + j) ≡ mem (src + j)
    copied mem dest src len j lt = ground arith

    terminated :
        (mem : ℕ → ℕ) (dest src len : ℕ) → copy_terminated mem dest src len (dest + len) ≡ 0
    terminated mem dest src len = ground arith

strlcpy-some :
    (fuel : ℕ) (mem : ℕ → ℕ) (dest src size n : ℕ)
    → strlen fuel (read_bytes mem src) ≡ some n
    → (size == 0) ≡ false
    → strlcpy fuel mem dest src size ≡ some (copy_terminated mem dest src (fitting size n), n)
unfolding strlcpy
strlcpy-some fuel mem dest src size n e room =
    ap
      (λ o. elim o as (λ x. Option ((ℕ → ℕ) × ℕ)) [
        | none ↦ none
        | some ret ↦
            if size == 0
            then some (mem, ret)
            else some (copy_terminated mem dest src (fitting size ret), ret)
      ])
      e
    ∙ ap (λ b. if b then some (mem, n) else some (copy_terminated mem dest src (fitting size n), n))
        room

-- With room for at least the NUL and fuel for the string, kspecem_strlcpy returns the length of the
-- source and writes as many of its characters as fit, then a NUL, all inside the `size` bytes.
pub strlcpy-IsCopy :
    (fuel : ℕ) (mem : ℕ → ℕ) (dest src size n : ℕ)
    → IsLength (read_bytes mem src) n
    → n < fuel
    → 0 < size
    → (written : ℕ → ℕ) × (strlcpy fuel mem dest src size ≡ some (written, n))
      × IsCopy mem dest src size n written
strlcpy-IsCopy fuel mem dest src size n l enough some_room = (
  copy_terminated mem dest src (fitting size n),
  strlcpy-some fuel mem dest src size n (strlen-IsLength fuel (read_bytes mem src) n l enough)
      (nonzero size some_room),
  copy_terminated-IsCopy mem dest src size n some_room,
)
  where
    nonzero : (size : ℕ) → 0 < size → (size == 0) ≡ false
    nonzero size lt = ground arith
