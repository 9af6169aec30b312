-- ===== src/Registers/Asm/Words.antt =====
-- Words in memory: what is stored is loaded again, and other words stay.
use kasper.Prelude.{ℕ, ◌+◌, ◌%◌, ◌≤◌, ◌<◌, ◌⊎◌, ◌≡◌, refl, inl, inr, arith, wrap64}
use kasper.Registers.Asm.{byte_of, store64, load64}

-- Two words that share no byte.
abbrev pub Apart : (a b : ℕ) → Type 0
Apart a b = (a + 8 ≤ b) ⊎ (b + 8 ≤ a)

pub store64-inside : (m : ℕ → ℕ) (a v j : ℕ) → j < 8 → store64 m a v (a + j) ≡ byte_of v j
unfolding store64
store64-inside m a v j lt = ground arith

pub store64-outside : (m : ℕ → ℕ) (a v x : ℕ) → (x < a) ⊎ (a + 8 ≤ x) → store64 m a v x ≡ m x
unfolding store64
store64-outside m a v x out = ground arith

-- A word is what its bytes spell.
pub load64-bytes :
    (m : ℕ → ℕ) (a v : ℕ) → ((j : ℕ) → j < 8 → m (a + j) ≡ byte_of v j) → load64 m a ≡ wrap64 v
unfolding load64
load64-bytes m a v h =
    rw
      (
        h 1 (omega arith),
        h 2 (omega arith),
        h 3 (omega arith),
        h 4 (omega arith),
        h 5 (omega arith),
        h 6 (omega arith),
        h 7 (omega arith),
        first m a v (h 0 (omega arith)),
      )
      (omega arith)
  where
    first : (m : ℕ → ℕ) (a v : ℕ) → m (a + 0) ≡ byte_of v 0 → m a ≡ v % 0x100
    first m a v e = ground arith

pub load64-store64 : (m : ℕ → ℕ) (a v : ℕ) → load64 (store64 m a v) a ≡ wrap64 v
load64-store64 m a v = load64-bytes (store64 m a v) a v (λ j lt. store64-inside m a v j lt)

-- A word depends on its own bytes.
pub load64-same :
    (m m' : ℕ → ℕ) (a b : ℕ) → ((j : ℕ) → j < 8 → m (a + j) ≡ m' (b + j)) → load64 m a ≡ load64 m' b
unfolding load64
load64-same m m' a b h =
    rw
      (
        h 1 (omega arith),
        h 2 (omega arith),
        h 3 (omega arith),
        h 4 (omega arith),
        h 5 (omega arith),
        h 6 (omega arith),
        h 7 (omega arith),
        first m m' a b (h 0 (omega arith)),
      )
      refl
  where
    first : (m m' : ℕ → ℕ) (a b : ℕ) → m (a + 0) ≡ m' (b + 0) → m a ≡ m' b
    first m m' a b e = ground arith

pub load64-Apart : (m : ℕ → ℕ) (a v b : ℕ) → Apart a b → load64 (store64 m a v) b ≡ load64 m b
load64-Apart m a v b apart =
    load64-same (store64 m a v) m b b (λ j lt. store64-outside m a v (b + j) (out a b j lt apart))
  where
    out : (a b j : ℕ) → j < 8 → Apart a b → (b + j < a) ⊎ (a + 8 ≤ b + j)
    out a b j lt (inl le) = inr (omega arith)
    out a b j lt (inr le) = inl (omega arith)
