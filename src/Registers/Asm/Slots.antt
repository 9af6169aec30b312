-- ===== src/Registers/Asm/Slots.antt =====
-- Words at the places of `struct pt_regs` in a buffer (the stores of kspecem_regs.S).
use kasper.Prelude.{
  ℕ, zero, suc, ◌+◌, ◌*◌, ◌/◌, ◌%◌, ◌^◌, ◌≤◌, ◌<◌, ◌⊎◌, ◌≡◌, refl, ap, subst, ◌∙◌, inl, inr, List,
  [], ◌∷◌, arith, ◌==◌, if◌then◌else◌, wrap64,
}
use kasper.Registers.Asm.{byte_of, store64}

-- Words stored at slots of the buffer, and the byte that is found there.
unfoldable pub store_slots : (base : ℕ) → List (ℕ × ℕ) → (ℕ → ℕ) → ℕ → ℕ
store_slots base [] m = m
store_slots base ((slot, v) ∷ ws) m = store_slots base ws (store64 m (wrap64 (base + slot * 8)) v)

abbrev pub found : List (ℕ × ℕ) → (slot j d : ℕ) → ℕ
found [] s j d = d
found ((slot, v) ∷ ws) s j d = found ws s j (if s == slot then byte_of v j else d)

abbrev pub InBuffer : List (ℕ × ℕ) → Type 0
InBuffer [] = Unit
InBuffer ((slot, v) ∷ ws) = (slot < 21) × InBuffer ws

store64-slot :
    (base slot v i : ℕ) (m : ℕ → ℕ)
    → base + 168 ≤ 2 ^ 64
    → slot < 21
    → store64 m (wrap64 (base + slot * 8)) v (base + i)
      ≡ (if i / 8 == slot then byte_of v (i % 8) else m (base + i))
unfolding store64
store64-slot base slot v i m fits lt = ground arith

pub store_slots-found :
    (base i : ℕ) (ws : List (ℕ × ℕ)) (m : ℕ → ℕ)
    → base + 168 ≤ 2 ^ 64
    → InBuffer ws
    → store_slots base ws m (base + i) ≡ found ws (i / 8) (i % 8) (m (base + i))
unfolding store_slots
store_slots-found base i [] m fits p = refl
store_slots-found base i ((slot, v) ∷ ws) m fits p =
    store_slots-found base i ws (store64 m (wrap64 (base + slot * 8)) v) fits p.1
    ∙ ap (found ws (i / 8) (i % 8)) (store64-slot base slot v i m fits p.0)

store64-beside :
    (base slot v x : ℕ) (m : ℕ → ℕ)
    → base + 168 ≤ 2 ^ 64
    → slot < 21
    → (x < base) ⊎ (base + 168 ≤ x)
    → store64 m (wrap64 (base + slot * 8)) v x ≡ m x
unfolding store64
store64-beside base slot v x m fits lt out = ground arith

pub store_slots-beside :
    (base x : ℕ) (ws : List (ℕ × ℕ)) (m : ℕ → ℕ)
    → base + 168 ≤ 2 ^ 64
    → InBuffer ws
    → (x < base) ⊎ (base + 168 ≤ x)
    → store_slots base ws m x ≡ m x
unfolding store_slots
store_slots-beside base x [] m fits p out = refl
store_slots-beside base x ((slot, v) ∷ ws) m fits p out =
    store_slots-beside base x ws (store64 m (wrap64 (base + slot * 8)) v) fits p.1 out
    ∙ store64-beside base slot v x m fits p.0 out

pub byte_of-wrap64 : (v j : ℕ) → j < 8 → byte_of (wrap64 v) j ≡ byte_of v j
byte_of-wrap64 v zero lt = omega arith
byte_of-wrap64 v (suc zero) lt = omega arith
byte_of-wrap64 v (suc (suc zero)) lt = omega arith
byte_of-wrap64 v (suc (suc (suc zero))) lt = omega arith
byte_of-wrap64 v (suc (suc (suc (suc zero)))) lt = omega arith
byte_of-wrap64 v (suc (suc (suc (suc (suc zero))))) lt = omega arith
byte_of-wrap64 v (suc (suc (suc (suc (suc (suc zero)))))) lt = omega arith
byte_of-wrap64 v (suc (suc (suc (suc (suc (suc (suc zero))))))) lt = omega arith
byte_of-wrap64 v (suc (suc (suc (suc (suc (suc (suc (suc j)))))))) lt = absurd (omega arith)

-- Up to a bound, one by one.
abbrev pub AllBelow : (ℕ → Type 0) → ℕ → Type 0
AllBelow P zero = Unit
AllBelow P (suc n) = P n × AllBelow P n

pub at_below : (P : ℕ → Type 0) (n m : ℕ) → AllBelow P n → m < n → P m
at_below P zero m all lt = absurd (omega arith)
at_below P (suc n) m all lt = elim (eq_or_less n m (omega arith)) [
  | inl e ↦ subst P (e) all.0
  | inr less ↦ at_below P n m all.1 less
]
  where
    eq_or_less : (n m : ℕ) → m ≤ n → (n ≡ m) ⊎ (m < n)
    eq_or_less n m le = ground arith
