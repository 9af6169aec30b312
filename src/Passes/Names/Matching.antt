-- ===== src/Passes/Names/Matching.antt =====
-- Which names of functions passes/include/kspecem/KSpecEmABIList.h takes for the same.
use kasper.Prelude.{
  ℕ, ◌≡◌, refl, ap, Bool, true, false, ◌&&◌, ◌||◌, [], ◌∷◌, ◌++◌, ◌==◌, eq→==, if◌then◌else◌,
  Bool-cases, inl, inr, codes,
}
use kasper.Passes.Names.{Name, starts_with, before_first, drop_front}
use kasper.Passes.Names.AbiList.{KSpecEmAbiList, is_module_in, is_function_in}

starts_with-append : (part text : Name) → starts_with part (part ++ text) ≡ true
starts_with-append [] text = refl
starts_with-append (c ∷ part) text = rw (eq→== c c refl, starts_with-append part text) refl

drop_front-append : (part text : Name) → drop_front part (part ++ text) ≡ text
drop_front-append [] text = refl
drop_front-append (c ∷ part) text = drop_front-append part text

and-map : (b p q : Bool) → (p ≡ true → q ≡ true) → (b && p) ≡ true → (b && q) ≡ true
and-map true p q f e = f e
and-map false p q f e = e

-- What a shortened text starts with, the text starts with.
starts_with-before_first :
    (part stop text : Name)
    → starts_with part (before_first stop text) ≡ true
    → starts_with part text ≡ true
starts_with-before_first [] stop text e = refl
starts_with-before_first (c ∷ part) stop [] e = e
starts_with-before_first (c ∷ part) stop (d ∷ text) e =
    go (starts_with-before_first part stop text) (starts_with stop (d ∷ text)) e
  where
    go :
        (starts_with part (before_first stop text) ≡ true → starts_with part text ≡ true)
        → (b : Bool) → starts_with (c ∷ part) (if b then [] else d ∷ before_first stop text) ≡ true
        → starts_with (c ∷ part) (d ∷ text) ≡ true
    go shorter true h = cc h
    go shorter false h =
        and-map (c == d) (starts_with part (before_first stop text)) (starts_with part text) shorter
          h

starts_with-cons :
    (part stop : Name) (d : ℕ) (text : Name)
    → starts_with part (d ∷ before_first stop text) ≡ true
    → starts_with part (d ∷ text) ≡ true
starts_with-cons [] stop d text e = refl
starts_with-cons (c ∷ part) stop d text e =
    and-map (c == d) (starts_with part (before_first stop text)) (starts_with part text)
      (starts_with-before_first part stop text) e

before_first-idempotent :
    (part text : Name) → before_first part (before_first part text) ≡ before_first part text
before_first-idempotent part [] = refl
before_first-idempotent part (d ∷ text) =
    go (before_first-idempotent part text) (starts_with part (d ∷ text)) refl
  where
    inner :
        starts_with part (d ∷ text) ≡ false → starts_with part (d ∷ before_first part text) ≡ false
    inner e = elim (Bool-cases (starts_with part (d ∷ before_first part text))) [
      | inl h ↦ cc (e, starts_with-cons part part d text h)
      | inr h ↦ h
    ]

    go :
        before_first part (before_first part text) ≡ before_first part text
        → (b : Bool) → starts_with part (d ∷ text) ≡ b
        → before_first part (if b then [] else d ∷ before_first part text)
          ≡ (if b then [] else d ∷ before_first part text)
    go again true e = refl
    go again false e = rw (inner e) (ap (λ x. d ∷ x) again)

-- A function is listed in the same categories under its name and under that name without what
-- follows the first ".llvm."; and where the name has no ".llvm." and the prefix in front of it, it
-- is looked up without the prefix.
pub is_function_in-name :
    (l : KSpecEmAbiList) (identifier n m category : Name)
    → before_first (codes ".llvm.") (l.func_prefix ++ m) ≡ l.func_prefix ++ m
    → (is_function_in l identifier (before_first (codes ".llvm.") n) category
        ≡ is_function_in l identifier n category)
      × (is_function_in l identifier (l.func_prefix ++ m) category ≡ (
          is_module_in l identifier category
          || l.in_section (codes "dataflow") (codes "fun") m category))
unfolding is_function_in
is_function_in-name l identifier n m category whole = (
  rw (before_first-idempotent (codes ".llvm.") n) refl,
  rw (whole, starts_with-append l.func_prefix m, drop_front-append l.func_prefix m) refl,
)
