-- ===== src/Registers/Copied.antt =====
-- The registers that an interrupt's handler copies (kspecem_interrupt.c): the interrupted program
-- goes on with the checkpoint's registers.
use kasper.Prelude.{
  ℕ, ◌+◌, ◌-◌, ◌/◌, ◌<◌, ◌≤◌, ◌⊎◌, ◌≡◌, refl, subst, ◌∙◌, inl, inr, Bool, true, false, not, ◌&&◌,
  ◌||◌, List, [], ◌∷◌, arith, leb, ltb, ◌==◌, if◌then◌else◌,
}
use kasper.Machine.{write_bytes, read_bytes}
use kasper.Registers.{copied_offsets, copy_registers}

-- The byte at offset `i` is in one of the words at the offsets.
unfoldable pub is_copied : List ℕ → ℕ → Bool
is_copied [] i = false
is_copied (offset ∷ offsets) i = leb offset i && ltb i (offset + 8) || is_copied offsets i

copied_or :
    (a b : Bool) (x y : ℕ) → (if b then x else if a then x else y) ≡ (if a || b then x else y)
copied_or true true x y = refl
copied_or true false x y = refl
copied_or false b x y = refl

-- A byte at offset `i` after the copy of the words at some offsets.
copy_registers-byte :
    (regs : ℕ) (registers : ℕ → ℕ) (offsets : List ℕ) (mem : ℕ → ℕ) (i : ℕ)
    → copy_registers regs registers offsets mem (regs + i)
      ≡ (if is_copied offsets i then registers i else mem (regs + i))
unfolding copy_registers is_copied
copy_registers-byte regs registers [] mem i = refl
copy_registers-byte regs registers (offset ∷ offsets) mem i =
    copy_registers-byte regs registers offsets
      (write_bytes mem (regs + offset) 8 (read_bytes registers offset)) i
    ∙ rw (one_word regs registers offset mem i) (
        copied_or (leb offset i && ltb i (offset + 8)) (is_copied offsets i) (registers i)
          (mem (regs + i)))
  where
    one_word :
        (regs : ℕ) (registers : ℕ → ℕ) (offset : ℕ) (mem : ℕ → ℕ) (i : ℕ)
        → write_bytes mem (regs + offset) 8 (read_bytes registers offset) (regs + i)
          ≡ (if leb offset i && ltb i (offset + 8) then registers i else mem (regs + i))
    one_word regs registers offset mem i = ground arith

-- The words of struct pt_regs that are not copied: orig_ax, cs and ss.
abbrev pub is_kept : ℕ → Bool
is_kept i = let slot = i / 8 in slot == 15 || slot == 17 || slot == 20

is_copied-offsets : (i : ℕ) → i < 168 → is_copied copied_offsets i ≡ not (is_kept i)
unfolding is_copied
is_copied-offsets i lt = ground arith

-- After the copy every byte of the interrupt's registers is that of the checkpoint's, but for orig_ax,
-- cs and ss, which stay the interrupt's.
pub copy_registers-copied :
    (regs : ℕ) (registers mem : ℕ → ℕ) (i : ℕ)
    → i < 168
    → copy_registers regs registers copied_offsets mem (regs + i)
      ≡ (if is_kept i then mem (regs + i) else registers i)
copy_registers-copied regs registers mem i lt =
    copy_registers-byte regs registers copied_offsets mem i
    ∙ rw (is_copied-offsets i lt) (swapped (is_kept i) (registers i) (mem (regs + i)))
  where
    swapped : (b : Bool) (x y : ℕ) → (if not b then x else y) ≡ (if b then y else x)
    swapped true x y = refl
    swapped false x y = refl

copy_registers-below :
    (regs : ℕ) (registers : ℕ → ℕ) (offsets : List ℕ) (mem : ℕ → ℕ) (a : ℕ)
    → a < regs
    → copy_registers regs registers offsets mem a ≡ mem a
unfolding copy_registers
copy_registers-below regs registers [] mem a lt = refl
copy_registers-below regs registers (offset ∷ offsets) mem a lt =
    copy_registers-below regs registers offsets
      (write_bytes mem (regs + offset) 8 (read_bytes registers offset)) a lt
    ∙ rw (before offset regs a lt) refl
  where
    before :
        (offset regs a : ℕ)
        → a < regs
        → (leb (regs + offset) a && ltb a (regs + offset + 8)) ≡ false
    before offset regs a lt = ground arith

is_copied-beyond : (i : ℕ) → 168 ≤ i → is_copied copied_offsets i ≡ false
unfolding is_copied
is_copied-beyond i le = ground arith

-- Bytes outside the interrupt's registers are left alone.
pub copy_registers-outside :
    (regs : ℕ) (registers mem : ℕ → ℕ) (a : ℕ)
    → (a < regs) ⊎ (regs + 168 ≤ a)
    → copy_registers regs registers copied_offsets mem a ≡ mem a
copy_registers-outside regs registers mem a (inl lt) =
    copy_registers-below regs registers copied_offsets mem a lt
copy_registers-outside regs registers mem a (inr le) =
    subst (λ x. copy_registers regs registers copied_offsets mem x ≡ mem x) (back regs a le)
      (copy_registers-byte regs registers copied_offsets mem (a - regs)
        ∙ rw (is_copied-beyond (a - regs) (omega arith)) refl)
  where
    back : (regs a : ℕ) → regs + 168 ≤ a → regs + (a - regs) ≡ a
    back regs a le = omega arith
