-- ===== src/Passes/CheckSpecLength/Counts.antt =====
-- The instructions that passes/kspecem-check-spec-length counts are those of passes/count-instrs.
use kasper.Prelude.{
  ℕ, ◌+◌, ◌<◌, ◌^◌, ◌≡◌, refl, ◌∙◌, arith, ◌||◌, false, List, [], ◌∷◌, if◌then◌else◌, length, codes,
  All, wrap32,
}
use kasper.Passes.Names.{same_name, starts_with}
use kasper.Passes.Ir.{
  constant_int, direct, Instruction, call, hook_call, Block, Function, visit_blocks,
}
use kasper.Passes.CheckSpecLength.{
  check_spec_length_func_name, insert_before_last, visit_block, visitor, count_instrs,
}

-- What a call adds to the runtime's count of instructions.
abbrev pub counted : Instruction → ℕ
counted (call (direct n) (constant_int w c ∷ [])) =
    if same_name n check_spec_length_func_name then c else 0
counted i = 0

abbrev pub sum_counted : List Instruction → ℕ
sum_counted [] = 0
sum_counted (i ∷ is) = counted i + sum_counted is

abbrev pub total_counted : List Block → ℕ
total_counted [] = 0
total_counted (b ∷ bs) = sum_counted b.instructions + total_counted bs

abbrev count_call : ℕ → Instruction
count_call n = hook_call check_spec_length_func_name (constant_int 32 n ∷ [])

sum_counted-insert_before_last :
    (n : ℕ) (i : Instruction) (is : List Instruction)
    → sum_counted (insert_before_last (count_call n) (i ∷ is)) ≡ n + sum_counted (i ∷ is)
sum_counted-insert_before_last n i [] = refl
sum_counted-insert_before_last n i (j ∷ is) = omega (arith, sum_counted-insert_before_last n j is)

sum_counted-visit_block :
    (is : List Instruction)
    → length is < 2 ^ 32
    → sum_counted (visit_block is) ≡ length is + sum_counted is
unfolding visit_block
sum_counted-visit_block [] small = refl
sum_counted-visit_block (i ∷ is) small =
    sum_counted-insert_before_last (wrap32 (length (i ∷ is))) i is ∙ omega arith

total_counted-visit_blocks :
    (bs : List Block)
    → All (λ b. length b.instructions < 2 ^ 32) bs
    → total_counted (visit_blocks visit_block bs) ≡ count_instrs bs + total_counted bs
unfolding count_instrs
total_counted-visit_blocks [] small = refl
total_counted-visit_blocks (b ∷ bs) small =
    omega
      (arith, sum_counted-visit_block b.instructions small.0, total_counted-visit_blocks bs small.1)

-- In a function that is not left out, and whose blocks have fewer than 2 ^ 32 instructions, the
-- hooks together count what CountInstrs counts for the function, on top of the calls of the hook
-- that were there.
pub visitor-counts :
    (f : Function)
    → (starts_with (codes "__dfsan") f.name
        || same_name f.name (codes "stop_nmi")
        || same_name f.name (codes "unset_rt")
        || starts_with (codes "kspecem_") f.name)
      ≡ false
    → All (λ b. length b.instructions < 2 ^ 32) f.blocks
    → total_counted (visitor f).blocks ≡ count_instrs f.blocks + total_counted f.blocks
unfolding visitor
visitor-counts f included small = rw included (total_counted-visit_blocks f.blocks small)
