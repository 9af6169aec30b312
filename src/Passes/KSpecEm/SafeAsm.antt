-- ===== src/Passes/KSpecEm/SafeAsm.antt =====
-- The inline assembly that getCalledFunction of passes/kspecem/KSpecEm.cpp takes for safe.
use kasper.Prelude.{Bool, false, not, ◌&&◌, ◌||◌, List, [], ◌∷◌, ◌++◌, codes}
use kasper.Passes.Names.{Name, c_string, same_name, starts_with, contains}

abbrev pub any {ℓ} : {A : Type ℓ} → (A → Bool) → List A → Bool
any p [] = false
any p (x ∷ xs) = p x || any p xs

-- `constraints` are the codes of each operand.
unfoldable pub has_memory_clobber : List (List Name) → Bool
has_memory_clobber constraints =
    any (any λ code. same_name code (codes "{memory}") || same_name code (codes "m")) constraints

-- The strings that are safe whatever they do to memory.
unfoldable pub is_always_safe : Name → Bool
is_always_safe s =
    starts_with (codes "# __raw_save_flags" ++ 10 ∷ 9 ∷ codes "pushf ; pop $0") s
    || contains (codes "#KSPECEM_NO_RESTART") s
    || same_name s (codes "push $0 ; popf")
    || same_name s (codes "cli")
    || same_name s (codes "sti")
    || same_name s (codes "str $0")
    || same_name s (codes "rep; nop")

-- The constants of lines 284 and 285, where `\0` starts an octal escape: a NUL.
abbrev pub ud2_prefix : Name
ud2_prefix = c_string (
    codes "1:"
    ++ 0 ∷ codes "9.byte 0x0f, 0x0b"
    ++ 0 ∷ codes "A.pushsection __bug_table,"
    ++ 18 ∷ codes "aw"
    ++ 18 ∷ [])

abbrev pub reachable_prefix : Name
reachable_prefix = c_string (
    codes "${0:c}:"
    ++ 0 ∷ codes "A"
    ++ 0 ∷ codes "9.pushsection .discard.reachable"
    ++ 0 ∷ codes "A"
    ++ 0 ∷ codes "9.long ${0:c}b")

-- The strings that are safe where no operand is in memory.
unfoldable pub is_safe_in_registers : Name → Bool
is_safe_in_registers s =
    same_name s (codes "mull %edx")
    || same_name s (codes "bswapq $0")
    || same_name s (codes "rep; bsf $1,$0")
    || same_name s (codes "movl %cs,$0")
    || same_name s (codes "movl %ds,$0")
    || same_name s (codes "movl %es,$0")
    || same_name s (codes "movl %fs,$0")
    || same_name s (codes "movl %gs,$0")
    || starts_with (codes "mov $0, %db") s
    || starts_with (codes "mov %db") s
    || starts_with ud2_prefix s
    || starts_with reachable_prefix s
    || same_name s (codes "movq ${1:P},$0")
    || same_name s (codes "movq $1,$0")
    || same_name s (codes "decl $0")
    || same_name s (codes "incl $0")
    || same_name s (codes "incq $0")
    || same_name s (codes "bswapl $0")
    || same_name s (codes "orl $1,$0")
    || same_name s (codes "andb $1,$0")
    || same_name s (codes "addq $1, $0")
    || same_name s (codes "mov $0,%cr3")
    || same_name s (codes "mov %cr4,$0")
    || same_name s (codes "mov %cr8,$0")
    || same_name s (codes "mov %cr3,$0")

unfoldable pub is_safe_asm : (asm_string : Name) (memory_clobber : Bool) → Bool
unfolding is_always_safe is_safe_in_registers
is_safe_asm s memory_clobber = is_always_safe s || (is_safe_in_registers s && not memory_clobber)
