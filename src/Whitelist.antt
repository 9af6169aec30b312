-- ===== src/Whitelist.antt =====
-- static/kspecem/kspecem_whitelist.c: which tasks take checkpoints.
use Prim.Native.String.{String}
use kasper.Prelude.{
  ℕ, zero, suc, Bool, ◌||◌, List, [], ◌∷◌, ltb, ◌==◌, if◌then◌else◌, length, codes,
}
use kasper.Utils.{strncmp}

abbrev pub whitelist_disabled : ℕ
whitelist_disabled = 0

abbrev pub whitelist_tasks : ℕ
whitelist_tasks = 1

abbrev pub whitelist_syscall : ℕ
whitelist_syscall = 2

-- TASK_COMM_LEN of the kernel
abbrev pub task_comm_len : ℕ
task_comm_len = 16

-- A string literal: its characters, then NUL.
abbrev pub byte_of : List ℕ → ℕ → ℕ
byte_of [] i = 0
byte_of (c ∷ cs) zero = c
byte_of (c ∷ cs) (suc i) = byte_of cs i

abbrev pub literal : String → ℕ → ℕ
literal s = byte_of (codes s)

unfoldable pub is_task_name : (ℕ → ℕ) → Bool
unfolding strncmp
is_task_name task_name =
    strncmp task_name (literal "kasper_task") task_comm_len == 0
    || strncmp task_name (literal "syz-executor") (length (codes "syz-executor")) == 0
    || strncmp task_name (literal "mkdir") task_comm_len == 0
    || strncmp task_name (literal "pwd") task_comm_len == 0
    || strncmp task_name (literal "cat") task_comm_len == 0
    || strncmp task_name (literal "tail") task_comm_len == 0
    || strncmp task_name (literal "ls") task_comm_len == 0

-- `orig_ax` is the number of the current system call.
unfoldable pub is_whitelist_task : (whitelist_type orig_ax : ℕ) (task_name : ℕ → ℕ) → ℕ
unfolding is_task_name
is_whitelist_task whitelist_type orig_ax task_name =
    if whitelist_type == whitelist_disabled
    then 1
    else if whitelist_type == whitelist_syscall
    then (if ltb orig_ax 600 || ltb 1200 orig_ax
        then 0
        else if is_task_name task_name
        then 1
        else 0)
    else if whitelist_type == whitelist_tasks
    then (if is_task_name task_name then 1 else 0)
    else 1
