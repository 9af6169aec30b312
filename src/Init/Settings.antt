-- ===== src/Init/Settings.antt =====
-- The debugfs files that kspecem_init (static/kspecem/kspecem_init.c) makes: the runtime's settings.
-- What a write of such a file does to the variable's bytes is documented of the kernel: a u8 file
-- writes one byte, also of a variable that is wider, and a bool file keeps whether it is not 0.
use kasper.Prelude.{
  ℕ, ◌+◌, ◌%◌, ◌<◌, ◌≡◌, refl, Bool, false, not, List, [], ◌∷◌, arith, ◌==◌, if◌then◌else◌, codes,
  wrap32, align_down,
}
use kasper.Machine.{State, Cmd, pure, ◌>>◌, modify, print}
use kasper.Machine.Types.{message}
use kasper.Passes.Names.{Name}
use kasper.Whitelist.{is_whitelist_task}
use kasper.Init.{whitelist_init}

pub data Setting : Type 0 where
  whitelist call_depth print_reports spec_enabled calltrace_enabled restart_stats_enabled : Setting

-- A file's type: an attribute has a function that a read calls.
pub data Content : Type 0 where
  restarts enable : Content
  u8_file u32_file bool_file : Setting → Content

pub record DebugfsFile : Type 0 where
  pub name : Name
  pub mode : ℕ
  pub content : Content

abbrev pub file : Name → (mode : ℕ) → Content → DebugfsFile
file name mode content = record { name = name; mode = mode; content = content }

-- 0444 and 0666
abbrev pub debugfs_files : List DebugfsFile
debugfs_files =
    file (codes "restarts") 292 restarts
    ∷ file (codes "enable") 292 enable
    ∷ file (codes "whitelist") 438 (u8_file whitelist)
    ∷ file (codes "call_depth") 438 (u32_file call_depth)
    ∷ file (codes "print_reports") 438 (u8_file print_reports)
    ∷ file (codes "spec_enabled") 438 (bool_file spec_enabled)
    ∷ file (codes "calltrace_enabled") 438 (bool_file calltrace_enabled)
    ∷ file (codes "inlineasm_restart_stats_enabled") 438 (bool_file restart_stats_enabled)
    ∷ []

-- A message is the line that prints it.
unfoldable pub kspecem_init : Cmd ℕ
unfolding whitelist_init
kspecem_init = print (message 38) >> (modify whitelist_init >> (print (message 58) >> pure 0))

abbrev number : Bool → ℕ
number b = if b then 1 else 0

abbrev is_set : ℕ → Bool
is_set v = not (v == 0)

-- The variables behind the settings.
abbrev pub get : Setting → State → ℕ
get whitelist s = s.whitelist_type
get call_depth s = s.emulation.max_call_depth
get print_reports s = s.bug_state.print_level
get spec_enabled s = number s.emulation.swap_branch_enabled
get calltrace_enabled s = number s.report_error_dump_stack
get restart_stats_enabled s = number s.inlineasm.enabled

abbrev pub put : Setting → ℕ → State → State
put whitelist v s = record s { whitelist_type = v }
put call_depth v s = record s { emulation = record s.emulation { max_call_depth = v } }
put print_reports v s = record s { bug_state = record s.bug_state { print_level = v } }
put spec_enabled v s = record s {
  emulation = record s.emulation { swap_branch_enabled = is_set v };
}
put calltrace_enabled v s = record s { report_error_dump_stack = is_set v }
put restart_stats_enabled v s = record s { inlineasm = record s.inlineasm { enabled = is_set v } }

-- `*(u8 *)data = v`, `*(u32 *)data = v` and `*(bool *)data = v != 0`.
unfoldable pub write_file : Content → (v : ℕ) → State → State
write_file restarts v s = s
write_file enable v s = s
write_file (u8_file x) v s = put x (align_down 0x100 (get x s) + v % 0x100) s
write_file (u32_file x) v s = put x (wrap32 v) s
write_file (bool_file x) v s = put x (number (is_set v)) s

not_mode : (t k : ℕ) → k < t → (t == k) ≡ false
not_mode t k lt = ground arith

unknown_mode :
    (t orig_ax : ℕ) (task_name : ℕ → ℕ) → 2 < t → is_whitelist_task t orig_ax task_name ≡ 1
unfolding is_whitelist_task
unknown_mode t orig_ax task_name lt =
    rw (not_mode t 0 (omega arith), not_mode t 1 (omega arith), not_mode t 2 lt) refl

-- A number that names no mode of the whitelist lets every task take checkpoints.
write_file-whitelist :
    (v orig_ax : ℕ) (task_name : ℕ → ℕ) (s : State)
    → 2 < v
    → v < 0x100
    → is_whitelist_task (write_file (u8_file whitelist) v s).whitelist_type orig_ax task_name ≡ 1
unfolding write_file
write_file-whitelist v orig_ax task_name s lt fits =
    unknown_mode (align_down 0x100 s.whitelist_type + v % 0x100) orig_ax task_name
      (low v s.whitelist_type lt fits)
  where
    low : (v old : ℕ) → 2 < v → v < 0x100 → 2 < align_down 0x100 old + v % 0x100
    low v old lt fits = omega arith
