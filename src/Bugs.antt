-- ===== src/Bugs.antt =====
-- static/kspecem/kspecem_bugs.c: reports that wait for the end of a speculation, and the map that
-- keeps a report of one kind at one instruction from being printed again.
pub mod AccessReport
pub mod Calm
pub mod Masks
pub mod Once
pub mod Queue
use Prim.Native.Nat.{bit_and, bit_or}
use kasper.Prelude.{
  ℕ, zero, suc, ◌+◌, ◌-◌, ◌/◌, ◌%◌, ◌^◌, Bool, true, false, not, ◌&&◌, ◌||◌, [], ltb, leb, ◌==◌,
  if◌then◌else◌, update, wrap64, align_down,
}
use kasper.Machine.{Cmd, Act, pure, ◌>>=◌, ◌>>◌, modify, read, when}
use kasper.Machine.Kernel.{Kernel}
use kasper.Machine.Types.{
  AccessType, undef_access, kasan_access, mds_access, cc_access, pc_access, Bug, BugState, bugs_c,
}
use kasper.Assert.{lt_assert}
use kasper.Report.{report_print_access_bug, report_print_restart_begin, report_print_restart_end}

abbrev pub bugs_list_size : ℕ
bugs_list_size = 100

abbrev pub page_size : ℕ
page_size = 4096

-- The bytes of one block of the map, 1024 * PAGE_SIZE.
abbrev pub block_size : ℕ
block_size = 4194304

abbrev pub print_default : ℕ
print_default = 0

abbrev pub print_none : ℕ
print_none = 1

abbrev pub print_duplicates : ℕ
print_duplicates = 2

abbrev pub zero_bug : Bug
zero_bug = record {
  kinfo = record { access_addr = 0; first_bad_addr = 0; access_size = 0; is_write = false; ip = 0 };
  in_spec = false;
  spec_length = 0;
  data_label = record { label = 0; info = [] };
  ptr_label = record { label = 0; info = [] };
  access_type = undef_access;
}

-- `memset` of the array to zero.
unfoldable pub report_clear_globals : BugState → BugState
report_clear_globals b = record b { bugs = λ _. zero_bug; next_bug_index = 0 }

-- The number of blocks that kspecem_report_init allocates for a kernel text of that size.
unfoldable pub alloc_blocks : (kernel_size : ℕ) → ℕ
alloc_blocks kernel_size =
    let bitmap_size : ℕ = align_down page_size (kernel_size + page_size) in
    let blocks : ℕ = bitmap_size / block_size in
    if bitmap_size % block_size == 0 then blocks else blocks + 1

-- `kzalloc` zeroes the map's blocks; `bugs` is what `kmalloc` returns for the list.
unfoldable pub report_init : Act → (bugs : ℕ) → Act
report_init again bugs =
    modify (λ s. record s { bug_state = record s.bug_state { previous_bugs_map = λ _ _. 0 } })
    >> (lt_assert again bugs_c 45 (not (bugs == 0))
        >> modify λ s. record s { bug_state = report_clear_globals s.bug_state })

unfoldable pub get_bug_mask : AccessType → ℕ
get_bug_mask mds_access = 1
get_bug_mask cc_access = 2
get_bug_mask kasan_access = 4
get_bug_mask pc_access = 8
get_bug_mask undef_access = 0xff

unfoldable pub bug_already_reported : (ℕ → ℕ → ℕ) → (offset mask : ℕ) → Bool
bug_already_reported map offset mask =
    bit_and (map (offset / block_size) (offset % block_size)) mask == mask || mask == 0xff

unfoldable pub set_ip_as_reported : (ℕ → ℕ → ℕ) → (offset mask : ℕ) → ℕ → ℕ → ℕ
set_ip_as_reported map offset mask =
    let block : ℕ = offset / block_size in
    update map block
      (update (map block) (offset % block_size) (bit_or (map block (offset % block_size)) mask))

module _ (k : Kernel) (again : Act) where
  unfoldable pub get_offset_by_ip : ℕ → Cmd ℕ
  get_offset_by_ip ip =
      let bitmap_size : ℕ = align_down page_size (k.etext - k.text + page_size) in
      let offset : ℕ = wrap64 (ip + (2 ^ 64 - k.text)) in
      lt_assert again bugs_c 78 (leb k.text ip && ltb ip k.etext)
      >> (lt_assert again bugs_c 81 (ltb offset bitmap_size) >> pure offset)

  -- kspecem_bug_already_reported and, if it was not, kspecem_bug_set_ip_as_reported.
  unfoldable pub report_once : Bug → Cmd Bool
  report_once bug =
      let mask : ℕ = get_bug_mask bug.access_type in
      get_offset_by_ip bug.kinfo.ip >>= λ offset.
      read (λ s. s.bug_state.previous_bugs_map)
        λ map.
          if bug_already_reported map offset mask
          then pure false
          else (get_offset_by_ip bug.kinfo.ip >>= λ offset'.
              modify (λ s. record s {
                bug_state = record s.bug_state {
                  previous_bugs_map = set_ip_as_reported s.bug_state.previous_bugs_map offset' mask;
                };
              })
              >> pure true)

  unfoldable pub should_report_access_bug : Bug → Cmd Bool
  should_report_access_bug bug =
      read (λ s. s.bug_state.print_level)
        λ level.
          if level == print_none
          then pure false
          else if level == print_duplicates
          then pure true
          else (lt_assert again bugs_c 118 (level == print_default) >> report_once bug)

  -- The loop of lines 138 to 148 with `left` reports to go, `i` the next; what it returns is
  -- `reports_printed`.
  unfoldable pub print_loop : (left i : ℕ) → Bool → Cmd Bool
  print_loop zero i reports_printed = pure reports_printed
  print_loop (suc left) i reports_printed =
      read (λ s. s.bug_state.bugs i)
        λ bug. should_report_access_bug bug >>= λ report.
          (if report
            then (when (not reports_printed) report_print_restart_begin
                >> (report_print_access_bug bug >> pure true))
            else pure reports_printed)
          >>= print_loop left (i + 1)

  unfoldable pub report_print_and_clear :
      (called_from_restart : Bool) (checkpoint_ip restart_type : ℕ) → Act
  report_print_and_clear called_from_restart checkpoint_ip restart_type =
      let current_checkpoint_ip : ℕ = if called_from_restart then checkpoint_ip else 0 in
      read (λ s. k.syscall_get_nr s.world)
        λ nr.
          read (λ s. s.bug_state.next_bug_index)
            λ next.
              if next == 0
              then pure tt
              else (print_loop next 0 false >>= λ reports_printed.
                  when reports_printed
                    (report_print_restart_end nr current_checkpoint_ip restart_type)
                  >> modify λ s. record s { bug_state = report_clear_globals s.bug_state })
