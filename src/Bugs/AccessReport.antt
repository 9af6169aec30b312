-- ===== src/Bugs/AccessReport.antt =====
-- static/kspecem/kspecem_bugs.c, lines 157 to 214: a policy's report is queued, and printed at once
-- outside speculation.
use kasper.Prelude.{
  ℕ, ◌+◌, Bool, true, false, not, ◌&&◌, List, [], ◌∷◌, ltb, ◌==◌, update, minus_one32,
}
use kasper.Machine.{State, in_spec, Act, ◌>>◌, modify, read, when}
use kasper.Machine.Kernel.{Kernel}
use kasper.Machine.Types.{
  AccessType, undef_access, kasan_access, mds_access, cc_access, pc_access, LabelInfo, Bug, bugs_c,
}
use kasper.Assert.{lt_assert}
use kasper.Bugs.{bugs_list_size, report_print_and_clear}

all_zero : List ℕ → Bool
all_zero [] = true
all_zero (b ∷ bs) = b == 0 && all_zero bs

is_undef : AccessType → Bool
is_undef undef_access = true
is_undef kasan_access = false
is_undef mds_access = false
is_undef cc_access = false
is_undef pc_access = false

is_zero_label : LabelInfo → Bool
unfolding all_zero
is_zero_label l = l.label == 0 && all_zero l.info

-- `kspecem_checkzero(this_bug, sizeof(*this_bug))`
unfoldable pub is_zero_bug : Bug → Bool
unfolding is_zero_label is_undef
is_zero_bug b =
    b.kinfo.access_addr == 0
    && b.kinfo.first_bad_addr == 0
    && b.kinfo.access_size == 0
    && not b.kinfo.is_write
    && b.kinfo.ip == 0
    && not b.in_spec
    && b.spec_length == 0
    && is_zero_label b.data_label
    && is_zero_label b.ptr_label
    && is_undef b.access_type

module _ (k : Kernel) (again : Act) where
  -- Lines 175 to 186.
  abbrev pub new_bug :
      (addr size : ℕ) (is_write : Bool) (ip data_label ptr_label : ℕ) → AccessType → State → Bug
  new_bug addr size is_write ip data_label ptr_label access_type s = record {
    kinfo = record {
      access_addr = addr;
      first_bad_addr = addr;
      access_size = size;
      is_write = is_write;
      ip = ip;
    };
    in_spec = in_spec s;
    spec_length = s.emulation.speculative_instr_count;
    data_label = record { label = data_label; info = k.dfsan_copy_label_info data_label };
    ptr_label = record { label = ptr_label; info = k.dfsan_copy_label_info ptr_label };
    access_type = access_type;
  }

  unfoldable pub access_report :
      (addr size : ℕ) (is_write : Bool) (ip data_label ptr_label : ℕ) → AccessType → Act
  access_report addr size is_write ip data_label ptr_label access_type =
      read (λ s. s.bug_state.next_bug_index)
        λ index.
          lt_assert again bugs_c 166 (ltb index bugs_list_size)
          >> (modify
                (λ s. record s { bug_state = record s.bug_state { next_bug_index = index + 1 } })
              >> (read (λ s. is_zero_bug (s.bug_state.bugs index))
                    (λ b. lt_assert again bugs_c 172 b)
                  >> (modify (λ s. record s {
                    bug_state = record s.bug_state {
                      bugs =
                          update s.bug_state.bugs index
                            (new_bug addr size is_write ip data_label ptr_label access_type s);
                    };
                  })
                      >> read in_spec λ spec.
                        when (not spec) (report_print_and_clear k again false 0 minus_one32))))

  unfoldable pub kasan_report : (addr size : ℕ) (is_write : Bool) (ip : ℕ) → Act
  kasan_report addr size is_write ip = access_report addr size is_write ip 0 0 kasan_access

  unfoldable pub ridl_report : (addr size : ℕ) (is_write : Bool) (ip data_label ptr_label : ℕ) → Act
  ridl_report addr size is_write ip data_label ptr_label =
      access_report addr size is_write ip data_label ptr_label mds_access

  unfoldable pub specv1_report :
      (addr size : ℕ) (is_write : Bool) (ip data_label ptr_label : ℕ) → Act
  specv1_report addr size is_write ip data_label ptr_label =
      access_report addr size is_write ip data_label ptr_label cc_access

  unfoldable pub smotherspectre_report : (ip label : ℕ) → Act
  smotherspectre_report ip label = access_report 0 0 false ip 0 label pc_access
