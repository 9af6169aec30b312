-- ===== src/Undolog.antt =====
-- static/kspecem/kspecem_undolog.c without the writes (see Store): the log's allocation and the walk
-- that restores memory. `kspecem_wl_position` counts down with the loop, whose counter it is.
pub mod Restore
pub mod Saved
use kasper.Prelude.{
  ℕ, zero, suc, ◌+◌, ◌*◌, Bool, false, not, ◌&&◌, ◌||◌, ltb, leb, ◌==◌, if◌then◌else◌, minus_one32,
}
use kasper.Machine.{Cmd, Act, pure, ◌>>◌, modify, read, write_bytes}
use kasper.Machine.Kernel.{Kernel, Frame}
use kasper.Machine.Types.{Undolog, undolog_c}
use kasper.Assert.{lt_assert}

abbrev pub writelog_maxlen : ℕ
writelog_maxlen = 65536

abbrev pub writelog_granularity : ℕ
writelog_granularity = 8

-- WRITELOG_MAXLEN * (WRITELOG_GRANULARITY + sizeof(void *))
abbrev pub writelog_bytes : ℕ
writelog_bytes = 65536 * 16

-- sizeof(struct pt_regs), SIZEOF_PTREGS of calling.h
abbrev pub sizeof_ptregs : ℕ
sizeof_ptregs = 168

unfoldable pub overlaps : (p1 s1 p2 s2 : ℕ) → Bool
overlaps p1 s1 p2 s2 = (leb p1 p2 && ltb p2 (p1 + s1)) || (leb p2 p1 && ltb p1 (p2 + s2))

unfoldable pub can_restore : Kernel → Undolog → ℕ → Bool
unfolding overlaps
can_restore k u addr =
    not (overlaps addr 8 u.writelog_addrs writelog_bytes)
    && not (overlaps addr 8 u.writelog_data writelog_bytes)
    && not (overlaps addr 8 k.at_writelog_addrs 8)
    && not (overlaps addr 8 k.at_writelog_data 8)
    && not (overlaps addr 8 k.at_wl_position 8)

-- `addrs`, `data` and `meta` are what the three calls of `kmalloc` return.
unfoldable pub writelog_init : Act → (addrs data' meta : ℕ) → Act
writelog_init again addrs data' meta =
    modify (λ s. record s {
      undolog = record s.undolog { writelog_meta = 0; wl_position = 0; writelog_enabled = false };
    })
    >> (lt_assert again undolog_c 40 (not (addrs == 0))
        >> (lt_assert again undolog_c 41 (not (data' == 0))
            >> (lt_assert again undolog_c 42 (not (meta == 0))
                >> modify λ s. record s {
                  undolog = record s.undolog {
                    writelog_meta = meta;
                    writelog_data = data';
                    writelog_addrs = addrs;
                  };
                })))

-- Lines 137 and 145: the words of the running frames, and those of the interrupt's registers.
unfoldable pub on_running_stack : Frame → (frameaddr addr : ℕ) → Bool
on_running_stack f frameaddr addr = ltb f.rsp addr && leb addr frameaddr

unfoldable pub in_regs : (regs addr : ℕ) → Bool
in_regs regs addr = not (regs == 0) && (leb regs addr && ltb addr (regs + sizeof_ptregs))

module _ (k : Kernel) (again : Act) (f : Frame) (frameaddr regs : ℕ) where
  -- Lines 140 to 155 for one entry of the log.
  unfoldable pub restore_region : (addr : ℕ) (region : ℕ → ℕ) → Act
  restore_region addr region =
      lt_assert again undolog_c 140 (leb addr f.rsp || ltb frameaddr addr)
      >> (if in_regs regs addr
          then pure tt
          else (read (λ s. can_restore k s.undolog addr) (λ b. lt_assert again undolog_c 150 b)
              >> (lt_assert again undolog_c 151 (not (f.at_i == addr))
                  >> (lt_assert again undolog_c 152 (not (f.at_num_entries == addr))
                      >> (modify (λ s. record s { mem = write_bytes s.mem addr 8 region })
                          >> lt_assert again undolog_c 155 (not (addr == 0)))))))

  unfoldable pub restore_entry : ℕ → Act
  restore_entry n =
      read (λ s. s.undolog)
        λ u.
          if on_running_stack f frameaddr (u.addr_slots n)
          then pure tt
          else restore_region (u.addr_slots n) (u.regions n)

  unfoldable pub set_position : ℕ → Act
  set_position n = modify λ s. record s { undolog = record s.undolog { wl_position = n } }

  -- The loop of lines 128 to 156 with `n` entries left, and the two assertions behind it. The copy
  -- of the slot into the local `addr` fails only if that local had the address NULL.
  unfoldable pub restore_loop : (n i num_entries : ℕ) → Cmd ℕ
  restore_loop zero i num_entries =
      lt_assert again undolog_c 157 (i == num_entries)
      >> (read (λ s. s.undolog.wl_position) (λ n. lt_assert again undolog_c 158 (n == 0)) >> pure 0)
  restore_loop (suc n) i num_entries =
      let rest = restore_loop n (i + 1) num_entries in
      set_position n >> (if f.at_addr == 0 then pure minus_one32 else (restore_entry n >> rest))

  unfoldable pub restore_writelog : Cmd ℕ
  restore_writelog =
      read (λ s. s.undolog.wl_position)
        λ num_entries.
          lt_assert again undolog_c 125 (not (f.rsp == 0)) >> restore_loop num_entries 0 num_entries
