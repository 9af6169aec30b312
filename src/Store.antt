-- ===== src/Store.antt =====
-- static/kspecem/kspecem_undolog.c, lines 49 to 114: before the program writes a word, the word goes
-- into the log. The log's arrays have 2 * WRITELOG_MAXLEN elements of eight bytes.
pub mod Logged
pub mod Speculating
pub mod Covered
use kasper.Prelude.{
  ℕ, zero, suc, ◌+◌, ◌*◌, Bool, not, ◌||◌, ltb, leb, ◌==◌, if◌then◌else◌, same_bool, update, wrap64,
  align_down,
}
use kasper.Machine.{State, Act, in_spec, pure, ◌>>=◌, ◌>>◌, modify, read, when, read_bytes}
use kasper.Machine.Kernel.{Kernel, Frame}
use kasper.Machine.Types.{undolog_c}
use kasper.Machine.Types.RestartType
use kasper.Assert.{lt_assert}
use kasper.Undolog.{writelog_granularity}
use kasper.Internal.{kspecem_restart}

-- The number of elements before `wl_addrs_end` and `wl_data_end`.
abbrev pub writelog_slots : ℕ
writelog_slots = 131072

-- Lines 108 to 112.
unfoldable pub push_entry : (addr ret_addr : ℕ) → State → State
push_entry addr ret_addr s =
    let u = s.undolog in
    record s {
      undolog = record u {
        addr_slots = update u.addr_slots u.wl_position addr;
        regions = update u.regions u.wl_position (read_bytes s.mem addr);
        meta_slots = update u.meta_slots u.wl_position ret_addr;
        wl_position = wrap64 (u.wl_position + 1);
      };
    }

-- Outside an array of the log that begins at `start`.
abbrev pub outside : (addr start : ℕ) → Bool
outside addr start = ltb addr start || leb (start + 8 * writelog_slots) addr

module _ (k : Kernel) (again : Act) (f : Frame) where
  -- Lines 79 to 113, for an address that is a multiple of eight.
  unfoldable pub write_wl_aligned : (addr ret_addr : ℕ) → Act
  write_wl_aligned addr ret_addr =
      read (λ s. same_bool s.undolog.writelog_enabled (in_spec s))
        (λ b. lt_assert again undolog_c 82 b)
      >> (read (λ s. s.undolog.writelog_addrs) (λ p. lt_assert again undolog_c 83 (not (p == 0)))
          >> (read (λ s. s.undolog.writelog_data) (λ p. lt_assert again undolog_c 84 (not (p == 0)))
              >> (read (λ s. s.undolog.wl_position)
                    (λ n.
                      if leb writelog_slots n
                      then (kspecem_restart k again f 0 RestartType.writelog_full ret_addr 0 0 0
                          >>= λ _. pure tt)
                      else pure tt)
                  >> (read (λ s. s.undolog.wl_position)
                        (λ n. lt_assert again undolog_c 91 (ltb n writelog_slots))
                      >> (read (λ s. s.undolog.wl_position)
                            (λ n. lt_assert again undolog_c 92 (ltb n writelog_slots))
                          >> (read (λ s. s.undolog.writelog_addrs)
                                (λ p. lt_assert again undolog_c 93 (outside addr p))
                              >> (read (λ s. s.undolog.writelog_data)
                                    (λ p. lt_assert again undolog_c 94 (outside addr p))
                                  >> (if addr == k.at_wl_position || addr == k.at_writelog_enabled
                                      then pure tt
                                      else read (λ s. s.undolog)
                                          λ u.
                                            when (not (u.writelog_addrs + 8 * u.wl_position == 0))
                                              (modify (push_entry addr ret_addr))))))))))

  -- An address inside a word: the next word is saved first. That call's address is a multiple of
  -- eight, so it makes no further one.
  unfoldable pub write_wl : (addr ret_addr : ℕ) → Act
  write_wl addr ret_addr =
      let aligned : ℕ = align_down writelog_granularity addr in
      when (not (addr == aligned)) (write_wl_aligned (wrap64 (aligned + 8)) ret_addr)
      >> write_wl_aligned aligned ret_addr

  unfoldable pub kspecem_store : (addr : ℕ) → Act
  kspecem_store addr = write_wl addr f.return_address

  -- The loop of lines 58 to 61 from `reg` to `end'`, with `rounds` that suffice unless `end'` lies in
  -- the last seven bytes of the address space, where the code's pointer wraps around and starts again.
  unfoldable pub memcpy_loop : (rounds reg end' : ℕ) → Act
  memcpy_loop zero reg end' = pure tt
  memcpy_loop (suc rounds) reg end' =
      let rest = memcpy_loop rounds (wrap64 (reg + 8)) end' in
      if ltb reg end' then (write_wl reg f.return_address >> rest) else pure tt

  unfoldable pub kspecem_memcpy : (addr size : ℕ) → Act
  kspecem_memcpy addr size = memcpy_loop (size + 4) (align_down 4 addr) (wrap64 (addr + size))
