-- ===== src/Stack.antt =====
-- static/kspecem/kspecem_stack.c: the stack frame of the function that takes a checkpoint is saved
-- whole. `__memcpy` returns its destination.
use kasper.Prelude.{ℕ, ◌+◌, ◌-◌, ◌*◌, ◌^◌, not, leb, ◌==◌, if◌then◌else◌, wrap64}
use kasper.Machine.{Act, ◌>>◌, modify, read, read_bytes, write_bytes}
use kasper.Machine.Kernel.{Frame}
use kasper.Machine.Types.{stack_c}
use kasper.Assert.{lt_assert, lt_panic}

abbrev pub stacklog_maxlen : ℕ
stacklog_maxlen = 4096 * 16

-- `bytes` is what `kmalloc` returns.
unfoldable pub stack_init : Act → (bytes : ℕ) → Act
stack_init again bytes =
    modify (λ s. record s {
      stack = record s.stack { wl_stack = 0; wl_stack_base_address = 0; wl_stack_len = 0 };
    })
    >> (lt_assert again stack_c 16 (not (bytes == 0))
        >> modify λ s. record s { stack = record s.stack { wl_stack = bytes } })

-- The function is inlined into its hook, whose frame address is that of `f`.
unfoldable pub save_stack : Act → Frame → (frameaddress : ℕ) → Act
save_stack again f frameaddress =
    let rsp : ℕ = f.frame_address + 0x10 in
    let len : ℕ = wrap64 (frameaddress + (2 ^ 64 - rsp)) in
    modify (λ s. record s {
      stack = record s.stack { wl_stack_base_address = frameaddress; wl_stack_len = len };
    })
    >> (lt_assert again stack_c 30 (not (frameaddress == 0))
        >> (lt_assert again stack_c 31 (not (rsp == 0))
            >> (lt_assert again stack_c 32 (leb len stacklog_maxlen)
                >> (read (λ s. s.stack.wl_stack)
                    λ buffer.
                      lt_assert again stack_c 33 (not (buffer == 0))
                      >> (if buffer == 0
                          then lt_panic stack_c 39
                          else modify λ s. record s {
                            stack = record s.stack {
                              wl_stack_bytes =
                                  write_bytes s.stack.wl_stack_bytes 0 len
                                    (read_bytes s.mem (frameaddress - len));
                            };
                          })))))
