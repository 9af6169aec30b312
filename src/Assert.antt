-- ===== src/Assert.antt =====
-- static/kspecem/kspecem_assert.c and kspecem_assert.h. `again` is the restart that a failed
-- assertion starts, `kspecem_hook_restart(0x0, 0xffff, 0x0)`: the hook stands above all that asserts.
pub mod Within
pub mod TraceLines
use kasper.Prelude.{ℕ, Bool, some, not, if◌then◌else◌}
use kasper.Machine.{in_spec, Cmd, Act, panicked, pure, ◌>>◌, modify, read, when}
use kasper.Machine.Types.{SpecAssert, File}

abbrev pub assert_at : File → ℕ → SpecAssert
assert_at file line = record { file = file; line = line }

-- In speculation a failure is kept for the end of the restart, otherwise the kernel panics.
unfoldable pub kspecem_panic : Act → SpecAssert → Act
kspecem_panic again site = read in_spec λ b.
    if b
    then (modify (λ s. record s { spec_assert = some site })
        >> read (λ s. s.is_in_restart) λ r. when (not r) again)
    else panicked site

unfoldable pub lt_assert : Act → File → ℕ → Bool → Act
unfolding kspecem_panic
lt_assert again file line condition =
    if condition then pure tt else kspecem_panic again (assert_at file line)

-- A failure whose place the caller names.
unfoldable pub assert_print : Act → SpecAssert → Act
unfolding kspecem_panic
assert_print again site = kspecem_panic again site

-- `lt_panic`, which panics in speculation too.
abbrev pub lt_panic : {A : Type 0} → File → ℕ → Cmd A
lt_panic file line = panicked (assert_at file line)
