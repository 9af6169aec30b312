-- ===== src/PfChecker.antt =====
-- static/kspecem/kspecem_pf_checker.c: a speculative access to an unmapped address goes to a dummy
-- page instead.
use kasper.Prelude.{ℕ, Bool, not, ◌&&◌, ltb, if◌then◌else◌}
use kasper.Machine.{State}

abbrev pub dummy_region_size : ℕ
dummy_region_size = 4096

-- `kzalloc` is what the allocator returns, which the code does not test.
unfoldable pub init_pf_checker : (kzalloc : ℕ) → State → State
init_pf_checker kzalloc s = record s { pf_dummy_region = kzalloc }

-- `valid` is what kdf_virt_addr_valid says of `ptr`.
unfoldable pub kspecem_access : (pf_dummy_region : ℕ) (valid : Bool) (ptr size : ℕ) → ℕ
kspecem_access pf_dummy_region valid ptr size =
    if not valid && ltb size dummy_region_size then pf_dummy_region else ptr
