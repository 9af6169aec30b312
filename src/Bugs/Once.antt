-- ===== src/Bugs/Once.antt =====
-- The map of printed reports (kspecem_bugs.c, lines 73 to 125): one report of a kind is printed for
-- each instruction.
use kasper.Prelude.{
  ℕ, ◌+◌, ◌-◌, ◌/◌, ◌%◌, ◌^◌, ◌≤◌, ◌<◌, ◌≡◌, refl, sym, ap, ==→eq, lt→ltb, le→leb, inl, inr, Bool,
  true, false, arith, ltb, ◌==◌, wrap64, align_down, Bool-cases, eq→==,
}
use kasper.Machine.{State, Act, ok}
use kasper.Machine.Kernel.{Kernel}
use kasper.Machine.Types.{Bug}
use kasper.Assert.{lt_assert}
use kasper.Bugs.{
  page_size, block_size, alloc_blocks, get_bug_mask, bug_already_reported, set_ip_as_reported,
  get_offset_by_ip, report_once,
}
use kasper.Bugs.Masks.{bit_and-bit_or}

-- Instructions of the kernel's text, in 64 bits.
pub record InText (k : Kernel) (ip : ℕ) : Type 0 where
  pub from : k.text ≤ ip
  pub to : ip < k.etext
  pub word : k.etext < 2 ^ 64

-- The state with another map.
abbrev pub with_map : (ℕ → ℕ → ℕ) → State → State
with_map map s = record s { bug_state = record s.bug_state { previous_bugs_map = map } }

abbrev pub entry : (ℕ → ℕ → ℕ) → ℕ → ℕ
entry map offset = map (offset / block_size) (offset % block_size)

bug_already_reported-set :
    (map : ℕ → ℕ → ℕ) (offset mask : ℕ)
    → bug_already_reported (set_ip_as_reported map offset mask) offset mask ≡ true
unfolding bug_already_reported set_ip_as_reported
bug_already_reported-set map offset mask = rw (
  eq→== (offset / block_size) (offset / block_size) refl,
  eq→== (offset % block_size) (offset % block_size) refl,
  bit_and-bit_or (entry map offset) mask,
  eq→== mask mask refl,
)

entry-set :
    (map : ℕ → ℕ → ℕ) (offset mask other : ℕ)
    → (other == offset) ≡ false
    → entry (set_ip_as_reported map offset mask) other ≡ entry map other
unfolding set_ip_as_reported
entry-set map offset mask other ne = elim (Bool-cases (other / block_size == offset / block_size)) [
  | inl e ↦
      rw (e, apart other offset ne e)
        (ap (λ b. map b (other % block_size))
          (sym (==→eq (other / block_size) (offset / block_size) e)))
  | inr e ↦ rw e refl
]
  where
    apart :
        (x y : ℕ)
        → (x == y) ≡ false
        → (x / block_size == y / block_size) ≡ true
        → (x % block_size == y % block_size) ≡ false
    apart x y ne e = ground arith

-- Blocks enough are allocated for the text.
in_blocks : (offset size : ℕ) → offset < size → offset / block_size < alloc_blocks size
unfolding alloc_blocks
in_blocks offset size lt = ground arith

module _ (k : Kernel) (again : Act) where
  get_offset_by_ip-InText :
      (ip : ℕ) (s : State) → InText k ip → get_offset_by_ip k again ip s ≡ ok (ip - k.text) s
  unfolding get_offset_by_ip lt_assert
  get_offset_by_ip-InText ip s t = rw (
    le→leb k.text ip t.from,
    lt→ltb ip k.etext t.to,
    offset_lem ip k.text k.etext t.from t.to t.word,
    in_map ip k.text k.etext t.from t.to,
  )
    where
      offset_lem :
          (ip text etext : ℕ)
          → text ≤ ip
          → ip < etext
          → etext < 2 ^ 64
          → wrap64 (ip + (2 ^ 64 - text)) ≡ ip - text
      offset_lem ip text etext le lt word = ground arith

      in_map :
          (ip text etext : ℕ)
          → text ≤ ip
          → ip < etext
          → ltb (ip - text) (align_down page_size (etext - text + page_size)) ≡ true
      in_map ip text etext le lt = ground arith

  reported_again :
      (map : ℕ → ℕ → ℕ) (bug : Bug) (s : State)
      → InText k bug.kinfo.ip
      → bug_already_reported map (bug.kinfo.ip - k.text) (get_bug_mask bug.access_type) ≡ true
      → report_once k again bug (with_map map s) ≡ ok false (with_map map s)
  unfolding report_once
  reported_again map bug s t e = rw (get_offset_by_ip-InText bug.kinfo.ip (with_map map s) t, e)

  -- For a report at an instruction of the kernel's text, in any state, the test for a duplicate
  -- returns and changes only the map, at the one place of the instruction, which lies in an
  -- allocated block; the same test afterwards finds the report printed and changes nothing.
  pub report_once-once :
      (bug : Bug) (s : State)
      → InText k bug.kinfo.ip
      → (b : Bool) × (map : ℕ → ℕ → ℕ) × (report_once k again bug s ≡ ok b (with_map map s))
        × (report_once k again bug (with_map map s) ≡ ok false (with_map map s))
        × ((other : ℕ)
            → (other == bug.kinfo.ip - k.text) ≡ false
            → entry map other ≡ entry s.bug_state.previous_bugs_map other)
        × ((bug.kinfo.ip - k.text) / block_size < alloc_blocks (k.etext - k.text))
  unfolding report_once
  report_once-once bug s t =
      let offset = bug.kinfo.ip - k.text in
      let mask = get_bug_mask bug.access_type in
      let map = s.bug_state.previous_bugs_map in
      let inside = in_blocks offset (k.etext - k.text) (omega (arith, t.from, t.to)) in
      elim (Bool-cases (bug_already_reported map offset mask)) [
        | inl e ↦ (
          false,
          map,
          reported_again map bug s t e,
          reported_again map bug s t e,
          λ other ne. refl,
          inside,
        )
        | inr e ↦ (
          true,
          set_ip_as_reported map offset mask,
          rw (
            get_offset_by_ip-InText bug.kinfo.ip s t,
            e,
            get_offset_by_ip-InText bug.kinfo.ip s t,
          ),
          reported_again (set_ip_as_reported map offset mask) bug s t
              (bug_already_reported-set map offset mask),
          λ other ne. entry-set map offset mask other ne,
          inside,
        )
      ]
