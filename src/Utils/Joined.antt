-- ===== src/Utils/Joined.antt =====
-- kspecem_strlcat (kspecem_utils.c, lines 36 to 47), on strings in the memory of the state.
use kasper.Prelude.{
  ℕ, ◌+◌, ◌-◌, ◌^◌, ◌<◌, ◌≡◌, ap, ◌∙◌, Option, none, some, arith, ltb, leb, if◌then◌else◌, wrap64,
  lt→ltb,
}
use kasper.Machine.{State, Act, Cmd, ok, pure, ◌>>◌, modify, read, read_bytes}
use kasper.Machine.Types.{utils_c}
use kasper.Assert.{lt_assert}
use kasper.Utils.{strlen, copy_terminated}
use kasper.Utils.Copied.{IsLength, IsCopy, fitting, strlen-IsLength, copy_terminated-IsCopy}

-- The bytes that are left behind the `dsize` characters at `dest`, and how many of `len` are copied.
abbrev pub left_over : (count dsize : ℕ) → ℕ
left_over count dsize = wrap64 (count + (2 ^ 64 - dsize))

abbrev pub copied_len : (left len : ℕ) → ℕ
copied_len left len = if leb left len then wrap64 (left + (2 ^ 64 - 1)) else len

-- Both lengths are known; `none` is a lack of fuel.
abbrev pub join_strings : Act → (dest src count : ℕ) → (dsize len : Option ℕ) → Cmd (Option ℕ)
join_strings again dest src count none len = pure none
join_strings again dest src count (some dsize) none = pure none
join_strings again dest src count (some dsize) (some len) =
    lt_assert again utils_c 40 (ltb dsize count)
    >> (modify (λ s. record s {
      mem = copy_terminated s.mem (dest + dsize) src (copied_len (left_over count dsize) len);
    })
        >> pure (some (dsize + len)))

unfoldable pub strlcat : Act → (fuel dest src count : ℕ) → Cmd (Option ℕ)
strlcat again fuel dest src count =
    read (λ s. strlen fuel (read_bytes s.mem dest))
      λ dsize.
        read (λ s. strlen fuel (read_bytes s.mem src))
          λ len. join_strings again dest src count dsize len

-- Where the string at `dest` ends inside the `count` bytes and the fuel is more than both lengths,
-- kspecem_strlcat returns the sum of both lengths, whatever a failed assertion would start, and
-- behind that string writes as many characters of the source as fit, then a NUL, all inside the
-- `count` bytes.
pub strlcat-IsCopy :
    (again : Act) (fuel dest src count d n : ℕ) (s : State)
    → IsLength (read_bytes s.mem dest) d
    → IsLength (read_bytes s.mem src) n
    → d < fuel
    → n < fuel
    → d < count
    → count < 2 ^ 64
    → (written : ℕ → ℕ) × (strlcat again fuel dest src count s
        ≡ ok (some (d + n)) (record s { mem = written }))
      × IsCopy s.mem (dest + d) src (count - d) n written
unfolding strlcat lt_assert
strlcat-IsCopy again fuel dest src count d n s at_dest at_src d_lt n_lt inside word = (
  copy_terminated s.mem (dest + d) src (fitting (count - d) n),
  ap (λ o. join_strings again dest src count o (strlen fuel (read_bytes s.mem src)) s)
        (strlen-IsLength fuel (read_bytes s.mem dest) d at_dest d_lt)
      ∙ ap (λ o. join_strings again dest src count (some d) o s)
          (strlen-IsLength fuel (read_bytes s.mem src) n at_src n_lt)
      ∙ simp (lt→ltb d count inside, fits count d n inside word),
  copy_terminated-IsCopy s.mem (dest + d) src (count - d) n (omega arith),
)
  where
    fits :
        (count d n : ℕ)
        → d < count
        → count < 2 ^ 64
        → copied_len (left_over count d) n ≡ fitting (count - d) n
    fits count d n inside word = ground arith
