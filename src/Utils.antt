-- ===== src/Utils.antt =====
-- static/kspecem/kspecem_utils.c: strings and buffers are bytes by offset. A loop that runs to a
-- NUL takes fuel; `none` means that the fuel ran out.
pub mod Buffers
pub mod Strings
pub mod Copied
pub mod Joined
pub mod Digits
pub mod Itoa
use kasper.Prelude.{
  ℕ, zero, suc, ◌+◌, ◌-◌, ◌/◌, ◌%◌, ◌^◌, not, ◌&&◌, Bool, true, false, Option, none, some, ltb, leb,
  ◌==◌, if◌then◌else◌, update, minus_one32,
}
use kasper.Machine.{write_bytes, read_bytes}

unfoldable pub strlen_from : (fuel : ℕ) (s : ℕ → ℕ) (i : ℕ) → Option ℕ
strlen_from zero s i = none
strlen_from (suc fuel) s i =
    let rest = strlen_from fuel s (i + 1) in if s i == 0 then some i else rest

unfoldable pub strlen : (fuel : ℕ) (s : ℕ → ℕ) → Option ℕ
unfolding strlen_from
strlen fuel s = strlen_from fuel s 0

-- `i` bytes of both strings are compared already.
unfoldable pub strncmp_from : (cs ct : ℕ → ℕ) (i count : ℕ) → ℕ
strncmp_from cs ct i zero = 0
strncmp_from cs ct i (suc count) =
    let rest = strncmp_from cs ct (i + 1) count in
    if cs i == ct i
    then (if cs i == 0 then 0 else rest)
    else (if ltb (cs i) (ct i) then minus_one32 else 1)

unfoldable pub strncmp : (cs ct : ℕ → ℕ) (count : ℕ) → ℕ
unfolding strncmp_from
strncmp cs ct count = strncmp_from cs ct 0 count

-- `memcpy(dest, src, len); dest[len] = '\0'`
abbrev pub copy_terminated : (ℕ → ℕ) → (dest src len : ℕ) → ℕ → ℕ
copy_terminated mem dest src len =
    update (write_bytes mem dest len (read_bytes mem src)) (dest + len) 0

-- The memory after the call, and what it returns.
unfoldable pub strlcpy : (fuel : ℕ) (mem : ℕ → ℕ) (dest src size : ℕ) → Option ((ℕ → ℕ) × ℕ)
strlcpy fuel mem dest src size = elim (strlen fuel (read_bytes mem src)) [
  | none ↦ none
  | some ret ↦
      if size == 0
      then some (mem, ret)
      else some (copy_terminated mem dest src (if leb size ret then size - 1 else ret), ret)
]

-- The loop of kspecem_memset with `count` bytes left, the first at `xs`; the value is a char.
unfoldable pub memset : (mem : ℕ → ℕ) (xs c count : ℕ) → ℕ → ℕ
memset mem xs c zero = mem
memset mem xs c (suc count) = memset (update mem xs (c % 2 ^ 8)) (xs + 1) c count

unfoldable pub checkzero_from : (p : ℕ → ℕ) (i left : ℕ) → Bool
checkzero_from p i zero = true
checkzero_from p i (suc left) =
    let rest = checkzero_from p (i + 1) left in if p i == 0 then rest else false

unfoldable pub checkzero : (p : ℕ → ℕ) (count : ℕ) → Bool
unfolding checkzero_from
checkzero p count = checkzero_from p 0 count

-- kspecem_reverse_str between `start` and `end`; each round takes one from both sides.
unfoldable pub reverse_from : (fuel : ℕ) (str : ℕ → ℕ) (start end : ℕ) → ℕ → ℕ
reverse_from zero str start end = str
reverse_from (suc fuel) str start end =
    let swapped = update (update str end (str start)) start (str end) in
    let rest = reverse_from fuel swapped (start + 1) (end - 1) in
    if ltb start end then rest else str

unfoldable pub reverse_str : (str : ℕ → ℕ) (length : ℕ) → ℕ → ℕ
unfolding reverse_from
reverse_str str length = reverse_from length str 0 (length - 1)

-- The character of a remainder, which is not positive where the number is negative.
abbrev pub digit_char : (below_zero : Bool) (rem : ℕ) → ℕ
digit_char below_zero rem =
    if below_zero
    then (48 + (256 - rem % 256)) % 256
    else if ltb 9 rem
    then rem - 10 + 97
    else rem + 48

-- The loop of kspecem_itoa, least digit first, for a number of the size `num`; `none` if the fuel
-- runs out.
unfoldable pub put_digits :
    (fuel : ℕ) (below_zero : Bool) (base num : ℕ) (str : ℕ → ℕ) (i : ℕ) → Option ((ℕ → ℕ) × ℕ)
put_digits zero below_zero base num str i = if num == 0 then some (str, i) else none
put_digits (suc fuel) below_zero base num str i =
    let rest =
      put_digits fuel below_zero base (num / base)
        (update str i (digit_char below_zero (num % base))) (i + 1) in
    if num == 0 then some (str, i) else rest

-- The sign, the NUL and the reversal.
abbrev pub finish_number : (is_negative : Bool) → (ℕ → ℕ) → ℕ → ℕ → ℕ
finish_number true str i = reverse_str (update (update str i 45) (i + 1) 0) (i + 1)
finish_number false str i = reverse_str (update str i 0) i

abbrev pub itoa_signed : (negative : Bool) (num : ℕ) (str : ℕ → ℕ) (base : ℕ) → Option (ℕ → ℕ)
itoa_signed negative num str base =
    if num == 0
    then some (update (update str 0 48) 1 0)
    else elim (put_digits 64 (negative && not (base == 10)) base
        (if negative then 2 ^ 64 - num else num) str 0) [
          | none ↦ none
          | some (digits, i) ↦ some (finish_number (negative && base == 10) digits i)
        ]

-- `num` is a 64-bit pattern, `str` the buffer by offset. The loop takes at most 64 rounds.
unfoldable pub itoa : (num : ℕ) (str : ℕ → ℕ) (base : ℕ) → Option (ℕ → ℕ)
itoa num str base = itoa_signed (leb (2 ^ 63) num) num str base
