-- ===== src/InlineAsm.antt =====
-- static/kspecem/kspecem_stats_inlineasm.c: the restarts at inline assembly, counted by address in
-- an array that is kept sorted by falling count. The array's used part is a list; a loop index is a
-- split of that list into the elements before it, nearest first, and the elements from it on.
pub mod Sorted
pub mod Counted
use kasper.Prelude.{
  ℕ, ◌+◌, List, [], ◌∷◌, ◌++◌, ltb, leb, ◌==◌, if◌then◌else◌, length, wrap64, map, Bool,
}
use kasper.Prelude.{Option, none, some}
use mathlib.Core.List.{reverse_aux}
use kasper.Machine.Types.{InlineasmRestartStat, InlineasmStats}

abbrev pub num_inlineasm_restart_ips : ℕ
num_inlineasm_restart_ips = 40

abbrev pub stat : ℕ → ℕ → InlineasmRestartStat
stat ip count = record { restart_ip = ip; restart_count = count }

-- The array is allocated only when the statistics are enabled.
unfoldable pub stats_inlineasm_init : InlineasmStats → InlineasmStats
stats_inlineasm_init t = if t.enabled then record t { stats = [] } else t

-- The loop of lines 31 to 35: `moved` goes forward past each element with a smaller count.
unfoldable pub shift_forward :
    List InlineasmRestartStat
    → InlineasmRestartStat
    → List InlineasmRestartStat
    → List InlineasmRestartStat
shift_forward [] moved rest = moved ∷ rest
shift_forward (x ∷ before) moved rest =
    let further = shift_forward before moved (x ∷ rest) in
    if ltb x.restart_count moved.restart_count
    then further
    else reverse_aux (x ∷ before) (moved ∷ rest)

-- The search of lines 23 to 38; `none` if the address is not in the list.
unfoldable pub count_restart :
    ℕ → List InlineasmRestartStat → List InlineasmRestartStat → Option (List InlineasmRestartStat)
unfolding shift_forward
count_restart ip before [] = none
count_restart ip before (x ∷ rest) =
    let further = count_restart ip (x ∷ before) rest in
    if x.restart_ip == ip
    then some (shift_forward before (stat ip (wrap64 (x.restart_count + 1))) rest)
    else further

unfoldable pub add_inlineasm_restart : ℕ → List InlineasmRestartStat → List InlineasmRestartStat
unfolding count_restart
add_inlineasm_restart ip stats = elim (count_restart ip [] stats) [
  | some sorted ↦ sorted
  | none ↦ if leb num_inlineasm_restart_ips (length stats) then stats else stats ++ stat ip 1 ∷ []
]

-- kspecem_print_inlineasm_stats: the lines of the table, and whether the warning follows.
unfoldable pub print_inlineasm_stats : List InlineasmRestartStat → List (ℕ × ℕ) × Bool
print_inlineasm_stats stats =
    (map (λ x. (x.restart_ip, x.restart_count)) stats, leb num_inlineasm_restart_ips (length stats))
