-- ===== src/RestartStats/Totals.antt =====
-- The restart counters (kspecem_stats_restarts.c): the total is the sum of the reasons.
use kasper.Prelude.{
  zero, suc, refl, List, [], ◌∷◌, ℕ, ◌+◌, ◌-◌, ◌^◌, ◌<◌, ◌≡◌, ◌∙◌, Bool, true, arith, ltb,
  if◌then◌else◌, wrap64,
}
use kasper.Machine.{State}
use kasper.Machine.Types.{FunctionStats}
use kasper.RestartStats.{count_type, add_restart_to_statistics}

-- The restarts by reason.
unfoldable pub by_reason : FunctionStats → ℕ
by_reason t =
    t.on_return_restarts + t.on_call_restarts + t.on_call_undefined_restarts
    + t.on_call_inlineasm_restarts + t.on_blacklist_restarts + t.on_exception_restarts
    + t.on_timer_restarts + t.on_limit_spec_restarts + t.on_call_depth_restarts + t.on_call_disabled
    + t.on_writelog_full_restarts + t.on_page_fault

-- One of the twelve restart types.
abbrev pub is_reason : ℕ → Bool
is_reason type = ltb type 12

abbrev as_number : Bool → ℕ
as_number b = if b then 1 else 0

by_reason-count_type :
    (type : ℕ) (t : FunctionStats)
    → by_reason t < 2 ^ 64 - 1
    → by_reason (count_type type t) ≡ by_reason t + as_number (is_reason type)
unfolding by_reason count_type
by_reason-count_type type t small = ground arith

total_restarts-count_type :
    (type : ℕ) (t : FunctionStats) → (count_type type t).total_restarts ≡ t.total_restarts
unfolding count_type
total_restarts-count_type type t = ground arith

-- A restart of one of the twelve types counts once in the total and once for its reason, while the
-- total is not about to wrap around: a total that was the sum of the reasons stays so.
add_restart_to_statistics-totals :
    (type call_arg : ℕ) (s : State)
    → is_reason type ≡ true
    → s.total_statistics.total_restarts < 2 ^ 64 - 1
    → by_reason s.total_statistics ≡ s.total_statistics.total_restarts
    → (by_reason (add_restart_to_statistics type call_arg s).total_statistics
        ≡ (add_restart_to_statistics type call_arg s).total_statistics.total_restarts)
      × ((add_restart_to_statistics type call_arg s).total_statistics.total_restarts
          ≡ s.total_statistics.total_restarts + 1)
unfolding by_reason add_restart_to_statistics
add_restart_to_statistics-totals type call_arg s reason small same =
    let t = s.total_statistics in
    let t' = record t { total_restarts = wrap64 (t.total_restarts + 1) } in
    (
      omega (
        arith,
        by_reason-count_type type t' (omega (arith, same, small)),
        total_restarts-count_type type t',
        one reason,
        same,
        next t.total_restarts small,
      ),
      total_restarts-count_type type t' ∙ next t.total_restarts small,
    )
  where
    next : (n : ℕ) → n < 2 ^ 64 - 1 → wrap64 (n + 1) ≡ n + 1
    next n h = omega arith

    one : {b : Bool} → b ≡ true → as_number b ≡ 1
    one e = rw e

-- The counters in the order of `enum kspecem_restart_type_e`.
abbrev pub counters : FunctionStats → List ℕ
counters t =
    t.on_return_restarts ∷ t.on_call_restarts ∷ t.on_call_undefined_restarts
    ∷ t.on_call_inlineasm_restarts ∷ t.on_blacklist_restarts ∷ t.on_timer_restarts
    ∷ t.on_exception_restarts ∷ t.on_limit_spec_restarts ∷ t.on_call_depth_restarts
    ∷ t.on_call_disabled ∷ t.on_writelog_full_restarts ∷ t.on_page_fault ∷ []

-- The list with its element `i` one higher.
abbrev pub bump : ℕ → List ℕ → List ℕ
bump i [] = []
bump zero (n ∷ ns) = wrap64 (n + 1) ∷ ns
bump (suc i) (n ∷ ns) = n ∷ bump i ns

counters-count_type :
    (type : ℕ) (t : FunctionStats)
    → is_reason type ≡ true
    → counters (count_type type t) ≡ bump type (counters t)
unfolding count_type
counters-count_type zero t reason = refl
counters-count_type (suc zero) t reason = refl
counters-count_type (suc (suc zero)) t reason = refl
counters-count_type (suc (suc (suc zero))) t reason = refl
counters-count_type (suc (suc (suc (suc zero)))) t reason = refl
counters-count_type (suc (suc (suc (suc (suc zero))))) t reason = refl
counters-count_type (suc (suc (suc (suc (suc (suc zero)))))) t reason = refl
counters-count_type (suc (suc (suc (suc (suc (suc (suc zero))))))) t reason = refl
counters-count_type (suc (suc (suc (suc (suc (suc (suc (suc zero)))))))) t reason = refl
counters-count_type (suc (suc (suc (suc (suc (suc (suc (suc (suc zero))))))))) t reason = refl
counters-count_type (suc (suc (suc (suc (suc (suc (suc (suc (suc (suc zero)))))))))) t reason = refl
counters-count_type (suc (suc (suc (suc (suc (suc (suc (suc (suc (suc (suc zero))))))))))) t
      reason =
    refl
counters-count_type (suc (suc (suc (suc (suc (suc (suc (suc (suc (suc (suc (suc n)))))))))))) t r =
    absurd (ground arith)

-- A restart of one of the twelve types adds one to the counter of its type, which is the element of
-- its number, leaves the other eleven, and adds one to the total; a total that was the sum of the
-- counters stays so, while it is not about to wrap around.
pub add_restart_to_statistics-counters :
    (type call_arg : ℕ) (s : State)
    → is_reason type ≡ true
    → s.total_statistics.total_restarts < 2 ^ 64 - 1
    → by_reason s.total_statistics ≡ s.total_statistics.total_restarts
    → (counters (add_restart_to_statistics type call_arg s).total_statistics
        ≡ bump type (counters s.total_statistics))
      × (by_reason (add_restart_to_statistics type call_arg s).total_statistics
          ≡ (add_restart_to_statistics type call_arg s).total_statistics.total_restarts)
      × ((add_restart_to_statistics type call_arg s).total_statistics.total_restarts
          ≡ s.total_statistics.total_restarts + 1)
unfolding add_restart_to_statistics
add_restart_to_statistics-counters type call_arg s reason small same =
    let t = s.total_statistics in
    let same_total = add_restart_to_statistics-totals type call_arg s reason small same in
    (
      counters-count_type type (record t { total_restarts = wrap64 (t.total_restarts + 1) }) reason,
      same_total.0,
      same_total.1,
    )
