-- ===== src/Reactor/Backoff.antt =====
-- bin/board_reactor.py, `backoff` and the retry that it delays.
use hermes_agent_workforce_p.Prelude.{
  ℕ, zero, suc, ◌+◌, ◌-◌, ◌*◌, ◌^◌, ◌≤◌, ◌≡◌, ap, ◌∙◌, String, false, none, some, arith, or_else,
  min, max, str_eq, str_eq_refl,
}
use native.Mathlib.Nat.{pow-suc}
use hermes_agent_workforce_p.Prelude.Dict.{lookup, lookup-insert}
use hermes_agent_workforce_p.Source.{Outcome, ok, failed}
use hermes_agent_workforce_p.Plan.{Memory, no_memory}
use hermes_agent_workforce_p.Reactor.{Moment, State, backoff, remember_start, started, failed_entry}

pow-pos : (n : ℕ) → 1 ≤ 2 ^ n
pow-pos zero = omega arith
pow-pos (suc n) = omega (arith, pow-pos n, pow-suc 2 n)

backoff-bounds_at : (n : ℕ) → (30 ≤ backoff n) × (backoff n ≤ 900)
unfolding backoff
backoff-bounds_at n = (omega (arith, pow-pos (max (n - 1) 0)), omega arith)

backoff-add_one : (n : ℕ) → backoff (n + 1) ≡ min (30 * 2 ^ n) 900
unfolding backoff
backoff-add_one n = ap (λ k. min (30 * 2 ^ k) 900) (omega arith)

pow-add_one : (n : ℕ) → 2 ^ (n + 1) ≡ 2 * 2 ^ n
pow-add_one n = ap (λ k. 2 ^ k) (omega arith) ∙ pow-suc 2 n ∙ omega arith

backoff-doubles : (n : ℕ) → backoff (n + 2) ≡ min (2 * backoff (n + 1)) 900
backoff-doubles n =
    ap backoff (omega arith)
    ∙ backoff-add_one (n + 1)
    ∙ omega (arith, pow-add_one n, backoff-add_one n)

backoff-le_next : (n : ℕ) → backoff n ≤ backoff (n + 1)
unfolding backoff
backoff-le_next zero = omega arith
backoff-le_next (suc n) =
    let next = ap backoff {x = suc n + 1} {y = n + 2} (omega arith) ∙ backoff-doubles n in
    let this = ap backoff {x = suc n} {y = n + 1} (omega arith) in
    omega (arith, next, this, backoff-bounds_at (n + 1))

-- The backoff is 30 s after the first failure, doubles with each further one up to 15 minutes, and
-- never shrinks.
pub backoff_grows :
    (n : ℕ)
    → (backoff 1 ≡ 30)
      × (30 ≤ backoff n)
      × (backoff n ≤ 900)
      × (backoff (n + 2) ≡ min (2 * backoff (n + 1)) 900)
      × (backoff n ≤ backoff (n + 1))
unfolding backoff
backoff_grows n = (
  omega arith,
  (backoff-bounds_at n).0,
  (backoff-bounds_at n).1,
  backoff-doubles n,
  backoff-le_next n,
)

abbrev pub entry_of : State → String → Memory
entry_of s item = or_else (lookup item s.cards) no_memory

abbrev pub starts_of : State → String → ℕ
starts_of s item = or_else (entry_of s item).starts 0

-- What a start leaves in the memory of its card: the attempt is counted and dated whatever its
-- outcome; a success forgets the failures and the next try; a failure is counted as one more, and
-- the next try is put off by the backoff of that many. No other card's memory changes.
pub remember-start_memory :
    (s : State) (item other : String) (o : Outcome) (now : Moment)
    → let s' = remember_start s item o now in
      (starts_of s' item ≡ starts_of s item + 1)
      × ((entry_of s' item).last_start ≡ some now.instant)
      × ((entry_of s' item).failures ≡ elim o [
        | ok ↦ none
        | failed class reason ↦ some (or_else (entry_of s item).failures 0 + 1)
      ])
      × ((entry_of s' item).next_try ≡ elim o [
        | ok ↦ none
        | failed class reason ↦
            some (now.instant + backoff (or_else (entry_of s item).failures 0 + 1))
      ])
      × (str_eq item other ≡ false → lookup other s'.cards ≡ lookup other s.cards)
unfolding remember_start
remember-start_memory s item other ok now =
    let new : Memory = record (started s item now) { next_try = none; failures = none } in
    ground (
      arith,
      lookup-insert item item new s.cards,
      lookup-insert item other new s.cards,
      str_eq_refl item,
    )
remember-start_memory s item other (failed class reason) now =
    let new = failed_entry (started s item now) now in
    ground (
      arith,
      lookup-insert item item new s.cards,
      lookup-insert item other new s.cards,
      str_eq_refl item,
    )
