-- ===== src/Ledger/Streak.antt =====
-- bin/board.py, `failed_streak`: what its loop counts.
use hermes_agent_workforce_p.Prelude.{
  ℕ, suc, ◌+◌, ◌≡◌, refl, Bool, true, Option, List, [], ◌∷◌, arith, filter, all, length, Bool-cases,
  inl, inr, if◌then◌else◌,
}
use hermes_agent_workforce_p.Ledger.{Decision, moment}
use hermes_agent_workforce_p.Ledger.Brief.{Run}
use hermes_agent_workforce_p.Ledger.Flow.{is_after, since_unblock, streak_from, failed_streak}

abbrev is_void_run : Run → Bool
is_void_run r = r.void

-- The number of void runs after the last one that is not.
abbrev pub trailing_voids : List Run → ℕ
trailing_voids [] = 0
trailing_voids (r ∷ rs) = if all is_void_run (r ∷ rs) then length (r ∷ rs) else trailing_voids rs

abbrev pub since_runs : Option ℕ → List Run → List Run
since_runs since runs = filter (λ r. is_after since (moment r.ts)) runs

trailing-all : (runs : List Run) → all is_void_run runs ≡ true → trailing_voids runs ≡ length runs
trailing-all [] h = refl
trailing-all (r ∷ rs) h = rw h refl

streak_from-trailing :
    (since : Option ℕ) (n : ℕ) (runs : List Run)
    → streak_from since n runs ≡ (
        let kept = since_runs since runs in
        if all is_void_run kept then n + length kept else trailing_voids kept)
streak_from-trailing since n [] = ground arith
streak_from-trailing since n (r ∷ runs) = elim (Bool-cases (is_after since (moment r.ts))) [
  | inr e ↦ rw e (streak_from-trailing since n runs)
  | inl e ↦ elim (Bool-cases r.void) [
    | inl t ↦ rw (e, t) (ground (arith, streak_from-trailing since (suc n) runs))
    | inr t ↦
        rw (e, t)
          (ground (arith, streak_from-trailing since 0 runs, trailing-all (since_runs since runs)))
  ]
]

-- The failed streak is the number of void runs after the last run that is not void, among the runs
-- later than the latest unblock, or among all where there is no unblock.
pub failed_streak-trailing :
    (runs : List Run) (decisions : List Decision)
    → failed_streak runs decisions ≡ trailing_voids (since_runs (since_unblock decisions) runs)
unfolding failed_streak
failed_streak-trailing runs decisions = ground (
  arith,
  streak_from-trailing (since_unblock decisions) 0 runs,
  trailing-all (since_runs (since_unblock decisions) runs),
)
