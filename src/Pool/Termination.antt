-- ===== src/Pool/Termination.antt =====
-- Termination of the jobs of the pool of utils/pool.go.
use edgedelta_lambda_extensi.Common.{
  ℕ, ◌+◌, ◌*◌, ◌^◌, ◌<◌, ◌≤◌, ◌≡◌, ◌≢◌, refl, true, Option-cases, List, [], ◌∷◌, arith, ltb,
  Bool-cases, inl, inr, map, length, ap, ◌⊎◌,
}
use edgedelta_lambda_extensi.Pool.Steps.{
  Job, waiting, entered, working, leaving, released, finished, Pool, new_worker_pool, get_elem?,
  advance_job, advance, Move, advance_at, step, run, wait_returns,
}
use edgedelta_lambda_extensi.Pool.Invariant.{sum_of, Inv, run-Inv, new-Inv, limit-run, run-limit}
use edgedelta_lambda_extensi.Pool.Progress.{steps_left, CanMove, left_over, advance-left, some_move}

-- Every step of the list does something, at the pool that the steps before it leave.
unfoldable pub Effective : List ℕ → Pool → Type 0
Effective [] p = Unit
Effective (i ∷ is) p = (advance i p ≢ p) × Effective is (advance i p)

-- A step that does something is one that its job can make.
advance_job-CanMove : (i : ℕ) (j : Job) (p : Pool) → advance_job i j p ≢ p → CanMove p j
unfolding advance_job
advance_job-CanMove i waiting p h = elim (Bool-cases (ltb p.active_workers p.limit)) [
  | inl e ↦ ground arith
  | inr e ↦ absurd (h (rw e refl))
]
advance_job-CanMove i finished p h = absurd (h refl)
advance_job-CanMove i _ p h = tt

effective-left : (i : ℕ) (p : Pool) → advance i p ≢ p → left_over (advance i p) < left_over p
unfolding advance
effective-left i p h = elim (Option-cases (get_elem? p.jobs i)) [
  | inl e ↦ absurd (h (rw (e, advance) refl))
  | inr (j, e) ↦ advance-left i j p e (advance_job-CanMove i j p (λ same. h (rw (e, advance) same)))
]

run-left :
    (is : List ℕ) (p : Pool)
    → Effective is p
    → length is + left_over (run (map advance_at is) p) ≤ left_over p
unfolding run step Effective
run-left [] p h = omega arith
run-left (i ∷ is) p (h, hs) = omega (arith, effective-left i p h, run-left is (advance i p) hs)

steps_left-le : (j : Job) → steps_left j ≤ 5
steps_left-le waiting = omega arith
steps_left-le entered = omega arith
steps_left-le working = omega arith
steps_left-le leaving = omega arith
steps_left-le released = omega arith
steps_left-le finished = omega arith

sum_of-le : (js : List Job) → sum_of steps_left js ≤ 5 * length js
unfolding sum_of
sum_of-le [] = omega arith
sum_of-le (j ∷ js) = omega (arith, steps_left-le j, sum_of-le js)

-- A job can make a step, or none is left.
rest_waits :
    (p : Pool) → Inv p → 0 < p.limit → (wait_returns p ≡ true) ⊎ ((i : ℕ) × (advance i p ≢ p))
unfolding wait_returns
rest_waits p inv room = elim (Bool-cases (ltb 0 p.wg)) [
  | inl e ↦
      let (i, less) = some_move p inv room (ground arith) in
      inr (i, λ same. omega (arith, less, ap left_over same))
  | inr e ↦ inl (ground arith)
]

-- For a pool with at least one slot and fewer than 2 ^ 31, from every state of every interleaving:
-- however the scheduler goes on with the jobs that are there, the steps that do something are at
-- most five for each of them, and behind them Wait returns or some job can still make a step.
pub pool_terminates :
    (ms : List Move) (limit : ℕ) (is : List ℕ)
    → limit < 2 ^ 31
    → 0 < limit
    → Effective is (run ms (new_worker_pool limit))
    → let p = run ms (new_worker_pool limit) in
      let q = run (map advance_at is) p in
      (length is ≤ 5 * length p.jobs) × ((wait_returns q ≡ true) ⊎ ((i : ℕ) × (advance i q ≢ q)))
unfolding left_over
pool_terminates ms limit is h room effective =
    let p = run ms (new_worker_pool limit) in
    let q = run (map advance_at is) p in
    (
      omega (arith, run-left is p effective, sum_of-le p.jobs),
      rest_waits q (run-Inv (map advance_at is) p (run-Inv ms _ (new-Inv limit h)))
          (omega (arith, limit-run ms limit, run-limit (map advance_at is) p)),
    )
