-- ===== src/Pool/Examples.antt =====
-- The theorems on utils/pool.go at an interleaving of two jobs on one slot.
use edgedelta_lambda_extensi.Common.{
  ℕ, ◌≤◌, ◌≡◌, ◌≢◌, ◌⊎◌, ◌*◌, length, ap, refl, true, List, [], ◌∷◌, arith, All, map,
}
use edgedelta_lambda_extensi.Pool.Steps.{
  Move, finished, call_execute, advance_at, new_worker_pool, run, wait_returns, step, advance,
  execute, advance_job,
}
use edgedelta_lambda_extensi.Pool.Invariant.{
  counted, sum_of, in_progress-le-limit, wait_means_finished,
}
use edgedelta_lambda_extensi.Pool.Termination.{Effective, pool_terminates}

-- The second job waits for the slot of the first.
abbrev contended : List Move
contended =
    call_execute ∷ call_execute ∷ advance_at 0 ∷ advance_at 1 ∷ advance_at 0 ∷ advance_at 1 ∷ []

-- One job from its start to its end.
abbrev finishing : List Move
finishing =
    call_execute ∷ advance_at 0 ∷ advance_at 0 ∷ advance_at 0 ∷ advance_at 0 ∷ advance_at 0 ∷ []

in_progress-le-limit_example :
    let p = run contended (new_worker_pool 1) in
    (p.in_progress ≡ sum_of counted p.jobs) × (p.in_progress ≤ 1)
in_progress-le-limit_example = in_progress-le-limit contended 1 (omega arith)

wait_means_finished_example :
    let p = run finishing (new_worker_pool 1) in
    All (λ j. j ≡ finished) p.jobs × (p.active_workers ≡ 0) × (p.in_progress ≡ 0)
unfolding wait_returns run new_worker_pool step advance execute advance_job
wait_means_finished_example = wait_means_finished finishing 1 (omega arith) refl

-- Of two jobs on one slot, the one at work goes on to its end, and then the other one enters.
pool_terminates_example :
    let p = run contended (new_worker_pool 1) in
    let q = run (map advance_at (0 ∷ 0 ∷ 1 ∷ [])) p in
    (3 ≤ 5 * length p.jobs) × ((wait_returns q ≡ true) ⊎ ((i : ℕ) × (advance i q ≢ q)))
unfolding Effective run step execute advance advance_job new_worker_pool
pool_terminates_example = pool_terminates contended 1 (0 ∷ 0 ∷ 1 ∷ []) (omega arith) (omega arith) (
  (λ e. absurd (omega (arith, ap (λ q. q.in_progress) e))),
  (
    (λ e. absurd (omega (arith, ap (λ q. q.active_workers) e))),
    ((λ e. absurd (omega (arith, ap (λ q. q.active_workers) e))), tt),
  ),
)
