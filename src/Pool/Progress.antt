-- ===== src/Pool/Progress.antt =====
-- Progress of the pool of utils/pool.go.
use edgedelta_lambda_extensi.Common.{
  ℕ, zero, suc, ◌^◌, ◌<◌, ◌≡◌, refl, true, some, List, [], ◌∷◌, arith, ltb, Bool-cases, inl, inr,
  map,
}
use edgedelta_lambda_extensi.Pool.Steps.{
  Job, waiting, entered, working, leaving, released, finished, Pool, new_worker_pool, get_elem?,
  advance_job, advance, Move, advance_at, step, run, wait_returns,
}
use edgedelta_lambda_extensi.Pool.Invariant.{
  holds, open_job, sum_of, sum_of-set, Inv, run-Inv, advance-Inv, advance-limit, new-Inv, limit-run,
}

-- The steps that a job has left.
abbrev pub steps_left : Job → ℕ
steps_left waiting = 5
steps_left entered = 4
steps_left working = 3
steps_left leaving = 2
steps_left released = 1
steps_left finished = 0

find_positive :
    (f : Job → ℕ) (js : List Job)
    → 0 < sum_of f js
    → (i : ℕ) × (j : Job) × (get_elem? js i ≡ some j) × (0 < f j)
unfolding sum_of
find_positive f [] h = absurd (omega arith)
find_positive f (x ∷ js) h = elim (Bool-cases (ltb 0 (f x))) [
  | inl e ↦ (0, x, refl, ground arith)
  | inr e ↦ let (i, j, at, pos) = find_positive f js (ground arith) in (suc i, j, at, pos)
]

-- The jobs that can make a step.
abbrev pub CanMove : Pool → Job → Type 0
CanMove p waiting = p.active_workers < p.limit
CanMove p finished = ⊥
CanMove p _ = Unit

unfoldable pub left_over : Pool → ℕ
left_over p = sum_of steps_left p.jobs

advance_job-left :
    (i : ℕ) (j : Job) (p : Pool)
    → get_elem? p.jobs i ≡ some j
    → CanMove p j
    → left_over (advance_job i j p) < left_over p
unfolding advance_job left_over
advance_job-left i waiting p at h =
    ground (arith, sum_of-set steps_left p.jobs i waiting entered at)
advance_job-left i entered p at h = omega (arith, sum_of-set steps_left p.jobs i entered working at)
advance_job-left i working p at h = omega (arith, sum_of-set steps_left p.jobs i working leaving at)
advance_job-left i leaving p at h =
    omega (arith, sum_of-set steps_left p.jobs i leaving released at)
advance_job-left i released p at h =
    omega (arith, sum_of-set steps_left p.jobs i released finished at)
advance_job-left i finished p at h = absurd h

pub advance-left :
    (i : ℕ) (j : Job) (p : Pool)
    → get_elem? p.jobs i ≡ some j
    → CanMove p j
    → left_over (advance i p) < left_over p
unfolding advance
advance-left i j p at h = rw (at, advance) (advance_job-left i j p at h)

-- A job that holds a slot can make a step.
holder_moves : (p : Pool) (j : Job) → 0 < holds j → CanMove p j
holder_moves p waiting h = absurd (omega arith)
holder_moves p finished h = absurd (omega arith)
holder_moves p _ h = tt

-- Some job can make a step, if one is not finished.
pub some_move :
    (p : Pool) → Inv p → 0 < p.limit → 0 < p.wg → (i : ℕ) × (left_over (advance i p) < left_over p)
some_move p inv room busy =
    let (i, j, at, unfinished) = find_positive open_job p.jobs (omega arith) in
    move i j at unfinished
  where
    move :
        (i : ℕ) (j : Job)
        → get_elem? p.jobs i ≡ some j
        → 0 < open_job j
        → (i : ℕ) × (left_over (advance i p) < left_over p)
    move i waiting at unfinished = elim (Bool-cases (ltb p.active_workers p.limit)) [
      | inl e ↦ (i, advance-left i waiting p at (ground arith))
      | inr e ↦
          let (k, j, there, held) = find_positive holds p.jobs (ground arith) in
          (k, advance-left k j p there (holder_moves p j held))
    ]
    move i finished at unfinished = absurd (omega arith)
    move i entered at unfinished = (i, advance-left i entered p at tt)
    move i working at unfinished = (i, advance-left i working p at tt)
    move i leaving at unfinished = (i, advance-left i leaving p at tt)
    move i released at unfinished = (i, advance-left i released p at tt)

drains :
    (k : ℕ) (p : Pool)
    → left_over p < k
    → Inv p
    → 0 < p.limit
    → (is : List ℕ) × (wait_returns (run (map advance_at is) p) ≡ true)
unfolding run step wait_returns
drains zero p h inv room = absurd (omega arith)
drains (suc k) p h inv room = elim (Bool-cases (ltb 0 p.wg)) [
  | inl e ↦
      let (i, less) = some_move p inv room (ground arith) in
      let (is, done) =
        drains k (advance i p) (omega arith) (advance-Inv i p inv)
          (omega (arith, advance-limit i p)) in
      (i ∷ is, done)
  | inr e ↦ ([], ground arith)
]

-- For a pool with at least one slot and fewer than 2 ^ 31: from every state of every interleaving
-- the jobs that are there can go on until Wait returns, so no state is a deadlock.
pub pool_drains :
    (ms : List Move) (limit : ℕ)
    → limit < 2 ^ 31
    → 0 < limit
    → let p = run ms (new_worker_pool limit) in
      (is : List ℕ) × (wait_returns (run (map advance_at is) p) ≡ true)
pool_drains ms limit h room =
    let p = run ms (new_worker_pool limit) in
    drains (suc (left_over p)) p (omega arith) (run-Inv ms _ (new-Inv limit h))
      (omega (arith, limit-run ms limit))
