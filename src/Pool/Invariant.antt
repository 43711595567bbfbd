-- ===== src/Pool/Invariant.antt =====
-- The counters of the pool of utils/pool.go, against where its jobs stand.
use edgedelta_lambda_extensi.Common.{
  ℕ, zero, suc, ◌+◌, ◌^◌, ◌≤◌, ◌<◌, ◌≡◌, refl, true, some, List, [], ◌∷◌, ◌++◌, arith, Option-cases,
  inl, inr,
}
use edgedelta_lambda_extensi.Common.{All, ◌∙◌}
use edgedelta_lambda_extensi.Pool.Steps.{
  Job, waiting, entered, working, leaving, released, finished, Pool, new_worker_pool, execute,
  get_elem?, set, advance_job, advance, Move, call_execute, advance_at, step, run, wait_returns,
}

-- How many jobs hold a slot, are counted, and are not finished.
abbrev pub holds : Job → ℕ
holds entered = 1
holds working = 1
holds leaving = 1
holds _ = 0

abbrev pub counted : Job → ℕ
counted working = 1
counted _ = 0

abbrev pub open_job : Job → ℕ
open_job finished = 0
open_job _ = 1

unfoldable pub sum_of : (Job → ℕ) → List Job → ℕ
sum_of f [] = 0
sum_of f (j ∷ js) = f j + sum_of f js

sum_of-snoc : (f : Job → ℕ) (js : List Job) (j : Job) → sum_of f (js ++ j ∷ []) ≡ sum_of f js + f j
unfolding sum_of
sum_of-snoc f [] j = omega arith
sum_of-snoc f (x ∷ js) j = omega (arith, sum_of-snoc f js j)

pub sum_of-set :
    (f : Job → ℕ) (js : List Job) (i : ℕ) (j j' : Job)
    → get_elem? js i ≡ some j
    → sum_of f (set js i j') + f j ≡ sum_of f js + f j'
unfolding sum_of
sum_of-set f [] i j j' h = cc
sum_of-set f (x ∷ js) zero j j' h = ground arith
sum_of-set f (x ∷ js) (suc i) j j' h = omega (arith, sum_of-set f js i j j' h)

counted-le-holds : (js : List Job) → sum_of counted js ≤ sum_of holds js
unfolding sum_of
counted-le-holds [] = omega arith
counted-le-holds (j ∷ js) = ground (arith, counted-le-holds js)

holds-le-open : (js : List Job) → sum_of holds js ≤ sum_of open_job js
unfolding sum_of
holds-le-open [] = omega arith
holds-le-open (j ∷ js) = ground (arith, holds-le-open js)

pub record Inv (p : Pool) : Type 0 where
  pub slots : p.active_workers ≡ sum_of holds p.jobs
  pub capped : p.active_workers ≤ p.limit
  pub progress : p.in_progress ≡ sum_of counted p.jobs
  pub group : p.wg ≡ sum_of open_job p.jobs
  pub small : p.limit < 2 ^ 31

advance_job-Inv :
    (i : ℕ) (j : Job) (p : Pool) → get_elem? p.jobs i ≡ some j → Inv p → Inv (advance_job i j p)
unfolding advance_job
advance_job-Inv i waiting p at h = ground (
  arith,
  sum_of-set holds p.jobs i waiting entered at,
  sum_of-set counted p.jobs i waiting entered at,
  sum_of-set open_job p.jobs i waiting entered at,
)
advance_job-Inv i entered p at h = ground (
  arith,
  sum_of-set holds p.jobs i entered working at,
  sum_of-set counted p.jobs i entered working at,
  sum_of-set open_job p.jobs i entered working at,
  counted-le-holds p.jobs,
)
advance_job-Inv i working p at h = ground (
  arith,
  sum_of-set holds p.jobs i working leaving at,
  sum_of-set counted p.jobs i working leaving at,
  sum_of-set open_job p.jobs i working leaving at,
  counted-le-holds p.jobs,
)
advance_job-Inv i leaving p at h = ground (
  arith,
  sum_of-set holds p.jobs i leaving released at,
  sum_of-set counted p.jobs i leaving released at,
  sum_of-set open_job p.jobs i leaving released at,
)
advance_job-Inv i released p at h = ground (
  arith,
  sum_of-set holds p.jobs i released finished at,
  sum_of-set counted p.jobs i released finished at,
  sum_of-set open_job p.jobs i released finished at,
)
advance_job-Inv i finished p at h = h

pub advance-Inv : (i : ℕ) (p : Pool) → Inv p → Inv (advance i p)
unfolding advance
advance-Inv i p h = elim (Option-cases (get_elem? p.jobs i)) [
  | inl e ↦ rw (e, advance) h
  | inr (j, e) ↦ rw (e, advance) (advance_job-Inv i j p e h)
]

execute-Inv : (p : Pool) → Inv p → Inv (execute p)
unfolding execute
execute-Inv p h = ground (
  arith,
  sum_of-snoc holds p.jobs waiting,
  sum_of-snoc counted p.jobs waiting,
  sum_of-snoc open_job p.jobs waiting,
)

pub run-Inv : (ms : List Move) (p : Pool) → Inv p → Inv (run ms p)
unfolding run step
run-Inv [] p h = h
run-Inv (call_execute ∷ ms) p h = run-Inv ms (execute p) (execute-Inv p h)
run-Inv (advance_at i ∷ ms) p h = run-Inv ms (advance i p) (advance-Inv i p h)

pub new-Inv : (limit : ℕ) → limit < 2 ^ 31 → Inv (new_worker_pool limit)
unfolding new_worker_pool sum_of
new-Inv limit h = ground arith

advance_job-limit : (i : ℕ) (j : Job) (p : Pool) → (advance_job i j p).limit ≡ p.limit
unfolding advance_job
advance_job-limit i waiting p = ground arith
advance_job-limit i _ p = refl

pub advance-limit : (i : ℕ) (p : Pool) → (advance i p).limit ≡ p.limit
unfolding advance
advance-limit i p = elim (Option-cases (get_elem? p.jobs i)) [
  | inl e ↦ rw (e, advance)
  | inr (j, e) ↦ rw (e, advance) (advance_job-limit i j p)
]

pub run-limit : (ms : List Move) (p : Pool) → (run ms p).limit ≡ p.limit
unfolding run step execute
run-limit [] p = refl
run-limit (call_execute ∷ ms) p = run-limit ms (execute p)
run-limit (advance_at i ∷ ms) p = run-limit ms (advance i p) ∙ advance-limit i p

pub limit-run : (ms : List Move) (limit : ℕ) → (run ms (new_worker_pool limit)).limit ≡ limit
limit-run ms limit = run-limit ms _ ∙ (unfold new_worker_pool in refl)

-- In every interleaving of a pool with a limit below 2 ^ 31, the number that InProgress returns is
-- the number of jobs at work, and is at most the limit.
pub in_progress-le-limit :
    (ms : List Move) (limit : ℕ)
    → limit < 2 ^ 31
    → let p = run ms (new_worker_pool limit) in
      (p.in_progress ≡ sum_of counted p.jobs) × (p.in_progress ≤ limit)
in_progress-le-limit ms limit h =
    let inv = run-Inv ms _ (new-Inv limit h) in
    let bound : (run ms (new_worker_pool limit)).limit ≡ limit =
      run-limit ms _ ∙ (unfold new_worker_pool in refl) in
    omega (arith, counted-le-holds (run ms (new_worker_pool limit)).jobs)

All-finished : (js : List Job) → sum_of open_job js ≡ 0 → All (λ j. j ≡ finished) js
unfolding sum_of
All-finished [] h = tt
All-finished (j ∷ js) h = ground (arith, All-finished js)

-- For a pool with fewer than 2 ^ 31 slots: when Wait returns, in every interleaving, all the jobs
-- have finished, all slots are free, and none is in progress.
pub wait_means_finished :
    (ms : List Move) (limit : ℕ)
    → limit < 2 ^ 31
    → wait_returns (run ms (new_worker_pool limit)) ≡ true
    → let p = run ms (new_worker_pool limit) in
      All (λ j. j ≡ finished) p.jobs × (p.active_workers ≡ 0) × (p.in_progress ≡ 0)
unfolding wait_returns
wait_means_finished ms limit h w =
    let inv = run-Inv ms _ (new-Inv limit h) in
    let js = (run ms (new_worker_pool limit)).jobs in
    let none_open : sum_of open_job js ≡ 0 = ground arith in
    (
      All-finished js none_open,
      omega (arith, holds-le-open js),
      omega (arith, holds-le-open js, counted-le-holds js),
    )
