-- ===== src/Pool/Steps.antt =====
-- utils/pool.go: the pool, and one step of one of its goroutines.
use edgedelta_lambda_extensi.Common.{
  ℕ, zero, suc, ◌+◌, ◌-◌, ◌%◌, ◌^◌, Bool, Option, none, some, List, [], ◌∷◌, ◌++◌, ltb, ◌==◌,
  if◌then◌else◌,
}

-- Where the goroutine of a job stands.
pub data Job : Type 0 where
  -- In front of `p.activeWorkers <- struct{}{}`.
  waiting : Job
  -- In front of `atomic.AddInt32(&p.inProgress, 1)`.
  entered : Job
  -- In `fn`.
  working : Job
  -- In front of `<-p.activeWorkers`.
  leaving : Job
  -- In front of `p.wg.Done()`.
  released : Job
  finished : Job

pub record Pool : Type 0 where
  pub limit : ℕ
  -- How many values the channel `activeWorkers` holds.
  pub active_workers : ℕ
  -- The bits of the int32.
  pub in_progress : ℕ
  -- The counter of the wait group.
  pub wg : ℕ
  pub jobs : List Job

-- A limit that is not negative; `make` panics with a negative one.
unfoldable pub new_worker_pool : ℕ → Pool
new_worker_pool limit = record {
  limit = limit;
  active_workers = 0;
  in_progress = 0;
  wg = 0;
  jobs = [];
}

-- `Execute`: the goroutine is created behind `p.wg.Add(1)`.
unfoldable pub execute : Pool → Pool
execute p = record p { wg = p.wg + 1; jobs = p.jobs ++ waiting ∷ [] }

abbrev pub get_elem? : List Job → ℕ → Option Job
get_elem? [] i = none
get_elem? (x ∷ xs) zero = some x
get_elem? (x ∷ xs) (suc i) = get_elem? xs i

abbrev pub set : List Job → ℕ → Job → List Job
set [] i v = []
set (x ∷ xs) zero v = v ∷ xs
set (x ∷ xs) (suc i) v = x ∷ set xs i v

-- The next step of job `i`. A send into the full channel waits, so nothing happens.
unfoldable pub advance_job : ℕ → Job → Pool → Pool
advance_job i waiting p =
    if ltb p.active_workers p.limit
    then record p { active_workers = p.active_workers + 1; jobs = set p.jobs i entered }
    else p
advance_job i entered p = record p {
  in_progress = (p.in_progress + 1) % 2 ^ 32;
  jobs = set p.jobs i working;
}
advance_job i working p = record p {
  in_progress = (p.in_progress + (2 ^ 32 - 1)) % 2 ^ 32;
  jobs = set p.jobs i leaving;
}
advance_job i leaving p = record p {
  active_workers = p.active_workers - 1;
  jobs = set p.jobs i released;
}
advance_job i released p = record p { wg = p.wg - 1; jobs = set p.jobs i finished }
advance_job i finished p = p

unfoldable pub advance : ℕ → Pool → Pool
advance i p = elim (get_elem? p.jobs i) [ none ↦ p | some j ↦ advance_job i j p ]

pub data Move : Type 0 where
  call_execute : Move
  advance_at : ℕ → Move

unfoldable pub step : Move → Pool → Pool
step call_execute p = execute p
step (advance_at i) p = advance i p

-- Any interleaving.
unfoldable pub run : List Move → Pool → Pool
run [] p = p
run (m ∷ ms) p = run ms (step m p)

-- `Wait` returns.
unfoldable pub wait_returns : Pool → Bool
wait_returns p = p.wg == 0
