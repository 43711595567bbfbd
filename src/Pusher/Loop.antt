-- ===== src/Pusher/Loop.antt =====
-- pushers/pusher.go: the loop of `run`, one case of its `select` at a time. What a push comes to is
-- an argument of the case that makes it: it is decided by the network and by the retries of
-- `utils.DoWithExpBackoffC`.
use edgedelta_lambda_extensi.Common.{
  ℕ, zero, suc, Bool, true, false, Option, none, some, List, [], ◌∷◌, ◌++◌, ℤ, take, drop,
  if◌then◌else◌,
}
use edgedelta_lambda_extensi.Text.Bytes.{Bytes}
use edgedelta_lambda_extensi.Pusher.Flush.{dropped_bytes}

-- The fields of `Pusher` that the loop reads.
pub record Conf : Type 0 where
  pub flush_at_next_invoke : Bool
  pub buffer_size : ℤ

-- The loop's `ctx`: one that is never done, or an invocation's, which is done from some moment on.
pub data Ctx : Type 0 where
  background live expired : Ctx

-- `panicked`: a goroutine of `utils.Go` panics again in its recovery, which ends the process.
pub data Phase : Type 0 where
  running returned panicked : Phase

pub record State : Type 0 where
  pub ctx : Ctx
  -- The channel `doneC`, by the number of its invocation; `none` is nil.
  pub done_c : Option ℕ
  pub buf : Bytes
  -- The payloads of the `Pusher.flush` goroutines whose response has not been received.
  pub flights : List Bytes
  pub phase : Phase

pub data Input : Type 0 where
  -- `b := <-p.inC`
  chunk : Bytes → Input
  -- `<-p.runtimeDoneC`, with the outcome of the immediate flush
  runtime_done : Bool → Input
  -- The deadline or the `cancel` of the invocation's context.
  expire : Input
  -- `<-ctx.Done()`, with the outcome of the push
  ctx_done : Bool → Input
  -- `inv := <-p.invokeC`
  invoke : ℕ → Input
  -- `failedPayload := <-flushRespC` from one of the goroutines, with the outcome of its push
  flush_resp : ℕ → Bool → Input
  -- `timeout := <-p.stopC`, with the outcome of the push
  stop : Bool → Input
  -- `forceFlushDoneC := <-p.forceFlushing`, with the outcome of the push
  force_flush : Bool → Input

pub data Output : Type 0 where
  -- A push of the loop itself, and whether it succeeded.
  push : Bytes → Bool → Output
  -- A push of a `Pusher.flush` goroutine.
  flush : Bytes → Bool → Output
  -- What a failed flush drops.
  drop_logs : Bytes → Output
  -- `doneC <- struct{}{}`
  signal_done : ℕ → Output
  -- `forceFlushDoneC <- success`
  answer : Bool → Output
  -- `p.stoppedC <- struct{}{}`
  stopped : Output

abbrev pub is_empty : Bytes → Bool
is_empty [] = true
is_empty (c ∷ s) = false

-- A blocking push of the buffer, if there is something in it.
unfoldable pub push_buffer : Bytes → Bool → List Output
push_buffer b ok = if is_empty b then [] else push b ok ∷ []

-- `if doneC != nil { doneC <- struct{}{} }`
unfoldable pub signal_if_set : Option ℕ → List Output
signal_if_set none = []
signal_if_set (some n) = signal_done n ∷ []

unfoldable pub on_runtime_done : Conf → Bool → State → State × List Output
unfolding push_buffer
on_runtime_done conf ok s = if conf.flush_at_next_invoke then (s, []) else elim s.ctx [
  | expired ↦ (record s { buf = [] }, push_buffer s.buf ok)
  | _ ↦
      if is_empty s.buf
      then (record s { buf = [] }, [])
      else (record s { buf = []; flights = s.flights ++ s.buf ∷ [] }, [])
]

-- The case is ready only when the context is done.
unfoldable pub on_ctx_done : Bool → State → State × List Output
unfolding push_buffer
on_ctx_done ok s = elim s.ctx [
  | expired ↦ (record s { buf = []; ctx = background }, push_buffer s.buf ok)
  | _ ↦ (s, [])
]

unfoldable pub on_invoke : Conf → ℕ → State → State × List Output
on_invoke conf n s =
    if conf.flush_at_next_invoke
    then if is_empty s.buf then (record s { ctx = live; done_c = none }, signal_done n ∷ []) else (
      record s { ctx = live; done_c = some n; buf = []; flights = s.flights ++ s.buf ∷ [] },
      [],
    )
    else (record s { ctx = live; done_c = some n }, [])

abbrev pub cons_pick : {A : Type 0} → A → Option (A × List A) → Option (A × List A)
cons_pick x none = none
cons_pick x (some (y, ys)) = some (y, x ∷ ys)

-- What one of some goroutines holds, and the other ones.
unfoldable pub pick : {A : Type 0} → ℕ → List A → Option (A × List A)
pick i [] = none
pick zero (x ∷ xs) = some (x, xs)
pick (suc i) (x ∷ xs) = cons_pick x (pick i xs)

-- The loop's case for a response that is put in front of the buffer.
unfoldable pub on_response : Bytes → List Bytes → State → State × List Output
unfolding signal_if_set
on_response failed rest s =
    (record s { buf = failed ++ s.buf; flights = rest; done_c = none }, signal_if_set s.done_c)

-- Messages in front of those of a case.
abbrev pub after : List Output → State × List Output → State × List Output
after sent r = (r.0, sent ++ r.1)

-- A failed flush, by what it drops.
unfoldable pub failed_flush : Option ℕ → Bytes → List Bytes → State → State × List Output
failed_flush none payload rest s = (record s { phase = panicked }, flush payload false ∷ [])
failed_flush (some n) payload rest s =
    after (flush payload false ∷ drop_logs (take n payload) ∷ [])
      (on_response (drop n payload) rest s)

-- The body of `flush` for one payload, and the loop's case for its response.
unfoldable pub finish_flush : Conf → Bool → Bytes → List Bytes → State → State × List Output
unfolding failed_flush on_response
finish_flush conf true payload rest s = after (flush payload true ∷ []) (on_response [] rest s)
finish_flush conf false payload rest s =
    failed_flush (dropped_bytes conf.buffer_size payload) payload rest s

unfoldable pub on_flush_resp : Conf → ℕ → Bool → State → State × List Output
on_flush_resp conf i ok s = elim (pick i s.flights) [
  | none ↦ (s, [])
  | some (payload, rest) ↦ finish_flush conf ok payload rest s
]

unfoldable pub on_stop : Bool → State → State × List Output
unfolding push_buffer signal_if_set
on_stop ok s = (
  record s { phase = returned },
  push_buffer s.buf ok ++ (signal_if_set s.done_c ++ stopped ∷ []),
)

-- The answer goes into a channel with room for one, so the `default` is not taken.
unfoldable pub on_force_flush : Bool → State → State × List Output
unfolding push_buffer
on_force_flush ok s =
    if is_empty s.buf
    then (s, answer true ∷ [])
    else (record s { buf = [] }, push s.buf ok ∷ answer ok ∷ [])

unfoldable pub on_expire : State → State × List Output
on_expire s = elim s.ctx [ live ↦ (record s { ctx = expired }, []) | _ ↦ (s, []) ]

unfoldable pub on_input : Conf → Input → State → State × List Output
on_input conf (chunk b) s = (record s { buf = s.buf ++ b }, [])
on_input conf (runtime_done ok) s = on_runtime_done conf ok s
on_input conf expire s = on_expire s
on_input conf (ctx_done ok) s = on_ctx_done ok s
on_input conf (invoke n) s = on_invoke conf n s
on_input conf (flush_resp i ok) s = on_flush_resp conf i ok s
on_input conf (stop ok) s = on_stop ok s
on_input conf (force_flush ok) s = on_force_flush ok s

abbrev pub is_running : Phase → Bool
is_running running = true
is_running _ = false

-- One case of the `select`; nothing is received when the loop has ended.
unfoldable pub step : Conf → Input → State → State × List Output
step conf i s = if is_running s.phase then on_input conf i s else (s, [])

-- What `run` starts from: its first context is cancelled only when it returns.
abbrev pub start : State
start = record { ctx = background; done_c = none; buf = []; flights = []; phase = running }

unfoldable pub run : Conf → List Input → State → State × List Output
run conf [] s = (s, [])
run conf (i ∷ is) s =
    let (s', sent) = step conf i s in let (s'', more) = run conf is s' in (s'', sent ++ more)
