-- ===== src/Extension/Invocations.antt =====
-- main.go: the loop of `handleInvocations`, and `Worker.Stop`.
use edgedelta_lambda_extensi.Common.{
  ℕ, ◌+◌, ◌-◌, ◌*◌, ◌/◌, ◌≤◌, ◌≡◌, refl, Bool, true, false, Option, none, some, List, [], ◌∷◌, ◌++◌,
  arith, ℤ, pos, ◌-ℤ◌, quot_ℤ, mul_int64, if◌then◌else◌, All,
}
use edgedelta_lambda_extensi.Text.Bytes.{Bytes}

pub record Tracing : Type 0 where
  pub type : Bytes
  pub value : Bytes

pub record InvokeEvent : Type 0 where
  pub deadline_ms : ℤ
  pub request_id : Bytes
  pub invoked_function_arn : Bytes
  pub tracing : Tracing

pub record ShutdownEvent : Type 0 where
  pub deadline_ms : ℤ
  pub shutdown_reason : Bytes

-- What `NextEvent` and the parser of its body come to; `none` is a body that cannot be parsed. The
-- number is the clock, in milliseconds, when the shutdown is handled.
pub data Next : Type 0 where
  no_event : Next
  invoke : Option InvokeEvent → Next
  shutdown : Option ShutdownEvent → ℤ → Next
  unexpected : Next

pub data Call : Type 0 where
  -- `worker.Invoke`
  invoke_worker : InvokeEvent → Call
  -- `worker.Stop`, with its timeout in nanoseconds
  stop_worker : ℤ → Call
  -- `stop <- struct{}{}`
  send_stop : Call

unfoldable pub until_deadline : ShutdownEvent → ℤ → ℤ
until_deadline e now = mul_int64 (e.deadline_ms -ℤ now) 1_000_000

unfoldable pub handle_invocations : List Next → List Call
unfolding until_deadline
handle_invocations [] = []
handle_invocations (no_event ∷ rest) = []
handle_invocations (invoke (some e) ∷ rest) = invoke_worker e ∷ handle_invocations rest
handle_invocations (invoke none ∷ rest) = handle_invocations rest
handle_invocations (shutdown (some e) now ∷ rest) =
    stop_worker (until_deadline e now) ∷ send_stop ∷ []
handle_invocations (shutdown none now ∷ rest) = handle_invocations rest
handle_invocations (unexpected ∷ rest) = handle_invocations rest

-- Whether the loop goes on behind an event.
abbrev pub GoesOn : Next → Type 0
GoesOn no_event = ⊥
GoesOn (shutdown (some e) now) = ⊥
GoesOn _ = Unit

-- The invocations among some events.
unfoldable pub invocations : List Next → List Call
invocations [] = []
invocations (invoke (some e) ∷ rest) = invoke_worker e ∷ invocations rest
invocations (_ ∷ rest) = invocations rest

-- Up to the first shutdown that can be parsed, and if no call of NextEvent fails before it, the worker is
-- invoked for every invocation that can be parsed, in order, whatever stands between them; the worker
-- is then stopped once, with the time that is left, the end is signalled, and nothing follows.
pub handle_invocations_lem :
    (before after : List Next) (e : ShutdownEvent) (now : ℤ)
    → All GoesOn before
    → handle_invocations (before ++ shutdown (some e) now ∷ after)
      ≡ invocations before ++ stop_worker (until_deadline e now) ∷ send_stop ∷ []
unfolding handle_invocations invocations
handle_invocations_lem [] after e now h = refl
handle_invocations_lem (invoke (some i) ∷ before) after e now (h, hs) =
    λ k. invoke_worker i ∷ handle_invocations_lem before after e now hs k
handle_invocations_lem (invoke none ∷ before) after e now (h, hs) =
    handle_invocations_lem before after e now hs
handle_invocations_lem (shutdown none m ∷ before) after e now (h, hs) =
    handle_invocations_lem before after e now hs
handle_invocations_lem (shutdown (some i) m ∷ before) after e now (h, hs) = absurd h
handle_invocations_lem (no_event ∷ before) after e now (h, hs) = absurd h
handle_invocations_lem (unexpected ∷ before) after e now (h, hs) =
    handle_invocations_lem before after e now hs

-- What `Worker.Stop` does, durations in nanoseconds.
pub data StopStep : Type 0 where
  sleep : ℤ → StopStep
  shutdown_producer : ℤ → StopStep
  stop_processor : StopStep
  -- `w.pusher.Stop`, with the deadline behind the start of the stop
  stop_pusher : ℤ → StopStep

-- The arguments are the timeout and the flag `stopping`; the results are what is returned, the flag,
-- and the steps.
unfoldable pub stop : ℤ → Bool → Bool × Bool × List StopStep
stop timeout stopping =
    if stopping
    then (false, true, [])
    else let t = timeout -ℤ pos 20_000_000 in
      (
        true,
        true,
        sleep (quot_ℤ t 3) ∷ shutdown_producer (quot_ℤ t 4) ∷ stop_processor ∷ stop_pusher t ∷ [],
      )

-- The calls of several goroutines, in the order of their compare-and-swap.
unfoldable pub stop_all : List ℤ → Bool → List (List StopStep)
stop_all [] stopping = []
stop_all (t ∷ ts) stopping =
    let (returned, flag, steps) = stop t stopping in
    if returned then steps ∷ stop_all ts flag else stop_all ts flag

-- Behind the first stop the others do nothing.
stop_all-stopping : (ts : List ℤ) → stop_all ts true ≡ []
unfolding stop_all stop
stop_all-stopping [] = refl
stop_all-stopping (t ∷ ts) = stop_all-stopping ts

-- However often the worker is stopped, and by whom, only the first call runs the steps of a stop. With
-- a timeout of 20 ms or more, the pusher's deadline is 20 ms before that of the call, and the sleep and
-- the shutdown of the producer take at most seven twelfths of the time to it.
pub stop_once :
    (n : ℕ) (ts : List ℤ)
    → 20_000_000 ≤ n
    → (slept : ℕ) × (closing : ℕ) × (left : ℕ) × (stop_all (pos n ∷ ts) false
        ≡ (sleep (pos slept)
            ∷ shutdown_producer (pos closing)
            ∷ stop_processor
            ∷ stop_pusher (pos left)
            ∷ [])
          ∷ [])
      × (left + 20_000_000 ≡ n)
      × ((slept + closing) * 12 ≤ left * 7)
unfolding stop_all stop quot_ℤ ◌-ℤ◌
stop_once n ts h = (
  (n - 20_000_000) / 3,
  (n - 20_000_000) / 4,
  n - 20_000_000,
  ground (arith, stop_all-stopping ts),
  omega arith,
  omega arith,
)
