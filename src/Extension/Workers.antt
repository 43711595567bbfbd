-- ===== src/Extension/Workers.antt =====
-- main.go: `NewWorker`, `Worker.Start` and the timeout of `Worker.Invoke`.
use edgedelta_lambda_extensi.Common.{
  ℕ, ◌+◌, ◌*◌, ◌-◌, ◌^◌, ◌≤◌, ◌<◌, ◌≡◌, Bool, false, some, List, [], ◌∷◌, ◌++◌, arith, ℤ, pos, ◌-ℤ◌,
  mul_int64, mul_int64_exact, map,
}
use edgedelta_lambda_extensi.Text.Bytes.{Bytes, codes}
use edgedelta_lambda_extensi.Cfg.Types.{Config}
use edgedelta_lambda_extensi.Processor.Loop.{Processor}
use edgedelta_lambda_extensi.Producer.Server.{Producer, ServerCall, new_producer, start}
use edgedelta_lambda_extensi.Extension.Wiring.{NewPusher, new_pusher, new_processor}
use edgedelta_lambda_extensi.Extension.Invocations.{InvokeEvent}

pub record Worker : Type 0 where
  pub extension_id : Bytes
  pub pusher : NewPusher
  pub processor : Processor
  pub producer : Producer
  pub stopping : Bool

-- The channels, which System.Steps has.
unfoldable pub new_worker : Config → Bytes → Worker
unfolding new_pusher new_processor new_producer
new_worker c id = record {
  extension_id = id;
  pusher = new_pusher (some c);
  processor = new_processor c;
  producer = new_producer;
  stopping = false;
}

pub data Started : Type 0 where
  -- A goroutine of `utils.Go`, by its name.
  goroutine : Bytes → Started
  server_call : ServerCall → Started

-- `Start` of the pusher and of the processor.
unfoldable pub start_pusher : List Started
start_pusher = goroutine (codes "Pusher.run") ∷ []

unfoldable pub start_processor : List Started
start_processor = goroutine (codes "LogProcessor.run") ∷ []

unfoldable pub start_worker : Worker → Worker × List Started
unfolding start start_pusher start_processor
start_worker w =
    let (producer, calls) = start w.producer in
    (record w { producer = producer }, start_pusher ++ (start_processor ++ map server_call calls))

-- 50 ms, in nanoseconds.
abbrev invocation_timeout_grace_period : ℕ
invocation_timeout_grace_period = 50_000_000

-- The timeout of an invocation, in nanoseconds, by the clock in milliseconds.
unfoldable pub invocation_timeout : InvokeEvent → ℤ → ℤ
invocation_timeout e now =
    mul_int64 (e.deadline_ms -ℤ now) 1_000_000 -ℤ pos invocation_timeout_grace_period

-- The timeout of the context of `ForceFlush` behind a deadline: 200 ms.
abbrev pub force_flush_timeout : ℕ
force_flush_timeout = 200_000_000

difference : (n k : ℕ) → pos (n + k) -ℤ pos n ≡ pos k
unfolding ◌-ℤ◌
difference n k = ground arith

-- With `left` milliseconds to the deadline of Lambda, 50 or more and without overflow, a forced flush
-- can take until 150 ms behind that deadline.
pub force_flush_overruns :
    (e : InvokeEvent) (now left : ℕ)
    → e.deadline_ms ≡ pos (now + left)
    → 50 ≤ left
    → left * 1_000_000 < 2 ^ 63
    → (t : ℕ) × (invocation_timeout e (pos now) ≡ pos t)
      × (t + force_flush_timeout ≡ left * 1_000_000 + 150_000_000)
unfolding invocation_timeout
force_flush_overruns e now left at early fits =
    let exact = mul_int64_exact left 1_000_000 (omega arith) fits in
    (
      left * 1_000_000 - 50_000_000,
      rw (at, difference now left, exact) (unfold ◌-ℤ◌ in ground arith),
      omega arith,
    )
