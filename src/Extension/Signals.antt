-- ===== src/Extension/Signals.antt =====
-- main.go: `waitSignals`, and what `main` does with the result of the start.
use edgedelta_lambda_extensi.Common.{ℕ, Bool, true, ◌≡◌, refl, List, [], ◌∷◌, pos, if◌then◌else◌}
use edgedelta_lambda_extensi.Text.Bytes.{Bytes}
use edgedelta_lambda_extensi.Cfg.Types.{Config}
use edgedelta_lambda_extensi.Extension.Types.{Ending, started, failed, panicked}
use edgedelta_lambda_extensi.Extension.Start.{kill_timeout}
use edgedelta_lambda_extensi.Extension.Invocations.{StopStep, stop}

pub data Halt : Type 0 where
  -- `cancel()`, which ends the call of NextEvent
  cancelled : Halt
  -- `worker.Stop`, where it is the first one
  stopped_worker : List StopStep → Halt
  -- `time.Sleep`, in nanoseconds
  slept : ℕ → Halt
  -- `stop <- struct{}{}`
  sent_stop : Halt

-- Behind a signal; the argument is the worker's flag `stopping`.
unfoldable pub wait_signals : Bool → List Halt
unfolding stop
wait_signals stopping =
    let (first, flag, steps) = stop (pos kill_timeout) stopping in
    cancelled ∷ (if first then stopped_worker steps else slept kill_timeout) ∷ sent_stop ∷ []

pub data Process : Type 0 where
  exited : ℕ → Process
  -- the two goroutines run, and `main` waits on `stop`
  waiting : Config → Bytes → Process

-- An uncaught panic ends a Go process with the code 2.
unfoldable pub run_main : Ending → Process
run_main (started c id) = waiting c id
run_main failed = exited 1
run_main panicked = exited 2

-- A signal behind a shutdown only waits.
late_signal_test : wait_signals true ≡ cancelled ∷ slept kill_timeout ∷ sent_stop ∷ []
unfolding wait_signals
late_signal_test = refl
