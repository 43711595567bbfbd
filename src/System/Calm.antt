-- ===== src/System/Calm.antt =====
-- What holds until an invocation reaches its deadline, in the mode that flushes at the end of the runtime.
pub mod Parts
pub mod Moves
use edgedelta_lambda_extensi.Common.{
  ℕ, zero, suc, ◌+◌, ◌≤◌, ◌<◌, ◌≡◌, ◌⊎◌, inl, inr, refl, pos, Bool, true, false, Option, none, some,
  List, [], ◌∷◌, ◌++◌, arith, length, length-append, if◌then◌else◌, ◌==◌, Option-cases,
}
use edgedelta_lambda_extensi.Text.Bytes.{Bytes, bytes_eq}
use edgedelta_lambda_extensi.Host.{Host}
use edgedelta_lambda_extensi.Lambda.Events.{LambdaEvent}
use edgedelta_lambda_extensi.Processor.Types.{Globals}
use edgedelta_lambda_extensi.Processor.Loop.{
  Processor, State as ProcessorState, events, handle_platform_event, Batch, run_batch,
  Output as Sent, out, signal_runtime_done, stopped, step as step_processor,
  invoke as set_invocation, finish_batch, set_request_id,
}
use edgedelta_lambda_extensi.Processor.Batches.{last_platform, flag, run_batch-flag, run_batch-faas}
use edgedelta_lambda_extensi.Pusher.Loop.{
  Conf, State as PusherState, Input, chunk, runtime_done, ctx_done, flush_resp, invoke, running,
  Output, step as step_pusher, on_input, on_runtime_done, on_ctx_done, on_invoke, on_flush_resp,
  pick, finish_flush, failed_flush, on_response, signal_if_set, push_buffer, on_expire, start,
}
use edgedelta_lambda_extensi.Pusher.Failures.{dropped_bytes-some}
use edgedelta_lambda_extensi.System.Steps.{
  Worker, idle, invoking_pusher, invoking_processor, waiting, forcing, System, Move, deliver, pass,
  call, enter_pusher, enter_processor, finish, deadline, see_deadline, respond, take_force, leave,
  is_nil, blocking, push_input, processor_input, to_pusher, pass_on, step_worker, finish_with, step,
  run,
}

-- 1 for a request that is current.
abbrev pub id_weight : Bytes → ℕ
id_weight [] = 0
id_weight (c ∷ s) = 1

unfoldable pub signal_count : List Sent → ℕ
signal_count [] = 0
signal_count (out b ∷ os) = signal_count os
signal_count (signal_runtime_done ∷ os) = suc (signal_count os)
signal_count (stopped ∷ os) = signal_count os

unfoldable pub no_stop : List Sent → Bool
no_stop [] = true
no_stop (out b ∷ os) = no_stop os
no_stop (signal_runtime_done ∷ os) = no_stop os
no_stop (stopped ∷ os) = false

-- How many ends of an invocation can be on their way.
abbrev pub capacity : Worker → ℕ
capacity (waiting n) = 1
capacity _ = 0

-- The pusher knows whom to tell, or is about to; between two invocations it tells no one.
abbrev pub Answered : Worker → List ℕ → Option ℕ → Type 0
Answered (invoking_processor n id) ts d = d ≡ some n
Answered (waiting n) ts d = ((ts ≡ []) × (d ≡ some n)) ⊎ ((ts ≡ n ∷ []) × (d ≡ none))
Answered forcing ts d = ⊥
Answered _ ts d = d ≡ none

-- The end of an invocation is on its way at most once: as a current request, as a signal of the
-- processor, as a flush, or as an answer of the pusher.
abbrev pub load : System → ℕ
load s =
    id_weight s.processor.globals.faas.request_id
    + signal_count s.sending
    + length s.pusher.flights
    + length s.telling

pub record Calm (s : System) : Type 0 where
  pub processor_runs : s.processor.running ≡ true
  pub flag_clear : s.processor.runtime_done ≡ false
  pub pusher_runs : s.pusher.phase ≡ running
  pub once : load s ≤ capacity s.worker
  pub answer : Answered s.worker s.telling s.pusher.done_c
  pub passable : no_stop s.sending ≡ true
  pub not_forced : s.force_requested ≡ false

-- The system before the first invocation, whose globals are those of the start of the processor's loop.
abbrev pub initial : Globals → System
initial g = record {
  worker = idle;
  processor = record { globals = g; runtime_done = false; running = true };
  sending = [];
  pusher = start;
  telling = [];
  force_requested = false;
  arrivals = [];
  inputs = [];
  outputs = [];
}

pub initial-Calm : (g : Globals) → g.faas.request_id ≡ [] → Calm (initial g)
unfolding signal_count no_stop
initial-Calm g h = ground arith
