-- ===== src/Processor/Loop.antt =====
-- pushers/processor.go: the processor and the loop of `run`, one case of its `select` at a time.
use edgedelta_lambda_extensi.Common.{
  Bool, true, false, Option, none, some, List, [], ◌∷◌, ◌++◌, if◌then◌else◌, Result, ok,
}
use edgedelta_lambda_extensi.Text.Bytes.{Bytes, bytes_eq}
use edgedelta_lambda_extensi.Text.Table.{Table}
use edgedelta_lambda_extensi.Text.Records.{sep}
use edgedelta_lambda_extensi.Json.Value.{as_map}
use edgedelta_lambda_extensi.Host.{Host}
use edgedelta_lambda_extensi.Lambda.Events.{EventType, LambdaEvent, function, platform_runtime_done}
use edgedelta_lambda_extensi.Processor.Types.{Globals, Cloud, EventError}
use edgedelta_lambda_extensi.Processor.Events.{request_id_of, process}

pub record Processor : Type 0 where
  pub tags : Table Bytes
  pub cloud : Cloud
  pub host_arch : Bytes
  pub process_runtime : Bytes
  pub memory_size : Bytes

abbrev pub is_function : EventType → Bool
is_function function = true
is_function _ = false

abbrev pub is_runtime_done : EventType → Bool
is_runtime_done platform_runtime_done = true
is_runtime_done _ = false

-- Whether an event's `requestId` is a given one.
unfoldable pub names_request : LambdaEvent → Bytes → Bool
names_request e request_id = elim (as_map e.content) [
  | none ↦ false
  | some content ↦ elim (request_id_of content) [ none ↦ false | some id ↦ bytes_eq id request_id ]
]

unfoldable pub handle_platform_event : LambdaEvent → Bytes → Bool
handle_platform_event e request_id =
    if bytes_eq request_id []
    then false
    else if is_runtime_done e.event_type
    then names_request e request_id
    else false

-- The variables of `run` while it goes through a batch.
pub record Batch : Type 0 where
  pub buf : Bytes
  pub globals : Globals
  pub runtime_done : Bool

-- What a result adds to the buffer.
unfoldable pub line_of : Result EventError (Option Bytes) → Bytes
line_of (ok (some b)) = b ++ sep ∷ []
line_of _ = []

-- What the loop of `run` holds between two cases.
pub record State : Type 0 where
  pub globals : Globals
  pub runtime_done : Bool
  pub running : Bool

pub data Input : Type 0 where
  -- `events := <-p.inC`
  events : List LambdaEvent → Input
  -- `r := <-p.invokeC`
  invoke : Bytes → Input
  -- `<-p.stopC`, with the batches that the closed channel still holds
  stop : List (List LambdaEvent) → Input

pub data Output : Type 0 where
  -- `p.outC <- b`
  out : Bytes → Output
  -- `p.runtimeDoneC <- struct{}{}`
  signal_runtime_done : Output
  -- `p.stoppedC <- struct{}{}`
  stopped : Output

unfoldable pub set_request_id : Bytes → Globals → Globals
set_request_id id g = record g { faas = record g.faas { request_id = id } }

module _ (host : Host) (p : Processor) where
  -- `process` and the append to the buffer.
  unfoldable pub process_into : LambdaEvent → Batch → Batch
  process_into e b =
      let r = process host p.cloud p.host_arch p.process_runtime e b.globals in
      record b { buf = b.buf ++ line_of r.0; globals = r.1 }

  -- The assignment to `runtimeDone` in front of `process`.
  unfoldable pub flag_event : LambdaEvent → Batch → Batch
  flag_event e b = record b {
    runtime_done =
        if is_function e.event_type
        then b.runtime_done
        else handle_platform_event e b.globals.faas.request_id;
  }

  -- One round of the loop over a batch.
  unfoldable pub batch_event : LambdaEvent → Batch → Batch
  unfolding process_into flag_event
  batch_event e b = process_into e (flag_event e b)

  unfoldable pub run_batch : List LambdaEvent → Batch → Batch
  run_batch [] b = b
  run_batch (e ∷ es) b = run_batch es (batch_event e b)

  unfoldable pub drain_batch : List LambdaEvent → Batch → Batch
  drain_batch [] b = b
  drain_batch (e ∷ es) b = drain_batch es (process_into e b)

  unfoldable pub drain : List (List LambdaEvent) → Batch → Batch
  unfolding drain_batch
  drain [] b = b
  drain (es ∷ rest) b = drain rest (drain_batch es b)

  -- What `run` does behind a batch.
  unfoldable pub finish_batch : Batch → State × List Output
  finish_batch b =
      if b.runtime_done
      then (
        record { globals = set_request_id [] b.globals; runtime_done = false; running = true },
        out b.buf ∷ signal_runtime_done ∷ [],
      )
      else (record { globals = b.globals; runtime_done = false; running = true }, out b.buf ∷ [])

  on_input : Input → State → State × List Output
  on_input (events es) s =
      finish_batch
        (run_batch es (record { buf = []; globals = s.globals; runtime_done = s.runtime_done }))
  on_input (invoke r) s = (record s { globals = set_request_id r s.globals }, [])
  on_input (stop queued) s =
      let b =
        drain queued (record { buf = []; globals = s.globals; runtime_done = s.runtime_done }) in
      (
        record { globals = b.globals; runtime_done = b.runtime_done; running = false },
        out b.buf ∷ stopped ∷ [],
      )

  -- One case of the `select`; after the return nothing is received.
  unfoldable pub step : Input → State → State × List Output
  unfolding on_input
  step i s = if s.running then on_input i s else (s, [])

  -- The assignments before the loop.
  unfoldable pub start : Globals → State
  start g = record {
    globals = record g {
      faas = record g.faas { tags = p.tags; memory_size = p.memory_size; request_id = [] };
    };
    runtime_done = false;
    running = true;
  }

  -- The loop over the messages that arrive, with all that is sent.
  unfoldable pub run : List Input → State → State × List Output
  run [] s = (s, [])
  run (i ∷ is) s = let (s', sent) = step i s in let (s'', more) = run is s' in (s'', sent ++ more)
