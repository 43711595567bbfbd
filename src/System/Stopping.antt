-- ===== src/System/Stopping.antt =====
-- main.go: `Worker.Stop` over the parts that System.Steps composes, with the handlers of
-- handlers/producer.go that wait to hand a batch over. Durations are those of Extension.Invocations.
pub mod Runs
pub mod Hangs
pub mod Halts
pub mod Ends
pub mod Lost
pub mod Flushed
pub mod Complete
mod Examples
use edgedelta_lambda_extensi.Common.{
  ℕ, Bool, true, false, Option, none, some, List, [], ◌∷◌, ◌++◌, if◌then◌else◌, pos,
}
use edgedelta_lambda_extensi.Host.{Host}
use edgedelta_lambda_extensi.Lambda.Events.{LambdaEvent}
use edgedelta_lambda_extensi.Producer.Server.{Producer, shutdown}
use edgedelta_lambda_extensi.Processor.Loop.{
  Processor, Output as Sent, stopped, stop as stop_processor,
}
use edgedelta_lambda_extensi.Pusher.Loop.{Conf, stop as stop_pusher, is_running, pick}
use edgedelta_lambda_extensi.System.Steps.{
  System, Move, deliver, is_nil, to_pusher, processor_input, step,
}

-- Where the first `Worker.Stop` stands; the other calls return at once.
pub data Stopper : Type 0 where
  not_called sleeping : Stopper
  -- In `w.producer.Shutdown`.
  closing : Stopper
  -- In front of the processor's `p.stopC <- struct{}{}`, and of `<-p.stoppedC`.
  stopping_processor awaiting_processor : Stopper
  -- In front of the pusher's `p.stopC <- timeout`, and of `<-p.stoppedC`.
  stopping_pusher awaiting_pusher : Stopper
  ended : Stopper

pub record Halting : Type 0 where
  pub system : System
  pub stopper : Stopper
  pub producer : Producer
  -- Whether the server takes requests.
  pub accepting : Bool
  -- The batches of the handlers at `p.outC <- events`.
  pub posting : List (List LambdaEvent)
  -- Those of the handlers that panicked there, as the channel was closed.
  pub crashed : List (List LambdaEvent)

pub data StopMove : Type 0 where
  -- A move of the parts. The deliveries are those of the handlers.
  inner : Move → StopMove
  -- A request with a batch reaches `handleLogs`.
  post : List LambdaEvent → StopMove
  -- `p.outC <- events` of one of the handlers.
  hand_over : ℕ → StopMove
  -- The call of `Worker.Stop`, and the end of its `time.Sleep`.
  call_stop wake : StopMove
  -- The return of the server's own shutdown: without an error once no handler is left, or with one.
  server_down : Bool → StopMove
  -- The processor's `p.stopC <- struct{}{}` and `<-p.stoppedC`.
  enter_processor_stop processor_down : StopMove
  -- The pusher's `p.stopC <- timeout`, with the outcome of its push, and `<-p.stoppedC`.
  enter_pusher_stop : Bool → StopMove
  pusher_down : StopMove

module _ (host : Host) (p : Processor) (conf : Conf) where
  unfoldable pub inner_step : Move → System → System
  unfolding step
  inner_step (deliver es) s = s
  inner_step m s = step host p conf m s

  -- A handler's send. The processor's loop closes the channel when it stops.
  unfoldable pub send_batch :
      Option (List LambdaEvent × List (List LambdaEvent)) → Halting → Halting
  unfolding step
  send_batch none h = h
  send_batch (some (es, rest)) h =
      if h.system.processor.running
      then (if is_nil h.system.sending
          then record h { system = step host p conf (deliver es) h.system; posting = rest }
          else h)
      else record h { posting = rest; crashed = h.crashed ++ es ∷ [] }

  -- `<-p.stoppedC` of the processor.
  unfoldable pub take_stopped : List Sent → Halting → Halting
  take_stopped (stopped ∷ rest) h = record h {
    stopper = stopping_pusher;
    system = record h.system { sending = rest };
  }
  take_stopped _ h = h

  unfoldable pub close_server : Bool → Halting → Halting
  unfolding shutdown
  close_server graceful h = record h {
    stopper = stopping_processor;
    accepting = false;
    producer = (shutdown (pos 0) graceful h.producer).0;
  }

  -- `p.stopC <- struct{}{}` of the processor.
  unfoldable pub send_stop_processor : Halting → Halting
  unfolding processor_input
  send_stop_processor h =
      if is_nil h.system.sending
      then (if h.system.processor.running
          then record h {
            stopper = awaiting_processor;
            system = processor_input host p conf (stop_processor []) h.system;
          }
          else h)
      else h

  -- `p.stopC <- timeout` of the pusher.
  unfoldable pub send_stop_pusher : Bool → Halting → Halting
  unfolding to_pusher
  send_stop_pusher ok h =
      if is_nil h.system.telling
      then (if is_running h.system.pusher.phase
          then record h {
            stopper = awaiting_pusher;
            system = to_pusher host p conf (stop_pusher ok) h.system h.system;
          }
          else h)
      else h

  unfoldable pub stop_step : StopMove → Stopper → Halting → Halting
  unfolding close_server send_stop_processor take_stopped send_stop_pusher
  stop_step call_stop not_called h = record h { stopper = sleeping }
  stop_step wake sleeping h = record h { stopper = closing }
  stop_step (server_down false) closing h = close_server false h
  stop_step (server_down true) closing h = if is_nil h.posting then close_server true h else h
  stop_step enter_processor_stop stopping_processor h = send_stop_processor h
  stop_step processor_down awaiting_processor h = take_stopped h.system.sending h
  stop_step (enter_pusher_stop ok) stopping_pusher h = send_stop_pusher ok h
  -- The pusher tells the invocation first, if there is one.
  stop_step pusher_down awaiting_pusher h =
      if is_nil h.system.telling then record h { stopper = ended } else h
  stop_step _ _ h = h

  unfoldable pub move : StopMove → Halting → Halting
  unfolding inner_step send_batch stop_step
  move (inner m) h = record h { system = inner_step m h.system }
  move (post es) h = if h.accepting then record h { posting = h.posting ++ es ∷ [] } else h
  move (hand_over i) h = send_batch (pick i h.posting) h
  move call_stop h = stop_step call_stop h.stopper h
  move wake h = stop_step wake h.stopper h
  move (server_down graceful) h = stop_step (server_down graceful) h.stopper h
  move enter_processor_stop h = stop_step enter_processor_stop h.stopper h
  move processor_down h = stop_step processor_down h.stopper h
  move (enter_pusher_stop ok) h = stop_step (enter_pusher_stop ok) h.stopper h
  move pusher_down h = stop_step pusher_down h.stopper h

  unfoldable pub moves : List StopMove → Halting → Halting
  moves [] h = h
  moves (x ∷ xs) h = moves xs (move x h)
