-- ===== src/System/Stopping/Examples.antt =====
-- The theorems on `Worker.Stop` at concrete moves.
use edgedelta_lambda_extensi.Common.{◌≡◌, ◌≢◌, refl, true, false, List, [], ◌∷◌, ◌++◌}
use edgedelta_lambda_extensi.Processor.Examples.{host, p, log_line}
use edgedelta_lambda_extensi.Processor.Loop.{
  set_request_id, step as step_processor, finish_batch, run_batch, batch_event, line_of,
}
use edgedelta_lambda_extensi.Processor.Events.{process, process_lambda_function_event}
use edgedelta_lambda_extensi.Processor.Types.{marshal_log}
use edgedelta_lambda_extensi.Json.Encode.{encode_object}
use edgedelta_lambda_extensi.Pusher.Loop.{pick, step as step_pusher, on_input, on_stop}
use edgedelta_lambda_extensi.Producer.Server.{new_producer, start}
use edgedelta_lambda_extensi.System.Steps.{System, deadline, pass, leave, take_force, run}
use edgedelta_lambda_extensi.System.Calm.{initial}
use edgedelta_lambda_extensi.System.Examples.{conf, flushing, fresh}
use edgedelta_lambda_extensi.System.Stopping.{
  not_called, awaiting_processor, ended, Halting, StopMove, inner, post, hand_over, call_stop, wake,
  server_down, enter_processor_stop, processor_down, enter_pusher_stop, pusher_down, move, moves,
}
use edgedelta_lambda_extensi.System.Stopping.Flushed.{IsFlushed}
use edgedelta_lambda_extensi.System.Stopping.Complete.{stop_flushes}
use edgedelta_lambda_extensi.System.Stopping.Hangs.{stop_hangs}
use edgedelta_lambda_extensi.System.Stopping.Ends.{Ends, stop_returns}
use edgedelta_lambda_extensi.System.Stopping.Lost.{unreceived, late_batches_lost}

abbrev serving : System → Halting
serving s = record {
  system = s;
  stopper = not_called;
  producer = (start new_producer).0;
  accepting = true;
  posting = [];
  crashed = [];
}

-- A stop, all the way.
abbrev stopping : List StopMove
stopping =
    call_stop
    ∷ wake
    ∷ server_down true
    ∷ enter_processor_stop
    ∷ inner (pass true)
    ∷ processor_down
    ∷ enter_pusher_stop true
    ∷ pusher_down
    ∷ []

stop_hangs_example :
    (moves host p conf
      (inner deadline ∷ inner (take_force true) ∷ inner leave ∷ stopping)
      (serving flushing)).stopper
    ≢ ended
stop_hangs_example =
    stop_hangs host p conf 7 (serving flushing) (inner (take_force true) ∷ inner leave ∷ stopping)
      refl refl refl refl refl (tt, (tt, (tt, (tt, (tt, (tt, (tt, (tt, (tt, (tt, tt))))))))))

stop_returns_example : Ends host p conf (
    moves host p conf
      (post (log_line ∷ []) ∷ call_stop ∷ hand_over 0 ∷ wake ∷ [])
      (serving (initial fresh)))
unfolding run set_request_id
stop_returns_example =
    stop_returns host p conf 8 refl refl fresh [] (serving (initial fresh))
      (post (log_line ∷ []) ∷ call_stop ∷ hand_over 0 ∷ wake ∷ []) refl tt refl refl refl
      (tt, (tt, (tt, (tt, tt))))

-- The processor has its stop, and one handler is left.
abbrev closed : Halting
closed = record (serving (initial fresh)) {
  system = record (initial fresh) {
    processor = record { globals = fresh; runtime_done = false; running = false };
  };
  stopper = awaiting_processor;
  accepting = false;
  posting = (log_line ∷ []) ∷ [];
}

late_batches_lost_example :
    let g = moves host p conf (post [] ∷ []) closed in
    (g.system.processor ≡ closed.system.processor)
    × (unreceived g ≡ unreceived closed)
    × ((move host p conf (hand_over 0) g).crashed ≡ g.crashed ++ (log_line ∷ []) ∷ [])
unfolding moves move pick
late_batches_lost_example =
    late_batches_lost host p conf closed (post [] ∷ []) 0 (log_line ∷ []) [] refl refl refl

-- A batch is posted and handed over in front of the stop.
abbrev posting_and_stopping : List StopMove
posting_and_stopping = post (log_line ∷ []) ∷ hand_over 0 ∷ inner (pass true) ∷ stopping

stop_flushes_example :
    IsFlushed
      (λ b. 1)
      host
      p
      fresh
      (moves host p conf posting_and_stopping (serving (initial fresh))).system
unfolding run set_request_id moves move pick step_processor finish_batch run_batch batch_event
    step_pusher on_input on_stop line_of process process_lambda_function_event marshal_log
    encode_object
stop_flushes_example =
    stop_flushes (λ b. 1) host p conf 8 refl refl fresh [] (serving (initial fresh))
      posting_and_stopping refl tt refl refl refl
      (tt, (tt, (tt, (tt, (tt, (tt, (tt, (tt, (tt, (tt, (tt, tt))))))))))) refl
