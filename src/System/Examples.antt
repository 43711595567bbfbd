-- ===== src/System/Examples.antt =====
-- The theorems on the channels of main.go at an invocation.
use edgedelta_lambda_extensi.Common.{◌++◌, ◌+◌, ◌≡◌, refl, true, false, some, List, [], ◌∷◌, pos}
use edgedelta_lambda_extensi.Text.Bytes.{codes}
use edgedelta_lambda_extensi.Processor.Examples.{host, p, globals, listening, log_line, done}
use edgedelta_lambda_extensi.Pusher.Loop.{Conf, start, live, running, pick}
use edgedelta_lambda_extensi.System.Steps.{
  push_input, pass_on, to_pusher, processor_input, finish_with, blocking, step_worker, step, System,
  Move, finish, step, idle, waiting, invoking_processor, call, deliver, enter_pusher, deadline,
  respond, pass, leave, enter_processor, run,
}
use edgedelta_lambda_extensi.Processor.Types.{Globals}
use edgedelta_lambda_extensi.Processor.Loop.{set_request_id}
use edgedelta_lambda_extensi.Processor.Types.{marshal_log}
use edgedelta_lambda_extensi.Json.Encode.{encode_object}
use edgedelta_lambda_extensi.Json.Value.{find}
use edgedelta_lambda_extensi.Text.Bytes.{bytes_eq}
use edgedelta_lambda_extensi.Processor.Events.{
  process, process_lambda_function_event, request_id_of,
}
use edgedelta_lambda_extensi.Processor.Batches.{last_platform}
use edgedelta_lambda_extensi.Processor.Loop.{
  finish_batch, run_batch, batch_event, line_of, names_request, handle_platform_event, process_into,
  flag_event,
}
use edgedelta_lambda_extensi.Processor.Loop.{step as step_processor}
use edgedelta_lambda_extensi.Pusher.Loop.{on_input, on_invoke, step as step_pusher}
use edgedelta_lambda_extensi.Processor.Loop.{run as run_processor}
use edgedelta_lambda_extensi.Processor.Batches.{payloads}
use edgedelta_lambda_extensi.Pusher.Loop.{run as run_pusher}
use edgedelta_lambda_extensi.Pusher.Whole.{IsWhole}
use edgedelta_lambda_extensi.Pusher.Ledger.{weigh_all, delivered, lost, held}
use edgedelta_lambda_extensi.Pipeline.{chunks}
use edgedelta_lambda_extensi.System.Refines.{system_refines, batches, accepted}
use edgedelta_lambda_extensi.System.Calm.{initial}
use edgedelta_lambda_extensi.System.Drained.{no_early_deadlock}
use edgedelta_lambda_extensi.System.Drained.Settled.{Settles}
use edgedelta_lambda_extensi.System.Ending.{invocation_ends}
use edgedelta_lambda_extensi.System.Stuck.{flush_at_next_invoke_deadlock, late_response_deadlock}

abbrev conf_next : Conf
conf_next = record { flush_at_next_invoke = true; buffer_size = pos 8 }

abbrev pub conf : Conf
conf = record { flush_at_next_invoke = false; buffer_size = pos 8 }

abbrev ready : System
ready = record {
  worker = idle;
  processor = listening;
  sending = [];
  pusher = start;
  telling = [];
  force_requested = false;
  arrivals = [];
  inputs = [];
  outputs = [];
}

flush_at_next_invoke_deadlock_example :
    (run host p conf_next
      (call 7 (codes "r1")
        ∷ deliver (log_line ∷ [])
        ∷ enter_pusher
        ∷ pass true
        ∷ enter_processor
        ∷ deadline
        ∷ [])
      ready).worker
    ≡ invoking_processor 7 (codes "r1")
flush_at_next_invoke_deadlock_example =
    flush_at_next_invoke_deadlock host p conf_next ready 7 (codes "r1") (log_line ∷ [])
      (pass true ∷ enter_processor ∷ deadline ∷ []) refl refl refl refl refl refl refl

-- An invocation waits for a flush.
abbrev pub flushing : System
flushing = record ready {
  worker = waiting 7;
  pusher = record {
    ctx = live;
    done_c = some 7;
    buf = [];
    flights = codes "c\n" ∷ [];
    phase = running;
  };
}

late_response_deadlock_example :
    (run host p conf
      (deadline ∷ respond 0 false ∷ leave ∷ call 8 (codes "r2") ∷ enter_pusher ∷ [])
      flushing).telling
    ≡ 7 ∷ []
unfolding pick
late_response_deadlock_example =
    late_response_deadlock host p conf flushing 7 0 8 false (codes "c\n") []
      (leave ∷ call 8 (codes "r2") ∷ enter_pusher ∷ []) refl refl refl refl refl refl

abbrev pub fresh : Globals
fresh = set_request_id [] globals

-- An invocation, and a log line of the function.
abbrev invoked : List Move
invoked =
    call 7 (codes "r1") ∷ enter_pusher ∷ enter_processor ∷ deliver (log_line ∷ []) ∷ pass true ∷ []

no_early_deadlock_example :
    Settles host p conf false (
      run host p conf (invoked ++ deliver (done ∷ []) ∷ pass true ∷ pass true ∷ []) (initial fresh))
unfolding set_request_id
no_early_deadlock_example =
    no_early_deadlock host p conf 8 refl refl false fresh
      (invoked ++ deliver (done ∷ []) ∷ pass true ∷ pass true ∷ []) refl
      (tt, (tt, (tt, (tt, (tt, (tt, (tt, (tt, tt))))))))

invocation_ends_example :
    let t =
      run host p conf
        (deliver (done ∷ []) ∷ pass true ∷ pass true ∷ respond 0 true ∷ finish ∷ [])
        (run host p conf invoked (initial fresh)) in
    (t.worker ≡ idle)
    × (t.sending ≡ [])
    × (t.telling ≡ [])
    × (t.pusher.flights ≡ [])
    × (t.processor.globals.faas.request_id ≡ [])
unfolding set_request_id run step step_pusher step_processor finish_batch run_batch batch_event
    on_input on_invoke last_platform handle_platform_event bytes_eq process
    process_lambda_function_event names_request request_id_of find line_of marshal_log encode_object
    step_worker push_input pass_on to_pusher processor_input finish_with blocking process_into
    flag_event
invocation_ends_example =
    invocation_ends host p conf 8 refl refl fresh invoked (done ∷ []) 7 true true true refl
      (tt, (tt, (tt, (tt, (tt, tt))))) refl refl refl refl refl refl

system_refines_example :
    let s = run host p conf invoked (initial fresh) in
    let sent = payloads (run_processor host p s.arrivals (initial fresh).processor).1 in
    ((run_processor host p s.arrivals (initial fresh).processor).0 ≡ s.processor)
    × (batches s.arrivals ≡ accepted host p conf invoked (initial fresh))
    × ((run_pusher conf s.inputs start).0 ≡ s.pusher)
    × ((run_pusher conf s.inputs start).1 ≡ s.outputs)
    × (sent ≡ chunks s.inputs ++ payloads s.sending)
    × (weigh_all (λ b. 1) sent
        ≡ delivered (λ b. 1) s.outputs
          + (lost (λ b. 1) s.outputs
              + (held (λ b. 1) s.pusher + weigh_all (λ b. 1) (payloads s.sending))))
    × IsWhole s.pusher
system_refines_example = system_refines (λ b. 1) host p conf 8 fresh invoked refl
