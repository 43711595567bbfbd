-- ===== src/Pusher/Examples.antt =====
-- The theorems on pushers/pusher.go at concrete payloads.
use edgedelta_lambda_extensi.Common.{
  ◌+◌, ◌≡◌, refl, true, false, some, List, [], ◌∷◌, pos, take, drop, quot_ℤ,
}
use edgedelta_lambda_extensi.Text.Bytes.{Bytes, codes}
use edgedelta_lambda_extensi.Text.Records.{IsFramed, framed_from}
use edgedelta_lambda_extensi.Pusher.Flush.{dropped_bytes, cut_at}
use edgedelta_lambda_extensi.Pusher.Loop.{
  Conf, State, Input, chunk, runtime_done, ctx_done, invoke, flush_resp, stop, force_flush, Output,
  live, expired, running, start, step, run,
}
use edgedelta_lambda_extensi.Pusher.Whole.{IsWhole}
use edgedelta_lambda_extensi.Pusher.Records.{dropped_bytes-IsFramed}
use edgedelta_lambda_extensi.Pusher.Ledger.{
  weigh, received_all, delivered, lost, held, records_conserved,
}
use edgedelta_lambda_extensi.Pusher.Signals.{told}
use edgedelta_lambda_extensi.Pusher.Failures.{failed_push_gives_up, invocation_completes}

-- A buffer of 8 bytes, flushed when the runtime is done.
abbrev conf : Conf
conf = record { flush_at_next_invoke = false; buffer_size = pos 8 }

abbrev two_records : Bytes
two_records = codes "aa\nbbbbbb\n"

-- An invocation whose first flush fails and drops a record, and whose second one succeeds.
abbrev busy : List Input
busy =
    invoke 7
    ∷ chunk two_records
    ∷ runtime_done true
    ∷ chunk (codes "c\n")
    ∷ flush_resp 0 false
    ∷ stop true
    ∷ []

records_conserved_example :
    let r = run conf busy start in
    (received_all (λ b. 1) conf busy start
      ≡ delivered (λ b. 1) r.1 + (lost (λ b. 1) r.1 + held (λ b. 1) r.0))
    × IsWhole r.0
unfolding framed_from
records_conserved_example =
    records_conserved (λ b. 1) conf busy (tt, (refl, (tt, (refl, (tt, (tt, tt))))))

dropped_bytes-IsFramed_example : IsFramed (take 3 two_records) × IsFramed (drop 3 two_records)
unfolding dropped_bytes cut_at framed_from quot_ℤ
dropped_bytes-IsFramed_example = dropped_bytes-IsFramed (pos 8) two_records 3 refl refl

-- A flush of one short record is in flight, and another record has arrived.
abbrev in_flight : State
in_flight = record {
  ctx = live;
  done_c = some 7;
  buf = codes "d\n";
  flights = codes "c\n" ∷ [];
  phase = running;
}

abbrev timed_out : State
timed_out = record in_flight { ctx = expired }

failed_push_gives_up_example :
    let gives_up = λ (r : State × List Output).
      (lost (λ b. 1) r.1 ≡ weigh (λ b. 1) (codes "d\n"))
      × (delivered (λ b. 1) r.1 ≡ 0)
      × (r.0.buf ≡ [])
      × (r.0.flights ≡ codes "c\n" ∷ []) in
    gives_up (step conf (runtime_done false) timed_out)
    × gives_up (step conf (ctx_done false) timed_out)
    × gives_up (step conf (force_flush false) timed_out)
failed_push_gives_up_example = failed_push_gives_up (λ b. 1) conf timed_out refl refl refl

invocation_completes_example :
    told 7
      (run conf
        (invoke 7 ∷ chunk two_records ∷ runtime_done false ∷ flush_resp 0 false ∷ [])
        start).1
    ≡ 1
invocation_completes_example =
    invocation_completes conf 7 8 b'a' (codes "a\nbbbbbb\n") false false start refl refl refl refl
