-- ===== src/Processor/Batches.antt =====
-- What the loop of pushers/processor.go sends for a batch of events.
use edgedelta_lambda_extensi.Common.{
  ◌≡◌, refl, Bool, true, false, Option, none, some, List, [], ◌∷◌, ◌++◌, arith, Result, ok, err,
  if◌then◌else◌, All, append-nil, append_assoc,
}
use edgedelta_lambda_extensi.Common.{◌∙◌, sym, ap}
use edgedelta_lambda_extensi.Text.Bytes.{Bytes}
use edgedelta_lambda_extensi.Text.Records.{sep, Lacks, frame, records, records-frame}
use edgedelta_lambda_extensi.Json.Quote.{IsPrintable}
use edgedelta_lambda_extensi.Host.{Host, PrintsFloats}
use edgedelta_lambda_extensi.Lambda.Events.{LambdaEvent}
use edgedelta_lambda_extensi.Processor.Types.{Globals, EventError}
use edgedelta_lambda_extensi.Processor.Events.{process}
use edgedelta_lambda_extensi.Processor.Loop.{set_request_id}
use edgedelta_lambda_extensi.Processor.Loop.{
  Processor, Batch, State, Output, events, out, signal_runtime_done, stopped, is_function,
  is_runtime_done, handle_platform_event, line_of, batch_event, run_batch, finish_batch, step,
}
use edgedelta_lambda_extensi.Processor.Printable.{LinePrints, process-LinePrints}
use edgedelta_lambda_extensi.Processor.Frame.{process-faas}

-- The record of a result, in front of others.
abbrev cons_line : Result EventError (Option Bytes) → List Bytes → List Bytes
cons_line (ok (some b)) rest = b ∷ rest
cons_line _ rest = rest

-- No printable text holds a separator.
printable-Lacks : (s : Bytes) → IsPrintable s → Lacks sep s
printable-Lacks [] h = tt
printable-Lacks (c ∷ s) (h, hs) = ((λ e. omega arith), printable-Lacks s hs)

-- The last event of a batch that is no function log.
unfoldable pub last_platform : List LambdaEvent → Option LambdaEvent
last_platform [] = none
last_platform (e ∷ es) = elim (last_platform es) [
  | some l ↦ some l
  | none ↦ if is_function e.event_type then none else some e
]

module _ (host : Host) (p : Processor) where
  -- The records that the events of a batch give, one after the other.
  unfoldable pub emitted : List LambdaEvent → Globals → List Bytes
  emitted [] g = []
  emitted (e ∷ es) g =
      let r = process host p.cloud p.host_arch p.process_runtime e g in
      cons_line r.0 (emitted es r.1)

  line_of-frame :
      (r : Result EventError (Option Bytes)) (rest : List Bytes) (buf : Bytes)
      → (buf ++ line_of r) ++ frame rest ≡ buf ++ frame (cons_line r rest)
  unfolding line_of frame
  line_of-frame (ok (some b)) rest buf = simp append_assoc
  line_of-frame (ok none) rest buf = simp append-nil
  line_of-frame (err x) rest buf = simp append-nil

  run_batch-frame :
      (es : List LambdaEvent) (b : Batch)
      → (run_batch host p es b).buf ≡ b.buf ++ frame (emitted es b.globals)
  unfolding run_batch batch_event emitted
  run_batch-frame [] b = sym (unfold frame in append-nil b.buf)
  run_batch-frame (e ∷ es) b =
      let r = process host p.cloud p.host_arch p.process_runtime e b.globals in
      run_batch-frame es (batch_event host p e b) ∙ line_of-frame r.0 (emitted es r.1) b.buf

  cons_line-All :
      (r : Result EventError (Option Bytes)) (rest : List Bytes)
      → LinePrints r
      → All (Lacks sep) rest
      → All (Lacks sep) (cons_line r rest)
  cons_line-All (ok (some b)) rest h hs = (printable-Lacks b h, hs)
  cons_line-All (ok none) rest h hs = hs
  cons_line-All (err x) rest h hs = hs

  emitted-Lacks :
      PrintsFloats host → (es : List LambdaEvent) (g : Globals) → All (Lacks sep) (emitted es g)
  unfolding emitted
  emitted-Lacks prints [] g = tt
  emitted-Lacks prints (e ∷ es) g =
      let r = process host p.cloud p.host_arch p.process_runtime e g in
      cons_line-All r.0 (emitted es r.1)
        (process-LinePrints host prints p.cloud p.host_arch p.process_runtime e g)
        (emitted-Lacks prints es r.1)

  pub run_batch-faas :
      (es : List LambdaEvent) (b : Batch) → (run_batch host p es b).globals.faas ≡ b.globals.faas
  unfolding run_batch batch_event
  run_batch-faas [] b = refl
  run_batch-faas (e ∷ es) b =
      run_batch-faas es (batch_event host p e b)
      ∙ process-faas host p.cloud p.host_arch p.process_runtime e b.globals

  -- The flag after a batch is that of the last platform event.
  abbrev pub flag : Option LambdaEvent → Bytes → Bool → Bool
  flag none id before = before
  flag (some e) id before = handle_platform_event e id

  pub run_batch-flag :
      (es : List LambdaEvent) (b : Batch)
      → (run_batch host p es b).runtime_done
        ≡ flag (last_platform es) b.globals.faas.request_id b.runtime_done
  unfolding run_batch batch_event last_platform
  run_batch-flag [] b = refl
  run_batch-flag (e ∷ es) b =
      rw
        (
          run_batch-flag es (batch_event host p e b),
          process-faas host p.cloud p.host_arch p.process_runtime e b.globals,
        )
        (ground arith)

-- The payloads that are sent on `outC`.
unfoldable pub payloads : List Output → List Bytes
payloads [] = []
payloads (out b ∷ os) = b ∷ payloads os
payloads (signal_runtime_done ∷ os) = payloads os
payloads (stopped ∷ os) = payloads os

-- Whether the pusher is told that the runtime is done.
unfoldable pub signals : List Output → Bool
signals [] = false
signals (signal_runtime_done ∷ os) = true
signals (out b ∷ os) = signals os
signals (stopped ∷ os) = signals os

module _ (host : Host) (p : Processor) where
  -- While the loop runs, a batch of events is answered by exactly one payload. Read as
  -- newline-separated records, it is the records that `process` gives for the events of the batch, in
  -- order and each whole, if floats are printed without control characters.
  pub batch_payload :
      PrintsFloats host
      → (es : List LambdaEvent) (s : State) → s.running ≡ true
      → (b : Bytes) × (payloads (step host p (events es) s).1 ≡ b ∷ [])
        × (records b ≡ emitted host p es s.globals)
  unfolding step finish_batch payloads
  batch_payload prints es s h =
      let b0 : Batch = record { buf = []; globals = s.globals; runtime_done = s.runtime_done } in
      (
        (run_batch host p es b0).buf,
        ground arith,
        ap records (run_batch-frame host p es b0)
            ∙ records-frame (emitted host p es s.globals)
                (emitted-Lacks host p prints es s.globals),
      )

  pub batch_signal :
      (es : List LambdaEvent) (s : State)
      → s.running ≡ true
      → s.runtime_done ≡ false
      → let id = s.globals.faas.request_id in
        let r = step host p (events es) s in
        let done = flag host p (last_platform es) id false in
        (signals r.1 ≡ done)
        × (r.0.globals.faas.request_id ≡ (if done then [] else id))
        × (r.0.runtime_done ≡ false)
        × (r.0.running ≡ true)
  unfolding step finish_batch signals set_request_id
  batch_signal es s h f =
      let b0 : Batch = record { buf = []; globals = s.globals; runtime_done = s.runtime_done } in
      ground (arith, run_batch-flag host p es b0, run_batch-faas host p es b0)

last_platform-snoc :
    (es : List LambdaEvent) (e : LambdaEvent)
    → is_function e.event_type ≡ false
    → last_platform (es ++ e ∷ []) ≡ some e
unfolding last_platform
last_platform-snoc [] e h = rw h
last_platform-snoc (d ∷ es) e h = rw (last_platform-snoc es e h)

module _ (host : Host) (p : Processor) where
  -- While the loop runs and its flag is not set, a batch whose last event is a platform event other
  -- than platform.runtimeDone does not tell the pusher that the runtime is done, whatever stands
  -- before it in the batch, and the current request is kept.
  pub batch_hides_done :
      (es : List LambdaEvent) (e : LambdaEvent) (s : State)
      → s.running ≡ true
      → s.runtime_done ≡ false
      → is_function e.event_type ≡ false
      → is_runtime_done e.event_type ≡ false
      → let r = step host p (events (es ++ e ∷ [])) s in
        (signals r.1 ≡ false) × (r.0.globals.faas.request_id ≡ s.globals.faas.request_id)
  unfolding handle_platform_event
  batch_hides_done es e s h f nf nd =
      ground (arith, batch_signal host p (es ++ e ∷ []) s, last_platform-snoc es e nf)
