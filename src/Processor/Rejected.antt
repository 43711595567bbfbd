-- ===== src/Processor/Rejected.antt =====
-- The reports of `processPlatformReportEvent` in pushers/processor.go whose numbers JSON cannot hold.
use edgedelta_lambda_extensi.Common.{
  ◌≡◌, refl, true, Option, some, List, [], ◌∷◌, ◌++◌, arith, Result, ok, err, ◌⊎◌, inl, inr,
}
use edgedelta_lambda_extensi.Text.Bytes.{Bytes, codes}
use edgedelta_lambda_extensi.Text.Table.{lookup}
use edgedelta_lambda_extensi.Host.{Host, is_special, is_zero, hundred}
use edgedelta_lambda_extensi.Json.Value.{Float64, Fields, find, as_map}
use edgedelta_lambda_extensi.Json.Encode.{Member}
use edgedelta_lambda_extensi.Lambda.Events.{LambdaEvent, platform_report}
use edgedelta_lambda_extensi.Processor.Types.{
  Globals, EdMetric, EventError, unsupported_value, float_member, float_members, marshal_metric,
}
use edgedelta_lambda_extensi.Processor.Events.{
  dispatch, process, process_platform_report_event, request_id_of, float_at, report_metric,
  memory_percent,
}
use edgedelta_lambda_extensi.Processor.Loop.{Processor}

-- IEEE 754: a quotient by zero is an infinity or a NaN, and stays one when it is multiplied by 100.
pub record IsIeee (host : Host) : Type 0 where
  pub div_zero : (x z : Float64) → is_zero z ≡ true → is_special (host.div x z) ≡ true
  pub mul_hundred : (x : Float64) → is_special x ≡ true → is_special (host.mul x hundred) ≡ true

module _ (host : Host) where
  float_member-err :
      (name : Bytes) (x : Option Float64) (r : Result EventError (List Member))
      → float_member host name x ≡ r
      → (r ≡ err unsupported_value) ⊎ ((ms : List Member) × (r ≡ ok ms))
  unfolding float_member
  float_member-err name x (ok ms) h = inr (ms, refl)
  float_member-err name x (err e) h = inl (ground arith)

  float_member-special :
      (name : Bytes) (x : Float64)
      → is_special x ≡ true
      → float_member host name (some x) ≡ err unsupported_value
  unfolding float_member
  float_member-special name x h = rw h

  special_last :
      (fs : List (Bytes × Option Float64)) (name : Bytes) (y : Option Float64) (x : Float64)
      → y ≡ some x
      → is_special x ≡ true
      → float_members host (fs ++ (name, y) ∷ []) ≡ err unsupported_value
  unfolding float_members
  special_last [] name y x is h = rw (is, float_members, float_member-special name x h)
  special_last ((n, z) ∷ fs) name y x is h =
      elim (float_member-err n z (float_member host n z) refl) [
        | inl e ↦ rw (float_members, e)
        | inr (ms, e) ↦ rw (float_members, e, special_last fs name y x is h)
      ]

  abbrev first_fields : EdMetric → List (Bytes × Option Float64)
  first_fields m =
      (codes "faas.billed_duration_ms", m.billed_duration_ms)
      ∷ (codes "faas.init_duration_ms", m.init_duration_ms)
      ∷ (codes "faas.runtime_duration_ms", m.runtime_duration_ms)
      ∷ (codes "faas.duration_ms", m.duration_ms)
      ∷ (codes "faas.post_runtime_duration_ms", m.post_runtime_duration_ms)
      ∷ (codes "faas.max_memory_used", m.max_memory_used)
      ∷ (codes "faas.memory_left", m.memory_left)
      ∷ []

  marshal_metric-special :
      (m : EdMetric) (x : Float64)
      → m.memory_percent ≡ some x
      → is_special x ≡ true
      → marshal_metric host m ≡ err unsupported_value
  unfolding marshal_metric
  marshal_metric-special m x e h =
      ground
        (arith, special_last (first_fields m) (codes "faas.memory_percent") m.memory_percent x e h)

  -- With IEEE 754 arithmetic, a report that names its request and gives the memory used and a memory
  -- size of zero is refused as a whole: the percentage is no number that JSON can hold.
  pub zero_memory_rejected :
      (p : Processor) (e : LambdaEvent) (g : Globals) (id : Bytes) (content metric : Fields)
      (used size : Float64)
      → IsIeee host
      → e.event_type ≡ platform_report
      → as_map e.content ≡ some content
      → as_map (find (codes "metrics") content) ≡ some metric
      → request_id_of content ≡ some id
      → float_at (codes "maxMemoryUsedMB") metric ≡ some used
      → float_at (codes "memorySizeMB") metric ≡ some size
      → is_zero size ≡ true
      → (process host p.cloud p.host_arch p.process_runtime e g).0 ≡ err unsupported_value
  unfolding process dispatch process_platform_report_event
  zero_memory_rejected p e g id content metric used size ieee type c m i u s z =
      let e' = record e { event_type = platform_report } in
      let m' =
        report_metric host p.cloud p.host_arch p.process_runtime e' g id metric
          (lookup id g.durations) in
      let percent = host.mul (host.div (host.sub size used) size) hundred in
      let special = ieee.mul_hundred _ (ieee.div_zero (host.sub size used) size z) in
      let given : m'.memory_percent ≡ some percent =
        unfold report_metric memory_percent in rw (u, s) refl in
      rw type (simp (c, m, i, marshal_metric-special m' percent given special) refl)
