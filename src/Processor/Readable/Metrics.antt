-- ===== src/Processor/Readable/Metrics.antt =====
-- A JSON parser reads back the metrics.
use edgedelta_lambda_extensi.Common.{
  ◌≡◌, false, true, Option, none, some, List, [], ◌∷◌, ◌++◌, All, ◌>>=◌,
}
use edgedelta_lambda_extensi.Text.Bytes.{Bytes, codes}
use edgedelta_lambda_extensi.Json.Value.{Float64}
use edgedelta_lambda_extensi.Json.Number.{begin, is_number}
use edgedelta_lambda_extensi.Json.Tree.{Tree, number, object}
use edgedelta_lambda_extensi.Json.Members.{Entry, to_pairs}
use edgedelta_lambda_extensi.Host.{Host, is_special}
use edgedelta_lambda_extensi.Processor.Types.{EdMetric}
use edgedelta_lambda_extensi.Processor.Readable.{common_entries}

-- A printed float64 is a number of JSON.
abbrev pub PrintsNumbers : Host → Type 0
PrintsNumbers host =
    (x : Float64) → is_special x ≡ false → is_number begin (host.format_float x) ≡ true

-- Neither a NaN nor an infinity, where there is a number at all.
abbrev pub IsFinite : Option Float64 → Type 0
IsFinite none = Unit
IsFinite (some x) = is_special x ≡ false

abbrev AreFinite : List (Bytes × Option Float64) → Type 0
AreFinite = All (λ f. IsFinite f.1)

abbrev pub HasFiniteNumbers : EdMetric → Type 0
HasFiniteNumbers m =
    IsFinite m.billed_duration_ms
    × IsFinite m.init_duration_ms
    × IsFinite m.runtime_duration_ms
    × IsFinite m.duration_ms
    × IsFinite m.post_runtime_duration_ms
    × IsFinite m.max_memory_used
    × IsFinite m.memory_left
    × IsFinite m.memory_percent

module _ (host : Host) where
  unfoldable pub float_entry : Bytes → Option Float64 → List Entry
  float_entry name none = []
  float_entry name (some x) = (name, number (host.format_float x)) ∷ []

  unfoldable pub float_entries : List (Bytes × Option Float64) → List Entry
  unfolding float_entry
  float_entries [] = []
  float_entries ((name, x) ∷ rest) = float_entry name x ++ float_entries rest

  unfoldable pub metric_tree : EdMetric → Tree
  metric_tree m = object (
      to_pairs (
        common_entries m.common
        ++ (float_entry (codes "faas.billed_duration_ms") m.billed_duration_ms
            ++ (float_entry (codes "faas.init_duration_ms") m.init_duration_ms
                ++ (float_entry (codes "faas.runtime_duration_ms") m.runtime_duration_ms
                    ++ (float_entry (codes "faas.duration_ms") m.duration_ms
                        ++ (float_entry (codes "faas.post_runtime_duration_ms")
                              m.post_runtime_duration_ms
                            ++ (float_entry (codes "faas.max_memory_used") m.max_memory_used
                                ++ (float_entry (codes "faas.memory_left") m.memory_left
                                    ++ (float_entry (codes "faas.memory_percent") m.memory_percent
                                        ++ []))))))))))
