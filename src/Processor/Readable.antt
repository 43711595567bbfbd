-- ===== src/Processor/Readable.antt =====
-- A JSON parser reads back what the processor marshals.
pub mod Metrics
mod Examples
use edgedelta_lambda_extensi.Common.{
  ◌≡◌, refl, false, true, Option, none, some, List, [], ◌∷◌, ◌++◌, ◌∙◌, All, All-append, Result, ok,
  err, ap, ◌>>=◌,
}
use edgedelta_lambda_extensi.Text.Bytes.{Bytes, codes}
use edgedelta_lambda_extensi.Text.Utf8.{IsUtf8, valid_from}
use edgedelta_lambda_extensi.Json.Value.{Float64}
use edgedelta_lambda_extensi.Json.Number.{begin, is_number}
use edgedelta_lambda_extensi.Json.Quote.{quote}
use edgedelta_lambda_extensi.Json.Encode.{Member, encode_object}
use edgedelta_lambda_extensi.Json.Tree.{Tree, text, number, object, emit, IsWellFormed}
use edgedelta_lambda_extensi.Json.Parse.{parse}
use edgedelta_lambda_extensi.Json.RoundTrip.{parse-emit}
use edgedelta_lambda_extensi.Json.Members.{
  Entry, to_pairs, printed, EntryIsWellFormed, printed-append, encode_object-printed,
  to_pairs-PairsAreWellFormed, optional_text, optional_text-printed, optional_text-AllWellFormed,
  optional_map, optional_map-printed, optional_map-AllWellFormed, TextsAreUtf8,
}
use edgedelta_lambda_extensi.Host.{Host, is_special}
use edgedelta_lambda_extensi.Lambda.Events.{event_type_text}
use edgedelta_lambda_extensi.Processor.Types.{
  Faas, Cloud, Common, EdLog, EdMetric, EventError, marshal_faas, marshal_cloud, common_members,
  marshal_log, float_member, float_members, metric_fields, marshal_metric,
}

-- The JSON values of the records.
unfoldable pub faas_entries : Faas → List Entry
faas_entries f =
    (codes "name", text f.name)
    ∷ (codes "version", text f.version)
    ∷ (codes "request_id", text f.request_id)
    ∷ (optional_text (codes "memory_size") f.memory_size
        ++ (optional_text (codes "step") f.step ++ optional_map (codes "tags") f.tags))

unfoldable pub cloud_entries : Cloud → List Entry
cloud_entries c =
    (codes "resource_id", text c.resource_id)
    ∷ (codes "account_id", text c.account_id)
    ∷ (codes "region", text c.region)
    ∷ []

unfoldable pub common_entries : Common → List Entry
common_entries c =
    (codes "cloud", object (to_pairs (cloud_entries c.cloud)))
    ∷ (codes "faas", object (to_pairs (faas_entries c.faas)))
    ∷ (codes "timestamp", text c.timestamp)
    ∷ (codes "log_type", text (event_type_text c.log_type))
    ∷ (optional_text (codes "host.arch") c.host_architecture
        ++ (optional_text (codes "process.runtime.name") c.process_runtime_name
            ++ optional_text (codes "status") c.status))

unfoldable pub log_tree : EdLog → Tree
log_tree l = object (to_pairs (common_entries l.common ++ (codes "message", text l.message) ∷ []))

-- Every string of the record is valid UTF-8.
unfoldable pub IsReadable : Common → Type 0
IsReadable c =
    (IsUtf8 c.cloud.resource_id × IsUtf8 c.cloud.account_id × IsUtf8 c.cloud.region)
    × (IsUtf8 c.faas.name × IsUtf8 c.faas.version × IsUtf8 c.faas.request_id)
    × (IsUtf8 c.faas.memory_size × IsUtf8 c.faas.step × TextsAreUtf8 c.faas.tags)
    × (IsUtf8 c.timestamp × IsUtf8 (event_type_text c.log_type) × IsUtf8 c.host_architecture)
    × (IsUtf8 c.process_runtime_name × IsUtf8 c.status)

faas-members : (f : Faas) → marshal_faas f ≡ encode_object (printed (faas_entries f))
unfolding marshal_faas faas_entries printed emit
faas-members f = simp (printed-append, optional_text-printed, optional_map-printed) refl

faas-printed : (f : Faas) → marshal_faas f ≡ emit (object (to_pairs (faas_entries f)))
faas-printed f = faas-members f ∙ encode_object-printed (faas_entries f)

cloud-members : (c : Cloud) → marshal_cloud c ≡ encode_object (printed (cloud_entries c))
unfolding marshal_cloud cloud_entries printed emit
cloud-members c = refl

cloud-printed : (c : Cloud) → marshal_cloud c ≡ emit (object (to_pairs (cloud_entries c)))
cloud-printed c = cloud-members c ∙ encode_object-printed (cloud_entries c)

pub common-printed : (c : Common) → common_members c ≡ printed (common_entries c)
unfolding common_members common_entries printed emit
common-printed c =
    rw (faas-printed c.faas, cloud-printed c.cloud)
      (simp (printed-append, optional_text-printed) refl)

pub object-printed :
    (ms : List Member) (es fs : List Entry)
    → ms ≡ printed es
    → encode_object (ms ++ printed fs) ≡ emit (object (to_pairs (es ++ fs)))
object-printed ms es fs e = rw (e, ← printed-append es fs) (encode_object-printed (es ++ fs))

-- What `marshal_log` prints is the print of its tree.
marshal_log-emit : (l : EdLog) → marshal_log l ≡ emit (log_tree l)
unfolding marshal_log log_tree printed emit
marshal_log-emit l =
    object-printed (common_members l.common) (common_entries l.common)
      ((codes "message", text l.message) ∷ []) (common-printed l.common)

faas-AllWellFormed : (c : Common) → IsReadable c → All EntryIsWellFormed (faas_entries c.faas)
unfolding IsReadable faas_entries IsWellFormed valid_from
faas-AllWellFormed c (_, (a, b, d), (e, f, g), _, _) = (
  (refl, a),
  (
    (refl, b),
    (
      (refl, d),
      All-append _ (optional_text (codes "memory_size") c.faas.memory_size) _
          (optional_text-AllWellFormed _ _ refl e)
          (All-append _ (optional_text (codes "step") c.faas.step) _
            (optional_text-AllWellFormed _ _ refl f) (optional_map-AllWellFormed _ _ refl g)),
    ),
  ),
)

cloud-AllWellFormed : (c : Common) → IsReadable c → All EntryIsWellFormed (cloud_entries c.cloud)
unfolding IsReadable cloud_entries IsWellFormed valid_from
cloud-AllWellFormed c ((a, b, d), _, _, _, _) = ((refl, a), ((refl, b), ((refl, d), tt)))

-- The members behind the objects of the cloud and the function.
rest_entries : Common → List Entry
rest_entries c =
    (codes "timestamp", text c.timestamp)
    ∷ (codes "log_type", text (event_type_text c.log_type))
    ∷ (optional_text (codes "host.arch") c.host_architecture
        ++ (optional_text (codes "process.runtime.name") c.process_runtime_name
            ++ optional_text (codes "status") c.status))

rest-AllWellFormed : (c : Common) → IsReadable c → All EntryIsWellFormed (rest_entries c)
unfolding rest_entries IsReadable IsWellFormed valid_from
rest-AllWellFormed c (_, _, _, (a, b, d), (e, f)) = (
  (refl, a),
  (
    (refl, b),
    All-append _ (optional_text (codes "host.arch") c.host_architecture) _
        (optional_text-AllWellFormed _ _ refl d)
        (All-append _ (optional_text (codes "process.runtime.name") c.process_runtime_name) _
          (optional_text-AllWellFormed _ _ refl e) (optional_text-AllWellFormed _ _ refl f)),
  ),
)

pub common-AllWellFormed : (c : Common) → IsReadable c → All EntryIsWellFormed (common_entries c)
unfolding common_entries rest_entries IsWellFormed valid_from
common-AllWellFormed c h = (
  (refl, to_pairs-PairsAreWellFormed _ (cloud-AllWellFormed c h)),
  ((refl, to_pairs-PairsAreWellFormed _ (faas-AllWellFormed c h)), rest-AllWellFormed c h),
)

log_tree-IsWellFormed :
    (l : EdLog) → IsReadable l.common → IsUtf8 l.message → IsWellFormed (log_tree l)
unfolding log_tree IsWellFormed valid_from
log_tree-IsWellFormed l h m =
    to_pairs-PairsAreWellFormed _
      (All-append _ (common_entries l.common) _ (common-AllWellFormed l.common h) ((refl, m), tt))

-- When all strings of a log record, its tags' names and values among them, are valid UTF-8, a JSON
-- parser reads `marshal_log` of it and finds exactly its fields under their names, in the order of
-- the struct and the tags sorted, without the empty ones that `omitempty` drops.
pub parse-marshal_log :
    (l : EdLog) → IsReadable l.common → IsUtf8 l.message → parse (marshal_log l) ≡ some (log_tree l)
parse-marshal_log l h m =
    rw (marshal_log-emit l) (parse-emit (log_tree l) (log_tree-IsWellFormed l h m))
