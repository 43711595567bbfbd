-- ===== src/Producer/Examples.antt =====
-- A post with two events and a null.
use edgedelta_lambda_extensi.Common.{◌≡◌, refl, Option, none, some, List, [], ◌∷◌, map}
use edgedelta_lambda_extensi.Text.Bytes.{Bytes, codes}
use edgedelta_lambda_extensi.Text.Utf8.{valid_from}
use edgedelta_lambda_extensi.Json.Value.{Float64}
use edgedelta_lambda_extensi.Json.Value as value
use edgedelta_lambda_extensi.Json.Number.{is_number, next_scan, is_final}
use edgedelta_lambda_extensi.Json.Tree.{Tree, number, text, object, no_pairs, pair, IsWellFormed}
use edgedelta_lambda_extensi.Json.Decode.{decode_any}
use edgedelta_lambda_extensi.Lambda.Events.{LambdaEvent, function, extension, event_type_text}
use edgedelta_lambda_extensi.Producer.Handle.{handle_logs, receive}
use edgedelta_lambda_extensi.Producer.Delivered.{
  Post, element_tree, element_event, body_of, handle_logs-elements, null_event_crash,
}

-- Every number is read as 1.0.
abbrev parse_float : Bytes → Option Float64
parse_float s = some 0x3FF0_0000_0000_0000

abbrev log_line : Post
log_line = (
  record {
    event_time = codes "2024-01-01T00:00:00Z";
    event_type = function;
    content = value.text (codes "hi");
  },
  text (codes "hi"),
)

abbrev started : Post
started = (
  record {
    event_time = codes "2024-01-01T00:00:01Z";
    event_type = extension;
    content = value.number 0x3FF0_0000_0000_0000;
  },
  number (codes "1"),
)

abbrev posted : List (Option Post)
posted = some log_line ∷ none ∷ some started ∷ []

handle_logs-elements_example :
    handle_logs parse_float (some (body_of (map element_tree posted)))
    ≡ record { status = 200; sent = some (map element_event posted) }
unfolding valid_from event_type_text IsWellFormed is_number next_scan is_final decode_any
handle_logs-elements_example =
    handle_logs-elements parse_float posted
      (((refl, refl, tt), (refl, refl)), (tt, (((refl, refl, tt), (refl, refl)), tt)))

-- An event whose type is a number.
abbrev bad : Tree
bad = object (pair (codes "type") (number (codes "1")) no_pairs)

null_event_crash_example :
    (events : List (Option LambdaEvent)) × (handle_logs parse_float
        (some (body_of (map element_tree posted)))
      ≡ record { status = 200; sent = some events })
    × (receive events ≡ none)
unfolding valid_from event_type_text IsWellFormed is_number next_scan is_final decode_any
null_event_crash_example =
    null_event_crash parse_float (some log_line ∷ []) (some started ∷ [])
      (((refl, refl, tt), (refl, refl)), (tt, (((refl, refl, tt), (refl, refl)), tt)))
