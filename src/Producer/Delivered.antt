-- ===== src/Producer/Delivered.antt =====
-- What the telemetry API posts reaches the processor.
use edgedelta_lambda_extensi.Common.{
  ◌≡◌, refl, ap, Option, none, some, List, [], ◌∷◌, ◌++◌, map, All, arith,
}
use edgedelta_lambda_extensi.Text.Bytes.{Bytes, codes, bytes_eq}
use edgedelta_lambda_extensi.Text.Utf8.{IsUtf8, valid_from}
use edgedelta_lambda_extensi.Text.Table.{lookup}
use edgedelta_lambda_extensi.Json.Value.{Float64}
use edgedelta_lambda_extensi.Json.Tree.{
  Tree, Trees, null, text, array, object, no_trees, tree, no_pairs, pair, emit, IsWellFormed,
  AreWellFormed,
}
use edgedelta_lambda_extensi.Json.Parse.{parse}
use edgedelta_lambda_extensi.Json.RoundTrip.{parse-emit}
use edgedelta_lambda_extensi.Json.Decode.{folds_to, decode_string, decode_struct, decode_any}
use edgedelta_lambda_extensi.Lambda.Events.{EventType, LambdaEvent, other, event_type_text}
use edgedelta_lambda_extensi.Producer.Handle.{
  event_types, event_type_of, decode_event, decode_each, handle_logs, receive,
}

-- A type that is a constant, or a text that is none of them.
abbrev pub IsCanonical : EventType → Type 0
IsCanonical (other s) = lookup s event_types ≡ none
IsCanonical _ = Unit

event_type_of-text : (t : EventType) → IsCanonical t → event_type_of (event_type_text t) ≡ t
unfolding event_type_of event_type_text lookup bytes_eq
event_type_of-text (other s) h = rw (event_type_of, h)
event_type_of-text _ h = refl

-- An event, with the JSON of its record.
abbrev pub Post : Type 0
Post = LambdaEvent × Tree

unfoldable pub post_tree : Post → Tree
post_tree (e, content) = object (
    pair (codes "time") (text e.event_time) (
      pair (codes "type") (text (event_type_text e.event_type))
        (pair (codes "record") content no_pairs)))

-- An element of the posted array: an event, or a null.
unfoldable pub element_tree : Option Post → Tree
unfolding post_tree
element_tree none = null
element_tree (some p) = post_tree p

abbrev pub element_event : Option Post → Option LambdaEvent
element_event none = none
element_event (some p) = some p.0

unfoldable pub to_trees : List Tree → Trees
to_trees [] = no_trees
to_trees (t ∷ ts) = tree t (to_trees ts)

-- The body of a post.
unfoldable pub body_of : List Tree → Bytes
unfolding to_trees
body_of ts = emit (array (to_trees ts))

to_trees-AreWellFormed : (ts : List Tree) → All IsWellFormed ts → AreWellFormed (to_trees ts)
unfolding to_trees IsWellFormed
to_trees-AreWellFormed [] h = tt
to_trees-AreWellFormed (t ∷ ts) (h, hs) = (h, to_trees-AreWellFormed ts hs)

parse-body :
    (ts : List Tree) → All IsWellFormed ts → parse (body_of ts) ≡ some (array (to_trees ts))
unfolding body_of IsWellFormed
parse-body ts h = parse-emit (array (to_trees ts)) (to_trees-AreWellFormed ts h)

module _ (parse_float : Bytes → Option Float64) where
  -- The record is what its JSON stands for, and the texts are valid UTF-8.
  abbrev pub IsPosted : Post → Type 0
  IsPosted p =
      (IsUtf8 p.0.event_time × IsUtf8 (event_type_text p.0.event_type) × IsCanonical p.0.event_type)
      × (IsWellFormed p.1 × (decode_any parse_float p.1 ≡ some p.0.content))

  abbrev pub IsElement : Option Post → Type 0
  IsElement none = Unit
  IsElement (some p) = IsPosted p

  element_trees-AllWellFormed :
      (ps : List (Option Post)) → All IsElement ps → All IsWellFormed (map element_tree ps)
  unfolding element_tree IsWellFormed valid_from
  element_trees-AllWellFormed [] h = tt
  element_trees-AllWellFormed (none ∷ ps) (h, hs) = (tt, element_trees-AllWellFormed ps hs)
  element_trees-AllWellFormed (some p ∷ ps) (((t, y, c), (w, d)), hs) =
      ((refl, t, (refl, y, (refl, w, tt))), element_trees-AllWellFormed ps hs)

  decode_event-post :
      (p : Post) → IsPosted p → decode_event parse_float (post_tree p) ≡ some (some p.0)
  unfolding decode_event post_tree decode_struct folds_to bytes_eq decode_string
  decode_event-post p ((t, y, c), (w, d)) =
      let n = event_type_of-text p.0.event_type c in ground arith

  decode_event-element :
      (p : Option Post)
      → IsElement p
      → decode_event parse_float (element_tree p) ≡ some (element_event p)
  unfolding decode_event element_tree
  decode_event-element none h = refl
  decode_event-element (some p) h = decode_event-post p h

  decode_each-elements :
      (ps : List (Option Post))
      → All IsElement ps
      → decode_each parse_float (to_trees (map element_tree ps)) ≡ some (map element_event ps)
  unfolding decode_each to_trees
  decode_each-elements [] h = refl
  decode_each-elements (p ∷ ps) (h, hs) =
      rw (decode_event-element p h, decode_each, decode_each-elements ps hs)

  -- When the body of a post can be read and is the compact print of a JSON array of nulls and of events,
  -- each of these an object of its time, its type and the JSON of its record, in this order, where the
  -- JSON decodes to the record, texts are valid UTF-8 and numbers are those of JSON, then the handler
  -- answers with the status 200 and sends one batch with exactly these events in their order, and a nil
  -- pointer for each null.
  pub handle_logs-elements :
      (ps : List (Option Post))
      → All IsElement ps
      → handle_logs parse_float (some (body_of (map element_tree ps)))
        ≡ record { status = 200; sent = some (map element_event ps) }
  unfolding handle_logs
  handle_logs-elements ps h =
      let p = parse-body (map element_tree ps) (element_trees-AllWellFormed ps h) in
      let d = decode_each-elements ps h in ground arith

  decode_each-bad :
      (before after : List Tree) (t : Tree)
      → decode_event parse_float t ≡ none
      → decode_each parse_float (to_trees (before ++ t ∷ after)) ≡ none
  unfolding decode_each to_trees
  decode_each-bad [] after t h = rw (decode_each, h)
  decode_each-bad (b ∷ before) after t h =
      let rest = decode_each-bad before after t h in ground arith

  -- When the body of a post is the compact print of a JSON array of well-formed values, texts being valid
  -- UTF-8 and numbers those of JSON, one element that cannot be decoded as an event, wherever it stands,
  -- makes the handler answer with the status 400 and send nothing: the events in front of it and behind
  -- it are lost too.
  pub handle_logs-bad :
      (before after : List Tree) (t : Tree)
      → All IsWellFormed (before ++ t ∷ after)
      → decode_event parse_float t ≡ none
      → handle_logs parse_float (some (body_of (before ++ t ∷ after)))
        ≡ record { status = 400; sent = none }
  unfolding handle_logs
  handle_logs-bad before after t w h =
      let p = parse-body (before ++ t ∷ after) w in
      let d = decode_each-bad before after t h in ground arith

  receive-nil : (before after : List (Option LambdaEvent)) → receive (before ++ none ∷ after) ≡ none
  unfolding receive
  receive-nil [] after = refl
  receive-nil (none ∷ before) after = refl
  receive-nil (some e ∷ before) after = rw (receive-nil before after)

  map-append :
      (before after : List (Option Post))
      → map element_event (before ++ none ∷ after)
        ≡ map element_event before ++ none ∷ map element_event after
  map-append [] after = refl
  map-append (p ∷ before) after = ap (λ es. element_event p ∷ es) (map-append before after)

  -- A null in the posted array, printed compactly, wherever it stands among well-formed events and other
  -- nulls, is accepted with the status 200, and the processor follows its nil pointer: the process ends.
  pub null_event_crash :
      (before after : List (Option Post))
      → All IsElement (before ++ none ∷ after)
      → (events : List (Option LambdaEvent)) × (handle_logs parse_float
            (some (body_of (map element_tree (before ++ none ∷ after))))
          ≡ record { status = 200; sent = some events })
        × (receive events ≡ none)
  null_event_crash before after h = (
    map element_event (before ++ none ∷ after),
    handle_logs-elements (before ++ none ∷ after) h,
    rw (map-append before after) (receive-nil (map element_event before) (map element_event after)),
  )
