-- ===== src/Json/Encode.antt =====
-- The encoder of `encoding/json` for structs and for maps of strings.
use edgedelta_lambda_extensi.Common.{
  Bool, true, false, List, [], ◌∷◌, ◌++◌, arith, ◌==◌, ltb, if◌then◌else◌, All, All-append,
}
use edgedelta_lambda_extensi.Text.Bytes.{Bytes, codes}
use edgedelta_lambda_extensi.Text.Table.{Table}
use edgedelta_lambda_extensi.Json.Quote.{quote, IsPrintable, quote-IsPrintable}

-- A member's name and its encoded value.
abbrev pub Member : Type 0
Member = Bytes × Bytes

unfoldable pub encode_member : Member → Bytes
encode_member (name, value) = quote name ++ b':' ∷ value

unfoldable pub encode_members : List Member → Bytes
encode_members [] = []
encode_members (m ∷ ms) = b',' ∷ (encode_member m ++ encode_members ms)

-- A struct or a map, from the members that it writes.
unfoldable pub encode_object : List Member → Bytes
unfolding encode_member encode_members
encode_object [] = codes "{}"
encode_object (m ∷ ms) = b'{' ∷ (encode_member m ++ (encode_members ms ++ b'}' ∷ []))

-- A field with `omitempty`: a string, and a pointer.
unfoldable pub omit_empty_string : Bytes → Bytes → List Member
omit_empty_string name [] = []
omit_empty_string name (c ∷ s) = (name, quote (c ∷ s)) ∷ []

-- `a < b` on strings.
unfoldable pub bytes_lt : Bytes → Bytes → Bool
bytes_lt [] [] = false
bytes_lt [] (b ∷ t) = true
bytes_lt (a ∷ s) [] = false
bytes_lt (a ∷ s) (b ∷ t) = if ltb a b then true else if a == b then bytes_lt s t else false

unfoldable pub insert_sorted : Bytes → Bytes → Table Bytes → Table Bytes
insert_sorted k v [] = (k, v) ∷ []
insert_sorted k v ((j, w) ∷ m) =
    let rest = insert_sorted k v m in if bytes_lt j k then (j, w) ∷ rest else (k, v) ∷ (j, w) ∷ m

unfoldable pub sort_keys : Table Bytes → Table Bytes
unfolding bytes_lt insert_sorted
sort_keys [] = []
sort_keys ((k, v) ∷ m) = insert_sorted k v (sort_keys m)

unfoldable pub quote_values : Table Bytes → List Member
quote_values [] = []
quote_values ((k, v) ∷ m) = (k, quote v) ∷ quote_values m

-- A `map[string]string`, its keys in order.
unfoldable pub encode_map : Table Bytes → Bytes
unfolding sort_keys quote_values
encode_map m = encode_object (quote_values (sort_keys m))

unfoldable pub omit_empty_map : Bytes → Table Bytes → List Member
omit_empty_map name [] = []
omit_empty_map name (e ∷ m) = (name, encode_map (e ∷ m)) ∷ []

-- Every member's value is printable.
abbrev pub ArePrintable : List Member → Type 0
ArePrintable = All (λ m. IsPrintable m.1)

encode_member-IsPrintable : (m : Member) → IsPrintable m.1 → IsPrintable (encode_member m)
unfolding encode_member
encode_member-IsPrintable (name, value) h =
    All-append _ (quote name) _ (quote-IsPrintable name) (omega arith, h)

encode_members-IsPrintable : (ms : List Member) → ArePrintable ms → IsPrintable (encode_members ms)
unfolding encode_members
encode_members-IsPrintable [] h = tt
encode_members-IsPrintable (m ∷ ms) (h, hs) = (
  omega arith,
  All-append _ (encode_member m) _ (encode_member-IsPrintable m h)
      (encode_members-IsPrintable ms hs),
)

pub encode_object-IsPrintable :
    (ms : List Member) → ArePrintable ms → IsPrintable (encode_object ms)
unfolding encode_object
encode_object-IsPrintable [] h = omega arith
encode_object-IsPrintable (m ∷ ms) (h, hs) = (
  omega arith,
  All-append _ (encode_member m) _ (encode_member-IsPrintable m h)
      (All-append _ (encode_members ms) _ (encode_members-IsPrintable ms hs) (omega arith)),
)

pub omit_empty_string-ArePrintable : (name s : Bytes) → ArePrintable (omit_empty_string name s)
unfolding omit_empty_string
omit_empty_string-ArePrintable name [] = tt
omit_empty_string-ArePrintable name (c ∷ s) = (quote-IsPrintable (c ∷ s), tt)

quote_values-ArePrintable : (m : Table Bytes) → ArePrintable (quote_values m)
unfolding quote_values
quote_values-ArePrintable [] = tt
quote_values-ArePrintable ((k, v) ∷ m) = (quote-IsPrintable v, quote_values-ArePrintable m)

pub omit_empty_map-ArePrintable :
    (name : Bytes) (m : Table Bytes) → ArePrintable (omit_empty_map name m)
unfolding omit_empty_map encode_map
omit_empty_map-ArePrintable name [] = tt
omit_empty_map-ArePrintable name (e ∷ m) =
    (encode_object-IsPrintable _ (quote_values-ArePrintable (sort_keys (e ∷ m))), tt)
