-- ===== src/Json/Members.antt =====
-- What the encoder prints for a struct is the print of a tree.
use edgedelta_lambda_extensi.Common.{
  ◌≡◌, refl, ap, false, List, [], ◌∷◌, ◌++◌, All, append_assoc, if_either,
}
use edgedelta_lambda_extensi.Text.Bytes.{Bytes}
use edgedelta_lambda_extensi.Text.Utf8.{IsUtf8}
use edgedelta_lambda_extensi.Text.Table.{Table}
use edgedelta_lambda_extensi.Json.Quote.{quote}
use edgedelta_lambda_extensi.Json.Encode.{
  Member, encode_object, encode_member, encode_members, omit_empty_string, sort_keys, quote_values,
  encode_map, omit_empty_map, insert_sorted, bytes_lt,
}
use edgedelta_lambda_extensi.Json.Tree.{
  Tree, Pairs, text, object, no_pairs, pair, emit, emit_pairs, IsWellFormed, PairsAreWellFormed,
}

-- A member's name and its value.
abbrev pub Entry : Type 0
Entry = Bytes × Tree

unfoldable pub to_pairs : List Entry → Pairs
to_pairs [] = no_pairs
to_pairs ((k, t) ∷ es) = pair k t (to_pairs es)

unfoldable pub printed : List Entry → List Member
printed [] = []
printed ((k, t) ∷ es) = (k, emit t) ∷ printed es

abbrev pub EntryIsWellFormed : Entry → Type 0
EntryIsWellFormed e = IsUtf8 e.0 × IsWellFormed e.1

pub printed-append : (es fs : List Entry) → printed (es ++ fs) ≡ printed es ++ printed fs
unfolding printed
printed-append [] fs = refl
printed-append ((k, t) ∷ es) fs = ap (λ (ms : List Member). (k, emit t) ∷ ms) (printed-append es fs)

encode_members-printed :
    (es : List Entry) → encode_members (printed es) ≡ emit_pairs false (to_pairs es)
unfolding encode_members printed to_pairs emit encode_member
encode_members-printed [] = refl
encode_members-printed ((k, t) ∷ es) = rw (
  encode_members-printed es,
  append_assoc (quote k) (b':' ∷ emit t) (emit_pairs false (to_pairs es)),
)

-- An object's print.
pub encode_object-printed :
    (es : List Entry) → encode_object (printed es) ≡ emit (object (to_pairs es))
unfolding encode_object printed to_pairs emit encode_member
encode_object-printed [] = refl
encode_object-printed ((k, t) ∷ es) = rw (
  encode_members-printed es,
  append_assoc (quote k) (b':' ∷ emit t) (emit_pairs false (to_pairs es) ++ b'}' ∷ []),
  append_assoc (quote k) (b':' ∷ (emit t ++ emit_pairs false (to_pairs es))) (b'}' ∷ []),
  append_assoc (emit t) (emit_pairs false (to_pairs es)) (b'}' ∷ []),
)

pub to_pairs-PairsAreWellFormed :
    (es : List Entry) → All EntryIsWellFormed es → PairsAreWellFormed (to_pairs es)
unfolding to_pairs IsWellFormed
to_pairs-PairsAreWellFormed [] h = tt
to_pairs-PairsAreWellFormed ((k, t) ∷ es) ((hk, ht), hs) =
    (hk, ht, to_pairs-PairsAreWellFormed es hs)

-- A string with `omitempty`.
unfoldable pub optional_text : Bytes → Bytes → List Entry
optional_text name [] = []
optional_text name (c ∷ s) = (name, text (c ∷ s)) ∷ []

pub optional_text-printed :
    (name s : Bytes) → printed (optional_text name s) ≡ omit_empty_string name s
unfolding printed optional_text omit_empty_string emit
optional_text-printed name [] = refl
optional_text-printed name (c ∷ s) = refl

pub optional_text-AllWellFormed :
    (name s : Bytes) → IsUtf8 name → IsUtf8 s → All EntryIsWellFormed (optional_text name s)
unfolding optional_text IsWellFormed
optional_text-AllWellFormed name [] hn h = tt
optional_text-AllWellFormed name (c ∷ s) hn h = ((hn, h), tt)

-- A map of strings.
unfoldable pub texts : Table Bytes → List Entry
texts [] = []
texts ((k, v) ∷ m) = (k, text v) ∷ texts m

unfoldable pub map_tree : Table Bytes → Tree
map_tree m = object (to_pairs (texts (sort_keys m)))

unfoldable pub optional_map : Bytes → Table Bytes → List Entry
optional_map name [] = []
optional_map name (e ∷ m) = (name, map_tree (e ∷ m)) ∷ []

quote_values-printed : (m : Table Bytes) → quote_values m ≡ printed (texts m)
unfolding quote_values printed texts emit
quote_values-printed [] = refl
quote_values-printed ((k, v) ∷ m) = rw (quote_values-printed m)

pub optional_map-printed :
    (name : Bytes) (m : Table Bytes) → printed (optional_map name m) ≡ omit_empty_map name m
unfolding printed optional_map omit_empty_map encode_map map_tree
optional_map-printed name [] = refl
optional_map-printed name (e ∷ m) =
    rw (quote_values-printed (sort_keys (e ∷ m)), encode_object-printed (texts (sort_keys (e ∷ m))))

-- The strings of a map are valid UTF-8.
abbrev pub TextsAreUtf8 : Table Bytes → Type 0
TextsAreUtf8 = All (λ e. IsUtf8 e.0 × IsUtf8 e.1)

insert_sorted-TextsAreUtf8 :
    (k v : Bytes) (m : Table Bytes)
    → IsUtf8 k
    → IsUtf8 v
    → TextsAreUtf8 m
    → TextsAreUtf8 (insert_sorted k v m)
unfolding insert_sorted
insert_sorted-TextsAreUtf8 k v [] hk hv h = ((hk, hv), tt)
insert_sorted-TextsAreUtf8 k v ((j, w) ∷ m) hk hv (h, hs) =
    if_either TextsAreUtf8 (bytes_lt j k) _ _ (λ e. (h, insert_sorted-TextsAreUtf8 k v m hk hv hs))
      (λ e. ((hk, hv), (h, hs)))

sort_keys-TextsAreUtf8 : (m : Table Bytes) → TextsAreUtf8 m → TextsAreUtf8 (sort_keys m)
unfolding sort_keys
sort_keys-TextsAreUtf8 [] h = tt
sort_keys-TextsAreUtf8 ((k, v) ∷ m) ((hk, hv), hs) =
    insert_sorted-TextsAreUtf8 k v (sort_keys m) hk hv (sort_keys-TextsAreUtf8 m hs)

texts-AllWellFormed : (m : Table Bytes) → TextsAreUtf8 m → All EntryIsWellFormed (texts m)
unfolding texts IsWellFormed
texts-AllWellFormed [] h = tt
texts-AllWellFormed ((k, v) ∷ m) (h, hs) = (h, texts-AllWellFormed m hs)

pub optional_map-AllWellFormed :
    (name : Bytes) (m : Table Bytes)
    → IsUtf8 name
    → TextsAreUtf8 m
    → All EntryIsWellFormed (optional_map name m)
unfolding optional_map map_tree IsWellFormed
optional_map-AllWellFormed name [] hn h = tt
optional_map-AllWellFormed name (e ∷ m) hn h = (
  (hn, to_pairs-PairsAreWellFormed _ (texts-AllWellFormed _ (sort_keys-TextsAreUtf8 (e ∷ m) h))),
  tt,
)
