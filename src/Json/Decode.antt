-- ===== src/Json/Decode.antt =====
-- `json.Unmarshal` into strings, integers, structs and `interface{}`. A value of the wrong type is an
-- error, which Go returns behind the last value: `none`, as no caller looks at what was filled then.
use edgedelta_lambda_extensi.Common.{
  ℕ, zero, suc, ◌+◌, ◌≡◌, refl, Bool, true, false, ◌&&◌, Option, none, some, [], ◌∷◌, ℤ, ◌==◌, leb,
  take, if◌then◌else◌, ok, err,
}
use edgedelta_lambda_extensi.Text.Bytes.{Bytes, codes, bytes_eq}
use edgedelta_lambda_extensi.Text.ParseInt.{parse_int}
use edgedelta_lambda_extensi.Json.Tree.{
  Tree, Trees, Pairs, null, bool, number, text, array, object, no_trees, tree, no_pairs, pair,
}
use edgedelta_lambda_extensi.Json.Value.{Value, Items, Fields, Float64, nil, cons, end, field}
use edgedelta_lambda_extensi.Json.Value as value

unfoldable pub lower : ℕ → ℕ
lower c = if leb b'A' c && leb c b'Z' then c + 32 else c

-- The first byte of a key folded, with the count of its further bytes: the long s and the Kelvin sign
-- are the only runes above ASCII that fold to a letter.
unfoldable pub fold_rune : ℕ → Bytes → ℕ × ℕ
unfolding lower
fold_rune c s =
    if (c == 0xC5) && bytes_eq (take 1 s) (0xBF ∷ [])
    then (b's', 1)
    else if (c == 0xE2) && bytes_eq (take 2 s) (0x84 ∷ 0xAA ∷ [])
    then (b'k', 2)
    else (lower c, 0)

unfoldable pub fold_from : ℕ → Bytes → Bytes
unfolding fold_rune
fold_from k [] = []
fold_from (suc k) (c ∷ s) = fold_from k s
fold_from zero (c ∷ s) = (fold_rune c s).0 ∷ fold_from (fold_rune c s).1 s

-- Keys are the same for the decoder when they are the same folded.
unfoldable pub folds_to : Bytes → Bytes → Bool
unfolding fold_from
folds_to key name = bytes_eq (fold_from 0 key) (fold_from 0 name)

-- A field keeps its value at a null.
unfoldable pub decode_string : Tree → Bytes → Option Bytes
decode_string (text s) old = some s
decode_string null old = some old
decode_string _ old = none

unfoldable pub decode_int64 : Tree → ℤ → Option ℤ
decode_int64 (number s) old = elim (parse_int s) [ ok n ↦ some n | err e ↦ none ]
decode_int64 null old = some old
decode_int64 _ old = none

-- A struct: each member goes to the field that its key names, in the order of the text.
unfoldable pub set_fields {ℓ} : {S : Type ℓ} → (Bytes → Tree → S → Option S) → Pairs → S → Option S
set_fields set no_pairs s = some s
set_fields set (pair k t ps) s = elim (set k t s) [ none ↦ none | some s' ↦ set_fields set ps s' ]

unfoldable pub decode_struct {ℓ} :
    {S : Type ℓ} → (Bytes → Tree → S → Option S) → Tree → S → Option S
unfolding set_fields
decode_struct set (object ps) s = set_fields set ps s
decode_struct set null s = some s
decode_struct set _ s = none

unfoldable pub has_field : Bytes → Fields → Bool
has_field k end = false
has_field k (field j v fs) = if bytes_eq j k then true else has_field k fs

-- `m[k] = v`, in front of the members that follow: the last of two equal keys counts.
unfoldable pub add_field : Bytes → Value → Fields → Fields
unfolding has_field
add_field k v fs = if has_field k fs then fs else field k v fs

-- `strconv.ParseFloat` of a number as JSON writes it is a parameter.
module _ (parse_float : Bytes → Option Float64) where
  unfoldable mutual
    pub decode_any : Tree → Option Value
    decode_any null = some value.null
    decode_any (bool b) = some (value.bool b)
    decode_any (number s) = elim (parse_float s) [ none ↦ none | some x ↦ some (value.number x) ]
    decode_any (text s) = some (value.text s)
    decode_any (array ts) = elim (decode_items ts) [ none ↦ none | some xs ↦ some (value.array xs) ]
    decode_any (object ps) = elim (decode_members ps) [
      | none ↦ none
      | some fs ↦ some (value.object fs)
    ]

    pub decode_items : Trees → Option Items
    decode_items no_trees = some nil
    decode_items (tree t ts) = elim (decode_any t) [
      | none ↦ none
      | some v ↦ elim (decode_items ts) [ none ↦ none | some xs ↦ some (cons v xs) ]
    ]

    pub decode_members : Pairs → Option Fields
    decode_members no_pairs = some end
    decode_members (pair k t ps) = elim (decode_any t) [
      | none ↦ none
      | some v ↦ elim (decode_members ps) [ none ↦ none | some fs ↦ some (add_field k v fs) ]
    ]

fold_test :
    (folds_to (codes "InvokedFunctionARN") (codes "invokedFunctionArn") ≡ true)
    × (folds_to (b't' ∷ b'o' ∷ 0xE2 ∷ 0x84 ∷ 0xAA ∷ 0xC5 ∷ 0xBF ∷ []) (codes "toks") ≡ true)
    × (folds_to (codes "times") (codes "time") ≡ false)
unfolding folds_to bytes_eq
fold_test = (refl, refl, refl)
