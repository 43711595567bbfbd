-- ===== src/Json/Parse.antt =====
-- The parser of `encoding/json`, without its limit of 10000 nested values. What a call leaves of the
-- text is no structural part of it, so each call costs a unit of fuel.
use edgedelta_lambda_extensi.Common.{
  ℕ, zero, suc, ◌+◌, ◌*◌, ◌≡◌, refl, Bool, true, false, ◌||◌, Option, none, some, [], ◌∷◌, ◌==◌,
  if◌then◌else◌, length,
}
use edgedelta_lambda_extensi.Text.Bytes.{Bytes, codes}
use edgedelta_lambda_extensi.Json.Unquote.{read_string}
use edgedelta_lambda_extensi.Json.Number.{begin, scan_number}
use edgedelta_lambda_extensi.Json.Tree.{
  Tree, Trees, Pairs, null, bool, number, text, array, object, no_trees, tree, no_pairs, pair,
}

unfoldable pub is_space : ℕ → Bool
is_space c = c == 32 || (c == 9 || (c == 10 || c == 13))

unfoldable pub skip_space : Bytes → Bytes
unfolding is_space
skip_space [] = []
skip_space (c ∷ s) = elim (is_space c) [ true ↦ skip_space s | false ↦ c ∷ s ]

-- The rest behind a byte, if it stands there.
unfoldable pub past : ℕ → Bytes → Option Bytes
past b [] = none
past b (c ∷ s) = if c == b then some s else none

-- The rest behind a word.
unfoldable pub past_word : Bytes → Bytes → Option Bytes
past_word [] s = some s
past_word (w ∷ ws) [] = none
past_word (w ∷ ws) (c ∷ s) = elim (c == w) [ true ↦ past_word ws s | false ↦ none ]

abbrev pub with_rest {ℓ} : {A B : Type ℓ} → (A → B) → Option (A × Bytes) → Option (B × Bytes)
with_rest f none = none
with_rest f (some (a, rest)) = some (f a, rest)

abbrev pub constant : Tree → Option Bytes → Option (Tree × Bytes)
constant t none = none
constant t (some rest) = some (t, rest)

-- A value that is no array and no object.
unfoldable pub parse_scalar : Bytes → Option (Tree × Bytes)
unfolding past_word
parse_scalar [] = none
parse_scalar (c ∷ s) =
    if c == b'"'
    then with_rest text (read_string (c ∷ s))
    else if c == b't'
    then constant (bool true) (past_word (codes "true") (c ∷ s))
    else if c == b'f'
    then constant (bool false) (past_word (codes "false") (c ∷ s))
    else if c == b'n'
    then constant null (past_word (codes "null") (c ∷ s))
    else with_rest number (scan_number begin (c ∷ s))

-- What stands in front of a further element: a comma, or nothing in front of the first.
unfoldable pub past_comma : Bool → Bytes → Option Bytes
unfolding past
past_comma true s = some s
past_comma false s = past b',' (skip_space s)

-- A key and its colon.
unfoldable pub parse_key : Bool → Bytes → Option (Bytes × Bytes)
unfolding past_comma past
parse_key first s = elim (past_comma first s) [
  | none ↦ none
  | some t ↦ elim (read_string (skip_space t)) [
    | none ↦ none
    | some (k, u) ↦ elim (past b':' (skip_space u)) [ none ↦ none | some v ↦ some (k, v) ]
  ]
]

unfoldable mutual
  pub parse_value : ℕ → Bytes → Option (Tree × Bytes)
  parse_value zero s = none
  parse_value (suc f) s = elim (past b'[' (skip_space s)) [
    | some t ↦ with_rest array (parse_trees f true t)
    | none ↦ elim (past b'{' (skip_space s)) [
      | some t ↦ with_rest object (parse_pairs f true t)
      | none ↦ parse_scalar (skip_space s)
    ]
  ]

  pub parse_trees : ℕ → Bool → Bytes → Option (Trees × Bytes)
  parse_trees zero first s = none
  parse_trees (suc f) first s = elim (past b']' (skip_space s)) [
    | some t ↦ some (no_trees, t)
    | none ↦ elim (past_comma first s) [
      | none ↦ none
      | some t ↦ elim (parse_value f t) [
        | none ↦ none
        | some (x, u) ↦ with_rest (tree x) (parse_trees f false u)
      ]
    ]
  ]

  pub parse_pairs : ℕ → Bool → Bytes → Option (Pairs × Bytes)
  parse_pairs zero first s = none
  parse_pairs (suc f) first s = elim (past b'}' (skip_space s)) [
    | some t ↦ some (no_pairs, t)
    | none ↦ elim (parse_key first s) [
      | none ↦ none
      | some (k, t) ↦ elim (parse_value f t) [
        | none ↦ none
        | some (x, u) ↦ with_rest (pair k x) (parse_pairs f false u)
      ]
    ]
  ]

-- A value with nothing but space behind it.
unfoldable pub whole : Option (Tree × Bytes) → Option Tree
whole none = none
whole (some (t, rest)) = elim (skip_space rest) [ [] ↦ some t | c ∷ s ↦ none ]

-- The text that `json.Unmarshal` decodes; `none` is a syntax error.
unfoldable pub parse : Bytes → Option Tree
unfolding parse_value parse_scalar parse_key past_comma skip_space whole
parse s = whole (parse_value (2 * length s + 2) s)

parse_test :
    parse (codes " {\"a\" : [1.5e3, true ,null], \"b\":{}}\n")
    ≡ some (
        object (
          pair
            (codes "a")
            (array (tree (number (codes "1.5e3")) (tree (bool true) (tree null no_trees))))
            (pair (codes "b") (object no_pairs) no_pairs)))
unfolding parse read_string scan_number
parse_test = refl
