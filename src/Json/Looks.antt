-- ===== src/Json/Looks.antt =====
-- What the parser finds first in a printed value.
use edgedelta_lambda_extensi.Common.{
  ℕ, suc, ◌<◌, ◌≡◌, refl, Bool, true, false, none, some, [], ◌∷◌, ◌++◌, arith, ◌==◌, length,
  append_assoc,
}
use edgedelta_lambda_extensi.Text.Bytes.{Bytes}
use edgedelta_lambda_extensi.Text.Utf8.{IsUtf8}
use edgedelta_lambda_extensi.Json.Quote.{quote}
use edgedelta_lambda_extensi.Json.Strings.{read_string-quote}
use edgedelta_lambda_extensi.Json.Number.{
  begin, is_final, is_number, ends, scan_number-append, number_head,
}
use edgedelta_lambda_extensi.Json.Tree.{
  Tree, Trees, Pairs, null, bool, number, text, array, object, no_trees, tree, no_pairs, pair,
  comma, emit, emit_trees, emit_pairs, IsWellFormed,
}
use edgedelta_lambda_extensi.Json.Parse.{
  is_space, skip_space, past, parse_scalar, past_comma, parse_key, parse_value, parse_trees,
  parse_pairs,
}

-- The first byte of a printed value.
record Starts (t : Tree) : Type 0 where
  head : ℕ
  rest : Bytes
  same : emit t ≡ head ∷ rest
  solid : is_space head ≡ false
  open_end : (head == b']') ≡ false

emit-Starts : (t : Tree) → IsWellFormed t → Starts t
unfolding emit IsWellFormed is_space quote
emit-Starts (number []) w = absurd (unfold is_number in cc w)
emit-Starts (number (c ∷ s)) w =
    let h = number_head c s w in
    record { head = c; rest = s; same = refl; solid = ground arith; open_end = ground arith }
emit-Starts (bool true) w = record {
  head = _;
  rest = _;
  same = refl;
  solid = refl;
  open_end = refl;
}
emit-Starts (bool false) w = record {
  head = _;
  rest = _;
  same = refl;
  solid = refl;
  open_end = refl;
}
emit-Starts _ w = record { head = _; rest = _; same = refl; solid = refl; open_end = refl }

pub length-emit_pos : (t : Tree) → IsWellFormed t → 0 < length (emit t)
length-emit_pos t w = let s = emit-Starts t w in rw (s.same) (omega arith)

skip-emit :
    (t : Tree) (rest : Bytes) → IsWellFormed t → skip_space (emit t ++ rest) ≡ emit t ++ rest
unfolding skip_space
skip-emit t rest w = let s = emit-Starts t w in rw (s.same, skip_space, s.solid)

past-emit : (t : Tree) (rest : Bytes) → IsWellFormed t → past b']' (emit t ++ rest) ≡ none
unfolding past
past-emit t rest w = let s = emit-Starts t w in rw (s.same, past, s.open_end)

-- The parser's first looks at what is printed.
pub trees_look :
    (first : Bool) (t : Tree) (rest : Bytes)
    → IsWellFormed t
    → (past b']' (skip_space (comma first ++ (emit t ++ rest))) ≡ none)
      × (past_comma first (comma first ++ (emit t ++ rest)) ≡ some (emit t ++ rest))
unfolding past_comma skip_space past
trees_look true t rest w = (rw (skip-emit t rest w) (past-emit t rest w), refl)
trees_look false t rest w = (refl, refl)

-- A printed string starts with a quotation mark.
skip-quote : (k rest : Bytes) → skip_space (quote k ++ rest) ≡ quote k ++ rest
unfolding skip_space is_space quote
skip-quote k rest = refl

past-quote : (b : ℕ) (k rest : Bytes) → (b'"' == b) ≡ false → past b (quote k ++ rest) ≡ none
unfolding past quote
past-quote b k rest h = rw h

pub after_comma :
    (first : Bool) (k rest : Bytes)
    → (past b'}' (skip_space (comma first ++ (quote k ++ rest))) ≡ none)
      × (past_comma first (comma first ++ (quote k ++ rest)) ≡ some (quote k ++ rest))
unfolding past_comma skip_space past
after_comma true k rest = (rw (skip-quote k rest) (past-quote b'}' k rest refl), refl)
after_comma false k rest = (refl, refl)

skip-colon : (rest : Bytes) → skip_space (b':' ∷ rest) ≡ b':' ∷ rest
unfolding skip_space is_space
skip-colon rest = refl

pub skip-bracket : (rest : Bytes) → past b']' (skip_space (b']' ∷ rest)) ≡ some rest
unfolding skip_space is_space past
skip-bracket rest = refl

pub skip-brace : (rest : Bytes) → past b'}' (skip_space (b'}' ∷ rest)) ≡ some rest
unfolding skip_space is_space past
skip-brace rest = refl

pub parse_key-quote :
    (first : Bool) (k rest : Bytes)
    → IsUtf8 k
    → parse_key first (comma first ++ (quote k ++ b':' ∷ rest)) ≡ some (k, rest)
unfolding parse_key past
parse_key-quote first k rest w = rw (
  parse_key,
  (after_comma first k (b':' ∷ rest)).1,
  skip-quote k (b':' ∷ rest),
  read_string-quote k (b':' ∷ rest) w,
  skip-colon rest,
)

scalar_look :
    (t : Tree) (f : ℕ) (rest : Bytes)
    → parse_scalar (emit t ++ rest) ≡ some (t, rest)
    → IsWellFormed t
    → past b'[' (emit t ++ rest) ≡ none
    → past b'{' (emit t ++ rest) ≡ none
    → parse_value (suc f) (emit t ++ rest) ≡ some (t, rest)
unfolding parse_value
scalar_look t f rest e w a b = let k = skip-emit t rest w in rw (parse_value, k, a, k, b, k, e)

scalar-quote : (s rest : Bytes) → IsUtf8 s → parse_scalar (quote s ++ rest) ≡ some (text s, rest)
unfolding parse_scalar quote
scalar-quote s rest w = rw (read_string-quote s rest w)

pub text_look :
    (s : Bytes) (f : ℕ) (rest : Bytes)
    → IsUtf8 s
    → parse_value (suc f) (quote s ++ rest) ≡ some (text s, rest)
unfolding emit IsWellFormed
text_look s f rest w =
    scalar_look (text s) f rest (scalar-quote s rest w) w (past-quote b'[' s rest refl)
      (past-quote b'{' s rest refl)

pub null_look : (f : ℕ) (rest : Bytes) → parse_value (suc f) (emit null ++ rest) ≡ some (null, rest)
unfolding emit IsWellFormed past parse_scalar
null_look f rest = scalar_look null f rest refl tt refl refl

pub bool_look :
    (b : Bool) (f : ℕ) (rest : Bytes)
    → parse_value (suc f) (emit (bool b) ++ rest) ≡ some (bool b, rest)
unfolding emit IsWellFormed past parse_scalar
bool_look true f rest = scalar_look (bool true) f rest refl tt refl refl
bool_look false f rest = scalar_look (bool false) f rest refl tt refl refl

pub array_look :
    (ts : Trees) (f : ℕ) (rest : Bytes)
    → parse_trees f true (emit_trees true ts ++ b']' ∷ rest) ≡ some (ts, rest)
    → parse_value (suc f) (emit (array ts) ++ rest) ≡ some (array ts, rest)
unfolding emit parse_value past skip_space is_space
array_look ts f rest h = rw (append_assoc (emit_trees true ts) (b']' ∷ []) rest, h)

pub object_look :
    (ps : Pairs) (f : ℕ) (rest : Bytes)
    → parse_pairs f true (emit_pairs true ps ++ b'}' ∷ rest) ≡ some (ps, rest)
    → parse_value (suc f) (emit (object ps) ++ rest) ≡ some (object ps, rest)
unfolding emit parse_value past skip_space is_space
object_look ps f rest h = rw (append_assoc (emit_pairs true ps) (b'}' ∷ []) rest, h)

pub number_look :
    (s rest : Bytes) (f : ℕ)
    → is_number begin s ≡ true
    → ends rest ≡ true
    → parse_value (suc f) (s ++ rest) ≡ some (number s, rest)
unfolding parse_scalar past emit IsWellFormed
number_look [] rest f w e = absurd (unfold is_number is_final in cc w)
number_look (c ∷ s) rest f w e =
    let h = number_head c s w in
    let n = scan_number-append begin (c ∷ s) rest w e in
    scalar_look (number (c ∷ s)) f rest (ground (arith, n)) w (ground arith) (ground arith)

-- What follows a value inside an array or an object.
pub ends-trees : (ts : Trees) (rest : Bytes) → ends (emit_trees false ts ++ b']' ∷ rest) ≡ true
unfolding emit ends
ends-trees no_trees rest = refl
ends-trees (tree t ts) rest = refl

pub ends-pairs : (ps : Pairs) (rest : Bytes) → ends (emit_pairs false ps ++ b'}' ∷ rest) ≡ true
unfolding emit ends
ends-pairs no_pairs rest = refl
ends-pairs (pair k t ps) rest = refl

pub regroup_tree :
    (first : Bool) (a b c : Bytes) → (comma first ++ (a ++ b)) ++ c ≡ comma first ++ (a ++ (b ++ c))
regroup_tree first a b c = rw (append_assoc (comma first) (a ++ b) c, append_assoc a b c)

pub regroup_pair :
    (first : Bool) (k a b c : Bytes)
    → (comma first ++ (k ++ b':' ∷ (a ++ b))) ++ c ≡ comma first ++ (k ++ b':' ∷ (a ++ (b ++ c)))
regroup_pair first k a b c = rw (
  append_assoc (comma first) (k ++ b':' ∷ (a ++ b)) c,
  append_assoc k (b':' ∷ (a ++ b)) c,
  append_assoc a b c,
)
