-- ===== src/Json/RoundTrip.antt =====
-- Parsing what `emit` prints.
use edgedelta_lambda_extensi.Common.{
  ℕ, zero, suc, ◌+◌, ◌*◌, ◌<◌, ◌≡◌, refl, Bool, true, false, none, some, [], ◌∷◌, ◌++◌, arith,
  length, length-append, append-nil,
}
use edgedelta_lambda_extensi.Text.Bytes.{Bytes}
use edgedelta_lambda_extensi.Json.Quote.{quote}
use edgedelta_lambda_extensi.Json.Number.{ends}
use edgedelta_lambda_extensi.Json.Tree.{
  Tree, Trees, Pairs, null, bool, number, text, array, object, no_trees, tree, no_pairs, pair,
  comma, emit, emit_trees, emit_pairs, IsWellFormed, AreWellFormed, PairsAreWellFormed,
}
use edgedelta_lambda_extensi.Json.Parse.{
  skip_space, past, past_comma, parse_key, parse_value, parse_trees, parse_pairs, whole, parse,
}
use edgedelta_lambda_extensi.Json.Looks.{
  length-emit_pos, trees_look, after_comma, skip-bracket, skip-brace, parse_key-quote, text_look,
  null_look, bool_look, array_look, object_look, number_look, ends-trees, ends-pairs, regroup_tree,
  regroup_pair,
}

-- One element, and those behind it.
trees_step :
    (first : Bool) (f : ℕ) (s t u rest : Bytes) (x : Tree) (xs : Trees)
    → past b']' (skip_space s) ≡ none
    → past_comma first s ≡ some t
    → parse_value f t ≡ some (x, u)
    → parse_trees f false u ≡ some (xs, rest)
    → parse_trees (suc f) first s ≡ some (tree x xs, rest)
unfolding parse_trees
trees_step first f s t u rest x xs a b c d = rw (parse_trees, a, b, c, d)

pairs_step :
    (first : Bool) (f : ℕ) (s t u rest k : Bytes) (x : Tree) (xs : Pairs)
    → past b'}' (skip_space s) ≡ none
    → parse_key first s ≡ some (k, t)
    → parse_value f t ≡ some (x, u)
    → parse_pairs f false u ≡ some (xs, rest)
    → parse_pairs (suc f) first s ≡ some (pair k x xs, rest)
unfolding parse_pairs
pairs_step first f s t u rest k x xs a b c d = rw (parse_pairs, a, b, c, d)

mutual
  unfolding emit IsWellFormed parse_value

  parse_value-emit :
      (t : Tree) (f : ℕ) (rest : Bytes)
      → IsWellFormed t
      → 2 * length (emit t) < f
      → ends rest ≡ true
      → parse_value f (emit t ++ rest) ≡ some (t, rest)
  parse_value-emit t zero rest w h e = absurd (omega arith)
  parse_value-emit (array ts) (suc f) rest w h e =
      let l = length-append (emit_trees true ts) (b']' ∷ []) in
      let inner = parse_trees-emit ts true f rest w (omega arith) in array_look ts f rest inner
  parse_value-emit (object ps) (suc f) rest w h e =
      let l = length-append (emit_pairs true ps) (b'}' ∷ []) in
      let inner = parse_pairs-emit ps true f rest w (omega arith) in object_look ps f rest inner
  parse_value-emit (text s) (suc f) rest w h e = text_look s f rest w
  parse_value-emit (number s) (suc f) rest w h e = number_look s rest f w e
  parse_value-emit null (suc f) rest w h e = null_look f rest
  parse_value-emit (bool b) (suc f) rest w h e = bool_look b f rest

  parse_trees-emit :
      (ts : Trees) (first : Bool) (f : ℕ) (rest : Bytes)
      → AreWellFormed ts
      → 2 * length (emit_trees first ts) + 1 < f
      → parse_trees f first (emit_trees first ts ++ b']' ∷ rest) ≡ some (ts, rest)
  parse_trees-emit ts first zero rest w h = absurd (omega arith)
  parse_trees-emit no_trees first (suc f) rest w h = rw (parse_trees, skip-bracket rest)
  parse_trees-emit (tree t ts) first (suc f) rest (w, ws) h =
      let more = emit_trees false ts ++ b']' ∷ rest in
      let look = trees_look first t more w in
      let l = length-append (comma first) (emit t ++ emit_trees false ts) in
      let l' = length-append (emit t) (emit_trees false ts) in
      let pos = length-emit_pos t w in
      let value = parse_value-emit t f more w (omega arith) (ends-trees ts rest) in
      let others = parse_trees-emit ts false f rest ws (omega arith) in
      rw (regroup_tree first (emit t) (emit_trees false ts) (b']' ∷ rest))
        (trees_step first f _ _ more rest t ts (look.0) (look.1) value others)

  parse_pairs-emit :
      (ps : Pairs) (first : Bool) (f : ℕ) (rest : Bytes)
      → PairsAreWellFormed ps
      → 2 * length (emit_pairs first ps) + 1 < f
      → parse_pairs f first (emit_pairs first ps ++ b'}' ∷ rest) ≡ some (ps, rest)
  parse_pairs-emit ps first zero rest w h = absurd (omega arith)
  parse_pairs-emit no_pairs first (suc f) rest w h = rw (parse_pairs, skip-brace rest)
  parse_pairs-emit (pair k t ps) first (suc f) rest (wk, w, ws) h =
      let more = emit_pairs false ps ++ b'}' ∷ rest in
      let l = length-append (comma first) (quote k ++ b':' ∷ (emit t ++ emit_pairs false ps)) in
      let l1 = length-append (quote k) (b':' ∷ (emit t ++ emit_pairs false ps)) in
      let l2 = length-append (emit t) (emit_pairs false ps) in
      let value = parse_value-emit t f more w (omega arith) (ends-pairs ps rest) in
      let others = parse_pairs-emit ps false f rest ws (omega arith) in
      rw (regroup_pair first (quote k) (emit t) (emit_pairs false ps) (b'}' ∷ rest)) (
        pairs_step first f _ _ more rest k t ps (after_comma first k (b':' ∷ (emit t ++ more))).0
          (parse_key-quote first k (emit t ++ more) wk) value others)

-- A printed value is parsed back.
pub parse-emit : (t : Tree) → IsWellFormed t → parse (emit t) ≡ some t
unfolding parse whole skip_space
parse-emit t w =
    let value =
      parse_value-emit t (2 * length (emit t) + 2) [] w (omega arith) (unfold ends in refl) in
    let value' : parse_value (2 * length (emit t) + 2) (emit t) ≡ some (t, []) =
      rw (append-nil (emit t)) at value in
    rw (parse, value')
