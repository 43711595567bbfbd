-- ===== src/Json/Fuel.antt =====
-- The fuel of `parse` is enough for every text: more of it changes nothing.
use edgedelta_lambda_extensi.Common.{
  ℕ, zero, suc, ◌+◌, ◌*◌, ◌≤◌, ◌<◌, ◌≡◌, refl, Bool, true, false, Option, none, some, ap, arith,
  length,
}
use edgedelta_lambda_extensi.Text.Bytes.{Bytes}
use edgedelta_lambda_extensi.Json.Tree.{array, object, tree, pair}
use edgedelta_lambda_extensi.Json.Shrinks.{
  Shrinks, parse_key-Shrinks, Shrinks-more, with_rest-Shrinks, parse_scalar-Shrinks,
  length-skip_space, past-skip, past_comma-Leaves, left, leaves, step-Shrinks,
}
use edgedelta_lambda_extensi.Json.Parse.{
  skip_space, past, with_rest, past_comma, parse_key, parse_value, parse_trees, parse_pairs, parse,
  whole,
}

mutual
  unfolding parse_value

  parse_value-Shrinks : (f : ℕ) (s : Bytes) → Shrinks (length s) (parse_value f s)
  parse_value-Shrinks zero s = tt
  parse_value-Shrinks (suc f) s =
      let v = length-skip_space s in
      step-Shrinks (length s) (past b'[' (skip_space s)) _ _
        (step-Shrinks (length s) (past b'{' (skip_space s)) _ _
          (Shrinks-more (length (skip_space s)) (length s) _ v
            (parse_scalar-Shrinks (skip_space s)))
          (λ t e.
            let l = leaves (length s) (past b'{' (skip_space s)) t (past-skip b'{' s) e in
            with_rest-Shrinks object (length s) (parse_pairs f true t) (
              Shrinks-more (length t) (length s) (parse_pairs f true t) (omega arith)
                (parse_pairs-Shrinks f true t))))
        (λ t e.
          let l = leaves (length s) (past b'[' (skip_space s)) t (past-skip b'[' s) e in
          with_rest-Shrinks array (length s) (parse_trees f true t) (
            Shrinks-more (length t) (length s) (parse_trees f true t) (omega arith)
              (parse_trees-Shrinks f true t)))

  parse_trees-Shrinks :
      (f : ℕ) (first : Bool) (s : Bytes) → Shrinks (length s) (parse_trees f first s)
  parse_trees-Shrinks zero first s = tt
  parse_trees-Shrinks (suc f) first s =
      step-Shrinks (length s) (past b']' (skip_space s)) _ _
        (step-Shrinks (length s) (past_comma first s) none _ tt (λ t e.
          let a = leaves (suc (length s)) (past_comma first s) t (past_comma-Leaves first s) e in
          step-Shrinks (length s) (parse_value f t) none _ tt (λ x e'.
            let b = left (length t) (parse_value f t) (x.0) (x.1) (parse_value-Shrinks f t) e' in
            with_rest-Shrinks (tree (x.0)) (length s) (parse_trees f false (x.1)) (
              Shrinks-more (length (x.1)) (length s) (parse_trees f false (x.1)) (omega arith)
                (parse_trees-Shrinks f false (x.1))))))
        (λ t e. leaves (length s) (past b']' (skip_space s)) t (past-skip b']' s) e)

  parse_pairs-Shrinks :
      (f : ℕ) (first : Bool) (s : Bytes) → Shrinks (length s) (parse_pairs f first s)
  parse_pairs-Shrinks zero first s = tt
  parse_pairs-Shrinks (suc f) first s =
      step-Shrinks (length s) (past b'}' (skip_space s)) _ _
        (step-Shrinks (length s) (parse_key first s) none _ tt (λ t e.
          let a = left (length s) (parse_key first s) (t.0) (t.1) (parse_key-Shrinks first s) e in
          step-Shrinks (length s) (parse_value f (t.1)) none _ tt (λ x e'.
            let b =
              left (length (t.1)) (parse_value f (t.1)) (x.0) (x.1) (parse_value-Shrinks f (t.1))
                e' in
            with_rest-Shrinks (pair (t.0) (x.0)) (length s) (parse_pairs f false (x.1)) (
              Shrinks-more (length (x.1)) (length s) (parse_pairs f false (x.1)) (omega arith)
                (parse_pairs-Shrinks f false (x.1))))))
        (λ t e. leaves (length s) (past b'}' (skip_space s)) t (past-skip b'}' s) e)

-- Two cases on the same part.
step-same :
    {C A : Type 0} (o p : Option C) (d e : Option A) (k j : C → Option A)
    → o ≡ p
    → d ≡ e
    → ((c : C) → o ≡ some c → k c ≡ j c)
    → elim o [ none ↦ d | some c ↦ k c ] ≡ elim p [ none ↦ e | some c ↦ j c ]
step-same o p d e k j same h g = rw⁻¹ same (both o d e k j h g)
  where
    both :
        {C A : Type 0} (o : Option C) (d e : Option A) (k j : C → Option A)
        → d ≡ e
        → ((c : C) → o ≡ some c → k c ≡ j c)
        → elim o [ none ↦ d | some c ↦ k c ] ≡ elim o [ none ↦ e | some c ↦ j c ]
    both none d e k j h g = h
    both (some c) d e k j h g = g c refl

-- Two amounts of fuel that are enough give the same result.
mutual
  unfolding parse_value

  value-same :
      (f g : ℕ) (s : Bytes)
      → 2 * length s < f
      → 2 * length s < g
      → parse_value f s ≡ parse_value g s
  value-same zero g s a b = absurd (omega arith)
  value-same (suc f) zero s a b = absurd (omega arith)
  value-same (suc f) (suc g) s a b =
      step-same (past b'[' (skip_space s)) _ _ _ _ _ refl
        (step-same (past b'{' (skip_space s)) _ _ _ _ _ refl refl (λ t e.
          let l = leaves (length s) (past b'{' (skip_space s)) t (past-skip b'{' s) e in
          ap (with_rest object) (pairs-same f g true t (omega arith) (omega arith))))
        (λ t e.
          let l = leaves (length s) (past b'[' (skip_space s)) t (past-skip b'[' s) e in
          ap (with_rest array) (trees-same f g true t (omega arith) (omega arith)))

  trees-same :
      (f g : ℕ) (first : Bool) (s : Bytes)
      → 2 * length s + 1 < f
      → 2 * length s + 1 < g
      → parse_trees f first s ≡ parse_trees g first s
  trees-same zero g first s a b = absurd (omega arith)
  trees-same (suc f) zero first s a b = absurd (omega arith)
  trees-same (suc f) (suc g) first s a b =
      step-same (past b']' (skip_space s)) _ _ _ _ _ refl
        (step-same (past_comma first s) _ none none _ _ refl refl (λ t e.
          let l = leaves (suc (length s)) (past_comma first s) t (past_comma-Leaves first s) e in
          step-same (parse_value f t) (parse_value g t) none none _ _
            (value-same f g t (omega arith) (omega arith)) refl
            (λ x e'.
              let m = left (length t) (parse_value f t) (x.0) (x.1) (parse_value-Shrinks f t) e' in
              ap (with_rest (tree (x.0)))
                (trees-same f g false (x.1) (omega arith) (omega arith)))))
        (λ t e. refl)

  pairs-same :
      (f g : ℕ) (first : Bool) (s : Bytes)
      → 2 * length s + 1 < f
      → 2 * length s + 1 < g
      → parse_pairs f first s ≡ parse_pairs g first s
  pairs-same zero g first s a b = absurd (omega arith)
  pairs-same (suc f) zero first s a b = absurd (omega arith)
  pairs-same (suc f) (suc g) first s a b =
      step-same (past b'}' (skip_space s)) _ _ _ _ _ refl
        (step-same (parse_key first s) _ none none _ _ refl refl (λ t e.
          let l = left (length s) (parse_key first s) (t.0) (t.1) (parse_key-Shrinks first s) e in
          step-same (parse_value f (t.1)) (parse_value g (t.1)) none none _ _
            (value-same f g (t.1) (omega arith) (omega arith)) refl
            (λ x e'.
              let m =
                left (length (t.1)) (parse_value f (t.1)) (x.0) (x.1) (parse_value-Shrinks f (t.1))
                  e' in
              ap (with_rest (pair (t.0) (x.0)))
                (pairs-same f g false (x.1) (omega arith) (omega arith)))))
        (λ t e. refl)

-- With any larger amount of fuel than `parse` gives, the result is the same.
parse-fuel : (f : ℕ) (s : Bytes) → 2 * length s + 2 ≤ f → whole (parse_value f s) ≡ parse s
unfolding parse
parse-fuel f s h = ap whole (value-same f (2 * length s + 2) s (omega arith) (omega arith))
