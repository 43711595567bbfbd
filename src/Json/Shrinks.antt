-- ===== src/Json/Shrinks.antt =====
-- What the parts of the parser leave of a text is shorter than the text.
use edgedelta_lambda_extensi.Common.{
  ℕ, zero, suc, ◌≤◌, ◌<◌, ◌≡◌, refl, Bool, true, false, Option, none, some, [], ◌∷◌, arith, ◌==◌,
  length, if_either, Option-cases, Bool-cases, inl, inr,
}
use edgedelta_lambda_extensi.Text.Bytes.{Bytes, codes}
use edgedelta_lambda_extensi.Json.Unquote.{unescape_step, prepend, read_from, read_string}
use edgedelta_lambda_extensi.Json.Number.{Scan, begin, next_scan, is_final, cons_first, scan_number}
use edgedelta_lambda_extensi.Json.Tree.{Tree, null, bool, number, text}
use edgedelta_lambda_extensi.Json.Parse.{
  is_space, skip_space, past, past_word, with_rest, constant, parse_scalar, past_comma, parse_key,
}

-- What is left is shorter than n.
abbrev pub Shrinks {ℓ} : {A : Type ℓ} → ℕ → Option (A × Bytes) → Type 0
Shrinks n none = Unit
Shrinks n (some (a, u)) = length u < n

abbrev pub Leaves : ℕ → Option Bytes → Type 0
Leaves n none = Unit
Leaves n (some u) = length u < n

pub Shrinks-more {ℓ} :
    {A : Type ℓ} (m n : ℕ) (o : Option (A × Bytes)) → m ≤ n → Shrinks m o → Shrinks n o
Shrinks-more m n none h s = tt
Shrinks-more m n (some (a, u)) h s = omega arith

Leaves-more : (m n : ℕ) (o : Option Bytes) → m ≤ n → Leaves m o → Leaves n o
Leaves-more m n none h s = tt
Leaves-more m n (some u) h s = omega arith

pub with_rest-Shrinks :
    {A B : Type 0} (f : A → B) (n : ℕ) (o : Option (A × Bytes))
    → Shrinks n o
    → Shrinks n (with_rest f o)
with_rest-Shrinks f n none s = tt
with_rest-Shrinks f n (some (a, u)) s = s

prepend-Shrinks :
    (t : Bytes) (n : ℕ) (o : Option (Bytes × Bytes)) → Shrinks n o → Shrinks n (prepend t o)
prepend-Shrinks t n none s = tt
prepend-Shrinks t n (some (a, u)) s = s

cons_first-Shrinks :
    (c : ℕ) (n : ℕ) (o : Option (Bytes × Bytes)) → Shrinks n o → Shrinks n (cons_first c o)
cons_first-Shrinks c n none s = tt
cons_first-Shrinks c n (some (a, u)) s = s

constant-Shrinks : (t : Tree) (n : ℕ) (o : Option Bytes) → Leaves n o → Shrinks n (constant t o)
constant-Shrinks t n none s = tt
constant-Shrinks t n (some u) s = s

read_from-Shrinks : (k : ℕ) (s : Bytes) → Shrinks (length s) (read_from k s)
unfolding read_from
read_from-Shrinks zero [] = tt
read_from-Shrinks (suc k) [] = tt
read_from-Shrinks (suc k) (c ∷ s) =
    Shrinks-more (length s) (suc (length s)) (read_from k s) (omega arith) (read_from-Shrinks k s)
read_from-Shrinks zero (c ∷ s) = elim (Bool-cases (c == b'"')) [
  | inl e ↦ rw (e, read_from) (omega arith)
  | inr e ↦ elim (Option-cases (unescape_step c s)) [
    | inl n ↦ rw (read_from, e, n) tt
    | inr (r, n) ↦
        rw (read_from, e, n)
          (prepend-Shrinks (r.0) (suc (length s)) (read_from (r.1) s) (
            Shrinks-more (length s) (suc (length s)) (read_from (r.1) s) (omega arith)
              (read_from-Shrinks (r.1) s)))
  ]
]

read_string-Shrinks : (s : Bytes) → Shrinks (length s) (read_string s)
unfolding read_string
read_string-Shrinks [] = tt
read_string-Shrinks (c ∷ s) =
    if_either (Shrinks (suc (length s))) (c == b'"') _ _
      (λ e.
        Shrinks-more (length s) (suc (length s)) (read_from 0 s) (omega arith)
          (read_from-Shrinks 0 s))
      (λ e. tt)

scan-Shrinks : (q : Scan) (s : Bytes) → Shrinks (suc (length s)) (scan_number q s)
unfolding scan_number
scan-Shrinks q [] = if_either (Shrinks 1) (is_final q) _ _ (λ e. omega arith) (λ e. tt)
scan-Shrinks q (c ∷ s) = elim (Option-cases (next_scan q c)) [
  | inl n ↦
      rw (n, scan_number)
        (if_either (Shrinks (suc (suc (length s)))) (is_final q) _ _ (λ e. omega arith) (λ e. tt))
  | inr (q', n) ↦
      rw (n, scan_number)
        (cons_first-Shrinks c (suc (suc (length s))) (scan_number q' s) (
          Shrinks-more (suc (length s)) (suc (suc (length s))) (scan_number q' s) (omega arith)
            (scan-Shrinks q' s)))
]

scan_number-Shrinks : (s : Bytes) → Shrinks (length s) (scan_number begin s)
unfolding scan_number is_final
scan_number-Shrinks [] = tt
scan_number-Shrinks (c ∷ s) = elim (Option-cases (next_scan begin c)) [
  | inl n ↦ rw (n, scan_number) tt
  | inr (q', n) ↦
      rw (n, scan_number)
        (cons_first-Shrinks c (suc (length s)) (scan_number q' s) (scan-Shrinks q' s))
]

past_word-Leaves : (w : Bytes) (s : Bytes) → Leaves (suc (length s)) (past_word w s)
unfolding past_word
past_word-Leaves [] s = omega arith
past_word-Leaves (w ∷ ws) [] = tt
past_word-Leaves (w ∷ ws) (c ∷ s) = elim (Bool-cases (c == w)) [
  | inl e ↦
      rw (e, past_word)
        (Leaves-more (suc (length s)) (suc (suc (length s))) (past_word ws s) (omega arith)
          (past_word-Leaves ws s))
  | inr e ↦ rw (e, past_word) tt
]

word-Shrinks :
    (t : Tree) (w : ℕ) (ws : Bytes) (c : ℕ) (s : Bytes)
    → Shrinks (suc (length s)) (constant t (past_word (w ∷ ws) (c ∷ s)))
unfolding past_word
word-Shrinks t w ws c s = elim (Bool-cases (c == w)) [
  | inl e ↦
      rw (e, past_word)
        (constant-Shrinks t (suc (length s)) (past_word ws s) (past_word-Leaves ws s))
  | inr e ↦ rw (e, past_word) tt
]

pub parse_scalar-Shrinks : (s : Bytes) → Shrinks (length s) (parse_scalar s)
unfolding parse_scalar
parse_scalar-Shrinks [] = tt
parse_scalar-Shrinks (c ∷ s) =
    let n = suc (length s) in
    if_either (Shrinks n) (c == b'"') _ _
      (λ e. with_rest-Shrinks text n (read_string (c ∷ s)) (read_string-Shrinks (c ∷ s)))
      (λ e.
        if_either (Shrinks n) (c == b't') _ _
          (λ e'. word-Shrinks (bool true) b't' (codes "rue") c s)
          (λ e'.
            if_either (Shrinks n) (c == b'f') _ _
              (λ e''. word-Shrinks (bool false) b'f' (codes "alse") c s)
              (λ e''.
                if_either (Shrinks n) (c == b'n') _ _
                  (λ k. word-Shrinks null b'n' (codes "ull") c s)
                  (λ k.
                    with_rest-Shrinks number n (scan_number begin (c ∷ s))
                      (scan_number-Shrinks (c ∷ s))))))

pub length-skip_space : (s : Bytes) → length (skip_space s) ≤ length s
unfolding skip_space
length-skip_space [] = omega arith
length-skip_space (c ∷ s) = elim (Bool-cases (is_space c)) [
  | inl e ↦ let h = length-skip_space s in rw (e, skip_space) (omega arith)
  | inr e ↦ rw (e, skip_space) (omega arith)
]

past-Leaves : (b : ℕ) (s : Bytes) → Leaves (length s) (past b s)
unfolding past
past-Leaves b [] = tt
past-Leaves b (c ∷ s) =
    if_either (Leaves (suc (length s))) (c == b) _ _ (λ e. omega arith) (λ e. tt)

-- A byte behind some space.
pub past-skip : (b : ℕ) (s : Bytes) → Leaves (length s) (past b (skip_space s))
past-skip b s =
    Leaves-more (length (skip_space s)) (length s) (past b (skip_space s)) (length-skip_space s)
      (past-Leaves b (skip_space s))

pub past_comma-Leaves : (first : Bool) (s : Bytes) → Leaves (suc (length s)) (past_comma first s)
unfolding past_comma
past_comma-Leaves true s = omega arith
past_comma-Leaves false s =
    Leaves-more (length s) (suc (length s)) (past b',' (skip_space s)) (omega arith)
      (past-skip b',' s)

-- What is left of an equation's result.
pub left :
    {A : Type 0} (n : ℕ) (o : Option (A × Bytes)) (a : A) (u : Bytes)
    → Shrinks n o
    → o ≡ some (a, u)
    → length u < n
left n o a u s e = rw e at s

pub leaves : (n : ℕ) (o : Option Bytes) (u : Bytes) → Leaves n o → o ≡ some u → length u < n
leaves n o u s e = rw e at s

-- A case on a part that may be missing.
pub step-Shrinks :
    {C A : Type 0} (n : ℕ) (o : Option C) (d : Option (A × Bytes)) (k : C → Option (A × Bytes))
    → Shrinks n d
    → ((c : C) → o ≡ some c → Shrinks n (k c))
    → Shrinks n (elim o [ none ↦ d | some c ↦ k c ])
step-Shrinks n none d k h g = h
step-Shrinks n (some c) d k h g = g c refl

colon-Shrinks :
    (n : ℕ) (k s : Bytes) (o : Option Bytes)
    → length s ≤ n
    → Leaves (length s) o
    → Shrinks n (elim o [ none ↦ none | some v ↦ some (k, v) ])
colon-Shrinks n k s none h l = tt
colon-Shrinks n k s (some v) h l = omega arith

pub parse_key-Shrinks : (first : Bool) (s : Bytes) → Shrinks (length s) (parse_key first s)
unfolding parse_key
parse_key-Shrinks first s = step-Shrinks (length s) (past_comma first s) none _ tt (λ t e.
    let a = leaves (suc (length s)) (past_comma first s) t (past_comma-Leaves first s) e in
    step-Shrinks (length s) (read_string (skip_space t)) none _ tt (λ x e'.
      let b =
        left (length (skip_space t)) (read_string (skip_space t)) (x.0) (x.1)
          (read_string-Shrinks (skip_space t)) e' in
      let c = length-skip_space t in
      colon-Shrinks (length s) (x.0) (x.1) (past b':' (skip_space (x.1))) (omega arith)
        (past-skip b':' (x.1))))
