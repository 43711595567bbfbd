-- ===== src/Pusher/Records.antt =====
-- Where `flush` of pushers/pusher.go cuts a payload.
use edgedelta_lambda_extensi.Common.{
  ℕ, zero, suc, ◌+◌, ◌≤◌, ◌≡◌, refl, sym, ap, ◌∙◌, Bool, true, Option, some, [], ◌∷◌, ◌++◌, arith,
  take, drop, length, ◌==◌, take-append-drop, ℤ, pos, negsuc, quot_ℤ,
}
use mathlib.Core.Option.{some-injective}
use edgedelta_lambda_extensi.Common.{ltb_ℤ, pos_part, subst, append-nil}
use native.Mathlib.Nat.{suc-add}
use edgedelta_lambda_extensi.Common.{if_either}
use edgedelta_lambda_extensi.Text.Bytes.{Bytes}
use edgedelta_lambda_extensi.Text.Records.{
  sep, IsFramed, framed_from, IsFramed-suffix, framed_from-append,
}
use edgedelta_lambda_extensi.Pusher.Flush.{find_start, drop_oldest, cut_at, dropped_bytes}

-- What the search of a framed rest at index `i` comes to: an end of a record that is not past the end.
record IsCut (b : Bool) (i n : ℕ) (rest : Bytes) : Type 0 where
  size : ℕ
  at : n ≡ i + suc size
  within : suc size ≤ length rest
  whole : framed_from b (take (suc size) rest) ≡ true

IsCut-next :
    (b : Bool) (i n c : ℕ) (rest : Bytes) → IsCut (c == sep) (i + 1) n rest → IsCut b i n (c ∷ rest)
unfolding framed_from
IsCut-next b i n c rest r = record {
  size = suc r.size;
  at = omega arith;
  within = omega arith;
  whole = r.whole;
}

IsCut-here : (b : Bool) (i c : ℕ) (rest : Bytes) → (c == sep) ≡ true → IsCut b i (i + 1) (c ∷ rest)
unfolding framed_from
IsCut-here b i c rest e = record { size = 0; at = omega arith; within = omega arith; whole = e }

-- In a framed rest that is not empty the search finds the end of a record.
find_start-IsCut :
    (b : Bool) (start i c : ℕ) (rest : Bytes)
    → framed_from b (c ∷ rest) ≡ true
    → IsCut b i (find_start start i (c ∷ rest)) (c ∷ rest)
unfolding find_start framed_from
find_start-IsCut b start i c [] h =
    if_either (λ n. IsCut b i n (c ∷ [])) (c == sep) (i + 1) start (IsCut-here b i c []) (λ e. cc)
find_start-IsCut b start i c (d ∷ rest) h =
    if_either (λ n. IsCut b i n (c ∷ d ∷ rest)) (c == sep) (i + 1)
      (find_start start (i + 1) (d ∷ rest)) (IsCut-here b i c (d ∷ rest))
      (λ e. IsCut-next b i _ c (d ∷ rest) (find_start-IsCut (c == sep) start (i + 1) d rest h))

take-nil : (k : ℕ) → take {A = ℕ} k [] ≡ []
take-nil zero = refl
take-nil (suc k) = refl

take-add : (n k : ℕ) (s : Bytes) → take (n + k) s ≡ take n s ++ take k (drop n s)
take-add zero k s = ap (λ (m : ℕ). take m s) (omega arith)
take-add (suc n) k [] = rw suc-add (sym (take-nil k))
take-add (suc n) k (x ∷ s) = rw suc-add (λ i. x ∷ take-add n k s i)

cut-IsFramed :
    (start n : ℕ) (payload rest : Bytes)
    → drop start payload ≡ rest
    → IsCut (framed_from true (take start payload)) start n rest
    → IsFramed (take n payload)
cut-IsFramed start n payload rest e r =
    rw (r.at, take-add start (suc r.size) payload, e)
      (framed_from-append true (take start payload) (take (suc r.size) rest) ∙ r.whole)

rest-framed :
    (start : ℕ) (payload rest : Bytes)
    → drop start payload ≡ rest
    → IsFramed payload
    → framed_from (framed_from true (take start payload)) rest ≡ true
rest-framed start payload rest e h =
    sym (framed_from-append true (take start payload) rest)
    ∙ (ap (λ (t : Bytes). framed_from true (take start payload ++ t)) (sym e)
        ∙ (ap (framed_from true) (take-append-drop start payload) ∙ h))

-- What a failed flush drops of a framed payload is framed.
drop_oldest-IsFramed :
    (start : ℕ) (payload : Bytes)
    → start ≤ length payload
    → IsFramed payload
    → IsFramed (take (drop_oldest start payload) payload)
unfolding drop_oldest
drop_oldest-IsFramed start payload lt h = go (drop start payload) refl
  where
    go :
        (rest : Bytes)
        → drop start payload ≡ rest
        → IsFramed (take (find_start start start (drop start payload)) payload)
    go [] e = rw e (subst IsFramed (sym (take-append-drop start payload) ∙ (rw e (append-nil _))) h)
    go (c ∷ rest) e =
        cut-IsFramed start _ payload (c ∷ rest) e
          (rw e (find_start-IsCut _ start start c rest (rest-framed start payload (c ∷ rest) e h)))

cut_at-IsFramed :
    (start : ℤ) (payload : Bytes) (n : ℕ)
    → pos_part start ≤ length payload
    → IsFramed payload
    → cut_at start payload ≡ some n
    → IsFramed (take n payload)
unfolding cut_at
cut_at-IsFramed (pos start) payload n le h e =
    subst (λ (m : ℕ). IsFramed (take m payload)) (some-injective _ _ e)
      (drop_oldest-IsFramed start payload le h)
cut_at-IsFramed (negsuc start) payload n le h e = cc

-- A tenth of a size that the payload passes is an index of the payload, or its end.
tenth_le : (size : ℤ) (len : ℕ) → ltb_ℤ size (pos len) ≡ true → pos_part (quot_ℤ size 10) ≤ len
unfolding quot_ℤ
tenth_le (pos n) len h = ground arith
tenth_le (negsuc n) len h = ground arith

take_dropped-IsFramed :
    (size : ℤ) (payload : Bytes) (n : ℕ)
    → IsFramed payload
    → dropped_bytes size payload ≡ some n
    → IsFramed (take n payload)
unfolding dropped_bytes
take_dropped-IsFramed size payload n h =
    if_either (λ (o : Option ℕ). o ≡ some n → IsFramed (take n payload))
      (ltb_ℤ size (pos (length payload))) (cut_at (quot_ℤ size 10) payload) (some 0)
      (λ t. cut_at-IsFramed (quot_ℤ size 10) payload n (tenth_le size (length payload) t) h)
      (λ t e.
        subst (λ (m : ℕ). IsFramed (take m payload)) (some-injective _ _ e)
          (unfold framed_from in refl))

-- When a failed flush of a framed payload drops n bytes, the first n bytes and the rest are both framed:
-- no record is cut in two.
pub dropped_bytes-IsFramed :
    (size : ℤ) (payload : Bytes) (n : ℕ)
    → dropped_bytes size payload ≡ some n
    → IsFramed payload
    → IsFramed (take n payload) × IsFramed (drop n payload)
dropped_bytes-IsFramed size payload n e h =
    let first = take_dropped-IsFramed size payload n h e in
    (
      first,
      IsFramed-suffix (take n payload) (drop n payload) first (rw (take-append-drop n payload) h),
    )
