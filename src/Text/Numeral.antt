-- ===== src/Text/Numeral.antt =====
-- The parser of an int64 reads back what is printed for one.
use edgedelta_lambda_extensi.Common.{
  ℕ, zero, suc, ◌+◌, ◌-◌, ◌*◌, ◌/◌, ◌%◌, ◌^◌, ◌≤◌, ◌<◌, ◌≡◌, refl, [], ◌∷◌, ◌++◌, arith, ltb, ℤ,
  pos, negsuc, Bool-cases, inl, inr, All, All-append, ok,
}
use edgedelta_lambda_extensi.Text.Bytes.{Bytes}
use edgedelta_lambda_extensi.Text.ParseInt.{digits, parse_uint, unsigned, negated, parse_int}
use edgedelta_lambda_extensi.Text.Decimal.{decimal, print_int, value, value-decimal}

abbrev pub IsDigit : ℕ → Type 0
IsDigit c = (b'0' ≤ c) × (c ≤ b'9')

value_grows : (n : ℕ) (s : Bytes) → n ≤ value n s
unfolding value
value_grows n [] = omega arith
value_grows n (c ∷ s) = let h = value_grows (n * 10 + (c - b'0')) s in omega arith

-- Digits whose number fits are read as that number.
digits-value :
    (n : ℕ) (s : Bytes) → All IsDigit s → value n s < 2 ^ 64 → digits n s ≡ ok (value n s)
unfolding digits value
digits-value n [] h b = refl
digits-value n (c ∷ s) (h, hs) b =
    let g = value_grows (n * 10 + (c - b'0')) s in
    let rest = digits-value (n * 10 + (c - b'0')) s hs b in ground (arith, rest)

decimal-AreDigits : (k n : ℕ) → All IsDigit (decimal k n)
unfolding decimal
decimal-AreDigits zero n = tt
decimal-AreDigits (suc k) n = elim (Bool-cases (ltb n 10)) [
  | inl e ↦ rw e (ground arith)
  | inr e ↦ rw e (All-append _ (decimal k (n / 10)) _ (decimal-AreDigits k (n / 10)) (ground arith))
]

-- A positive number's digits start with none that is zero.
pub record Leads (s : Bytes) : Type 0 where
  pub head : ℕ
  pub rest : Bytes
  pub same : s ≡ head ∷ rest
  pub low : b'1' ≤ head
  pub high : head ≤ b'9'
  pub digits_behind : All IsDigit rest

pub decimal-Leads : (k n : ℕ) → 0 < n → n < 10 ^ k → Leads (decimal k n)
unfolding decimal
decimal-Leads zero n p h = absurd (omega arith)
decimal-Leads (suc k) n p h = elim (Bool-cases (ltb n 10)) [
  | inl e ↦ rw e (record {
    head = b'0' + n;
    rest = [];
    same = refl;
    low = omega arith;
    high = ground arith;
    digits_behind = tt;
  })
  | inr e ↦
      let l = decimal-Leads k (n / 10) (ground arith) (ground arith) in
      rw e (record {
        head = l.head;
        rest = l.rest ++ (b'0' + n % 10) ∷ [];
        same = rw (l.same) refl;
        low = l.low;
        high = l.high;
        digits_behind = All-append _ l.rest _ (l.digits_behind) (ground arith);
      })
]

abbrev pub IsInt64 : ℤ → Type 0
IsInt64 (pos n) = n < 2 ^ 63
IsInt64 (negsuc n) = n < 2 ^ 63

digits-decimal : (n : ℕ) → n < 2 ^ 64 → digits 0 (decimal 20 n) ≡ ok n
digits-decimal n h =
    let v = value-decimal 20 n (omega arith) in
    let d = digits-value 0 (decimal 20 n) (decimal-AreDigits 20 n) (rw v h) in rw v at d

parse_leading :
    (c n : ℕ) (s : Bytes)
    → b'1' ≤ c
    → n < 2 ^ 63
    → digits 0 (c ∷ s) ≡ ok n
    → parse_int (c ∷ s) ≡ ok (pos n)
unfolding parse_int parse_uint unsigned
parse_leading c n s l h d = ground (arith, d)

parse_negative :
    (c n : ℕ) (s : Bytes)
    → n < 2 ^ 63
    → digits 0 (c ∷ s) ≡ ok (suc n)
    → parse_int (b'-' ∷ c ∷ s) ≡ ok (negsuc n)
unfolding parse_int parse_uint negated
parse_negative c n s h d = ground (arith, d)

-- An int64 is read back.
pub parse_int-print_int : (z : ℤ) → IsInt64 z → parse_int (print_int z) ≡ ok z
unfolding print_int
parse_int-print_int (pos zero) h = unfold parse_int parse_uint unsigned digits decimal in refl
parse_int-print_int (pos (suc n)) h =
    let l = decimal-Leads 20 (suc n) (omega arith) (omega arith) in
    let d = digits-decimal (suc n) (omega arith) in
    let d' : digits 0 (l.head ∷ l.rest) ≡ ok (suc n) = rw (l.same) at d in
    rw (l.same) (parse_leading (l.head) (suc n) (l.rest) (l.low) h d')
parse_int-print_int (negsuc n) h =
    let l = decimal-Leads 20 (suc n) (omega arith) (omega arith) in
    let d = digits-decimal (suc n) (omega arith) in
    let d' : digits 0 (l.head ∷ l.rest) ≡ ok (suc n) = rw (l.same) at d in
    rw (l.same) (parse_negative (l.head) n (l.rest) h d')
