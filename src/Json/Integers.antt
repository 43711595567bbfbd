-- ===== src/Json/Integers.antt =====
-- The integers that the program prints are numbers of JSON.
use edgedelta_lambda_extensi.Common.{
  ℕ, zero, suc, ◌≤◌, ◌≡◌, refl, true, [], ◌∷◌, arith, ℤ, pos, negsuc, All,
}
use edgedelta_lambda_extensi.Text.Bytes.{Bytes}
use edgedelta_lambda_extensi.Text.Decimal.{decimal, print_int}
use edgedelta_lambda_extensi.Text.Numeral.{IsDigit, IsInt64, decimal-Leads}
use edgedelta_lambda_extensi.Json.Number.{
  begin, minus, digits, is_digit, next_scan, is_final, is_number,
}

number-digits : (s : Bytes) → All IsDigit s → is_number digits s ≡ true
unfolding is_number next_scan is_final is_digit
number-digits [] h = refl
number-digits (c ∷ s) (h, hs) = let more = number-digits s hs in ground (arith, more)

number-leading :
    (c : ℕ) (s : Bytes)
    → b'1' ≤ c
    → c ≤ b'9'
    → All IsDigit s
    → (is_number begin (c ∷ s) ≡ true) × (is_number minus (c ∷ s) ≡ true)
unfolding is_number next_scan is_digit
number-leading c s l h d =
    let more = number-digits s d in (ground (arith, more), ground (arith, more))

number-minus : (s : Bytes) → is_number minus s ≡ true → is_number begin (b'-' ∷ s) ≡ true
unfolding is_number next_scan
number-minus s h = h

pub is_number-print_int : (z : ℤ) → IsInt64 z → is_number begin (print_int z) ≡ true
unfolding print_int
is_number-print_int (pos zero) h = unfold is_number decimal next_scan is_final in refl
is_number-print_int (pos (suc n)) h =
    let l = decimal-Leads 20 (suc n) (omega arith) (omega arith) in
    rw (l.same) ((number-leading (l.head) (l.rest) (l.low) (l.high) (l.digits_behind)).0)
is_number-print_int (negsuc n) h =
    let l = decimal-Leads 20 (suc n) (omega arith) (omega arith) in
    rw (l.same)
      (number-minus _ ((number-leading (l.head) (l.rest) (l.low) (l.high) (l.digits_behind)).1))
