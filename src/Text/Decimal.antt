-- ===== src/Text/Decimal.antt =====
-- `fmt.Sprintf("%d", n)` on an int64.
use edgedelta_lambda_extensi.Common.{
  ℕ, zero, suc, ◌+◌, ◌-◌, ◌*◌, ◌/◌, ◌%◌, ◌^◌, ◌<◌, ◌≡◌, refl, [], ◌∷◌, ◌++◌, arith, ltb, ℤ, pos,
  negsuc, if◌then◌else◌, Bool-cases, inl, inr,
}
use edgedelta_lambda_extensi.Text.Bytes.{Bytes, codes}

-- The decimal digits of a number; the first argument is more than their count.
unfoldable pub decimal : ℕ → ℕ → Bytes
decimal zero n = []
decimal (suc more) n =
    let front = decimal more (n / 10) in
    if ltb n 10 then (b'0' + n) ∷ [] else front ++ (b'0' + n % 10) ∷ []

-- `fmt.Sprintf("%d", n)`; an int64 has at most 19 digits.
unfoldable pub print_int : ℤ → Bytes
unfolding decimal
print_int (pos n) = decimal 20 n
print_int (negsuc n) = b'-' ∷ decimal 20 (suc n)

print_test : (print_int (pos 128) ≡ codes "128") × (print_int (negsuc 9) ≡ codes "-10")
unfolding print_int
print_test = (refl, refl)

-- The number that digits stand for, behind some that are read.
unfoldable pub value : ℕ → Bytes → ℕ
value n [] = n
value n (c ∷ s) = value (n * 10 + (c - b'0')) s

value-snoc : (n c : ℕ) (s : Bytes) → value n (s ++ c ∷ []) ≡ value n s * 10 + (c - b'0')
unfolding value
value-snoc n c [] = refl
value-snoc n c (d ∷ s) = value-snoc (n * 10 + (d - b'0')) c s

-- A number with at most k digits is printed whole.
pub value-decimal : (k n : ℕ) → n < 10 ^ k → value 0 (decimal k n) ≡ n
unfolding decimal
value-decimal zero n h = unfold value in omega arith
value-decimal (suc k) n h = elim (Bool-cases (ltb n 10)) [
  | inl e ↦ rw e (unfold value in omega arith)
  | inr e ↦ rw (e, value-snoc) (ground (arith, value-decimal k (n / 10) (ground arith)))
]
