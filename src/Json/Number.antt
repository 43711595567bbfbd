-- ===== src/Json/Number.antt =====
-- The numbers of JSON, as the scanner of `encoding/json` accepts them.
use edgedelta_lambda_extensi.Common.{
  ℕ, ◌≡◌, Bool, true, false, ◌&&◌, ◌||◌, Option, none, some, [], ◌∷◌, ◌++◌, arith, ◌==◌, leb,
  if◌then◌else◌, Option-cases, inl, inr, ◌⊎◌, ◌≤◌,
}
use edgedelta_lambda_extensi.Text.Bytes.{Bytes}

-- Where the scanner stands in a number.
pub data Scan : Type 0 where
  begin minus zero_digit digits dot fraction exponent exponent_sign exponent_digits : Scan

unfoldable pub is_digit : ℕ → Bool
is_digit c = leb b'0' c && leb c b'9'

-- A digit, or nothing.
unfoldable pub to_digits : Scan → ℕ → Option Scan
unfolding is_digit
to_digits q c = if is_digit c then some q else none

unfoldable pub exponent_or : Option Scan → ℕ → Option Scan
exponent_or o c = if c == b'e' || c == b'E' then some exponent else o

unfoldable pub fraction_or : Option Scan → ℕ → Option Scan
unfolding exponent_or
fraction_or o c = if c == b'.' then some dot else exponent_or o c

unfoldable pub next_scan : Scan → ℕ → Option Scan
unfolding to_digits exponent_or fraction_or
next_scan begin c =
    if c == b'-' then some minus else if c == b'0' then some zero_digit else to_digits digits c
next_scan minus c = if c == b'0' then some zero_digit else to_digits digits c
next_scan zero_digit c = fraction_or none c
next_scan digits c = fraction_or (to_digits digits c) c
next_scan dot c = to_digits fraction c
next_scan fraction c = exponent_or (to_digits fraction c) c
next_scan exponent c =
    if c == b'+' || c == b'-' then some exponent_sign else to_digits exponent_digits c
next_scan exponent_sign c = to_digits exponent_digits c
next_scan exponent_digits c = to_digits exponent_digits c

-- Whether a number may end here.
unfoldable pub is_final : Scan → Bool
is_final zero_digit = true
is_final digits = true
is_final fraction = true
is_final exponent_digits = true
is_final _ = false

abbrev pub cons_first : ℕ → Option (Bytes × Bytes) → Option (Bytes × Bytes)
cons_first c none = none
cons_first c (some (s, rest)) = some (c ∷ s, rest)

-- The longest number at the head of a text, and what follows it.
unfoldable pub scan_number : Scan → Bytes → Option (Bytes × Bytes)
unfolding next_scan is_final
scan_number q [] = if is_final q then some ([], []) else none
scan_number q (c ∷ s) = elim (next_scan q c) [
  | some q' ↦ cons_first c (scan_number q' s)
  | none ↦ if is_final q then some ([], c ∷ s) else none
]

-- Whether a text is a number as a whole.
unfoldable pub is_number : Scan → Bytes → Bool
unfolding next_scan is_final
is_number q [] = is_final q
is_number q (c ∷ s) = elim (next_scan q c) [ some q' ↦ is_number q' s | none ↦ false ]

-- What may follow a value: the end, or one of `,`, `]` and `}`.
unfoldable pub ends : Bytes → Bool
ends [] = true
ends (c ∷ s) = c == b',' || (c == b']' || c == b'}')

ends_stop : (q : Scan) (c : ℕ) (s : Bytes) → ends (c ∷ s) ≡ true → next_scan q c ≡ none
unfolding next_scan ends
ends_stop begin c s h = ground arith
ends_stop _ c s h = ground arith

-- A number is scanned whole in front of what may follow a value.
pub scan_number-append :
    (q : Scan) (s rest : Bytes)
    → is_number q s ≡ true
    → ends rest ≡ true
    → scan_number q (s ++ rest) ≡ some (s, rest)
unfolding scan_number is_number
scan_number-append q [] [] h e = rw h
scan_number-append q [] (c ∷ rest) h e = rw (ends_stop q c rest e, scan_number, h)
scan_number-append q (c ∷ s) rest h e = elim (Option-cases (next_scan q c)) [
  | inl n ↦ cc (rw (n, is_number) at h)
  | inr (q', n) ↦
      let h' : is_number q' s ≡ true = rw (n, is_number) at h in
      rw (n, scan_number, scan_number-append q' s rest h' e)
]

-- A number starts with a minus or a digit.
pub number_head :
    (c : ℕ) (s : Bytes) → is_number begin (c ∷ s) ≡ true → (c ≡ b'-') ⊎ ((b'0' ≤ c) × (c ≤ b'9'))
unfolding is_number next_scan
number_head c s h = elim (Option-cases (next_scan begin c)) [
  | inl n ↦ cc (rw (n, is_number) at h)
  | inr (q, n) ↦ ground arith
]
