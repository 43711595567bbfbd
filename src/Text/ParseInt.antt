-- ===== src/Text/ParseInt.antt =====
-- `strconv.ParseInt(s, 10, 0)` where an `int` has 64 bits.
use edgedelta_lambda_extensi.Common.{
  ℕ, ◌+◌, ◌-◌, ◌*◌, ◌/◌, ◌^◌, ◌≡◌, refl, ◌||◌, [], ◌∷◌, ℤ, pos, negsuc, sub_ℕ, ◌==◌, ltb, leb,
  if◌then◌else◌, Result, ok, err, ◌>>=◌,
}
use edgedelta_lambda_extensi.Text.Bytes.{Bytes, codes}

-- The `Err` of a `*strconv.NumError`.
pub data NumError : Type 0 where
  bad_syntax out_of_range : NumError

abbrev pub max_uint64 : ℕ
max_uint64 = 2 ^ 64 - 1

unfoldable pub digits : ℕ → Bytes → Result NumError ℕ
digits n [] = ok n
digits n (c ∷ s) =
    let more = digits (n * 10 + (c - b'0')) s in
    if ltb c b'0' || ltb b'9' c
    then err bad_syntax
    else if leb (max_uint64 / 10 + 1) n || ltb max_uint64 (n * 10 + (c - b'0'))
    then err out_of_range
    else more

unfoldable pub parse_uint : Bytes → Result NumError ℕ
unfolding digits
parse_uint [] = err bad_syntax
parse_uint (c ∷ s) = digits 0 (c ∷ s)

unfoldable pub unsigned : ℕ → Result NumError ℤ
unsigned n = if leb (2 ^ 63) n then err out_of_range else ok (pos n)

unfoldable pub negated : ℕ → Result NumError ℤ
negated n = if ltb (2 ^ 63) n then err out_of_range else ok (sub_ℕ 0 n)

unfoldable pub parse_int : Bytes → Result NumError ℤ
unfolding parse_uint unsigned negated
parse_int [] = err bad_syntax
parse_int (c ∷ s) =
    if c == b'+'
    then (parse_uint s >>= unsigned)
    else if c == b'-'
    then (parse_uint s >>= negated)
    else parse_uint (c ∷ s) >>= unsigned

parse_tests :
    (parse_int (codes "-20") ≡ ok (negsuc 19))
    × (parse_int (codes "9223372036854775808") ≡ err out_of_range)
    × (parse_int (codes "12x") ≡ err bad_syntax)
unfolding parse_int
parse_tests = (refl, refl, refl)
