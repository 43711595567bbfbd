-- ===== src/Json/Quote.antt =====
-- The string encoder of `encoding/json` (Go 1.20, with HTML escaping, as `json.Marshal` calls it).
use edgedelta_lambda_extensi.Common.{
  ℕ, zero, suc, ◌+◌, ◌-◌, ◌/◌, ◌%◌, ◌≤◌, ◌≡◌, refl, Bool, false, ◌&&◌, ◌||◌, Option, none, some, [],
  ◌∷◌, ◌++◌, arith, ◌==◌, ltb, if◌then◌else◌, All, All-append, take,
}
use edgedelta_lambda_extensi.Common.{Option-cases, inl, inr}
use edgedelta_lambda_extensi.Text.Bytes.{Bytes, codes}
use edgedelta_lambda_extensi.Text.Utf8.{rune_size, rune_size-high}

unfoldable pub hex_digit : ℕ → ℕ
hex_digit n = if ltb n 10 then b'0' + n else b'a' + n - 10

-- A byte below 0x80.
unfoldable pub escape_ascii : ℕ → Bytes
unfolding hex_digit
escape_ascii c =
    if c == b'"' || c == b'\\'
    then b'\\' ∷ c ∷ []
    else if c == 10
    then codes "\\n"
    else if c == 13
    then codes "\\r"
    else if c == 9
    then codes "\\t"
    else if ltb c 32 || (c == b'<' || (c == b'>' || c == b'&'))
    then codes "\\u00" ++ hex_digit (c / 16) ∷ hex_digit (c % 16) ∷ []
    else c ∷ []

-- U+2028 and U+2029, whose last byte is 0xa8 or 0xa9.
unfoldable pub is_separator : ℕ → Bytes → Bool
is_separator c (d ∷ e ∷ _) = c == 0xe2 && (d == 0x80 && (e == 0xa8 || e == 0xa9))
is_separator c _ = false

unfoldable pub escape_separator : Bytes → Bytes
unfolding hex_digit
escape_separator (d ∷ e ∷ _) = codes "\\u202" ++ hex_digit (e % 16) ∷ []
escape_separator _ = []

-- What is written for a character of the given size; one byte is passed of a bad encoding.
unfoldable pub escape_rune : ℕ → Bytes → Option ℕ → Bytes × ℕ
unfolding is_separator escape_separator
escape_rune c s none = (codes "\\ufffd", 0)
escape_rune c s (some k) = (if is_separator c s then escape_separator s else c ∷ take k s, k)

-- What is written for the character at `c`, and how many of the following bytes belong to it.
unfoldable pub escape_step : ℕ → Bytes → Bytes × ℕ
escape_step c s = if ltb c 0x80 then (escape_ascii c, 0) else escape_rune c s (rune_size c s)

-- The first argument counts the bytes that are written already.
unfoldable pub escape_from : ℕ → Bytes → Bytes
escape_from skip [] = []
escape_from zero (c ∷ s) = (escape_step c s).0 ++ escape_from (escape_step c s).1 s
escape_from (suc skip) (c ∷ s) = escape_from skip s

unfoldable pub quote : Bytes → Bytes
unfolding escape_from escape_step escape_ascii escape_rune rune_size
quote s = b'"' ∷ (escape_from 0 s ++ b'"' ∷ [])

-- No control characters.
abbrev pub IsPrintable : Bytes → Type 0
IsPrintable = All (λ c. 32 ≤ c)

escape_ascii-IsPrintable : (c : ℕ) → IsPrintable (escape_ascii c)
unfolding escape_ascii
escape_ascii-IsPrintable c = ground arith

high-IsPrintable : (s : Bytes) → All (λ c. 0x80 ≤ c) s → IsPrintable s
high-IsPrintable [] h = tt
high-IsPrintable (c ∷ s) (h, hs) = (omega arith, high-IsPrintable s hs)

escape_separator-IsPrintable : (s : Bytes) → IsPrintable (escape_separator s)
unfolding escape_separator
escape_separator-IsPrintable [] = tt
escape_separator-IsPrintable (d ∷ []) = tt
escape_separator-IsPrintable (d ∷ e ∷ s) = ground arith

escape_rune-IsPrintable :
    (c : ℕ) (s : Bytes) → ltb c 0x80 ≡ false → IsPrintable (escape_rune c s (rune_size c s)).0
escape_rune-IsPrintable c s h = elim (Option-cases (rune_size c s)) [
  | inl e ↦ rw e (unfold escape_rune in omega arith)
  | inr (k, e) ↦ rw e (
      unfold escape_rune in
      ground (
        arith,
        escape_separator-IsPrintable s,
        high-IsPrintable (take k s) (rune_size-high c s k e),
      ))
]

escape_step-IsPrintable : (c : ℕ) (s : Bytes) → IsPrintable (escape_step c s).0
unfolding escape_step
escape_step-IsPrintable c s =
    ground (arith, escape_ascii-IsPrintable c, escape_rune-IsPrintable c s)

escape_from-IsPrintable : (skip : ℕ) (s : Bytes) → IsPrintable (escape_from skip s)
unfolding escape_from
escape_from-IsPrintable skip [] = tt
escape_from-IsPrintable zero (c ∷ s) =
    All-append _ (escape_step c s).0 _ (escape_step-IsPrintable c s)
      (escape_from-IsPrintable (escape_step c s).1 s)
escape_from-IsPrintable (suc skip) (c ∷ s) = escape_from-IsPrintable skip s

-- An encoded string holds no control character, whatever bytes the string holds.
pub quote-IsPrintable : (s : Bytes) → IsPrintable (quote s)
unfolding quote
quote-IsPrintable s =
    (omega arith, All-append _ (escape_from 0 s) _ (escape_from-IsPrintable 0 s) (omega arith))

quote_test : quote (codes "a\"<\n") ≡ codes "\"a\\\"\\u003c\\n\""
unfolding quote
quote_test = refl
