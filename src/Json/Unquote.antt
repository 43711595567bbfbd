-- ===== src/Json/Unquote.antt =====
-- The string decoder of `encoding/json`.
use edgedelta_lambda_extensi.Common.{
  ℕ, zero, suc, ◌+◌, ◌-◌, ◌*◌, ◌/◌, ◌%◌, ◌≡◌, refl, Bool, true, false, ◌&&◌, ◌||◌, Option, none,
  some, [], ◌∷◌, ◌++◌, ◌==◌, ltb, leb, if◌then◌else◌, take, drop,
}
use edgedelta_lambda_extensi.Text.Bytes.{Bytes, codes}
use edgedelta_lambda_extensi.Text.Utf8.{rune_size}

unfoldable pub hex_value : ℕ → Option ℕ
hex_value c =
    if leb b'0' c && leb c b'9'
    then some (c - b'0')
    else if leb b'a' c && leb c b'f'
    then some (c - b'a' + 10)
    else if leb b'A' c && leb c b'F'
    then some (c - b'A' + 10)
    else none

-- The four digits behind `\u`, with what is read of them; the first argument counts the digits left.
unfoldable pub hex_number : ℕ → ℕ → Bytes → Option ℕ
unfolding hex_value
hex_number zero n s = some n
hex_number (suc left) n [] = none
hex_number (suc left) n (c ∷ s) = elim (hex_value c) [
  | none ↦ none
  | some d ↦ hex_number left (n * 16 + d) s
]

-- `utf8.EncodeRune`
unfoldable pub encode_rune : ℕ → Bytes
encode_rune r =
    if ltb r 0x80
    then r ∷ []
    else if ltb r 0x800
    then (0xc0 + r / 64) ∷ (0x80 + r % 64) ∷ []
    else if ltb r 0x10000
    then (0xe0 + r / 4096) ∷ (0x80 + r / 64 % 64) ∷ (0x80 + r % 64) ∷ []
    else (0xf0 + r / 262144) ∷ (0x80 + r / 4096 % 64) ∷ (0x80 + r / 64 % 64) ∷ (0x80 + r % 64) ∷ []

-- U+FFFD
abbrev pub replacement : Bytes
replacement = 0xef ∷ 0xbf ∷ 0xbd ∷ []

unfoldable pub is_surrogate : ℕ → Bool
is_surrogate r = leb 0xd800 r && ltb r 0xe000

-- The second half of a pair, `\uXXXX`.
unfoldable pub second_half : Bytes → Option ℕ
unfolding hex_number
second_half (c ∷ d ∷ s) = if c == b'\\' && d == b'u' then hex_number 4 0 s else none
second_half _ = none

-- A half of a pair, `\u` and four digits being read; the result counts the bytes behind the backslash.
unfoldable pub pair : ℕ → Option ℕ → Bytes × ℕ
unfolding encode_rune
pair r none = (replacement, 5)
pair r (some r') =
    if ltb r 0xdc00 && (leb 0xdc00 r' && ltb r' 0xe000)
    then (encode_rune ((r - 0xd800) * 1024 + (r' - 0xdc00) + 0x10000), 11)
    else (replacement, 5)

unfoldable pub code_point : ℕ → Bytes → Bytes × ℕ
unfolding is_surrogate second_half encode_rune
code_point r s = if is_surrogate r then pair r (second_half (drop 4 s)) else (encode_rune r, 5)

-- `\u`, with what follows it.
unfoldable pub unicode : Bytes → Option (Bytes × ℕ)
unfolding code_point hex_number
unicode s = elim (hex_number 4 0 s) [ none ↦ none | some r ↦ some (code_point r s) ]

-- What follows a backslash.
unfoldable pub unescape : Bytes → Option (Bytes × ℕ)
unfolding unicode
unescape [] = none
unescape (e ∷ s) =
    if e == b'"' || (e == b'\\' || e == b'/')
    then some (e ∷ [], 1)
    else if e == b'n'
    then some (10 ∷ [], 1)
    else if e == b'r'
    then some (13 ∷ [], 1)
    else if e == b't'
    then some (9 ∷ [], 1)
    else if e == b'b'
    then some (8 ∷ [], 1)
    else if e == b'f'
    then some (12 ∷ [], 1)
    else if e == b'u'
    then unicode s
    else none

unfoldable pub copy_rune : ℕ → Bytes → Option ℕ → Bytes × ℕ
copy_rune c s none = (replacement, 0)
copy_rune c s (some k) = (c ∷ take k s, k)

-- The text of the character at `c`, and how many of the following bytes belong to it.
unfoldable pub unescape_step : ℕ → Bytes → Option (Bytes × ℕ)
unfolding unescape copy_rune
unescape_step c s =
    if ltb c 32
    then none
    else if c == b'\\'
    then unescape s
    else if ltb c 0x80
    then some (c ∷ [], 0)
    else some (copy_rune c s (rune_size c s))

abbrev pub prepend : Bytes → Option (Bytes × Bytes) → Option (Bytes × Bytes)
prepend s none = none
prepend s (some (t, rest)) = some (s ++ t, rest)

-- A string behind its opening quote, and what follows its closing one. The first argument counts the
-- bytes that are read already.
unfoldable pub read_from : ℕ → Bytes → Option (Bytes × Bytes)
unfolding unescape_step
read_from skip [] = none
read_from (suc skip) (c ∷ s) = read_from skip s
read_from zero (c ∷ s) = elim (c == b'"') [
  | true ↦ some ([], s)
  | false ↦ elim (unescape_step c s) [ none ↦ none | some (t, k) ↦ prepend t (read_from k s) ]
]

-- A string with its opening quote.
unfoldable pub read_string : Bytes → Option (Bytes × Bytes)
unfolding read_from
read_string [] = none
read_string (c ∷ s) = if c == b'"' then read_from 0 s else none

read_test :
    read_from 0 (codes "a\\u0041\\n\\ud83d\\ude00\" x")
    ≡ some (codes "aA\n" ++ 0xf0 ∷ 0x9f ∷ 0x98 ∷ 0x80 ∷ [], codes " x")
unfolding read_from pair
read_test = refl
