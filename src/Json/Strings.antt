-- ===== src/Json/Strings.antt =====
-- Reading a string back that `encoding/json` has written.
use edgedelta_lambda_extensi.Common.{
  ℕ, zero, suc, ◌+◌, ◌*◌, ◌/◌, ◌%◌, ◌≤◌, ◌<◌, ◌≡◌, ◌≢◌, ◌⊎◌, if_either, refl, ap, true, false, some,
  [], ◌∷◌, ◌++◌, arith, ltb, take, drop, length, take-append-drop, append_assoc, Option-cases,
  Bool-cases, inl, inr,
}
use edgedelta_lambda_extensi.Text.Bytes.{Bytes, codes}
use edgedelta_lambda_extensi.Text.Utf8.{rune_size, rune_size-append, valid_from, IsUtf8}
use edgedelta_lambda_extensi.Json.Quote.{
  hex_digit, escape_ascii, is_separator, escape_separator, escape_rune, escape_step, escape_from,
  quote,
}
use edgedelta_lambda_extensi.Json.Unquote.{
  hex_value, hex_number, encode_rune, code_point, is_surrogate, unicode, prepend, read_from,
  read_string,
}

hex_value-hex_digit : (n : ℕ) → n < 16 → hex_value (hex_digit n) ≡ some n
unfolding hex_value hex_digit
hex_value-hex_digit n h = ground arith

-- `out` stands for the text `t` in front of anything.
abbrev Stands : Bytes → Bytes → Type 0
Stands out t = (more : Bytes) → read_from 0 (out ++ more) ≡ prepend t (read_from 0 more)

hex_number-digits :
    (h l : ℕ) (more : Bytes)
    → h < 16
    → l < 16
    → hex_number 4 0 (b'0' ∷ b'0' ∷ hex_digit h ∷ hex_digit l ∷ more) ≡ some (h * 16 + l)
unfolding hex_number
hex_number-digits h l more hh hl =
    rw (hex_value-hex_digit h hh, hex_number, hex_value-hex_digit l hl) (ap some (omega arith))

encode_rune-ascii : (c : ℕ) → c < 0x80 → encode_rune c ≡ c ∷ []
unfolding encode_rune
encode_rune-ascii c h = ground arith

code_point-ascii : (c : ℕ) (s : Bytes) → c < 0x80 → code_point c s ≡ (c ∷ [], 5)
unfolding code_point is_surrogate
code_point-ascii c s h = ground (arith, encode_rune-ascii c h)

unicode-digits :
    (h l : ℕ) (more : Bytes)
    → h < 8
    → l < 16
    → unicode (b'0' ∷ b'0' ∷ hex_digit h ∷ hex_digit l ∷ more) ≡ some ((h * 16 + l) ∷ [], 5)
unfolding unicode
unicode-digits h l more hh hl = rw (
  unicode,
  hex_number-digits h l more (omega arith) hl,
  code_point-ascii (h * 16 + l) (b'0' ∷ b'0' ∷ hex_digit h ∷ hex_digit l ∷ more) (omega arith),
)

-- The escape of a byte below 0x80.
read_escape :
    (h l : ℕ) (more : Bytes)
    → h < 8
    → l < 16
    → read_from 0 (codes "\\u00" ++ hex_digit h ∷ hex_digit l ∷ more)
      ≡ prepend ((h * 16 + l) ∷ []) (read_from 0 more)
unfolding read_from
read_escape h l more hh hl = rw (read_from, unicode-digits h l more hh hl)

read_plain :
    (c : ℕ) (more : Bytes)
    → 32 ≤ c
    → c < 0x80
    → c ≢ b'"'
    → c ≢ b'\\'
    → read_from 0 (c ∷ more) ≡ prepend (c ∷ []) (read_from 0 more)
unfolding read_from
read_plain c more lo hi q b = ground arith

escape_ascii-Stands : (c : ℕ) → c < 0x80 → Stands (escape_ascii c) (c ∷ [])
unfolding escape_ascii read_from
escape_ascii-Stands c h more = ground (arith, read_escape (c / 16) (c % 16) more, read_plain c more)

size_within : (c : ℕ) (s : Bytes) (k : ℕ) → rune_size c s ≡ some k → k ≤ length s
unfolding rune_size
size_within c [] k h = ground arith
size_within c (d ∷ []) k h = ground arith
size_within c (d ∷ e ∷ []) k h = ground arith
size_within c (d ∷ e ∷ f ∷ s) k h = ground arith

take-take : (k : ℕ) (s more : Bytes) → k ≤ length s → take k (take k s ++ more) ≡ take k s
take-take zero s more h = refl
take-take (suc k) [] more h = absurd (omega arith)
take-take (suc k) (c ∷ s) more h = ap (λ (t : Bytes). c ∷ t) (take-take k s more (omega arith))

read_from-skip :
    (k : ℕ) (s more : Bytes) → k ≤ length s → read_from k (take k s ++ more) ≡ read_from 0 more
unfolding read_from
read_from-skip zero s more h = refl
read_from-skip (suc k) [] more h = absurd (omega arith)
read_from-skip (suc k) (c ∷ s) more h = read_from-skip k s more (omega arith)

-- The two separators, as they are written and as they stand.
separator_parts :
    (c d f : ℕ) (s : Bytes)
    → is_separator c (d ∷ f ∷ s) ≡ true
    → (c ≡ 0xe2) × (d ≡ 0x80) × ((f ≡ 0xa8) ⊎ (f ≡ 0xa9))
unfolding is_separator
separator_parts c d f s h = ground arith

separator_size :
    (f k : ℕ) (s : Bytes) → (f ≡ 0xa8) ⊎ (f ≡ 0xa9) → rune_size 0xe2 (0x80 ∷ f ∷ s) ≡ some k → k ≡ 2
unfolding rune_size
separator_size f k s h e = ground arith

read_separator :
    (f : ℕ) (s : Bytes)
    → (f ≡ 0xa8) ⊎ (f ≡ 0xa9)
    → Stands (escape_separator (0x80 ∷ f ∷ s)) (0xe2 ∷ 0x80 ∷ f ∷ [])
unfolding escape_separator read_from
read_separator f s (inl e) more = rw e
read_separator f s (inr e) more = rw e

separator_lem :
    (c : ℕ) (s : Bytes) (k : ℕ)
    → is_separator c s ≡ true
    → rune_size c s ≡ some k
    → Stands (escape_separator s) (c ∷ take k s)
unfolding is_separator
separator_lem c [] k h e more = cc
separator_lem c (d ∷ []) k h e more = cc
separator_lem c (d ∷ f ∷ s) k h e more =
    let (ec, ed, ef) = separator_parts c d f s h in
    let size : k ≡ 2 = separator_size f k s ef (rw (ec, ed) at e) in
    rw (ec, ed, size) (read_separator f s ef more)

copy_lem :
    (c : ℕ) (s : Bytes) (k : ℕ)
    → 0x80 ≤ c
    → rune_size c s ≡ some k
    → Stands (c ∷ take k s) (c ∷ take k s)
unfolding read_from
copy_lem c s k h e more =
    let within = size_within c s k e in
    ground (
      arith,
      rune_size-append c s more k e,
      take-take k s more within,
      read_from-skip k s more within,
    )

ascii_size : (c : ℕ) (s : Bytes) (k : ℕ) → c < 0x80 → rune_size c s ≡ some k → k ≡ 0
unfolding rune_size
ascii_size c s k h e = ground arith

escape_rune-Stands :
    (c : ℕ) (s : Bytes) (k : ℕ)
    → 0x80 ≤ c
    → rune_size c s ≡ some k
    → Stands (escape_rune c s (some k)).0 (c ∷ take k s)
unfolding escape_rune
escape_rune-Stands c s k h e more =
    if_either
      (λ (out : Bytes). read_from 0 (out ++ more) ≡ prepend (c ∷ take k s) (read_from 0 more))
      (is_separator c s) (escape_separator s) (c ∷ take k s) (λ sep. separator_lem c s k sep e more)
      (λ _. copy_lem c s k h e more)

escape_step-low : (c : ℕ) (s : Bytes) → ltb c 0x80 ≡ true → escape_step c s ≡ (escape_ascii c, 0)
unfolding escape_step
escape_step-low c s h = rw h

escape_step-high :
    (c : ℕ) (s : Bytes) → ltb c 0x80 ≡ false → escape_step c s ≡ escape_rune c s (rune_size c s)
unfolding escape_step
escape_step-high c s h = rw h

escape_rune-size : (c : ℕ) (s : Bytes) (k : ℕ) → (escape_rune c s (some k)).1 ≡ k
unfolding escape_rune
escape_rune-size c s k = refl

-- A character that is encoded well is written so that it is read back, and is passed whole.
escape_step-Stands :
    (c : ℕ) (s : Bytes) (k : ℕ)
    → rune_size c s ≡ some k
    → ((escape_step c s).1 ≡ k) × Stands (escape_step c s).0 (c ∷ take k s)
escape_step-Stands c s k e = elim (Bool-cases (ltb c 0x80)) [
  | inl low ↦
      let size : k ≡ 0 = ascii_size c s k (ground arith) e in
      rw (size, escape_step-low c s low) (refl, escape_ascii-Stands c (ground arith))
  | inr high ↦
      rw (escape_step-high c s high, e)
        (escape_rune-size c s k, escape_rune-Stands c s k (ground arith) e)
]

prepend-some :
    (c : ℕ) (k : ℕ) (s rest : Bytes)
    → prepend (c ∷ take k s) (some (drop k s, rest)) ≡ some (c ∷ s, rest)
prepend-some c k s rest = rw (take-append-drop k s)

read_from-escape_from :
    (k : ℕ) (s rest : Bytes)
    → valid_from k s ≡ true
    → k ≤ length s
    → read_from 0 (escape_from k s ++ b'"' ∷ rest) ≡ some (drop k s, rest)
unfolding escape_from valid_from
read_from-escape_from zero [] rest v h = unfold read_from in refl
read_from-escape_from (suc k) [] rest v h = absurd (omega arith)
read_from-escape_from (suc k) (c ∷ s) rest v h = read_from-escape_from k s rest v (omega arith)
read_from-escape_from zero (c ∷ s) rest v h = elim (Option-cases (rune_size c s)) [
  | inl e ↦ cc (rw (e, valid_from) at v)
  | inr (k, e) ↦
      let (size, stands) = escape_step-Stands c s k e in
      let v' : valid_from k s ≡ true = rw (e, valid_from) at v in
      rw
        (
          append_assoc,
          stands (escape_from (escape_step c s).1 s ++ b'"' ∷ rest),
          size,
          read_from-escape_from k s rest v' (size_within c s k e),
        )
        (prepend-some c k s rest)
]

-- A string of valid UTF-8 that is quoted is read back whole.
pub read_string-quote : (s rest : Bytes) → IsUtf8 s → read_string (quote s ++ rest) ≡ some (s, rest)
unfolding quote read_string
read_string-quote s rest h =
    rw (append_assoc (escape_from 0 s) (b'"' ∷ []) rest)
      (read_from-escape_from 0 s rest h (omega arith))
