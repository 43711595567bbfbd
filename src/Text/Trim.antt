-- ===== src/Text/Trim.antt =====
-- `strings.TrimSpace`: the characters of `unicode.IsSpace`, in UTF-8, at both ends.
use mathlib.Core.List.{reverse}
use edgedelta_lambda_extensi.Common.{
  ℕ, zero, suc, ◌≡◌, refl, Bool, ◌&&◌, ◌||◌, [], ◌∷◌, ◌==◌, leb, if◌then◌else◌,
}
use edgedelta_lambda_extensi.Text.Bytes.{Bytes, codes}

-- Tab, line feed, vertical tab, form feed, carriage return and space.
is_space1 : ℕ → Bool
is_space1 c = leb 9 c && leb c 13 || c == 32

-- U+0085 and U+00A0.
is_space2 : ℕ → ℕ → Bool
is_space2 c d = c == 0xc2 && (d == 0x85 || d == 0xa0)

-- U+1680, U+2000 to U+200A, U+2028, U+2029, U+202F, U+205F and U+3000.
is_space3 : ℕ → ℕ → ℕ → Bool
is_space3 c d e =
    c == 0xe1 && (d == 0x9a && e == 0x80)
    || (c == 0xe2
          && (d == 0x80 && (leb 0x80 e && leb e 0x8a || (e == 0xa8 || (e == 0xa9 || e == 0xaf)))
              || d == 0x81 && e == 0x9f)
        || c == 0xe3 && (d == 0x80 && e == 0x80))

-- How many bytes of a space character stand at the head of a text, and of a reversed text.
space_length : Bytes → ℕ
unfolding is_space1 is_space2 is_space3
space_length (c ∷ d ∷ e ∷ _) =
    if is_space1 c then 1 else if is_space2 c d then 2 else if is_space3 c d e then 3 else 0
space_length (c ∷ d ∷ []) = if is_space1 c then 1 else if is_space2 c d then 2 else 0
space_length (c ∷ []) = if is_space1 c then 1 else 0
space_length [] = 0

space_length_back : Bytes → ℕ
unfolding is_space1 is_space2 is_space3
space_length_back (c ∷ d ∷ e ∷ _) =
    if is_space1 c then 1 else if is_space2 d c then 2 else if is_space3 e d c then 3 else 0
space_length_back (c ∷ d ∷ []) = if is_space1 c then 1 else if is_space2 d c then 2 else 0
space_length_back (c ∷ []) = if is_space1 c then 1 else 0
space_length_back [] = 0

-- `skip` counts the bytes of a space character that are still to be passed.
trim_from : (Bytes → ℕ) → ℕ → Bytes → Bytes
trim_from spaces skip [] = []
trim_from spaces zero (c ∷ s) = elim (spaces (c ∷ s)) [
  | zero ↦ c ∷ s
  | suc more ↦ trim_from spaces more s
]
trim_from spaces (suc skip) (c ∷ s) = trim_from spaces skip s

unfoldable pub trim_space : Bytes → Bytes
unfolding trim_from space_length space_length_back
trim_space s = reverse (trim_from space_length_back 0 (reverse (trim_from space_length 0 s)))

trim_test : trim_space (codes " \ta b\n") ≡ codes "a b"
unfolding trim_space
trim_test = refl
