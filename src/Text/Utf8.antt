-- ===== src/Text/Utf8.antt =====
-- UTF-8 as `unicode/utf8` decodes it.
use edgedelta_lambda_extensi.Common.{
  ℕ, zero, suc, ◌≤◌, ◌≡◌, Bool, true, false, ◌&&◌, Option, none, some, [], ◌∷◌, ◌++◌, arith, ltb,
  leb, ◌==◌, if◌then◌else◌, take, All,
}
use edgedelta_lambda_extensi.Text.Bytes.{Bytes}

unfoldable pub is_continuation : ℕ → Bool
is_continuation c = leb 0x80 c && leb c 0xbf

-- The range of a second byte, which depends on the first.
unfoldable pub second_ok : ℕ → ℕ → Bool
second_ok c d =
    leb (if c == 0xe0 then 0xa0 else if c == 0xf0 then 0x90 else 0x80) d
    && leb d (if c == 0xed then 0x9f else if c == 0xf4 then 0x8f else 0xbf)

unfoldable pub size2 : ℕ → Bytes → Option ℕ
unfolding second_ok
size2 c [] = none
size2 c (d ∷ _) = if second_ok c d then some 1 else none

unfoldable pub size3 : ℕ → Bytes → Option ℕ
unfolding second_ok is_continuation
size3 c [] = none
size3 c (d ∷ []) = none
size3 c (d ∷ e ∷ _) = if second_ok c d && is_continuation e then some 2 else none

unfoldable pub size4 : ℕ → Bytes → Option ℕ
unfolding second_ok is_continuation
size4 c [] = none
size4 c (d ∷ []) = none
size4 c (d ∷ e ∷ []) = none
size4 c (d ∷ e ∷ f ∷ _) =
    if second_ok c d && (is_continuation e && is_continuation f) then some 3 else none

-- How many of the following bytes belong to the character at `c`; `none` is a bad encoding.
unfoldable pub rune_size : ℕ → Bytes → Option ℕ
unfolding size2 size3 size4
rune_size c s =
    if ltb c 0x80
    then some 0
    else if ltb c 0xc2
    then none
    else if ltb c 0xe0
    then size2 c s
    else if ltb c 0xf0
    then size3 c s
    else if ltb c 0xf5
    then size4 c s
    else none

-- `skip` counts the bytes of the character that are passed already.
unfoldable pub valid_from : ℕ → Bytes → Bool
unfolding rune_size
valid_from skip [] = true
valid_from zero (c ∷ s) = elim (rune_size c s) [ none ↦ false | some k ↦ valid_from k s ]
valid_from (suc skip) (c ∷ s) = valid_from skip s

-- `utf8.Valid`
abbrev pub IsUtf8 : Bytes → Type 0
IsUtf8 s = valid_from 0 s ≡ true

abbrev pub AllHigh : Bytes → Type 0
AllHigh = All (λ c. 0x80 ≤ c)

-- The bytes of a character behind its first one are no ASCII.
pub rune_size-high : (c : ℕ) (s : Bytes) (k : ℕ) → rune_size c s ≡ some k → AllHigh (take k s)
unfolding rune_size
rune_size-high c [] k h = ground arith
rune_size-high c (d ∷ []) k h = ground arith
rune_size-high c (d ∷ e ∷ []) k h = ground arith
rune_size-high c (d ∷ e ∷ f ∷ s) k h = ground arith

-- The size depends on the bytes of the character alone.
pub rune_size-append :
    (c : ℕ) (s t : Bytes) (k : ℕ) → rune_size c s ≡ some k → rune_size c (take k s ++ t) ≡ some k
unfolding rune_size
rune_size-append c [] t k h = ground arith
rune_size-append c (d ∷ []) t k h = ground arith
rune_size-append c (d ∷ e ∷ []) t k h = ground arith
rune_size-append c (d ∷ e ∷ f ∷ s) t k h = ground arith
