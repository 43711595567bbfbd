-- ===== src/Json/Tree.antt =====
-- A JSON text as a tree, numbers as they are written, and its compact print.
use edgedelta_lambda_extensi.Common.{◌≡◌, Bool, true, false, [], ◌∷◌, ◌++◌}
use edgedelta_lambda_extensi.Text.Bytes.{Bytes, codes}
use edgedelta_lambda_extensi.Text.Utf8.{IsUtf8}
use edgedelta_lambda_extensi.Json.Quote.{quote}
use edgedelta_lambda_extensi.Json.Number.{begin, is_number}

mutual
  pub data Tree : Type 0 where
    null : Tree
    bool : Bool → Tree
    number : Bytes → Tree
    text : Bytes → Tree
    array : Trees → Tree
    object : Pairs → Tree

  pub data Trees : Type 0 where
    no_trees : Trees
    tree : Tree → Trees → Trees

  pub data Pairs : Type 0 where
    no_pairs : Pairs
    pair : Bytes → Tree → Pairs → Pairs

abbrev pub comma : Bool → Bytes
comma true = []
comma false = b',' ∷ []

unfoldable mutual
  pub emit : Tree → Bytes
  emit null = codes "null"
  emit (bool true) = codes "true"
  emit (bool false) = codes "false"
  emit (number s) = s
  emit (text s) = quote s
  emit (array ts) = b'[' ∷ (emit_trees true ts ++ b']' ∷ [])
  emit (object ps) = b'{' ∷ (emit_pairs true ps ++ b'}' ∷ [])

  -- The flag says that no element stands before.
  pub emit_trees : Bool → Trees → Bytes
  emit_trees first no_trees = []
  emit_trees first (tree t ts) = comma first ++ (emit t ++ emit_trees false ts)

  pub emit_pairs : Bool → Pairs → Bytes
  emit_pairs first no_pairs = []
  emit_pairs first (pair k t ps) =
      comma first ++ (quote k ++ b':' ∷ (emit t ++ emit_pairs false ps))

-- Strings are valid UTF-8, and numbers are numbers.
unfoldable mutual
  pub IsWellFormed : Tree → Type 0
  IsWellFormed (number s) = is_number begin s ≡ true
  IsWellFormed (text s) = IsUtf8 s
  IsWellFormed (array ts) = AreWellFormed ts
  IsWellFormed (object ps) = PairsAreWellFormed ps
  IsWellFormed _ = Unit

  pub AreWellFormed : Trees → Type 0
  AreWellFormed no_trees = Unit
  AreWellFormed (tree t ts) = IsWellFormed t × AreWellFormed ts

  pub PairsAreWellFormed : Pairs → Type 0
  PairsAreWellFormed no_pairs = Unit
  PairsAreWellFormed (pair k t ps) = IsUtf8 k × IsWellFormed t × PairsAreWellFormed ps
