-- ===== src/Extension/Panics.antt =====
-- When `startExtension` of main.go follows a nil pointer.
use edgedelta_lambda_extensi.Common.{◌≡◌, ◌⊎◌, Option, none, some, List, [], ◌∷◌}
use edgedelta_lambda_extensi.Text.Bytes.{Bytes}
use edgedelta_lambda_extensi.Text.Table.{Table}
use edgedelta_lambda_extensi.Cfg.Types.{Outcome as Loaded}
use edgedelta_lambda_extensi.Extension.Types.{FunctionConfiguration, FunctionOutput}

-- A nil pointer is among them.
abbrev pub HasNil : List (Option Bytes) → Type 0
HasNil [] = ⊥
HasNil (p ∷ ps) = (p ≡ none) ⊎ HasNil ps

abbrev pub HasNilTag : Table (Option Bytes) → Type 0
HasNilTag [] = ⊥
HasNilTag ((k, v) ∷ tags) = (v ≡ none) ⊎ HasNilTag tags

-- A nil pointer where the start follows one: a tag, an architecture, the runtime or the memory size.
abbrev pub IsIncomplete : FunctionOutput → Type 0
IsIncomplete f =
    HasNilTag f.tags
    ⊎ ((g : FunctionConfiguration) × (f.configuration ≡ some g)
        × (HasNil g.architectures ⊎ ((g.runtime ≡ none) ⊎ (g.memory_size ≡ none))))
