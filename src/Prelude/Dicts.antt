-- ===== src/Prelude/Dicts.antt =====
-- map[string]string and its like: an association list with one entry for each key. A nil map reads as an
-- empty one, and the program's writes to a nil map are preceded by a `make`.
use Prim.Native.String.{String}
use mathlib.Core.List.{List, [], ◌∷◌}
use text.Mathlib.Text.{◌==◌ as str_eq}
use tork.Prelude.Tests.{if◌then◌else◌}

abbrev pub Dict {ℓ} : Type ℓ → Type ℓ
Dict V = List (String × V)

-- m[k] = v
unfoldable pub insert {ℓ} : {V : Type ℓ} → String → V → Dict V → Dict V
insert key value [] = (key, value) ∷ []
insert key value ((k, old) ∷ rest) =
    if str_eq k key then (key, value) ∷ rest else (k, old) ∷ insert key value rest
