-- ===== src/Base/GoMap.antt =====
-- Go maps with text keys: association lists, whose order is one order of iteration.
use Prim.Native.String.{String}
use mathlib.Core.Path.{◌≡◌, refl}
use mathlib.Core.Bool.{Bool, false, ◌||◌}
use mathlib.Core.Option.{Option, none, some}
use mathlib.Core.List.{List, [], ◌∷◌}
use native.Mathlib.Omega.{arith}
use text.Mathlib.Text.{◌==◌ as str_eq}
use text.Mathlib.TextEquality.{eq_iff}
use wenjuandiaocha_backend.Base.Tests.{if◌then◌else◌}

module _ {ℓ} {V : Type ℓ} where
  -- m[k], with the flag of the two-valued form as `some`.
  abbrev pub lookup : String → List (String × V) → Option V
  lookup k [] = none
  lookup k ((j, v) ∷ m) = if str_eq j k then some v else lookup k m

  -- m[k] = v
  abbrev pub assign : String → V → List (String × V) → List (String × V)
  assign k v [] = (k, v) ∷ []
  assign k v ((j, w) ∷ m) = if str_eq j k then (j, v) ∷ m else (j, w) ∷ assign k v m

  pub lookup-assign :
      (k j : String) (v : V) (m : List (String × V))
      → lookup j (assign k v m) ≡ (if str_eq k j then some v else lookup j m)
  lookup-assign k j v [] = refl
  lookup-assign k j v ((i, w) ∷ m) =
      ground (arith, eq_iff k j, eq_iff i k, eq_iff i j, lookup-assign k j v m)

-- Sets of texts: map[string]bool, of which only the keys that hold `true` are kept.
abbrev pub member : String → List String → Bool
member k [] = false
member k (j ∷ s) = str_eq j k || member k s

-- s[k] = true
abbrev pub insert : String → List String → List String
insert k s = if member k s then s else k ∷ s

-- delete(s, k)
abbrev pub remove : String → List String → List String
remove k [] = []
remove k (j ∷ s) = if str_eq j k then remove k s else j ∷ remove k s

pub member-insert :
    (k j : String) (s : List String) → member j (insert k s) ≡ (str_eq k j || member j s)
member-insert k j s = ground (arith, eq_iff k j)

pub member-remove :
    (k j : String) (s : List String)
    → member j (remove k s) ≡ (if str_eq k j then false else member j s)
member-remove k j [] = ground (arith, eq_iff k j)
member-remove k j (i ∷ s) = ground (arith, eq_iff k j, eq_iff i k, eq_iff i j, member-remove k j s)
