-- ===== src/Domain/Value.antt =====
-- The dynamic values (`any`) that encoding/json gives, and the Go maps and slices of them.
use wenjuandiaocha_backend.Base.{ℤ, Bool, String, Option, none, some, List, [], ◌∷◌, lookup}

-- `int` and `int64` are numbers that a caller puts in without JSON. `F` is float64.
mutual
  pub data Value (F : Type 0) : Type 0 where
    null : Value F
    bool : Bool → Value F
    num : F → Value F
    int : ℤ → Value F
    int64 : ℤ → Value F
    str : String → Value F
    arr : Items F → Value F
    obj : Fields F → Value F

  pub data Items (F : Type 0) : Type 0 where
    nil : Items F
    cons : Value F → Items F → Items F

  pub data Fields (F : Type 0) : Type 0 where
    end : Fields F
    field : String → Value F → Fields F → Fields F

-- A slice []any.
abbrev pub items : {F : Type 0} → Items F → List (Value F)
items nil = []
items (cons v vs) = v ∷ items vs

-- A map map[string]any, in one order of iteration.
abbrev pub fields : {F : Type 0} → Fields F → List (String × Value F)
fields end = []
fields (field k v fs) = (k, v) ∷ fields fs

abbrev pub or_null : {F : Type 0} → Option (Value F) → Value F
or_null none = null
or_null (some v) = v

-- m[k] of a map to `any`: a missing key reads as nil.
abbrev pub get_or_null : {F : Type 0} → String → List (String × Value F) → Value F
get_or_null k m = or_null (lookup k m)
