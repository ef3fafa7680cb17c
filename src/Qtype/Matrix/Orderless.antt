-- ===== src/Qtype/Matrix/Orderless.antt =====
-- The five matrix types and the order in which Go meets the entries of an answer.
use text.Mathlib.TextEquality.{eq_iff}
use wenjuandiaocha_backend.Base.{
  if◌then◌else◌, Bool, true, false, String, str_eq, none, some, List, [], ◌∷◌, lookup, first_error,
  or_else, or_else-nil_iff, All, All-map, ◌≡◌, ◌↔◌, refl, sym, ◌∙◌, Bool-cases, inl, inr,
}
use wenjuandiaocha_backend.Platform.{Platform}
use wenjuandiaocha_backend.Domain.Value.{Value, obj, Fields, fields, get_or_null}
use wenjuandiaocha_backend.Domain.Schema.{Question, Scalar}
use wenjuandiaocha_backend.Domain.Registry.{Handler}
use wenjuandiaocha_backend.Qtype.Props.{Row}
use wenjuandiaocha_backend.Qtype.Matrix.{
  read_matrix_answer, require_rows, rows_of, str_answered, matrix_single_props,
  matrix_single_validate, matrix_single_normalize, matrix_single, row_ids, choice_values,
  choice_entry,
}
use wenjuandiaocha_backend.Qtype.Matrix.Multi.{
  matrix_multi, matrix_multi_validate, matrix_multi_normalize, matrix_multi_props, multi_entry,
  required_values,
}
use wenjuandiaocha_backend.Qtype.Matrix.Scored.{
  matrix_scale, matrix_scale_validate, matrix_scale_normalize, matrix_scale_props, scale_values,
}
use wenjuandiaocha_backend.Qtype.Matrix.Fill.{
  matrix_fill, matrix_fill_validate, matrix_fill_normalize, matrix_fill_props, fill_entry,
}
use wenjuandiaocha_backend.Qtype.Matrix.Slider.{
  matrix_slider, matrix_slider_validate, matrix_slider_normalize, matrix_slider_props, slider_entry,
  is_number,
}
use wenjuandiaocha_backend.Qtype.Matrix.Stored.{first_error-All, lookup-All}

All-first_error :
    {A : Type 0} (f : A → String) (xs : List A) → All (λ x. f x ≡ "") xs → first_error f xs ≡ ""
All-first_error f [] h = refl
All-first_error f (x ∷ xs) (quiet, h) = rw quiet (All-first_error f xs h)

module _ {V : Type 0} where
  -- A list of entries that a Go map can give: no key twice.
  abbrev pub KeysOnce : List (String × V) → Type 0
  KeysOnce [] = Unit
  KeysOnce ((k, v) ∷ m) = (lookup k m ≡ none) × KeysOnce m

  -- Each entry is what a lookup of its key finds.
  lookup-entries :
      (m : List (String × V)) → KeysOnce m → All (λ (x : String × V). lookup x.0 m ≡ some x.1) m
  lookup-entries [] once = tt
  lookup-entries ((k, v) ∷ m) (fresh, once) = (
    rw ((eq_iff k k).1 refl) refl,
    All-map {Q = λ (x : String × V). lookup x.0 ((k, v) ∷ m) ≡ some x.1}
        (λ x found. elim (Bool-cases (str_eq k x.0)) [
          | inl same ↦ absurd (cc (rw ((eq_iff k x.0).0 same) at fresh, found))
          | inr other ↦ rw other found
        ])
        m (lookup-entries m once),
  )

  -- A loop without a message has none when it meets the entries of the map in another order.
  entries-same :
      (f : String × V → String) (xs ys : List (String × V))
      → KeysOnce ys
      → ((k : String) → lookup k xs ≡ lookup k ys)
      → first_error f xs ≡ ""
      → first_error f ys ≡ ""
  entries-same f xs ys once same quiet = All-first_error f ys (
      All-map {Q = λ x. f x ≡ ""}
        (λ x found.
          lookup-All (λ y. f y ≡ "") x.0 xs (first_error-All f xs quiet) (same x.0 ∙ found))
        ys (lookup-entries ys once))

module _ (pf : Platform) (xs ys : List (String × Value pf.F))
    (same : (k : String) → lookup k xs ≡ lookup k ys) where
  rows-same :
      (f : Value pf.F → String) (rows : List Row)
      → first_error (λ (r : Row). f (get_or_null r.id xs)) rows
        ≡ first_error (λ (r : Row). f (get_or_null r.id ys)) rows
  rows-same f [] = refl
  rows-same f (r ∷ rs) = rw (same r.id, rows-same f rs) refl

  require_rows-same :
      (required : Bool) (given : Value pf.F → Bool) (rows : List Row)
      → require_rows pf required given rows xs ≡ require_rows pf required given rows ys
  unfolding require_rows
  require_rows-same true given rows = rows-same (λ v. if given v then "" else "每个子项都需作答") rows
  require_rows-same false given rows = refl

  rows_of-same :
      (q : Question pf) (scalars : Value pf.F → List (Scalar pf)) (rows : List Row)
      → rows_of pf q scalars rows xs ≡ rows_of pf q scalars rows ys
  unfolding rows_of
  rows_of-same q scalars [] = refl
  rows_of-same q scalars (r ∷ rs) = rw (same r.id, rows_of-same q scalars rs) refl

  -- A validation that loops over the entries and then over the rows.
  or_else-same :
      (f : String × Value pf.F → String) (m n : String)
      → KeysOnce ys
      → m ≡ n
      → or_else (first_error f xs) m ≡ ""
      → or_else (first_error f ys) n ≡ ""
  or_else-same f m n once e h =
      let (quiet, rest) = (or_else-nil_iff (first_error f xs) m).0 h in
      (or_else-nil_iff (first_error f ys) n).1 (entries-same f xs ys once same quiet, sym e ∙ rest)

module _ (pf : Platform) where
  -- Two orders in which Go may meet the entries of one map.
  abbrev pub AreOneMap : Fields pf.F → Fields pf.F → Type 0
  AreOneMap xs ys =
      KeysOnce (fields xs)
      × KeysOnce (fields ys)
      × ((k : String) → lookup k (fields xs) ≡ lookup k (fields ys))

  AreOneMap-sym : (xs ys : Fields pf.F) → AreOneMap xs ys → AreOneMap ys xs
  AreOneMap-sym xs ys (ox, oy, same) = (oy, ox, λ k. sym (same k))

  module _ (q : Question pf) (xs ys : Fields pf.F) (one : AreOneMap xs ys) where
    single-accepts :
        matrix_single_validate pf q (obj xs) ≡ "" → matrix_single_validate pf q (obj ys) ≡ ""
    unfolding matrix_single_validate read_matrix_answer
    single-accepts =
        let p = matrix_single_props pf q in
        or_else-same pf (fields xs) (fields ys) one.2
          (choice_entry pf (row_ids p.rows) (choice_values p.options)) _ _ one.1
          (require_rows-same pf (fields xs) (fields ys) one.2 q.required (str_answered pf) p.rows)

    scale-accepts :
        matrix_scale_validate pf q (obj xs) ≡ "" → matrix_scale_validate pf q (obj ys) ≡ ""
    unfolding matrix_scale_validate read_matrix_answer
    scale-accepts =
        let p = matrix_scale_props pf q in
        or_else-same pf (fields xs) (fields ys) one.2
          (choice_entry pf (row_ids p.rows) (scale_values pf p.options)) _ _ one.1
          (require_rows-same pf (fields xs) (fields ys) one.2 q.required (str_answered pf) p.rows)

    fill-accepts : matrix_fill_validate pf q (obj xs) ≡ "" → matrix_fill_validate pf q (obj ys) ≡ ""
    unfolding matrix_fill_validate read_matrix_answer
    fill-accepts =
        let p = matrix_fill_props pf q in
        or_else-same pf (fields xs) (fields ys) one.2 (fill_entry pf p) _ _ one.1
          (require_rows-same pf (fields xs) (fields ys) one.2 q.required (str_answered pf) p.rows)

    slider-accepts :
        matrix_slider_validate pf q (obj xs) ≡ "" → matrix_slider_validate pf q (obj ys) ≡ ""
    unfolding matrix_slider_validate read_matrix_answer
    slider-accepts =
        let p = matrix_slider_props pf q in
        or_else-same pf (fields xs) (fields ys) one.2 (slider_entry pf p) _ _ one.1
          (require_rows-same pf (fields xs) (fields ys) one.2 q.required (is_number pf) p.rows)

    required-same :
        (b : Bool) (f : Value pf.F → String) (rows : List Row)
        → (if b then first_error (λ (r : Row). f (get_or_null r.id (fields xs))) rows else "")
          ≡ (if b then first_error (λ (r : Row). f (get_or_null r.id (fields ys))) rows else "")
    required-same true f rows = rows-same pf (fields xs) (fields ys) one.2 f rows
    required-same false f rows = refl

    multi-accepts :
        matrix_multi_validate pf q (obj xs) ≡ "" → matrix_multi_validate pf q (obj ys) ≡ ""
    unfolding matrix_multi_validate read_matrix_answer
    multi-accepts =
        let p = matrix_multi_props pf q in
        or_else-same pf (fields xs) (fields ys) one.2 (multi_entry pf p) _ _ one.1
          (required-same q.required (required_values pf p) p.rows)

  -- The handlers of the matrix types.
  abbrev pub matrices : List (Handler pf)
  matrices =
      matrix_single pf ∷ matrix_multi pf ∷ matrix_scale pf ∷ matrix_fill pf ∷ matrix_slider pf ∷ []

  -- The handler accepts both answers or neither, and stores the same rows for them.
  abbrev pub Agrees : Question pf → Value pf.F → Value pf.F → Handler pf → Type 0
  Agrees q a b h =
      ((h.validate q a ≡ "") ↔ (h.validate q b ≡ "")) × (h.normalize q a ≡ h.normalize q b)

  -- Go meets the entries of a map in any order. For each of the five matrix types, if two lists of
  -- entries without a repeated key are one map, then an answer with the one is accepted if and only
  -- if the answer with the other is, and both are stored as the same rows in the same order.
  pub matrices-Agrees :
      (q : Question pf) (xs ys : Fields pf.F)
      → AreOneMap xs ys
      → All (Agrees q (obj xs) (obj ys)) matrices
  unfolding matrix_single_normalize matrix_multi_normalize matrix_scale_normalize
      matrix_fill_normalize matrix_slider_normalize read_matrix_answer
  matrices-Agrees q xs ys one =
      let back = AreOneMap-sym xs ys one in
      let rows = rows_of-same pf (fields xs) (fields ys) one.2 q in
      (
        ((single-accepts q xs ys one, single-accepts q ys xs back), rows _ _),
        (
          ((multi-accepts q xs ys one, multi-accepts q ys xs back), rows _ _),
          (
            ((scale-accepts q xs ys one, scale-accepts q ys xs back), rows _ _),
            (
              ((fill-accepts q xs ys one, fill-accepts q ys xs back), rows _ _),
              (((slider-accepts q xs ys one, slider-accepts q ys xs back), rows _ _), tt),
            ),
          ),
        ),
      )
