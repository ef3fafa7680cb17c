-- ===== src/Qtype/Matrix/Chosen.antt =====
-- What an accepted answer to a matrix with several choices in each row is stored as.
use mathlib.Core.Path.{subst}
use mathlib.Core.List.{map-append}
use wenjuandiaocha_backend.Base.{
  sym, true, String, str_eq, List, [], ◌∷◌, ◌++◌, map, member, is_empty, first_error,
  or_else-nil_iff, ne-nil, All, All-append, ◌≡◌, refl, Bool-cases, inl, inr,
}
use wenjuandiaocha_backend.Platform.{Platform}
use wenjuandiaocha_backend.Domain.Value.{Value, str, arr, items}
use wenjuandiaocha_backend.Domain.Schema.{Question}
use wenjuandiaocha_backend.Qtype.Props.{MatrixMultiProps}
use wenjuandiaocha_backend.Qtype.Text.{sub_row}
use wenjuandiaocha_backend.Qtype.Matrix.{row_ids, choice_values, read_matrix_answer, text_scalar}
use wenjuandiaocha_backend.Qtype.Matrix.Multi.{
  matrix_multi_props, value_loop, after_values, multi_entry, text_scalars, array_scalars,
  matrix_multi_validate, matrix_multi_normalize,
}
use wenjuandiaocha_backend.Qtype.Matrix.Stored.{IsPicked, rows_of-All, stored-All}

module _ (pf : Platform) (q : Question pf) (ids values : List String) (sub : String) where
  -- A text of a known row that is an option is stored as a row that picks it.
  text_scalar-IsPicked :
      (s : String)
      → member sub ids ≡ true
      → member s values ≡ true
      → All (IsPicked pf ids values) (map (sub_row pf q sub) (text_scalar pf (str s)))
  unfolding text_scalar
  text_scalar-IsPicked s known option = elim (Bool-cases (str_eq s "")) [
    | inl blank ↦ rw blank tt
    | inr given ↦ rw given ((known, (s, refl, ne-nil s given, option)), tt)
  ]

  map-sub_row-All :
      (v : Value pf.F) (vs : List (Value pf.F))
      → All (IsPicked pf ids values) (map (sub_row pf q sub) (text_scalar pf v))
      → All (IsPicked pf ids values) (map (sub_row pf q sub) (text_scalars pf vs))
      → All
          (IsPicked pf ids values)
          (map (sub_row pf q sub) (text_scalar pf v ++ text_scalars pf vs))
  map-sub_row-All v vs h g =
      subst (All (IsPicked pf ids values))
        (sym (map-append (sub_row pf q sub) (text_scalar pf v) (text_scalars pf vs)))
        (All-append (IsPicked pf ids values) _ _ h g)

  -- The inner loop lets only options through.
  value_loop-IsPicked :
      (p : MatrixMultiProps) (us vs : List (Value pf.F)) (seen : List String)
      → member sub ids ≡ true
      → after_values pf p us (value_loop pf values vs seen) ≡ ""
      → All (IsPicked pf ids values) (map (sub_row pf q sub) (text_scalars pf vs))
  unfolding value_loop after_values text_scalars
  value_loop-IsPicked p us [] seen known h = tt
  value_loop-IsPicked p us (str s ∷ vs) seen known h = elim (Bool-cases (member s values)) [
    | inl option ↦
        map-sub_row-All (str s) vs (text_scalar-IsPicked s known option)
          (value_loop-IsPicked p us vs _ known (rw option at h))
    | inr missing ↦ absurd (ne-nil "包含不存在的选项" refl (rw missing at h))
  ]
  value_loop-IsPicked p us (_ ∷ vs) seen known h = absurd (ne-nil "包含不存在的选项" refl h)

  text_scalars-blank :
      (vs : List (Value pf.F))
      → is_empty vs ≡ true
      → All (IsPicked pf ids values) (map (sub_row pf q sub) (text_scalars pf vs))
  unfolding text_scalars
  text_scalars-blank [] h = tt
  text_scalars-blank (v ∷ vs) h = cc h

module _ (pf : Platform) where
  multi_entry-IsPicked :
      (p : MatrixMultiProps) (q : Question pf) (sub : String) (v : Value pf.F)
      → multi_entry pf p (sub, v) ≡ ""
      → All
          (IsPicked pf (row_ids p.rows) (choice_values p.options))
          (map (sub_row pf q sub) (array_scalars pf v))
  unfolding multi_entry array_scalars text_scalars
  multi_entry-IsPicked p q sub (arr vs) h = elim (Bool-cases (is_empty (items vs))) [
    | inl blank ↦ text_scalars-blank pf q _ _ sub (items vs) blank
    | inr given ↦ elim (Bool-cases (member sub (row_ids p.rows))) [
      | inl known ↦
          value_loop-IsPicked pf q (row_ids p.rows) (choice_values p.options) sub p (items vs)
            (items vs) [] known (rw (given, known) at h)
      | inr strange ↦ absurd (ne-nil "存在不属于本题的子项" refl (rw (given, strange) at h))
    ]
  ]
  multi_entry-IsPicked p q sub _ h = tt

  -- An accepted answer to a matrix with several choices is stored as rows that name a row of the
  -- question and one of its options.
  pub matrix_multi-IsPicked :
      (q : Question pf) (a : Value pf.F)
      → matrix_multi_validate pf q a ≡ ""
      → All
          (IsPicked pf
            (row_ids (matrix_multi_props pf q).rows)
            (choice_values (matrix_multi_props pf q).options))
          (matrix_multi_normalize pf q a)
  unfolding matrix_multi_validate matrix_multi_normalize array_scalars
  matrix_multi-IsPicked q a h =
      let p = matrix_multi_props pf q in
      let ids = row_ids p.rows in
      let values = choice_values p.options in
      let ans = read_matrix_answer pf a in
      let (quiet, _) = (or_else-nil_iff (first_error (multi_entry pf p) ans) _).0 h in
      rows_of-All pf (IsPicked pf ids values) q (array_scalars pf) p.rows ans (λ r.
        stored-All pf (IsPicked pf ids values) q (array_scalars pf) r (multi_entry pf p) ans refl
          (multi_entry-IsPicked p q r.id) quiet)
