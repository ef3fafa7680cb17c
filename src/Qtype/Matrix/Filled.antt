-- ===== src/Qtype/Matrix/Filled.antt =====
-- What an accepted answer to a matrix of texts is stored as.
use wenjuandiaocha_backend.Base.{
  pos, true, false, String, str_eq, map, member, first_error, or_else-nil_iff, ne-nil, sprintf_d-ne,
  utf16_len, All, ◌≡◌, ◌≢◌, refl, Bool-cases, inl, inr,
}
use wenjuandiaocha_backend.Platform.{Platform}
use wenjuandiaocha_backend.Domain.Value.{Value, str}
use wenjuandiaocha_backend.Domain.Schema.{Question, NormalizedRow, Scalar}
use wenjuandiaocha_backend.Qtype.Props.{MatrixFillProps}
use wenjuandiaocha_backend.Qtype.Text.{sub_row}
use wenjuandiaocha_backend.Qtype.Format.{above}
use wenjuandiaocha_backend.Qtype.Matrix.{row_ids, read_matrix_answer, text_scalar}
use wenjuandiaocha_backend.Qtype.Matrix.Fill.{
  matrix_fill_props, fill_entry, matrix_fill_validate, matrix_fill_normalize,
}
use wenjuandiaocha_backend.Qtype.Matrix.Stored.{rows_of-All, stored-All}

module _ (pf : Platform) where
  -- The row names a row of the question and holds a text that is not too long.
  abbrev pub IsFilled : MatrixFillProps → NormalizedRow pf → Type 0
  IsFilled p r =
      (member r.sub_id (row_ids p.rows) ≡ true)
      × ((s : String) × (r.value ≡ Scalar.text s)
          × (s ≢ "")
          × (above (pos (utf16_len s)) p.max_length ≡ false))

  fill_entry-IsFilled :
      (p : MatrixFillProps) (q : Question pf) (sub : String) (v : Value pf.F)
      → fill_entry pf p (sub, v) ≡ ""
      → All (IsFilled p) (map (sub_row pf q sub) (text_scalar pf v))
  unfolding fill_entry text_scalar
  fill_entry-IsFilled p q sub (str s) h = elim (Bool-cases (str_eq s "")) [
    | inl blank ↦ rw blank tt
    | inr given ↦ elim (Bool-cases (member sub (row_ids p.rows))) [
      | inl known ↦ elim (Bool-cases (above (pos (utf16_len s)) p.max_length)) [
        | inl long ↦
            absurd (sprintf_d-ne _ _ _ (ne-nil "每行不超过 " refl) (rw (given, known, long) at h))
        | inr fits ↦ rw given ((known, (s, refl, ne-nil s given, fits)), tt)
      ]
      | inr strange ↦ absurd (ne-nil "存在不属于本题的子项" refl (rw (given, strange) at h))
    ]
  ]
  fill_entry-IsFilled p q sub _ h = tt

  -- An accepted answer to a matrix of texts is stored as rows that name a row of the question and hold
  -- a text, not empty, within the question's maximal length in UTF-16 units.
  pub matrix_fill-IsFilled :
      (q : Question pf) (a : Value pf.F)
      → matrix_fill_validate pf q a ≡ ""
      → All (IsFilled (matrix_fill_props pf q)) (matrix_fill_normalize pf q a)
  unfolding matrix_fill_validate matrix_fill_normalize text_scalar
  matrix_fill-IsFilled q a h =
      let p = matrix_fill_props pf q in
      let ans = read_matrix_answer pf a in
      let (quiet, _) = (or_else-nil_iff (first_error (fill_entry pf p) ans) _).0 h in
      rows_of-All pf (IsFilled p) q (text_scalar pf) p.rows ans (λ r.
        stored-All pf (IsFilled p) q (text_scalar pf) r (fill_entry pf p) ans refl
          (fill_entry-IsFilled p q r.id) quiet)
