-- ===== src/Qtype/Matrix/Slider.antt =====
-- internal/domain/qtype/matrix.go: a matrix of numbers.
use wenjuandiaocha_backend.Base.{
  Bool, true, false, not, none, List, [], ◌∷◌, String, if◌then◌else◌, member, first_error, or_else,
  pos,
}
use wenjuandiaocha_backend.Platform.{Platform}
use wenjuandiaocha_backend.Domain.Value.{Value, null, num}
use wenjuandiaocha_backend.Domain.Schema.{Question, NormalizedRow, Scalar}
use wenjuandiaocha_backend.Domain.Registry.{Handler}
use wenjuandiaocha_backend.Qtype.Props.{MatrixSliderProps}
use wenjuandiaocha_backend.Qtype.Text.{unmarshal_props}
use wenjuandiaocha_backend.Qtype.Scale.{or_default, outside, range_text}
use wenjuandiaocha_backend.Qtype.Matrix.{row_ids, read_matrix_answer, require_rows, rows_of}

module _ (pf : Platform) where
  abbrev pub matrix_slider_props : Question pf → MatrixSliderProps pf.F
  matrix_slider_props q =
      unmarshal_props pf (record { rows = []; min = none; max = none; step = none })
        pf.matrix_slider_props q.props

  -- 0 and 100 where the props give no end.
  unfoldable pub slider_range : MatrixSliderProps pf.F → pf.F × pf.F
  slider_range p =
      (or_default pf p.min (pf.of_int (pos 0)), or_default pf p.max (pf.of_int (pos 100)))

  unfoldable pub slider_entry : MatrixSliderProps pf.F → String × Value pf.F → String
  slider_entry p (sub, null) = ""
  slider_entry p (sub, num n) =
      if not (member sub (row_ids p.rows))
      then "存在不属于本题的子项"
      else if outside pf (slider_range p) n
      then range_text pf "数值" (slider_range p)
      else ""
  slider_entry p (sub, _) = if not (member sub (row_ids p.rows)) then "存在不属于本题的子项" else "答案应为数值"

  unfoldable pub is_number : Value pf.F → Bool
  is_number (num n) = true
  is_number _ = false

  unfoldable pub matrix_slider_validate : Question pf → Value pf.F → String
  matrix_slider_validate q answer =
      let p = matrix_slider_props q in
      let ans = read_matrix_answer pf answer in
      or_else (first_error (slider_entry p) ans) (require_rows pf q.required is_number p.rows ans)

  unfoldable pub number_scalar : Value pf.F → List (Scalar pf)
  number_scalar (num n) = Scalar.number n ∷ []
  number_scalar _ = []

  unfoldable pub matrix_slider_normalize : Question pf → Value pf.F → List (NormalizedRow pf)
  matrix_slider_normalize q answer =
      rows_of pf q number_scalar (matrix_slider_props q).rows (read_matrix_answer pf answer)

  abbrev pub matrix_slider : Handler pf
  matrix_slider = record {
    type = "matrix-slider";
    validate = matrix_slider_validate;
    normalize = matrix_slider_normalize;
  }
