-- ===== src/Qtype/Matrix/Fill.antt =====
-- internal/domain/qtype/matrix.go: a matrix of texts.
use wenjuandiaocha_backend.Base.{
  not, none, List, [], String, str_eq, if◌then◌else◌, member, first_error, or_else, sprintf_d, pos,
  utf16_len,
}
use wenjuandiaocha_backend.Platform.{Platform}
use wenjuandiaocha_backend.Domain.Value.{Value, null, str}
use wenjuandiaocha_backend.Domain.Schema.{Question, NormalizedRow}
use wenjuandiaocha_backend.Domain.Registry.{Handler}
use wenjuandiaocha_backend.Qtype.Props.{MatrixFillProps}
use wenjuandiaocha_backend.Qtype.Format.{above, bound}
use wenjuandiaocha_backend.Qtype.Text.{unmarshal_props}
use wenjuandiaocha_backend.Qtype.Matrix.{
  row_ids, read_matrix_answer, str_answered, require_rows, rows_of, text_scalar,
}

module _ (pf : Platform) where
  abbrev pub matrix_fill_props : Question pf → MatrixFillProps
  matrix_fill_props q =
      unmarshal_props pf (record { rows = []; max_length = none }) pf.matrix_fill_props q.props

  unfoldable pub fill_entry : MatrixFillProps → String × Value pf.F → String
  fill_entry p (sub, null) = ""
  fill_entry p (sub, str s) =
      if str_eq s ""
      then ""
      else if not (member sub (row_ids p.rows))
      then "存在不属于本题的子项"
      else if above (pos (utf16_len s)) p.max_length
      then sprintf_d "每行不超过 " (bound p.max_length) " 个字符"
      else ""
  fill_entry p (sub, _) = if not (member sub (row_ids p.rows)) then "存在不属于本题的子项" else "答案格式应为文本"

  unfoldable pub matrix_fill_validate : Question pf → Value pf.F → String
  matrix_fill_validate q answer =
      let p = matrix_fill_props q in
      let ans = read_matrix_answer pf answer in
      or_else (first_error (fill_entry p) ans)
        (require_rows pf q.required (str_answered pf) p.rows ans)

  unfoldable pub matrix_fill_normalize : Question pf → Value pf.F → List (NormalizedRow pf)
  matrix_fill_normalize q answer =
      rows_of pf q (text_scalar pf) (matrix_fill_props q).rows (read_matrix_answer pf answer)

  abbrev pub matrix_fill : Handler pf
  matrix_fill = record {
    type = "matrix-fill";
    validate = matrix_fill_validate;
    normalize = matrix_fill_normalize;
  }
