-- ===== src/Qtype/Matrix/Multi.antt =====
-- internal/domain/qtype/matrix.go: a matrix with several choices in each row.
use wenjuandiaocha_backend.Base.{
  not, none, List, [], ◌∷◌, ◌++◌, String, ◌==◌, if◌then◌else◌, is_empty, length, member, insert,
  first_error, or_else, sprintf_d, ℤ, pos, Loop, returned, finished,
}
use wenjuandiaocha_backend.Platform.{Platform}
use wenjuandiaocha_backend.Domain.Value.{Value, null, str, arr, items, get_or_null}
use wenjuandiaocha_backend.Domain.Schema.{Question, NormalizedRow, Scalar}
use wenjuandiaocha_backend.Domain.Registry.{Handler}
use wenjuandiaocha_backend.Qtype.Props.{Row, MatrixMultiProps}
use wenjuandiaocha_backend.Qtype.Format.{above, below, bound}
use wenjuandiaocha_backend.Qtype.Text.{unmarshal_props}
use wenjuandiaocha_backend.Qtype.Matrix.{
  row_ids, choice_values, read_matrix_answer, rows_of, text_scalar,
}

module _ (pf : Platform) where
  abbrev pub matrix_multi_props : Question pf → MatrixMultiProps
  matrix_multi_props q =
      unmarshal_props pf (record { rows = []; options = []; min = none; max = none })
        pf.matrix_multi_props q.props

  -- The inner loop over the chosen values of a row.
  unfoldable pub value_loop : List String → List (Value pf.F) → List String → Loop (List String)
  value_loop values [] seen = finished seen
  value_loop values (str s ∷ vs) seen =
      let rest = value_loop values vs (insert s seen) in
      if not (member s values) then returned "包含不存在的选项" else rest
  value_loop values (_ ∷ vs) seen = returned "包含不存在的选项"

  unfoldable pub row_count_message : MatrixMultiProps → ℤ → String
  row_count_message p n =
      if below n p.min
      then sprintf_d "每行至少选择 " (bound p.min) " 项"
      else if above n p.max
      then sprintf_d "每行最多选择 " (bound p.max) " 项"
      else ""

  unfoldable pub after_values : MatrixMultiProps → List (Value pf.F) → Loop (List String) → String
  after_values p vs (returned m) = m
  after_values p vs (finished seen) =
      if not (length seen == length vs) then "选项不可重复" else row_count_message p (pos (length vs))

  -- The round for one entry of a multiple-choice matrix.
  unfoldable pub multi_entry : MatrixMultiProps → String × Value pf.F → String
  multi_entry p (sub, null) = ""
  multi_entry p (sub, arr vs) =
      if is_empty (items vs)
      then ""
      else if not (member sub (row_ids p.rows))
      then "存在不属于本题的子项"
      else after_values p (items vs) (value_loop (choice_values p.options) (items vs) [])
  multi_entry p _ = "答案格式应为选项数组"

  unfoldable pub required_values : MatrixMultiProps → Value pf.F → String
  required_values p (arr vs) =
      if is_empty (items vs)
      then "每个子项都需作答"
      else if below (pos (length (items vs))) p.min
      then sprintf_d "每行至少选择 " (bound p.min) " 项"
      else ""
  required_values p _ = "每个子项都需作答"

  unfoldable pub matrix_multi_validate : Question pf → Value pf.F → String
  matrix_multi_validate q answer =
      let p = matrix_multi_props q in
      let ans = read_matrix_answer pf answer in
      or_else (first_error (multi_entry p) ans) (
        if q.required
        then first_error (λ (r : Row). required_values p (get_or_null r.id ans)) p.rows
        else "")

  -- The non-empty texts of an array.
  unfoldable pub text_scalars : List (Value pf.F) → List (Scalar pf)
  unfolding text_scalar
  text_scalars [] = []
  text_scalars (v ∷ vs) = text_scalar pf v ++ text_scalars vs

  unfoldable pub array_scalars : Value pf.F → List (Scalar pf)
  array_scalars (arr vs) = text_scalars (items vs)
  array_scalars _ = []

  unfoldable pub matrix_multi_normalize : Question pf → Value pf.F → List (NormalizedRow pf)
  matrix_multi_normalize q answer =
      rows_of pf q array_scalars (matrix_multi_props q).rows (read_matrix_answer pf answer)

  abbrev pub matrix_multi : Handler pf
  matrix_multi = record {
    type = "matrix-multi";
    validate = matrix_multi_validate;
    normalize = matrix_multi_normalize;
  }
