-- ===== src/Qtype/Matrix.antt =====
-- internal/domain/qtype/matrix.go: the five matrix types. A loop over an answer object meets its
-- entries in the order in which the model lists them.
pub mod Multi
pub mod Scored
pub mod Fill
pub mod Slider
pub mod Stored
pub mod Filled
pub mod Chosen
pub mod Orderless
use wenjuandiaocha_backend.Base.{
  Bool, true, false, not, ◌&&◌, ◌||◌, Option, none, some, List, [], ◌∷◌, ◌++◌, map, String, str_eq,
  ◌==◌, if◌then◌else◌, is_empty, length, lookup, assign, member, insert, first_error, or_else,
  sprintf_d, ℤ, pos, utf16_len, Loop, returned, finished,
}
use wenjuandiaocha_backend.Platform.{Platform}
use wenjuandiaocha_backend.Domain.Value.{
  Value, null, num, str, arr, obj, items, fields, get_or_null,
}
use wenjuandiaocha_backend.Domain.Schema.{Question, NormalizedRow, Scalar}
use wenjuandiaocha_backend.Domain.Registry.{Handler}
use wenjuandiaocha_backend.Qtype.Props.{
  Choice, Row, ScaleOption, MatrixSingleProps, MatrixMultiProps, MatrixScaleProps, MatrixFillProps,
  MatrixSliderProps,
}
use wenjuandiaocha_backend.Qtype.Format.{above, below, bound}
use wenjuandiaocha_backend.Qtype.Text.{unmarshal_props, sub_row}
use wenjuandiaocha_backend.Qtype.Scale.{or_default, outside, range_text}

-- The set that a loop over the texts builds.
unfoldable pub set_of : List String → List String
set_of [] = []
set_of (k ∷ ks) = insert k (set_of ks)

abbrev pub row_ids : List Row → List String
row_ids rows = set_of (map (λ (r : Row). r.id) rows)

abbrev pub choice_values : List Choice → List String
choice_values os = set_of (map (λ (o : Choice). o.value) os)

module _ (pf : Platform) where
  -- An answer object, and the empty one for any other value.
  unfoldable pub read_matrix_answer : Value pf.F → List (String × Value pf.F)
  read_matrix_answer (obj fs) = fields fs
  read_matrix_answer _ = []

  unfoldable pub str_answered : Value pf.F → Bool
  str_answered (str s) = not (str_eq s "")
  str_answered _ = false

  -- The loop over the rows under `if q.Required`: every row has an answer of the wanted kind.
  unfoldable pub require_rows :
      Bool → (Value pf.F → Bool) → List Row → List (String × Value pf.F) → String
  require_rows required given rows ans =
      if required
      then first_error (λ (r : Row). if given (get_or_null r.id ans) then "" else "每个子项都需作答") rows
      else ""

  -- The loop over the rows that makes the stored rows, in the order of the props.
  unfoldable pub rows_of :
      Question pf
      → (Value pf.F → List (Scalar pf))
      → List Row
      → List (String × Value pf.F)
      → List (NormalizedRow pf)
  rows_of q scalars [] ans = []
  rows_of q scalars (r ∷ rs) ans =
      map (sub_row pf q r.id) (scalars (get_or_null r.id ans)) ++ rows_of q scalars rs ans

  -- A non-empty text as it is.
  unfoldable pub text_scalar : Value pf.F → List (Scalar pf)
  text_scalar (str s) = if str_eq s "" then [] else Scalar.text s ∷ []
  text_scalar _ = []

  abbrev pub matrix_single_props : Question pf → MatrixSingleProps
  matrix_single_props q =
      unmarshal_props pf (record { rows = []; options = [] }) pf.matrix_single_props q.props

  -- The round for one entry of a single or scale matrix.
  unfoldable pub choice_entry : List String → List String → String × Value pf.F → String
  choice_entry ids values (sub, str s) =
      if str_eq s ""
      then ""
      else if not (member sub ids)
      then "存在不属于本题的子项"
      else if not (member s values)
      then "所选选项不存在"
      else ""
  choice_entry ids values _ = ""

  unfoldable pub matrix_single_validate : Question pf → Value pf.F → String
  matrix_single_validate q answer =
      let p = matrix_single_props q in
      let ans = read_matrix_answer answer in
      or_else (first_error (choice_entry (row_ids p.rows) (choice_values p.options)) ans)
        (require_rows q.required str_answered p.rows ans)

  unfoldable pub matrix_single_normalize : Question pf → Value pf.F → List (NormalizedRow pf)
  matrix_single_normalize q answer =
      rows_of q text_scalar (matrix_single_props q).rows (read_matrix_answer answer)

  abbrev pub matrix_single : Handler pf
  matrix_single = record {
    type = "matrix-single";
    validate = matrix_single_validate;
    normalize = matrix_single_normalize;
  }
