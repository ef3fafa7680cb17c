-- ===== src/Qtype/Matrix/Scored.antt =====
-- internal/domain/qtype/matrix.go: the scale matrix, whose options have scores.
use wenjuandiaocha_backend.Base.{
  Option, some, List, [], ◌∷◌, map, String, str_eq, if◌then◌else◌, lookup, assign, first_error,
  or_else,
}
use wenjuandiaocha_backend.Platform.{Platform}
use wenjuandiaocha_backend.Domain.Value.{Value, str}
use wenjuandiaocha_backend.Domain.Schema.{Question, NormalizedRow, Scalar}
use wenjuandiaocha_backend.Domain.Registry.{Handler}
use wenjuandiaocha_backend.Qtype.Props.{ScaleOption, MatrixScaleProps}
use wenjuandiaocha_backend.Qtype.Text.{unmarshal_props}
use wenjuandiaocha_backend.Qtype.Matrix.{
  set_of, row_ids, read_matrix_answer, str_answered, require_rows, rows_of, choice_entry,
}

module _ (pf : Platform) where
  abbrev pub matrix_scale_props : Question pf → MatrixScaleProps pf.F
  matrix_scale_props q =
      unmarshal_props pf (record { rows = []; options = [] }) pf.matrix_scale_props q.props

  abbrev pub scale_values : List (ScaleOption pf.F) → List String
  scale_values os = set_of (map (λ (o : ScaleOption pf.F). o.value) os)

  unfoldable pub matrix_scale_validate : Question pf → Value pf.F → String
  matrix_scale_validate q answer =
      let p = matrix_scale_props q in
      let ans = read_matrix_answer pf answer in
      or_else (first_error (choice_entry pf (row_ids p.rows) (scale_values p.options)) ans)
        (require_rows pf q.required (str_answered pf) p.rows ans)

  -- scoreOf: the score of the last option with the value.
  unfoldable pub score_of :
      List (String × Option pf.F) → List (ScaleOption pf.F) → List (String × Option pf.F)
  score_of m [] = m
  score_of m (o ∷ os) = score_of (assign o.value o.score m) os

  -- The score of the chosen option, or its value where it has none.
  unfoldable pub score_or_text : Option (Option pf.F) → String → Scalar pf
  score_or_text (some (some f)) s = Scalar.number f
  score_or_text _ s = Scalar.text s

  unfoldable pub score_scalar : List (String × Option pf.F) → Value pf.F → List (Scalar pf)
  score_scalar scores (str s) = if str_eq s "" then [] else score_or_text (lookup s scores) s ∷ []
  score_scalar scores _ = []

  unfoldable pub matrix_scale_normalize : Question pf → Value pf.F → List (NormalizedRow pf)
  matrix_scale_normalize q answer =
      let p = matrix_scale_props q in
      rows_of pf q (score_scalar (score_of [] p.options)) p.rows (read_matrix_answer pf answer)

  abbrev pub matrix_scale : Handler pf
  matrix_scale = record {
    type = "matrix-scale";
    validate = matrix_scale_validate;
    normalize = matrix_scale_normalize;
  }
