-- ===== src/Samples/Witnesses/Answers.antt =====
-- The theorems on answers and rules, at work on the sample world.
use wenjuandiaocha_backend.Base.{ℤ, pos, not, ◌&&◌, [], member, All, ◌≡◌, ◌↔◌, refl, utf16_len}
use text.Mathlib.TextEquality.{eq_iff}
use wenjuandiaocha_backend.Base.{String, str_eq, lookup, Bool-cases, inl, inr}
use mathlib.Core.Path.{subst}
use wenjuandiaocha_backend.Qtype.Matrix.Orderless.{Agrees, matrices, matrices-Agrees}
use wenjuandiaocha_backend.Domain.Value.{
  Fields, fields, Value, str, num, arr, obj, cons, nil, field, end,
}
use wenjuandiaocha_backend.Domain.Schema.{slice}
use wenjuandiaocha_backend.Domain.Logic.{evaluate}
use wenjuandiaocha_backend.Domain.Logic.Visibility.{
  some_rule_hides, some_rule_shows, member-evaluate,
}
use wenjuandiaocha_backend.Domain.Validate.{validate_survey}
use wenjuandiaocha_backend.Domain.Validate.Passes.{HiddenOrPasses, validate_survey-nil_iff}
use wenjuandiaocha_backend.Domain.Normalize.{normalize_survey}
use wenjuandiaocha_backend.Domain.Normalize.Visible.{IsVisible, IsKept}
use wenjuandiaocha_backend.Qtype.Register.Tags.{normalize_survey-register_all}
use wenjuandiaocha_backend.Qtype.Choice.{multi_choice_validate}
use wenjuandiaocha_backend.Qtype.Choice.Accepts.{multi_choice_validate-nil_iff, Accepts}
use wenjuandiaocha_backend.Qtype.Matrix.{
  row_ids, choice_values, matrix_single_normalize, set_of, read_matrix_answer, str_answered,
  require_rows, rows_of, text_scalar, choice_entry, matrix_single_validate,
}
use wenjuandiaocha_backend.Qtype.Matrix.Slider.{
  slider_range, matrix_slider_normalize, slider_entry, is_number, matrix_slider_validate,
  number_scalar,
}
use wenjuandiaocha_backend.Qtype.Matrix.Stored.{
  IsPicked, IsInRange, matrix_single-IsPicked, matrix_slider-IsInRange,
}
use wenjuandiaocha_backend.Qtype.Matrix.Filled.{IsFilled, matrix_fill-IsFilled}
use wenjuandiaocha_backend.Qtype.Matrix.Multi.{
  matrix_multi_validate, matrix_multi_normalize, multi_entry, value_loop, after_values,
  row_count_message, required_values, array_scalars, text_scalars,
}
use wenjuandiaocha_backend.Qtype.Matrix.Chosen.{matrix_multi-IsPicked}
use wenjuandiaocha_backend.Samples.{
  choices_of, fills_of, picks, grid, slides, grid_of, slides_of, sample_pf, sample_registry,
  sample_schema, sample_rules, sample_answers, question,
}
use wenjuandiaocha_backend.Qtype.Text.{
  unmarshal_props, text_rows, text_input_validate, textarea_validate,
}
use wenjuandiaocha_backend.Qtype.Matrix.Fill.{
  fill_entry, matrix_fill_validate, matrix_fill_normalize,
}

abbrev both_rows : Value ℤ
both_rows = obj (field "r1" (str "x") (field "r2" (str "y") end))

abbrev one_slide : Value ℤ
one_slide = obj (field "r1" (num (pos 7)) end)

normalize_survey_example :
    All
      (IsVisible sample_pf sample_registry
        (slice sample_schema.questions)
        (evaluate sample_pf sample_rules sample_answers)
        sample_answers)
      (normalize_survey sample_pf sample_registry sample_schema sample_answers)
    × All
        (IsKept sample_pf sample_registry
          (evaluate sample_pf sample_rules sample_answers)
          sample_answers
          (normalize_survey sample_pf sample_registry sample_schema sample_answers))
        (slice sample_schema.questions)
normalize_survey_example = normalize_survey-register_all sample_pf sample_schema sample_answers

validate_survey_example :
    (validate_survey sample_pf sample_registry sample_schema sample_answers ≡ [])
    ↔ All
        (HiddenOrPasses sample_pf sample_registry
          (evaluate sample_pf sample_rules sample_answers)
          sample_answers)
        (slice sample_schema.questions)
validate_survey_example =
    validate_survey-nil_iff sample_pf sample_registry sample_schema sample_answers

evaluate_example : member "q2" (evaluate sample_pf sample_rules sample_answers) ≡ (
    some_rule_hides sample_pf sample_answers "q2" sample_rules
    && not (some_rule_shows sample_pf sample_answers "q2" sample_rules))
evaluate_example = member-evaluate sample_pf sample_answers "q2" sample_rules

multi_choice_example :
    (multi_choice_validate sample_pf (question "q1" "multi-choice" picks) (arr (cons (str "a") nil))
      ≡ "")
    ↔ Accepts sample_pf (question "q1" "multi-choice" picks) (arr (cons (str "a") nil))
multi_choice_example =
    multi_choice_validate-nil_iff sample_pf (question "q1" "multi-choice" picks)
      (arr (cons (str "a") nil))

matrix_single_example :
    All
      (IsPicked sample_pf (row_ids (grid_of grid).rows) (choice_values (grid_of grid).options))
      (matrix_single_normalize sample_pf (question "q2" "matrix-single" grid) both_rows)
unfolding set_of read_matrix_answer str_answered require_rows rows_of text_scalar choice_entry
    matrix_single_validate matrix_single_normalize unmarshal_props text_rows text_input_validate
    textarea_validate
matrix_single_example =
    matrix_single-IsPicked sample_pf (question "q2" "matrix-single" grid) both_rows refl

abbrev both_options : Value ℤ
both_options = obj (
    field "r1" (arr (cons (str "x") (cons (str "y") nil)))
      (field "r2" (arr (cons (str "y") nil)) end))

matrix_multi_example :
    All
      (IsPicked sample_pf
        (row_ids (choices_of grid).rows)
        (choice_values (choices_of grid).options))
      (matrix_multi_normalize sample_pf (question "q2" "matrix-multi" grid) both_options)
unfolding set_of read_matrix_answer require_rows rows_of text_scalar matrix_multi_validate
    matrix_multi_normalize multi_entry value_loop after_values row_count_message required_values
    array_scalars text_scalars unmarshal_props
matrix_multi_example =
    matrix_multi-IsPicked sample_pf (question "q2" "matrix-multi" grid) both_options refl

matrix_slider_example :
    All
      (IsInRange sample_pf
        (row_ids (slides_of slides).rows)
        (slider_range sample_pf (slides_of slides)))
      (matrix_slider_normalize sample_pf (question "q3" "matrix-slider" slides) one_slide)
unfolding set_of read_matrix_answer str_answered require_rows rows_of text_scalar choice_entry
    matrix_single_validate matrix_single_normalize unmarshal_props text_rows text_input_validate
    textarea_validate slider_range slider_entry is_number matrix_slider_validate number_scalar
    matrix_slider_normalize
matrix_slider_example =
    matrix_slider-IsInRange sample_pf (question "q3" "matrix-slider" slides) one_slide refl

matrix_fill_example :
    All
      (IsFilled sample_pf (fills_of grid))
      (matrix_fill_normalize sample_pf (question "q4" "matrix-fill" grid) both_rows)
unfolding set_of read_matrix_answer str_answered require_rows rows_of text_scalar choice_entry
    matrix_single_validate matrix_single_normalize unmarshal_props text_rows text_input_validate
    textarea_validate fill_entry matrix_fill_validate matrix_fill_normalize utf16_len
matrix_fill_example =
    matrix_fill-IsFilled sample_pf (question "q4" "matrix-fill" grid) both_rows refl

abbrev rows_in_order : Fields ℤ
rows_in_order = field "r1" (str "x") (field "r2" (str "y") end)

abbrev rows_swapped : Fields ℤ
rows_swapped = field "r2" (str "y") (field "r1" (str "x") end)

same_rows : (k : String) → lookup k (fields rows_in_order) ≡ lookup k (fields rows_swapped)
same_rows k = elim (Bool-cases (str_eq "r1" k)) [
  | inl first ↦
      subst (λ j. lookup j (fields rows_in_order) ≡ lookup j (fields rows_swapped))
        ((eq_iff "r1" k).0 first) refl
  | inr other ↦ rw other refl
]

matrices_example :
    All
      (Agrees sample_pf (question "q2" "matrix-single" grid) (obj rows_in_order) (obj rows_swapped))
      (matrices sample_pf)
matrices_example =
    matrices-Agrees sample_pf (question "q2" "matrix-single" grid) rows_in_order rows_swapped
      ((refl, (refl, tt)), (refl, (refl, tt)), same_rows)
