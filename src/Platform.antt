-- ===== src/Platform.antt =====
-- What the program takes from outside its source: float64 arithmetic with its printing, and
-- encoding/json, which fills the structs of internal/domain/qtype from the bytes of a message.
use wenjuandiaocha_backend.Base.{ℤ, Bool, String}
use wenjuandiaocha_backend.Qtype.Props.{
  SingleChoiceProps, MultiChoiceProps, DropdownProps, MatrixSingleProps, MatrixMultiProps,
  MatrixScaleProps, MatrixFillProps, MatrixSliderProps, MultiFillProps, ScaleProps, TextInputProps,
  TextareaProps,
}

pub record Platform : Type 1 where
  -- float64, with `==`, `<`, math.Trunc, the conversions to and from integers, and the verb `%g`.
  pub F : Type 0
  pub float_eq : F → F → Bool
  pub float_lt : F → F → Bool
  pub trunc : F → F
  pub of_int : ℤ → F
  pub to_int64 : F → ℤ
  pub show_float : F → String
  -- json.RawMessage, and whether it has no byte.
  pub Raw : Type 0
  pub is_absent : Raw → Bool
  -- The struct after json.Unmarshal has filled its zero value, whatever error it returned.
  pub single_choice_props : Raw → SingleChoiceProps
  pub multi_choice_props : Raw → MultiChoiceProps
  pub dropdown_props : Raw → DropdownProps
  pub matrix_single_props : Raw → MatrixSingleProps
  pub matrix_multi_props : Raw → MatrixMultiProps
  pub matrix_scale_props : Raw → MatrixScaleProps F
  pub matrix_fill_props : Raw → MatrixFillProps
  pub matrix_slider_props : Raw → MatrixSliderProps F
  pub multi_fill_props : Raw → MultiFillProps
  pub scale_props : Raw → ScaleProps F
  pub text_input_props : Raw → TextInputProps
  pub textarea_props : Raw → TextareaProps
