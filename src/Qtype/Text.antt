-- ===== src/Qtype/Text.antt =====
-- internal/domain/qtype/text.go and props.go: single-line and multi-line text questions.
use wenjuandiaocha_backend.Base.{String, str_eq, List, [], ◌∷◌, none, if◌then◌else◌}
use wenjuandiaocha_backend.Platform.{Platform}
use wenjuandiaocha_backend.Domain.Value.{Value, str}
use wenjuandiaocha_backend.Domain.Schema.{Question, NormalizedRow, Scalar}
use wenjuandiaocha_backend.Domain.Registry.{Handler}
use wenjuandiaocha_backend.Qtype.Format.{validate_text_value}

module _ (pf : Platform) where
  -- unmarshalProps: an absent message leaves the zero value.
  unfoldable pub unmarshal_props {ℓ} : {P : Type ℓ} → P → (pf.Raw → P) → pf.Raw → P
  unmarshal_props zero_value decode raw = if pf.is_absent raw then zero_value else decode raw

  -- A row of the whole question.
  abbrev pub whole_row : Question pf → Scalar pf → NormalizedRow pf
  whole_row q v = record { qid = q.id; sub_id = ""; value = v }

  abbrev pub sub_row : Question pf → String → Scalar pf → NormalizedRow pf
  sub_row q sub v = record { qid = q.id; sub_id = sub; value = v }

  unfoldable pub text_rows : Question pf → Value pf.F → List (NormalizedRow pf)
  text_rows q (str s) = if str_eq s "" then [] else whole_row q (Scalar.text s) ∷ []
  text_rows q _ = []

  unfoldable pub text_input_validate : Question pf → Value pf.F → String
  unfolding unmarshal_props
  text_input_validate q answer =
      let p =
        unmarshal_props
          (record { format = ""; min_length = none; max_length = none; default_value = none })
          pf.text_input_props q.props in
      validate_text_value pf answer
        (record { format = p.format; min_length = p.min_length; max_length = p.max_length })

  abbrev pub text_input : Handler pf
  text_input = record { type = "text-input"; validate = text_input_validate; normalize = text_rows }

  unfoldable pub textarea_validate : Question pf → Value pf.F → String
  unfolding unmarshal_props
  textarea_validate q answer =
      let p =
        unmarshal_props (record { min_length = none; max_length = none; default_value = none })
          pf.textarea_props q.props in
      validate_text_value pf answer
        (record { format = "text"; min_length = p.min_length; max_length = p.max_length })

  abbrev pub textarea : Handler pf
  textarea = record { type = "textarea"; validate = textarea_validate; normalize = text_rows }
