-- ===== src/Qtype/Dropdown.antt =====
-- internal/domain/qtype/dropdown.go: one value out of a list.
use wenjuandiaocha_backend.Base.{String, str_eq, none, List, [], ◌∷◌, any, if◌then◌else◌}
use wenjuandiaocha_backend.Platform.{Platform}
use wenjuandiaocha_backend.Domain.Value.{Value, str}
use wenjuandiaocha_backend.Domain.Schema.{Question, NormalizedRow, Scalar}
use wenjuandiaocha_backend.Domain.Registry.{Handler}
use wenjuandiaocha_backend.Qtype.Props.{Choice, DropdownProps}
use wenjuandiaocha_backend.Qtype.Text.{unmarshal_props, whole_row}

module _ (pf : Platform) where
  abbrev pub dropdown_props : Question pf → DropdownProps
  dropdown_props q =
      unmarshal_props pf (record { options = []; default_value = none }) pf.dropdown_props q.props

  unfoldable pub dropdown_validate : Question pf → Value pf.F → String
  dropdown_validate q (str s) =
      if str_eq s ""
      then ""
      else if any (λ (o : Choice). str_eq o.value s) (dropdown_props q).options
      then ""
      else "所选选项不存在"
  dropdown_validate q _ = "答案格式应为单个选项"

  unfoldable pub dropdown_normalize : Question pf → Value pf.F → List (NormalizedRow pf)
  dropdown_normalize q (str s) = if str_eq s "" then [] else whole_row pf q (Scalar.text s) ∷ []
  dropdown_normalize q _ = []

  abbrev pub dropdown : Handler pf
  dropdown = record {
    type = "dropdown";
    validate = dropdown_validate;
    normalize = dropdown_normalize;
  }
