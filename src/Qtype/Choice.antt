-- ===== src/Qtype/Choice.antt =====
-- internal/domain/qtype/choice.go: single choice and multiple choice.
pub mod Accepts
use wenjuandiaocha_backend.Base.{
  Bool, true, false, not, ◌&&◌, ◌||◌, ◌≡◌, Option, none, some, List, [], ◌∷◌, ◌++◌, String, str_eq,
  ◌⊹◌, ◌==◌, if◌then◌else◌, is_empty, length, lookup, assign, insert, trim_space, sprintf_d, ℤ, pos,
  Loop, returned, finished,
}
use wenjuandiaocha_backend.Platform.{Platform}
use wenjuandiaocha_backend.Domain.Value.{Value, str, arr, obj, items, fields, get_or_null}
use wenjuandiaocha_backend.Domain.Schema.{Question, NormalizedRow, Scalar}
use wenjuandiaocha_backend.Domain.Registry.{Handler}
use wenjuandiaocha_backend.Qtype.Props.{
  SingleOption, SingleChoiceProps, MultiOption, MultiChoiceProps, Fill,
}
use wenjuandiaocha_backend.Qtype.Format.{above, below, bound}
use wenjuandiaocha_backend.Qtype.Text.{unmarshal_props, whole_row, sub_row}

-- The option asks for a text and got a blank one.
unfoldable pub lacks_text : Option Fill → String → Bool
lacks_text none text = false
lacks_text (some fill) text = fill.enabled && fill.required && str_eq (trim_space text) ""

-- The first option with the value.
unfoldable pub find_option : String → List SingleOption → Option SingleOption
find_option value [] = none
find_option value (o ∷ os) = if str_eq o.value value then some o else find_option value os

-- optOf: the last option with the value.
unfoldable pub options_by_value :
    List (String × MultiOption) → List MultiOption → List (String × MultiOption)
options_by_value m [] = m
options_by_value m (o ∷ os) = options_by_value (assign o.value o m) os

module _ (pf : Platform) where
  -- a["text"].(string), the empty text where it is none.
  unfoldable pub text_of : Value pf.F → String
  text_of (str t) = t
  text_of _ = ""

  -- a["value"].(string) with the text beside it.
  unfoldable pub value_and_text : Value pf.F → Value pf.F → Option (String × String)
  unfolding text_of
  value_and_text (str v) t = some (v, text_of t)
  value_and_text _ t = none

  -- The value and the text of an answer; `none` is a bad format.
  unfoldable pub read_single_answer : Value pf.F → Option (String × String)
  unfolding value_and_text
  read_single_answer (str s) = some (s, "")
  read_single_answer (obj fs) =
      value_and_text (get_or_null "value" (fields fs)) (get_or_null "text" (fields fs))
  read_single_answer _ = none

  unfoldable pub read_multi_elem : Value pf.F → Option (String × String)
  unfolding value_and_text
  read_multi_elem (str s) = some (s, "")
  read_multi_elem (obj fs) =
      value_and_text (get_or_null "value" (fields fs)) (get_or_null "text" (fields fs))
  read_multi_elem _ = none

  abbrev pub single_props : Question pf → SingleChoiceProps
  single_props q = unmarshal_props pf (record { options = [] }) pf.single_choice_props q.props

  -- The message about a chosen option.
  unfoldable pub chosen_message : Option SingleOption → String → String
  chosen_message none text = "所选选项不存在"
  chosen_message (some o) text = if lacks_text o.fill text then "请填写补充内容" else ""

  unfoldable pub single_message : SingleChoiceProps → Option (String × String) → String
  single_message p none = "答案格式应为单个选项"
  single_message p (some (value, text)) = chosen_message (find_option value p.options) text

  unfoldable pub single_choice_validate : Question pf → Value pf.F → String
  single_choice_validate q answer = single_message (single_props q) (read_single_answer answer)

  unfoldable pub single_rows : Question pf → Option (String × String) → List (NormalizedRow pf)
  single_rows q none = []
  single_rows q (some (value, text)) =
      if str_eq value ""
      then []
      else whole_row pf q (Scalar.text value)
        ∷ (if str_eq text "" then [] else sub_row pf q "fill" (Scalar.text text) ∷ [])

  unfoldable pub single_choice_normalize : Question pf → Value pf.F → List (NormalizedRow pf)
  single_choice_normalize q answer = single_rows q (read_single_answer answer)

  abbrev pub single_choice : Handler pf
  single_choice = record {
    type = "single-choice";
    validate = single_choice_validate;
    normalize = single_choice_normalize;
  }

  abbrev pub multi_props : Question pf → MultiChoiceProps
  multi_props q =
      unmarshal_props pf (record { options = []; min = none; max = none }) pf.multi_choice_props
        q.props

  -- The chosen option joins `seen`, the values so far.
  abbrev pub pick_option :
      Option MultiOption → (value text : String) → List String → Loop (List String)
  pick_option none value text seen = returned "包含不存在的选项"
  pick_option (some o) value text seen =
      if lacks_text o.fill text then returned "请填写补充内容" else finished (insert value seen)

  -- One round of the loop over the chosen elements.
  unfoldable pub elem_round :
      List (String × MultiOption) → Option (String × String) → List String → Loop (List String)
  elem_round opt_of none seen = returned "包含不存在的选项"
  elem_round opt_of (some (value, text)) seen = pick_option (lookup value opt_of) value text seen

  -- The rest of a loop, unless a round has returned.
  abbrev pub next_round :
      Loop (List String) → (List String → Loop (List String)) → Loop (List String)
  next_round (returned m) rest = returned m
  next_round (finished seen) rest = rest seen

  unfoldable pub elem_loop :
      List (String × MultiOption) → List (Value pf.F) → List String → Loop (List String)
  elem_loop opt_of [] seen = finished seen
  elem_loop opt_of (el ∷ els) seen =
      next_round (elem_round opt_of (read_multi_elem el) seen) (λ seen'. elem_loop opt_of els seen')

  -- The tests after the loop, over the number of elements and of distinct values.
  unfoldable pub count_message : MultiChoiceProps → ℤ → Bool → String
  count_message p n distinct =
      if not distinct
      then "选项不可重复"
      else if below n p.min
      then sprintf_d "至少选择 " (bound p.min) " 项"
      else if above n p.max
      then sprintf_d "最多选择 " (bound p.max) " 项"
      else ""

  unfoldable pub after_loop : MultiChoiceProps → List (Value pf.F) → Loop (List String) → String
  after_loop p vs (returned m) = m
  after_loop p vs (finished seen) = count_message p (pos (length vs)) (length seen == length vs)

  unfoldable pub multi_choice_validate : Question pf → Value pf.F → String
  multi_choice_validate q (arr vs) =
      let p = multi_props q in
      if q.required && is_empty (items vs)
      then "此题为必答"
      else after_loop p (items vs) (elem_loop (options_by_value [] p.options) (items vs) [])
  multi_choice_validate q _ = "答案格式应为选项数组"

  unfoldable pub elem_rows : Question pf → Option (String × String) → List (NormalizedRow pf)
  elem_rows q none = []
  elem_rows q (some (value, text)) =
      if str_eq value ""
      then []
      else whole_row pf q (Scalar.text value)
        ∷ (if str_eq text "" then [] else sub_row pf q (value ⊹ ".fill") (Scalar.text text) ∷ [])

  unfoldable pub multi_rows : Question pf → List (Value pf.F) → List (NormalizedRow pf)
  multi_rows q [] = []
  multi_rows q (el ∷ els) = elem_rows q (read_multi_elem el) ++ multi_rows q els

  unfoldable pub multi_choice_normalize : Question pf → Value pf.F → List (NormalizedRow pf)
  multi_choice_normalize q (arr vs) = multi_rows q (items vs)
  multi_choice_normalize q _ = []

  abbrev pub multi_choice : Handler pf
  multi_choice = record {
    type = "multi-choice";
    validate = multi_choice_validate;
    normalize = multi_choice_normalize;
  }
