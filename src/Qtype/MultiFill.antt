-- ===== src/Qtype/MultiFill.antt =====
-- internal/domain/qtype/multifill.go: several text boxes under one title.
use wenjuandiaocha_backend.Base.{
  Bool, String, str_eq, Option, none, some, List, [], ◌∷◌, ◌++◌, map, lookup, assign, first_error,
  or_else, if◌then◌else◌,
}
use wenjuandiaocha_backend.Platform.{Platform}
use wenjuandiaocha_backend.Domain.Value.{Value, null, str, get_or_null}
use wenjuandiaocha_backend.Domain.Schema.{Question, NormalizedRow}
use wenjuandiaocha_backend.Domain.Registry.{Handler}
use wenjuandiaocha_backend.Qtype.Props.{MultiFillBlank, MultiFillProps}
use wenjuandiaocha_backend.Qtype.Format.{validate_text_value}
use wenjuandiaocha_backend.Qtype.Text.{unmarshal_props, sub_row}
use wenjuandiaocha_backend.Qtype.Matrix.{read_matrix_answer, str_answered, text_scalar}

-- byID: the last blank with the id.
unfoldable pub blanks_by_id :
    List (String × MultiFillBlank) → List MultiFillBlank → List (String × MultiFillBlank)
blanks_by_id m [] = m
blanks_by_id m (b ∷ bs) = blanks_by_id (assign b.id b m) bs

module _ (pf : Platform) where
  abbrev pub multi_fill_props : Question pf → MultiFillProps
  multi_fill_props q = unmarshal_props pf (record { blanks = [] }) pf.multi_fill_props q.props

  unfoldable pub blank_message : Option MultiFillBlank → Value pf.F → String
  blank_message none val = "存在不属于本题的填空框"
  blank_message (some b) val =
      validate_text_value pf val
        (record { format = b.format; min_length = b.min_length; max_length = b.max_length })

  -- nil or the empty text: the loop goes on.
  unfoldable pub is_skipped : Value pf.F → Bool
  is_skipped null = Bool.true
  is_skipped (str s) = str_eq s ""
  is_skipped _ = Bool.false

  unfoldable pub blank_entry : List (String × MultiFillBlank) → String × Value pf.F → String
  blank_entry by_id (sub, val) = if is_skipped val then "" else blank_message (lookup sub by_id) val

  unfoldable pub multi_fill_validate : Question pf → Value pf.F → String
  multi_fill_validate q answer =
      let p = multi_fill_props q in
      let ans = read_matrix_answer pf answer in
      or_else (first_error (blank_entry (blanks_by_id [] p.blanks)) ans) (
        if q.required
        then first_error
            (λ (b : MultiFillBlank).
              if str_answered pf (get_or_null b.id ans) then "" else "每个填空框都需作答")
            p.blanks
        else "")

  unfoldable pub blank_rows :
      Question pf → List MultiFillBlank → List (String × Value pf.F) → List (NormalizedRow pf)
  blank_rows q [] ans = []
  blank_rows q (b ∷ bs) ans =
      map (sub_row pf q b.id) (text_scalar pf (get_or_null b.id ans)) ++ blank_rows q bs ans

  unfoldable pub multi_fill_normalize : Question pf → Value pf.F → List (NormalizedRow pf)
  multi_fill_normalize q answer =
      blank_rows q (multi_fill_props q).blanks (read_matrix_answer pf answer)

  abbrev pub multi_fill : Handler pf
  multi_fill = record {
    type = "multi-fill";
    validate = multi_fill_validate;
    normalize = multi_fill_normalize;
  }
