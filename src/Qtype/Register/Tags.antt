-- ===== src/Qtype/Register/Tags.antt =====
-- The rows of the twelve question types, and of every table that holds only these types.
use mathlib.Core.Path.{subst, ◌∙◌}
use wenjuandiaocha_backend.Base.{
  ◌≡◌, refl, sym, String, str_eq, Bool, true, false, inl, inr, List, [], ◌∷◌, map, Option, none,
  some, lookup-assign, All, All-append, Bool-cases, if◌then◌else◌,
}
use wenjuandiaocha_backend.Platform.{Platform}
use wenjuandiaocha_backend.Domain.Value.{Value, num, str, arr, items}
use wenjuandiaocha_backend.Domain.Schema.{
  Question, NormalizedRow, Scalar, SurveySchema, Answers, slice,
}
use wenjuandiaocha_backend.Domain.Logic.{evaluate}
use wenjuandiaocha_backend.Domain.Registry.{Handler, Registry, register_handler, get_handler}
use wenjuandiaocha_backend.Domain.Normalize.{normalize_survey}
use wenjuandiaocha_backend.Domain.Normalize.Visible.{
  TagsRows, AllTagRows, IsVisible, IsKept, normalize_survey-IsVisible,
}
use wenjuandiaocha_backend.Qtype.Props.{MultiFillBlank, Row}
use wenjuandiaocha_backend.Qtype.Text.{text_rows, sub_row, text_input, textarea}
use wenjuandiaocha_backend.Qtype.Choice.{
  read_single_answer, single_rows, single_choice_normalize, single_choice, read_multi_elem,
  elem_rows, multi_rows, multi_choice_normalize, multi_choice,
}
use wenjuandiaocha_backend.Qtype.Dropdown.{dropdown_normalize, dropdown}
use wenjuandiaocha_backend.Qtype.Scale.{scale_normalize, scale}
use wenjuandiaocha_backend.Qtype.Matrix.{rows_of, matrix_single_normalize, matrix_single}
use wenjuandiaocha_backend.Qtype.Matrix.Multi.{matrix_multi_normalize, matrix_multi}
use wenjuandiaocha_backend.Qtype.Matrix.Scored.{matrix_scale_normalize, matrix_scale}
use wenjuandiaocha_backend.Qtype.Matrix.Fill.{matrix_fill_normalize, matrix_fill}
use wenjuandiaocha_backend.Qtype.Matrix.Slider.{matrix_slider_normalize, matrix_slider}
use wenjuandiaocha_backend.Qtype.MultiFill.{blank_rows, multi_fill_normalize, multi_fill}
use wenjuandiaocha_backend.Qtype.Register.{register_all}

some-injective : {A : Type 0} {a b : A} → some a ≡ some b → a ≡ b
some-injective h = cc

module _ (pf : Platform) where
  abbrev Tagged : Question pf → List (NormalizedRow pf) → Type 0
  Tagged q = All (λ (r : NormalizedRow pf). r.qid ≡ q.id)

  sub_rows-Tagged :
      (q : Question pf) (sub : String) (vs : List (Scalar pf))
      → Tagged q (map (sub_row pf q sub) vs)
  sub_rows-Tagged q sub [] = tt
  sub_rows-Tagged q sub (v ∷ vs) = (refl, sub_rows-Tagged q sub vs)

  rows_of-Tagged :
      (q : Question pf) (scalars : Value pf.F → List (Scalar pf)) (rows : List Row)
      (ans : List (String × Value pf.F))
      → Tagged q (rows_of pf q scalars rows ans)
  unfolding rows_of
  rows_of-Tagged q scalars [] ans = tt
  rows_of-Tagged q scalars (r ∷ rs) ans =
      All-append _ (map (sub_row pf q r.id) _) _ (sub_rows-Tagged q r.id _)
        (rows_of-Tagged q scalars rs ans)

  blank_rows-Tagged :
      (q : Question pf) (bs : List MultiFillBlank) (ans : List (String × Value pf.F))
      → Tagged q (blank_rows pf q bs ans)
  unfolding blank_rows
  blank_rows-Tagged q [] ans = tt
  blank_rows-Tagged q (b ∷ bs) ans =
      All-append _ (map (sub_row pf q b.id) _) _ (sub_rows-Tagged q b.id _)
        (blank_rows-Tagged q bs ans)

  if-Tagged :
      (q : Question pf) (b : Bool) (xs ys : List (NormalizedRow pf))
      → Tagged q xs
      → Tagged q ys
      → Tagged q (if b then xs else ys)
  if-Tagged q true xs ys h k = h
  if-Tagged q false xs ys h k = k

  single_rows-Tagged :
      (q : Question pf) (o : Option (String × String)) → Tagged q (single_rows pf q o)
  unfolding single_rows
  single_rows-Tagged q none = tt
  single_rows-Tagged q (some (value, text)) =
      if-Tagged q (str_eq value "") [] _ tt (refl, if-Tagged q (str_eq text "") [] _ tt (refl, tt))

  elem_rows-Tagged : (q : Question pf) (o : Option (String × String)) → Tagged q (elem_rows pf q o)
  unfolding elem_rows
  elem_rows-Tagged q none = tt
  elem_rows-Tagged q (some (value, text)) =
      if-Tagged q (str_eq value "") [] _ tt (refl, if-Tagged q (str_eq text "") [] _ tt (refl, tt))

  multi_rows-Tagged : (q : Question pf) (els : List (Value pf.F)) → Tagged q (multi_rows pf q els)
  unfolding multi_rows
  multi_rows-Tagged q [] = tt
  multi_rows-Tagged q (el ∷ els) =
      All-append _ (elem_rows pf q (read_multi_elem pf el)) _ (elem_rows-Tagged q _)
        (multi_rows-Tagged q els)

  text_rows-Tagged : (q : Question pf) (a : Value pf.F) → Tagged q (text_rows pf q a)
  unfolding text_rows
  text_rows-Tagged q (str s) = if-Tagged q (str_eq s "") [] _ tt (refl, tt)
  text_rows-Tagged q _ = tt

  dropdown-TagsRows : TagsRows pf (dropdown pf)
  unfolding dropdown_normalize
  dropdown-TagsRows q (str s) = if-Tagged q (str_eq s "") [] _ tt (refl, tt)
  dropdown-TagsRows q _ = tt

  multi_choice-TagsRows : TagsRows pf (multi_choice pf)
  unfolding multi_choice_normalize
  multi_choice-TagsRows q (arr vs) = multi_rows-Tagged q (items vs)
  multi_choice-TagsRows q _ = tt

  scale-TagsRows : TagsRows pf (scale pf)
  unfolding scale_normalize
  scale-TagsRows q (num n) = (refl, tt)
  scale-TagsRows q _ = tt

  matrix_multi-TagsRows : TagsRows pf (matrix_multi pf)
  unfolding matrix_multi_normalize
  matrix_multi-TagsRows q a = rows_of-Tagged q _ _ _

  matrix_scale-TagsRows : TagsRows pf (matrix_scale pf)
  unfolding matrix_scale_normalize
  matrix_scale-TagsRows q a = rows_of-Tagged q _ _ _

  matrix_fill-TagsRows : TagsRows pf (matrix_fill pf)
  unfolding matrix_fill_normalize
  matrix_fill-TagsRows q a = rows_of-Tagged q _ _ _

  matrix_slider-TagsRows : TagsRows pf (matrix_slider pf)
  unfolding matrix_slider_normalize
  matrix_slider-TagsRows q a = rows_of-Tagged q _ _ _

  matrix_single-TagsRows : TagsRows pf (matrix_single pf)
  unfolding matrix_single_normalize
  matrix_single-TagsRows q a = rows_of-Tagged q _ _ _

  multi_fill-TagsRows : TagsRows pf (multi_fill pf)
  unfolding multi_fill_normalize
  multi_fill-TagsRows q a = blank_rows-Tagged q _ _

  single_choice-TagsRows : TagsRows pf (single_choice pf)
  unfolding single_choice_normalize
  single_choice-TagsRows q a = single_rows-Tagged q (read_single_answer pf a)

  empty-AllTagRows : AllTagRows pf []
  unfolding get_handler
  empty-AllTagRows t h found = cc found

  register-AllTagRows :
      (reg : Registry pf) (h : Handler pf)
      → TagsRows pf h
      → AllTagRows pf reg
      → AllTagRows pf (register_handler pf reg h)
  unfolding register_handler get_handler
  register-AllTagRows reg h tags all t g found =
      let seen = lookup-assign h.type t h reg in
      elim (Bool-cases (str_eq h.type t)) [
        | inl new ↦ subst (TagsRows pf) (some-injective (sym (rw new at seen) ∙ found)) tags
        | inr old ↦ all t g (sym (rw old at seen) ∙ found)
      ]

  -- The table that RegisterAll makes gives only handlers that put the question's id on their rows.
  pub register_all-AllTagRows : AllTagRows pf (register_all pf)
  unfolding register_all
  register_all-AllTagRows =
      let add = register-AllTagRows in
      add _ (dropdown pf) dropdown-TagsRows (
        add _ (multi_fill pf) multi_fill-TagsRows (
          add _ (matrix_slider pf) matrix_slider-TagsRows (
            add _ (matrix_fill pf) matrix_fill-TagsRows (
              add _ (matrix_scale pf) matrix_scale-TagsRows (
                add _ (matrix_multi pf) matrix_multi-TagsRows (
                  add _ (matrix_single pf) matrix_single-TagsRows (
                    add _ (textarea pf) text_rows-Tagged (
                      add _ (text_input pf) text_rows-Tagged (
                        add _ (scale pf) scale-TagsRows (
                          add _ (multi_choice pf) multi_choice-TagsRows (
                            add [] (single_choice pf) single_choice-TagsRows
                              empty-AllTagRows)))))))))))

  -- What the program stores of an answer sheet, with its own twelve question types: each row
  -- has the id of a question of the survey that the rules leave visible and that the sheet answers,
  -- and of each such question every row that the handler of its type makes is stored.
  pub normalize_survey-register_all :
      (schema : SurveySchema pf) (answers : Answers pf)
      → All
          (IsVisible pf
            (register_all pf)
            (slice schema.questions)
            (evaluate pf (slice schema.rules) answers)
            answers)
          (normalize_survey pf (register_all pf) schema answers)
        × All
            (IsKept pf
              (register_all pf)
              (evaluate pf (slice schema.rules) answers)
              answers
              (normalize_survey pf (register_all pf) schema answers))
            (slice schema.questions)
  normalize_survey-register_all schema answers =
      normalize_survey-IsVisible pf (register_all pf) schema answers register_all-AllTagRows
