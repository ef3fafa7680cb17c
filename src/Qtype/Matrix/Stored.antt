-- ===== src/Qtype/Matrix/Stored.antt =====
-- What an accepted matrix answer is stored as.
use mathlib.Core.Path.{subst}
use text.Mathlib.TextEquality.{eq_iff}
use wenjuandiaocha_backend.Base.{
  some_injective, true, false, String, str_eq, some, List, [], ◌∷◌, map, lookup, member,
  first_error, or_else-nil_iff, ne-nil, ⊹-ne-nil, ⊹-ne-nil, All, All-append, ◌≡◌, ◌≢◌, refl,
  Bool-cases, Option-cases, inl, inr, arith,
}
use wenjuandiaocha_backend.Platform.{Platform}
use wenjuandiaocha_backend.Domain.Value.{Value, null, num, str, get_or_null}
use wenjuandiaocha_backend.Domain.Schema.{Question, NormalizedRow, Scalar}
use wenjuandiaocha_backend.Qtype.Props.{Row, MatrixSliderProps}
use wenjuandiaocha_backend.Qtype.Text.{sub_row}
use wenjuandiaocha_backend.Qtype.Matrix.{
  row_ids, choice_values, read_matrix_answer, rows_of, text_scalar, choice_entry,
  matrix_single_props, matrix_single_validate, matrix_single_normalize,
}
use wenjuandiaocha_backend.Qtype.Matrix.Slider.{
  matrix_slider_props, slider_range, slider_entry, number_scalar, matrix_slider_validate,
  matrix_slider_normalize,
}
use wenjuandiaocha_backend.Qtype.Scale.{outside, range_text}

-- A loop without a message has none in any round.
pub first_error-All :
    {A : Type 0} (f : A → String) (xs : List A) → first_error f xs ≡ "" → All (λ x. f x ≡ "") xs
first_error-All f [] h = tt
first_error-All f (x ∷ xs) h = elim (Bool-cases (str_eq (f x) "")) [
  | inl quiet ↦ (ground (arith, quiet, eq_iff (f x) ""), first_error-All f xs (rw quiet at h))
  | inr loud ↦ absurd (ground (arith, loud, rw loud at h, eq_iff (f x) ""))
]

pub lookup-All :
    {V : Type 0} (P : String × V → Type 0) (k : String) (m : List (String × V)) {v : V}
    → All P m
    → lookup k m ≡ some v
    → P (k, v)
lookup-All P k [] all h = cc h
lookup-All P k ((j, w) ∷ m) {v} (p, all) h = elim (Bool-cases (str_eq j k)) [
  | inl here_it_is ↦
      let e : j ≡ k = (eq_iff j k).0 here_it_is in
      let f : some w ≡ some v = rw here_it_is at h in subst P (λ i. (e i, some_injective f i)) p
  | inr further ↦ lookup-All P k m all (rw further at h)
]

module _ (pf : Platform) where
  pub rows_of-All :
      (P : NormalizedRow pf → Type 0) (q : Question pf) (scalars : Value pf.F → List (Scalar pf))
      (rows : List Row) (ans : List (String × Value pf.F))
      → ((r : Row) → All P (map (sub_row pf q r.id) (scalars (get_or_null r.id ans))))
      → All P (rows_of pf q scalars rows ans)
  unfolding rows_of
  rows_of-All P q scalars [] ans h = tt
  rows_of-All P q scalars (r ∷ rs) ans h =
      All-append P (map (sub_row pf q r.id) (scalars (get_or_null r.id ans))) _ (h r)
        (rows_of-All P q scalars rs ans h)

  -- The row names a row of the question and one of its options.
  abbrev pub IsPicked : List String → List String → NormalizedRow pf → Type 0
  IsPicked ids values r =
      (member r.sub_id ids ≡ true)
      × ((s : String) × (r.value ≡ Scalar.text s) × (s ≢ "") × (member s values ≡ true))

  entry-IsPicked :
      (ids values : List String) (q : Question pf) (sub : String) (v : Value pf.F)
      → choice_entry pf ids values (sub, v) ≡ ""
      → All (IsPicked ids values) (map (sub_row pf q sub) (text_scalar pf v))
  unfolding choice_entry text_scalar
  entry-IsPicked ids values q sub (str s) h = elim (Bool-cases (str_eq s "")) [
    | inl blank ↦ rw blank tt
    | inr given ↦ elim (Bool-cases (member sub ids)) [
      | inl known ↦ elim (Bool-cases (member s values)) [
        | inl option ↦ rw given ((known, (s, refl, ne-nil s given, option)), tt)
        | inr missing ↦ absurd (ne-nil "所选选项不存在" refl (rw (given, known, missing) at h))
      ]
      | inr strange ↦ absurd (ne-nil "存在不属于本题的子项" refl (rw (given, strange) at h))
    ]
  ]
  entry-IsPicked ids values q sub _ h = tt

  pub stored-All :
      (P : NormalizedRow pf → Type 0) (q : Question pf) (scalars : Value pf.F → List (Scalar pf))
      (r : Row) (entry : String × Value pf.F → String) (ans : List (String × Value pf.F))
      → scalars null ≡ []
      → ((v : Value pf.F) → entry (r.id, v) ≡ "" → All P (map (sub_row pf q r.id) (scalars v)))
      → first_error entry ans ≡ ""
      → All P (map (sub_row pf q r.id) (scalars (get_or_null r.id ans)))
  stored-All P q scalars r entry ans none_of_null h quiet = elim (Option-cases (lookup r.id ans)) [
    | inl missing ↦ rw (missing, none_of_null) tt
    | inr (v, found) ↦
        rw found
          (h v (lookup-All (λ x. entry x ≡ "") r.id ans (first_error-All entry ans quiet) found))
  ]

  -- An accepted answer to a single matrix is stored as rows that name a row of the question and one
  -- of its options.
  pub matrix_single-IsPicked :
      (q : Question pf) (a : Value pf.F)
      → matrix_single_validate pf q a ≡ ""
      → All
          (IsPicked
            (row_ids (matrix_single_props pf q).rows)
            (choice_values (matrix_single_props pf q).options))
          (matrix_single_normalize pf q a)
  unfolding matrix_single_validate matrix_single_normalize text_scalar
  matrix_single-IsPicked q a h =
      let p = matrix_single_props pf q in
      let ids = row_ids p.rows in
      let values = choice_values p.options in
      let ans = read_matrix_answer pf a in
      let (quiet, _) = (or_else-nil_iff (first_error (choice_entry pf ids values) ans) _).0 h in
      rows_of-All (IsPicked ids values) q (text_scalar pf) p.rows ans (λ r.
        stored-All (IsPicked ids values) q (text_scalar pf) r (choice_entry pf ids values) ans refl
          (entry-IsPicked ids values q r.id) quiet)

  -- The row names a row of the question and holds a number in its range.
  abbrev pub IsInRange : List String → pf.F × pf.F → NormalizedRow pf → Type 0
  IsInRange ids range r =
      (member r.sub_id ids ≡ true)
      × ((n : pf.F) × (r.value ≡ Scalar.number n) × (outside pf range n ≡ false))

  slider_entry-IsInRange :
      (p : MatrixSliderProps pf.F) (q : Question pf) (sub : String) (v : Value pf.F)
      → slider_entry pf p (sub, v) ≡ ""
      → All
          (IsInRange (row_ids p.rows) (slider_range pf p))
          (map (sub_row pf q sub) (number_scalar pf v))
  unfolding slider_entry number_scalar range_text
  slider_entry-IsInRange p q sub (num n) h = elim (Bool-cases (member sub (row_ids p.rows))) [
    | inl known ↦ elim (Bool-cases (outside pf (slider_range pf p) n)) [
      | inl out ↦ absurd (⊹-ne-nil "数值" _ (ne-nil "数值" refl) (rw (known, out) at h))
      | inr fits ↦ ((known, (n, refl, fits)), tt)
    ]
    | inr strange ↦ absurd (ne-nil "存在不属于本题的子项" refl (rw strange at h))
  ]
  slider_entry-IsInRange p q sub _ h = tt

  -- An accepted answer to a slider matrix is stored as rows that name a row of the question and hold
  -- a number in the question's range.
  pub matrix_slider-IsInRange :
      (q : Question pf) (a : Value pf.F)
      → matrix_slider_validate pf q a ≡ ""
      → All
          (IsInRange
            (row_ids (matrix_slider_props pf q).rows)
            (slider_range pf (matrix_slider_props pf q)))
          (matrix_slider_normalize pf q a)
  unfolding matrix_slider_validate matrix_slider_normalize number_scalar
  matrix_slider-IsInRange q a h =
      let p = matrix_slider_props pf q in
      let ans = read_matrix_answer pf a in
      let (quiet, _) = (or_else-nil_iff (first_error (slider_entry pf p) ans) _).0 h in
      rows_of-All (IsInRange (row_ids p.rows) (slider_range pf p)) q (number_scalar pf) p.rows ans
        (λ r.
          stored-All (IsInRange (row_ids p.rows) (slider_range pf p)) q (number_scalar pf) r
            (slider_entry pf p) ans refl (slider_entry-IsInRange p q r.id) quiet)
