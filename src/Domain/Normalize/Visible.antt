-- ===== src/Domain/Normalize/Visible.antt =====
-- Which questions the stored rows can come from.
use mathlib.Core.Path.{subst}
use wenjuandiaocha_backend.Base.{
  ◌≡◌, refl, true, false, inl, inr, String, List, [], ◌∷◌, Option, none, some, lookup, member, All,
  Any, ◌⊎◌, ◌++◌, any, str_eq, Bool, eq_iff, arith, All-append, All-map, Bool-cases, Option-cases,
}
use wenjuandiaocha_backend.Platform.{Platform}
use wenjuandiaocha_backend.Domain.Value.{Value}
use wenjuandiaocha_backend.Domain.Schema.{Question, SurveySchema, Answers, NormalizedRow, slice}
use wenjuandiaocha_backend.Domain.Logic.{is_answered, evaluate}
use wenjuandiaocha_backend.Domain.Registry.{Handler, Registry, get_handler}
use wenjuandiaocha_backend.Domain.Normalize.{
  handler_rows, question_rows, normalize_questions, normalize_survey,
}

module _ {A : Type 0} where
  -- An element of a list.
  abbrev pub IsIn : List A → A → Type 0
  IsIn xs x = Any (λ y. y ≡ x) xs

  Any-right : {P : A → Type 0} (xs ys : List A) → Any P ys → Any P (xs ++ ys)
  Any-right [] ys h = h
  Any-right (x ∷ xs) ys h = Any.there (Any-right xs ys h)

  All-left : (xs ys : List A) → All (IsIn (xs ++ ys)) xs
  All-left [] ys = tt
  All-left (x ∷ xs) ys =
      (Any.here refl, All-map {Q = IsIn ((x ∷ xs) ++ ys)} (λ r. Any.there) xs (All-left xs ys))

-- A handler puts the question's own id on each of its rows.
abbrev pub TagsRows : (pf : Platform) → Handler pf → Type 0
TagsRows pf h =
    (q : Question pf) (a : Value pf.F)
    → All (λ (r : NormalizedRow pf). r.qid ≡ q.id) (h.normalize q a)

module _ (pf : Platform) (reg : Registry pf) where
  -- Every handler that the table gives tags its rows.
  abbrev pub AllTagRows : Type 0
  AllTagRows = (t : String) (h : Handler pf) → get_handler pf reg t ≡ some h → TagsRows pf h

  abbrev pub has_question : String → List (Question pf) → Bool
  has_question id = any (λ (q : Question pf). str_eq q.id id)

  -- A row comes from one of the questions, which is answered, and which the rules leave visible.
  abbrev pub IsVisible : List (Question pf) → List String → Answers pf → NormalizedRow pf → Type 0
  IsVisible questions hidden answers r =
      (has_question r.qid questions ≡ true)
      × (member r.qid hidden ≡ false)
      × ((a : Value pf.F) × (lookup r.qid answers ≡ some a) × (is_answered pf a ≡ true))

  -- A question is hidden, or not answered, or of an unknown type, or all its handler's rows are there.
  abbrev pub IsKept : List String → Answers pf → List (NormalizedRow pf) → Question pf → Type 0
  IsKept hidden answers rows q =
      (member q.id hidden ≡ true)
      ⊎ (lookup q.id answers ≡ none)
      ⊎ ((a : Value pf.F) × (lookup q.id answers ≡ some a)
          × ((is_answered pf a ≡ false)
              ⊎ (get_handler pf reg q.type ≡ none)
              ⊎ ((h : Handler pf) × (get_handler pf reg q.type ≡ some h)
                  × All (IsIn rows) (h.normalize q a))))

  -- The rows of a visible question are all there.
  abbrev AreIn : List String → Answers pf → List (NormalizedRow pf) → Question pf → Type 0
  AreIn hidden answers rows q =
      (member q.id hidden ≡ true) ⊎ All (IsIn rows) (question_rows pf reg q (lookup q.id answers))

  AreIn-right :
      (hidden : List String) (answers : Answers pf) (new rows : List (NormalizedRow pf))
      (q : Question pf)
      → AreIn hidden answers rows q
      → AreIn hidden answers (new ++ rows) q
  AreIn-right hidden answers new rows q (inl gone) = inl gone
  AreIn-right hidden answers new rows q (inr kept) = inr (
      All-map {Q = IsIn (new ++ rows)} (λ r. Any-right new rows)
        (question_rows pf reg q (lookup q.id answers)) kept)

  normalize_questions-AreIn :
      (hidden : List String) (qs : List (Question pf)) (answers : Answers pf)
      → All (AreIn hidden answers (normalize_questions pf reg hidden qs answers)) qs
  unfolding normalize_questions
  normalize_questions-AreIn hidden [] answers = tt
  normalize_questions-AreIn hidden (q ∷ qs) answers =
      let rest = normalize_questions pf reg hidden qs answers in
      let own = question_rows pf reg q (lookup q.id answers) in
      let all = normalize_questions pf reg hidden (q ∷ qs) answers in
      let ih = normalize_questions-AreIn hidden qs answers in
      elim (Bool-cases (member q.id hidden)) [
        | inl gone ↦
            let e : rest ≡ all = rw gone refl in
            subst (λ rows. AreIn hidden answers rows q × All (AreIn hidden answers rows) qs) e
              (inl gone, ih)
        | inr seen ↦
            let e : own ++ rest ≡ all = rw seen refl in
            subst (λ rows. AreIn hidden answers rows q × All (AreIn hidden answers rows) qs) e
              (
                inr (All-left own rest),
                All-map {Q = AreIn hidden answers (own ++ rest)}
                    (AreIn-right hidden answers own rest) qs ih,
              )
      ]

  AreIn-IsKept :
      (hidden : List String) (answers : Answers pf) (rows : List (NormalizedRow pf))
      (q : Question pf)
      → AreIn hidden answers rows q
      → IsKept hidden answers rows q
  unfolding question_rows handler_rows
  AreIn-IsKept hidden answers rows q (inl gone) = inl gone
  AreIn-IsKept hidden answers rows q (inr kept) = elim (Option-cases (lookup q.id answers)) [
    | inl missing ↦ inr (inl missing)
    | inr (a, given) ↦ inr (
        inr (
          a,
          given,
          elim (Bool-cases (is_answered pf a)) [
            | inr empty ↦ inl empty
            | inl answered ↦ inr (elim (Option-cases (get_handler pf reg q.type)) [
              | inl unknown ↦ inl unknown
              | inr (h, known) ↦
                  inr (h, known, rw (known, handler_rows) at (rw (given, answered) at kept))
            ])
          ],
        ))
  ]

  handler_rows-tagged :
      (q : Question pf) (a : Value pf.F)
      → AllTagRows
      → All (λ (r : NormalizedRow pf). r.qid ≡ q.id) (handler_rows pf reg q a)
  unfolding handler_rows
  handler_rows-tagged q a tags = elim (Option-cases (get_handler pf reg q.type)) [
    | inl unknown ↦ rw (unknown, handler_rows) tt
    | inr (h, known) ↦ rw (known, handler_rows) (tags q.type h known q a)
  ]

  -- The row has the question's id, and comes from an answer that is given.
  abbrev ComesFrom : Question pf → Option (Value pf.F) → NormalizedRow pf → Type 0
  ComesFrom q o r = (r.qid ≡ q.id) × ((a : Value pf.F) × (o ≡ some a) × (is_answered pf a ≡ true))

  question_rows-ComesFrom :
      (q : Question pf) (o : Option (Value pf.F))
      → AllTagRows
      → All (ComesFrom q o) (question_rows pf reg q o)
  unfolding question_rows
  question_rows-ComesFrom q none tags = tt
  question_rows-ComesFrom q (some a) tags = elim (Bool-cases (is_answered pf a)) [
    | inr unanswered ↦ rw unanswered tt
    | inl given ↦ rw given (
        All-map (λ (r : NormalizedRow pf) (e : r.qid ≡ q.id). (e, (a, refl, given)))
          (handler_rows pf reg q a) (handler_rows-tagged q a tags))
  ]

  normalize_questions-IsVisible :
      (hidden : List String) (qs : List (Question pf)) (answers : Answers pf)
      → AllTagRows
      → All (IsVisible qs hidden answers) (normalize_questions pf reg hidden qs answers)
  unfolding normalize_questions
  normalize_questions-IsVisible hidden [] answers tags = tt
  normalize_questions-IsVisible hidden (q ∷ qs) answers tags =
      let ih =
        All-map {Q = IsVisible (q ∷ qs) hidden answers}
          (λ (r : NormalizedRow pf) (known, seen, given). (ground (arith, known), seen, given))
          (normalize_questions pf reg hidden qs answers)
          (normalize_questions-IsVisible hidden qs answers tags) in
      elim (Bool-cases (member q.id hidden)) [
        | inl gone ↦ rw gone ih
        | inr seen ↦ rw seen (
            All-append (IsVisible (q ∷ qs) hidden answers)
              (question_rows pf reg q (lookup q.id answers)) _
              (All-map
                (λ (r : NormalizedRow pf) e.
                  (rw (e.0, (eq_iff q.id q.id).1 refl) refl, rw e.0 seen, rw e.0 e.1))
                (question_rows pf reg q (lookup q.id answers))
                (question_rows-ComesFrom q (lookup q.id answers) tags))
              ih)
      ]

  -- Every stored row belongs to a visible, answered question of the survey: what a client sends for
  -- a hidden question is dropped, and every row of a visible, answered question is stored. This
  -- holds for every table of handlers that tag their rows.
  pub normalize_survey-IsVisible :
      (schema : SurveySchema pf) (answers : Answers pf)
      → AllTagRows
      → All
          (IsVisible (slice schema.questions) (evaluate pf (slice schema.rules) answers) answers)
          (normalize_survey pf reg schema answers)
        × All
            (IsKept
              (evaluate pf (slice schema.rules) answers)
              answers
              (normalize_survey pf reg schema answers))
            (slice schema.questions)
  unfolding normalize_survey
  normalize_survey-IsVisible schema answers tags =
      let hidden = evaluate pf (slice schema.rules) answers in
      let questions = slice schema.questions in
      (
        normalize_questions-IsVisible hidden questions answers tags,
        All-map (AreIn-IsKept hidden answers (normalize_questions pf reg hidden questions answers))
            questions (normalize_questions-AreIn hidden questions answers),
      )
