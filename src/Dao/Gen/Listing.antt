-- ===== src/Dao/Gen/Listing.antt =====
-- internal/dao/gen/surveys.sql.go: ListSurveysByOwner, ListAllSurveys and their counts.
use mathlib.Core.List.{reverse}
use wenjuandiaocha_backend.Base.{
  ℕ, ℤ, pos, Bool, true, ◌&&◌, ◌||◌, String, str_eq, ◌⊹◌, Option, none, some, List, length,
  if◌then◌else◌, ltb_ℤ, pos_part,
}
use wenjuandiaocha_backend.Platform.{Platform}
use wenjuandiaocha_backend.Ecode.{GoError}
use wenjuandiaocha_backend.Dao.Tables.{SurveyMeta}
use wenjuandiaocha_backend.Dao.Exec.{Result, ok, err, M, query}
use wenjuandiaocha_backend.Dao.Gen.Rows.{keep, take, drop}

module _ (pf : Platform) where
  -- The filters of the lists; a nil filter does not apply. `ilike` is the ILIKE of Postgres.
  pub record SurveyListParams : Type 0 where
    pub keyword : Option String
    pub status : Option String
    pub type : Option String
    pub limit : ℤ
    pub offset : ℤ

  abbrev pub passes : (String → Bool) → Option String → Bool
  passes test none = true
  passes test (some s) = test s

  unfoldable pub is_listed : (String → String → Bool) → SurveyListParams → SurveyMeta pf → Bool
  is_listed ilike p s =
      passes (λ k. ilike s.title ("%" ⊹ k ⊹ "%")) p.keyword
      && passes (str_eq s.status) p.status
      && passes (str_eq s.type) p.type

  -- LIMIT and OFFSET, of which a negative one is an error.
  unfoldable pub page_of : {A : Type 0} → ℤ → ℤ → List A → Result (List A)
  page_of limit offset rows =
      if ltb_ℤ limit (pos 0) || ltb_ℤ offset (pos 0)
      then err GoError.driver
      else ok (take (pos_part limit) (drop (pos_part offset) rows))

  -- The page of the rows that `mine` picks, newest first, and their number.
  unfoldable pub list_rows :
      (String → String → Bool)
      → (SurveyMeta pf → Bool)
      → SurveyListParams
      → M pf (List (SurveyMeta pf))
  unfolding is_listed page_of
  list_rows ilike mine p = query (λ db.
      page_of p.limit p.offset (reverse (keep (λ s. mine s && is_listed ilike p s) db.surveys)))

  unfoldable pub count_rows :
      (String → String → Bool) → (SurveyMeta pf → Bool) → SurveyListParams → M pf ℕ
  unfolding is_listed
  count_rows ilike mine p =
      query (λ db. ok (length (keep (λ s. mine s && is_listed ilike p s) db.surveys)))
