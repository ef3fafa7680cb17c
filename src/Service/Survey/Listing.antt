-- ===== src/Service/Survey/Listing.antt =====
-- internal/service/survey/survey.go, List: filters, paging and the caller's scope.
pub mod Scope
pub mod Pattern
pub mod Offset
use Prim.Native.Char.{code}
use Prim.Native.String
use wenjuandiaocha_backend.Base.{
  ℕ, ◌+◌, ◌-◌, ◌*◌, ℤ, pos, negsuc, ltb_ℤ, pos_part, int64, int32_of, Bool, true, false, ◌||◌,
  String, str_eq, ◌⊹◌, ◌==◌, Option, none, some, List, map, if◌then◌else◌, trim_space, is_some,
}
use wenjuandiaocha_backend.Platform.{Platform}
use wenjuandiaocha_backend.Rbac.{is_admin}
use wenjuandiaocha_backend.Dao.Tables.{SurveyMeta}
use wenjuandiaocha_backend.Dao.Exec.{M, pure, ◌>>=◌}
use wenjuandiaocha_backend.Dao.Store.{SurveyListParams, list_surveys_by_owner, list_all_surveys}
use wenjuandiaocha_backend.Service.Metadata.{Metadata}

-- A filter without its outer blanks; an empty one is none.
unfoldable pub trim_to_ptr : String → Option String
trim_to_ptr s = let t = trim_space s in if str_eq t "" then none else some t

-- strings.NewReplacer of one character each: `\`, `%` and `_` get a backslash.
unfoldable pub escape_like : String → String
escape_like String.[] = ""
escape_like (String.◌∷◌ c s) =
    if code c == 92 || code c == b'%' || code c == b'_'
    then String.◌∷◌ "\\" (String.◌∷◌ c (escape_like s))
    else String.◌∷◌ c (escape_like s)

pub record ListReq : Type 0 where
  pub q : String
  pub status : String
  pub type : String
  pub limit : ℤ
  pub page : ℤ

pub record ListItem : Type 0 where
  pub id : String
  pub title : String
  pub type : String
  pub status : String
  pub updated_at : String

-- The page size: 10 where none is given, 100 at most.
unfoldable pub page_size : ℤ → ℕ
page_size limit =
    let size = if ltb_ℤ (pos 0) limit then pos_part limit else 10 in
    if ltb_ℤ (pos 100) (pos size) then 100 else size

-- page - 1, for a page from 1 on.
unfoldable pub pages_before : ℤ → ℕ
pages_before page = if ltb_ℤ page (pos 1) then 0 else pos_part page - 1

-- A product of int64 wraps round; what is above the largest int32 is cut to it, and the rest is
-- converted to int32.
unfoldable pub page_offset : ℤ → ℕ → ℤ
unfolding pages_before
page_offset page size =
    let offset = int64 (pages_before page * size) in
    if ltb_ℤ (pos 2147483647) offset then pos 2147483647 else int32_of offset

abbrev pub escaped : Option String → Option String
escaped none = none
escaped (some k) = some (escape_like k)

module _ (pf : Platform) where
  -- The filters, and the page: the first ten matches of a search, or the page asked for.
  unfoldable pub list_params : ListReq → SurveyListParams pf
  list_params req =
      let keyword = trim_to_ptr req.q in
      let searching = is_some keyword in
      let size = page_size req.limit in
      record {
        keyword = escaped keyword;
        status = trim_to_ptr req.status;
        type = trim_to_ptr req.type;
        limit = if searching then pos 10 else pos size;
        offset = if searching then pos 0 else page_offset req.page size;
      }

  -- `format_time` is the RFC 3339 layout of time.Format.
  abbrev pub list_item : (ℕ → String) → SurveyMeta pf → ListItem
  list_item format_time s = record {
    id = s.survey_id;
    title = s.title;
    type = s.type;
    status = s.status;
    updated_at = format_time s.updated_at;
  }

  -- The rows in the caller's scope: every survey for an administrator, else the caller's own.
  unfoldable pub scoped_rows :
      (String → String → Bool) → Metadata → SurveyListParams pf → M pf (List (SurveyMeta pf) × ℕ)
  scoped_rows ilike md p =
      if is_admin md.role
      then list_all_surveys pf ilike p
      else list_surveys_by_owner pf ilike md.user_id p

  unfoldable pub list :
      (String → String → Bool) → (ℕ → String) → Metadata → ListReq → M pf (List ListItem × ℕ)
  list ilike format_time md req = do
    (rows, total) ← scoped_rows ilike md (list_params req)
    pure (map (list_item format_time) rows, total)
