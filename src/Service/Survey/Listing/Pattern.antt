-- ===== src/Service/Survey/Listing/Pattern.antt =====
-- internal/service/survey/survey.go, escapeLike: the pattern that a search sends to Postgres.
use Prim.Native.Char.{Char, code}
use wenjuandiaocha_backend.Base.{
  Bool, true, false, ◌||◌, String, Option, none, some, if◌then◌else◌, ◌==◌, ◌≡◌, refl, arith,
  Bool-cases, inl, inr,
}
use wenjuandiaocha_backend.Service.Survey.Listing.{escape_like}

abbrev pub put_first : Char → Option String → Option String
put_first c none = none
put_first c (some s) = some (String.◌∷◌ c s)

-- The one text that a LIKE pattern without wildcards matches, by the manual of Postgres: a backslash
-- takes the next character as it is, and `%` and `_` outside of that are wildcards. The flag says
-- that the character before was such a backslash.
unfoldable pub literal_of : Bool → String → Option String
literal_of true String.[] = none
literal_of false String.[] = some ""
literal_of true (String.◌∷◌ c s) = put_first c (literal_of false s)
literal_of false (String.◌∷◌ c s) =
    let escaped = literal_of true s in
    let rest = literal_of false s in
    if code c == 92
    then escaped
    else if code c == b'%' || code c == b'_'
    then none
    else put_first c rest

-- The pattern of a search matches the searched text alone: escapeLike leaves no wildcard, and what
-- its pattern stands for is the text that it was given.
pub literal-escape_like : (s : String) → literal_of false (escape_like s) ≡ some s
unfolding literal_of escape_like
literal-escape_like String.[] = refl
literal-escape_like (String.◌∷◌ c s) =
    let ih = literal-escape_like s in
    elim (Bool-cases (code c == 92 || code c == b'%' || code c == b'_')) [
      | inl special ↦ rw (special, ih) refl
      | inr plain ↦
          let no_escape : (code c == 92) ≡ false = ground (arith, plain) in
          let no_wildcard : (code c == b'%' || code c == b'_') ≡ false = ground (arith, plain) in
          rw plain (rw (no_escape, no_wildcard, ih) refl)
    ]
