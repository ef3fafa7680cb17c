-- ===== src/Qtype/Format/Calendar.antt =====
-- internal/domain/qtype/textformat.go, isValidDate: time.Parse and Format with the layout 2006-01-02.
use wenjuandiaocha_backend.Base.{
  ℕ, ◌+◌, ◌-◌, ◌*◌, ◌/◌, ◌%◌, Bool, true, false, not, ◌&&◌, ◌||◌, Option, none, some, List, [], ◌∷◌,
  leb, ◌==◌, if◌then◌else◌,
}
use wenjuandiaocha_backend.Regex.{is_digit}

pub record Date : Type 0 where
  pub year : ℕ
  pub month : ℕ
  pub day : ℕ

unfoldable pub is_leap : ℕ → Bool
is_leap y = y % 4 == 0 && (not (y % 100 == 0) || y % 400 == 0)

unfoldable pub days_in : ℕ → ℕ → ℕ
unfolding is_leap
days_in m y =
    if m == 2
    then (if is_leap y then 29 else 28)
    else if m == 4 || m == 6 || m == 9 || m == 11
    then 30
    else 31

abbrev pub digit_value : ℕ → ℕ
digit_value c = c - b'0'

-- The ranges that time.Parse checks.
unfoldable pub in_calendar : Date → Bool
unfolding days_in
in_calendar d = leb 1 d.month && leb d.month 12 && leb 1 d.day && leb d.day (days_in d.month d.year)

abbrev pub when {ℓ} : {A : Type ℓ} → Bool → A → Option A
when true a = some a
when false a = none

-- The date that ten characters spell.
abbrev pub spelled : ℕ → ℕ → ℕ → ℕ → ℕ → ℕ → ℕ → ℕ → Date
spelled a b c d e f g h = record {
  year = digit_value a * 1000 + digit_value b * 100 + digit_value c * 10 + digit_value d;
  month = digit_value e * 10 + digit_value f;
  day = digit_value g * 10 + digit_value h;
}

-- time.Parse("2006-01-02", s): four digits, a dash, two digits, a dash, two digits, and nothing else.
unfoldable pub parse_date : List ℕ → Option Date
unfolding in_calendar
parse_date (a ∷ b ∷ c ∷ d ∷ x ∷ e ∷ f ∷ y ∷ g ∷ h ∷ []) =
    when
      (is_digit a
        && is_digit b
        && is_digit c
        && is_digit d
        && x == b'-'
        && is_digit e
        && is_digit f
        && y == b'-'
        && is_digit g
        && is_digit h
        && in_calendar (spelled a b c d e f g h))
      (spelled a b c d e f g h)
parse_date _ = none

abbrev pub digit_char : ℕ → ℕ
digit_char n = n % 10 + b'0'

-- t.Format("2006-01-02") of a year of at most four digits.
unfoldable pub format_date : Date → List ℕ
format_date t =
    digit_char (t.year / 1000)
    ∷ digit_char (t.year / 100)
    ∷ digit_char (t.year / 10)
    ∷ digit_char t.year
    ∷ b'-'
    ∷ digit_char (t.month / 10)
    ∷ digit_char t.month
    ∷ b'-'
    ∷ digit_char (t.day / 10)
    ∷ digit_char t.day
    ∷ []

abbrev pub same_codes : List ℕ → List ℕ → Bool
same_codes [] [] = true
same_codes (c ∷ cs) (d ∷ ds) = c == d && same_codes cs ds
same_codes _ _ = false

-- The text parses, and the date prints as the text again.
unfoldable pub is_valid_date : List ℕ → Bool
unfolding parse_date format_date
is_valid_date s = elim (parse_date s) [ none ↦ false | some t ↦ same_codes (format_date t) s ]
