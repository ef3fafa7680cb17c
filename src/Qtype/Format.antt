-- ===== src/Qtype/Format.antt =====
-- internal/domain/qtype/textformat.go and provinces.go, with the expressions of text.go: the formats
-- of a text answer.
pub mod Calendar
pub mod Spelling
pub mod Idcard
use wenjuandiaocha_backend.Base.{
  ℕ, ◌+◌, ◌-◌, ◌*◌, ◌%◌, ◌^◌, Bool, true, false, not, ◌&&◌, ◌||◌, Option, none, some, List, [], ◌∷◌,
  String, str_eq, codes, ltb, leb, ◌==◌, if◌then◌else◌, member, ℤ, pos, negsuc, utf16_len,
  sprintf_d, ltb_ℤ,
}
use wenjuandiaocha_backend.Regex.{
  Regex, empty, one, seq, alt, star, match_string, is_digit, is_blank, char, plus, maybe, repeat,
  literal,
}
use wenjuandiaocha_backend.Platform.{Platform}
use wenjuandiaocha_backend.Domain.Value.{Value, str}
use wenjuandiaocha_backend.Qtype.Format.Calendar.{is_valid_date}

abbrev pub digit_re : Regex
digit_re = one is_digit

-- [^\s@]
abbrev pub mail_re : Regex
mail_re = one (λ c. not (is_blank c || c == b'@'))

abbrev pub email_re : Regex
email_re =
    seq (plus mail_re) (seq (char b'@') (seq (plus mail_re) (seq (char b'.') (plus mail_re))))

abbrev pub phone_re : Regex
phone_re = seq (char b'1') (repeat 10 digit_re)

abbrev pub integer_re : Regex
integer_re = seq (maybe (char b'-')) (plus digit_re)

abbrev pub decimal_re : Regex
decimal_re = seq (maybe (char b'-')) (seq (plus digit_re) (maybe (seq (char b'.') (plus digit_re))))

abbrev pub date_re : Regex
date_re =
    seq (repeat 4 digit_re)
      (seq (char b'-') (seq (repeat 2 digit_re) (seq (char b'-') (repeat 2 digit_re))))

abbrev pub age_re : Regex
age_re = plus digit_re

abbrev pub zipcode_re : Regex
zipcode_re = repeat 6 digit_re

abbrev pub url_re : Regex
url_re =
    seq (literal (codes "http"))
      (seq (maybe (char b's')) (seq (literal (codes "://")) (plus (one (λ c. not (is_blank c))))))

-- [\dXx]
abbrev pub is_check : ℕ → Bool
is_check c = is_digit c || c == b'X' || c == b'x'

abbrev pub idcard_re : Regex
idcard_re = seq (repeat 17 digit_re) (one is_check)

-- An unknown format is read as "text".
unfoldable pub normalize_format : String → String
normalize_format f =
    if member f (
      "email" ∷ "phone" ∷ "integer" ∷ "decimal" ∷ "date" ∷ "age" ∷ "province" ∷ "idcard" ∷ "zipcode"
      ∷ "url" ∷ [])
    then f
    else "text"

abbrev pub weights : List ℕ
weights = 7 ∷ 9 ∷ 10 ∷ 5 ∷ 8 ∷ 4 ∷ 2 ∷ 1 ∷ 6 ∷ 3 ∷ 7 ∷ 9 ∷ 10 ∷ 5 ∷ 8 ∷ 4 ∷ 2 ∷ []

-- checks[i], where i is a remainder by 11.
unfoldable pub check_char : ℕ → ℕ
check_char i =
    if i == 0
    then b'1'
    else if i == 1
    then b'0'
    else if i == 2
    then b'X'
    else if i == 3
    then b'9'
    else if i == 4
    then b'8'
    else if i == 5
    then b'7'
    else if i == 6
    then b'6'
    else if i == 7
    then b'5'
    else if i == 8
    then b'4'
    else if i == 9
    then b'3'
    else b'2'

-- The loop over the first 17 characters: the weighted sum, and the characters that are left.
-- `int(s[i]-'0')` is a difference of bytes.
unfoldable pub weighted_sum : List ℕ → List ℕ → ℕ → ℕ × List ℕ
weighted_sum (w ∷ ws) (c ∷ cs) sum = weighted_sum ws cs (sum + (c + 256 - b'0') % 256 * w)
weighted_sum _ cs sum = (sum, cs)

-- strings.ToUpper of a character of the class [\dXx]
abbrev pub upper : ℕ → ℕ
upper c = if leb b'a' c && leb c b'z' then c - 32 else c

unfoldable pub check_matches : ℕ × List ℕ → Bool
unfolding check_char
check_matches (sum, []) = false
check_matches (sum, c ∷ _) = check_char (sum % 11) == upper c

unfoldable pub is_valid_idcard : String → Bool
unfolding match_string weighted_sum check_matches
is_valid_idcard s =
    if not (match_string idcard_re s)
    then false
    else check_matches (weighted_sum weights (codes s) 0)

-- The digits after the sign, as a number; `none` at another character or at an empty text.
unfoldable pub digits_value : ℕ → List ℕ → Option ℕ
digits_value acc [] = some acc
digits_value acc (c ∷ cs) =
    let rest = digits_value (acc * 10 + (c - b'0')) cs in if is_digit c then rest else none

unfoldable pub unsigned : List ℕ → Option ℕ
unfolding digits_value
unsigned [] = none
unsigned (c ∷ cs) = digits_value 0 (c ∷ cs)

-- An int is 64 bits wide: what is out of range is an error.
abbrev pub in_range : Bool → Option ℕ → Option ℤ
in_range _ none = none
in_range false (some n) = if ltb n (2 ^ 63) then some (pos n) else none
in_range true (some n) =
    if n == 0 then some (pos 0) else if leb n (2 ^ 63) then some (negsuc (n - 1)) else none

-- strconv.Atoi; an error is `none`.
unfoldable pub atoi : List ℕ → Option ℤ
unfolding unsigned
atoi [] = none
atoi (c ∷ cs) =
    if c == b'-'
    then in_range true (unsigned cs)
    else if c == b'+'
    then in_range false (unsigned cs)
    else in_range false (unsigned (c ∷ cs))

-- err != nil || n < 0 || n > 150
unfoldable pub age_is_bad : Option ℤ → Bool
age_is_bad none = true
age_is_bad (some n) = ltb_ℤ n (pos 0) || ltb_ℤ (pos 150) n

abbrev pub provinces : List String
provinces =
    "北京市" ∷ "天津市" ∷ "上海市" ∷ "重庆市" ∷ "河北省" ∷ "山西省" ∷ "辽宁省" ∷ "吉林省" ∷ "黑龙江省" ∷ "江苏省" ∷ "浙江省" ∷ "安徽省"
    ∷ "福建省" ∷ "江西省" ∷ "山东省" ∷ "河南省" ∷ "湖北省" ∷ "湖南省" ∷ "广东省" ∷ "海南省" ∷ "四川省" ∷ "贵州省" ∷ "云南省" ∷ "陕西省"
    ∷ "甘肃省" ∷ "青海省" ∷ "台湾省" ∷ "内蒙古自治区" ∷ "广西壮族自治区" ∷ "西藏自治区" ∷ "宁夏回族自治区" ∷ "新疆维吾尔自治区" ∷ "香港特别行政区"
    ∷ "澳门特别行政区" ∷ []

-- The tests of the switch, before the message of each.
unfoldable pub has_format : String → String → Bool
has_format value format =
    if str_eq format "email"
    then match_string email_re value
    else if str_eq format "phone"
    then match_string phone_re value
    else if str_eq format "integer"
    then match_string integer_re value
    else if str_eq format "decimal"
    then match_string decimal_re value
    else if str_eq format "date"
    then match_string date_re value && is_valid_date (codes value)
    else if str_eq format "age"
    then match_string age_re value && not (age_is_bad (atoi (codes value)))
    else if str_eq format "province"
    then member value provinces
    else if str_eq format "idcard"
    then is_valid_idcard value
    else if str_eq format "zipcode"
    then match_string zipcode_re value
    else if str_eq format "url"
    then match_string url_re value
    else true

-- The message of each format.
unfoldable pub format_message : String → String
format_message format =
    if str_eq format "email"
    then "邮箱格式不正确"
    else if str_eq format "phone"
    then "手机号格式不正确"
    else if str_eq format "integer"
    then "请填写整数"
    else if str_eq format "decimal"
    then "请填写数字"
    else if str_eq format "date"
    then "日期格式应为 YYYY-MM-DD"
    else if str_eq format "age"
    then "年龄应为 0–150 的整数"
    else if str_eq format "province"
    then "请选择省份"
    else if str_eq format "idcard"
    then "身份证号格式不正确"
    else if str_eq format "zipcode"
    then "邮编应为 6 位数字"
    else "网址格式不正确"

unfoldable pub check_format : String → String → String
check_format value format = if has_format value format then "" else format_message format

-- textRules
pub record TextRules : Type 0 where
  pub format : String
  pub min_length : Option ℤ
  pub max_length : Option ℤ

-- Whether a bound is set and passed: n > *max, n < *min.
abbrev pub above : ℤ → Option ℤ → Bool
above n none = false
above n (some m) = ltb_ℤ m n

abbrev pub below : ℤ → Option ℤ → Bool
below n none = false
below n (some m) = ltb_ℤ n m

-- *p, read only where p is not nil.
abbrev pub bound : Option ℤ → ℤ
bound none = pos 0
bound (some n) = n

module _ (pf : Platform) where
  unfoldable pub validate_text_value : Value pf.F → TextRules → String
  validate_text_value (str s) r =
      if above (pos (utf16_len s)) r.max_length
      then sprintf_d "不超过 " (bound r.max_length) " 个字符"
      else if below (pos (utf16_len s)) r.min_length
      then sprintf_d "至少 " (bound r.min_length) " 个字符"
      else check_format s (normalize_format r.format)
  validate_text_value _ r = "答案格式应为文本"
