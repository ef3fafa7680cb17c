-- ===== src/Qtype/Format/Spelling.antt =====
-- The texts that the formats of fixed length accept.
use wenjuandiaocha_backend.Base.{
  ℕ, Bool, true, false, String, List, [], ◌∷◌, codes, length, All, if◌then◌else◌, ne-nil, ◌≡◌, ◌≢◌,
  ◌↔◌, refl, arith,
}
use wenjuandiaocha_backend.Regex.{match_string, is_digit}
use wenjuandiaocha_backend.Regex.Language.{In, in_seq, in_one, matches_iff, In-repeat_iff}
use wenjuandiaocha_backend.Qtype.Format.{
  phone_re, zipcode_re, has_format, format_message, check_format,
}

-- Eleven digits, of which the first is 1.
abbrev IsPhone : List ℕ → Type 0
IsPhone cs = (t : List ℕ) × (cs ≡ b'1' ∷ t) × (length t ≡ 10) × All (λ c. is_digit c ≡ true) t

-- Six digits.
abbrev IsZipcode : List ℕ → Type 0
IsZipcode cs = (length cs ≡ 6) × All (λ c. is_digit c ≡ true) cs

IsPhone-inv : {s : List ℕ} → In phone_re s → IsPhone s
IsPhone-inv (in_seq u t e (in_one {c = c} f g) k) =
    let (size, digits) = (In-repeat_iff 10 is_digit t).0 k in
    let one_first : c ≡ b'1' = ground (arith, g) in (t, rw (e, f, one_first) refl, size, digits)

IsPhone-intro : {s : List ℕ} → IsPhone s → In phone_re s
IsPhone-intro (t, e, size, digits) =
    in_seq (b'1' ∷ []) t e (in_one refl refl) ((In-repeat_iff 10 is_digit t).1 (size, digits))

quiet_iff : (b : Bool) (m : String) → m ≢ "" → ((if b then "" else m) ≡ "") ↔ (b ≡ true)
quiet_iff true m h = (λ e. refl, λ e. refl)
quiet_iff false m h = (λ e. absurd (h e), λ e. cc e)

-- The format "phone" accepts exactly the texts of eleven digits of which the first is 1.
check_format-IsPhone : (value : String) → (check_format value "phone" ≡ "") ↔ IsPhone (codes value)
unfolding check_format has_format format_message match_string
check_format-IsPhone value =
    let quiet = quiet_iff (match_string phone_re value) "手机号格式不正确" (ne-nil "手机号格式不正确" refl) in
    let language = matches_iff phone_re (codes value) in
    (λ h. IsPhone-inv (language.0 (quiet.0 h)), λ h. quiet.1 (language.1 (IsPhone-intro h)))

-- The format "zipcode" accepts exactly the texts of six digits.
check_format-IsZipcode :
    (value : String) → (check_format value "zipcode" ≡ "") ↔ IsZipcode (codes value)
unfolding check_format has_format format_message match_string
check_format-IsZipcode value =
    let quiet = quiet_iff (match_string zipcode_re value) "邮编应为 6 位数字" (ne-nil "邮编应为 6 位数字" refl) in
    let language = matches_iff zipcode_re (codes value) in
    let digits = In-repeat_iff 6 is_digit (codes value) in
    (λ h. digits.0 (language.0 (quiet.0 h)), λ h. quiet.1 (language.1 (digits.1 h)))
