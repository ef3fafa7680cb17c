-- ===== src/Base/Text.antt =====
-- What the program uses of Go's text packages: `strings.TrimSpace`, UTF-16 lengths, and the `%d`
-- verb of `fmt.Sprintf`. A Go string that comes from JSON is valid UTF-8, so it is read as its runes.
use Prim.Native.Nat.{ℕ, zero, suc, ◌+◌, ◌/◌, ◌%◌}
use Prim.Native.Char.{code}
use Prim.Native.String
use Prim.Native.String.{String}
use mathlib.Core.Logic.{◌≢◌}
use mathlib.Core.Path.{◌≡◌}
use mathlib.Core.Bool.{Bool, false, ◌&&◌, ◌||◌}
use native.Mathlib.Omega.{arith}
use text.Mathlib.TextEquality.{eq_iff}
use mathlib.Core.List.{List, [], ◌∷◌}
use text.Mathlib.Text.{◌==◌ as str_eq}
use text.Mathlib.TextLemmas.{append-eq-nil_iff}
use wenjuandiaocha_backend.Base.Tests.{ltb, leb, ◌==◌, if◌then◌else◌}
use wenjuandiaocha_backend.Base.Int.{ℤ, pos, negsuc}

infixr 66 ◌⊹◌
-- Concatenation of texts.
abbrev pub ◌⊹◌ : String → String → String
s ⊹ t = String.◌++◌ s t

-- The code points of a text.
abbrev pub codes : String → List ℕ
codes String.[] = []
codes (String.◌∷◌ c s) = code c ∷ codes s

-- unicode.IsSpace
pub is_space : ℕ → Bool
is_space c =
    (leb 9 c && leb c 13)
    || c == 32
    || c == 0x85
    || c == 0xA0
    || c == 0x1680
    || (leb 0x2000 c && leb c 0x200A)
    || c == 0x2028
    || c == 0x2029
    || c == 0x202F
    || c == 0x205F
    || c == 0x3000

trim_left : String → String
trim_left String.[] = ""
trim_left (String.◌∷◌ c s) = if is_space (code c) then trim_left s else String.◌∷◌ c s

trim_right : String → String
trim_right String.[] = ""
trim_right (String.◌∷◌ c s) =
    let rest = trim_right s in if str_eq rest "" && is_space (code c) then "" else String.◌∷◌ c rest

-- strings.TrimSpace
unfoldable pub trim_space : String → String
unfolding trim_left trim_right is_space
trim_space s = trim_right (trim_left s)

-- A code point above the basic plane takes two UTF-16 units.
utf16_units : List ℕ → ℕ
utf16_units [] = 0
utf16_units (c ∷ cs) = (if ltb c 0x10000 then 1 else 2) + utf16_units cs

-- len(utf16.Encode([]rune(s)))
unfoldable pub utf16_len : String → ℕ
unfolding utf16_units
utf16_len s = utf16_units (codes s)

digit : ℕ → String
digit n =
    if n == 0
    then "0"
    else if n == 1
    then "1"
    else if n == 2
    then "2"
    else if n == 3
    then "3"
    else if n == 4
    then "4"
    else if n == 5
    then "5"
    else if n == 6
    then "6"
    else if n == 7
    then "7"
    else if n == 8
    then "8"
    else "9"

-- The decimal digits of `n`, before the text `acc`. A number is below the fuel `suc n`.
show_from : ℕ → ℕ → String → String
show_from zero n acc = acc
show_from (suc f) n acc =
    let more = show_from f (n / 10) (digit (n % 10) ⊹ acc) in
    if ltb n 10 then digit n ⊹ acc else more

unfoldable pub show_ℕ : ℕ → String
unfolding show_from digit
show_ℕ n = show_from (suc n) n ""

-- fmt.Sprintf("%d", n)
unfoldable pub show_ℤ : ℤ → String
unfolding show_ℕ
show_ℤ (pos n) = show_ℕ n
show_ℤ (negsuc n) = "-" ⊹ show_ℕ (suc n)

-- fmt.Sprintf of a text, a number and a text.
unfoldable pub sprintf_d : String → ℤ → String → String
unfolding show_ℤ
sprintf_d before n after = before ⊹ show_ℤ n ⊹ after

-- A message that begins with some text is not empty.
pub ⊹-ne-nil : (s t : String) → s ≢ "" → s ⊹ t ≢ ""
⊹-ne-nil s t h e = h ((append-eq-nil_iff.0 e).0)

pub sprintf_d-ne :
    (before : String) (n : ℤ) (after : String) → before ≢ "" → sprintf_d before n after ≢ ""
unfolding sprintf_d
sprintf_d-ne before n after h = ⊹-ne-nil before _ h

pub ne-nil : (m : String) → str_eq m "" ≡ false → m ≢ ""
ne-nil m h = ground (arith, eq_iff m "")
