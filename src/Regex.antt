-- ===== src/Regex.antt =====
-- What the program uses of Go's regexp: expressions between `^` and `$`, over the code points of a
-- text, matched by derivatives.
pub mod Language
use wenjuandiaocha_backend.Base.{
  ℕ, zero, suc, Bool, true, false, not, ◌&&◌, ◌||◌, List, [], ◌∷◌, String, codes, leb, ◌==◌,
  if◌then◌else◌,
}

pub data Regex : Type 0 where
  nothing empty : Regex
  one : (ℕ → Bool) → Regex
  seq alt : Regex → Regex → Regex
  star : Regex → Regex

unfoldable pub nullable : Regex → Bool
nullable nothing = false
nullable empty = true
nullable (one p) = false
nullable (seq r q) = nullable r && nullable q
nullable (alt r q) = nullable r || nullable q
nullable (star r) = true

unfoldable pub derive : ℕ → Regex → Regex
unfolding nullable
derive c nothing = nothing
derive c empty = nothing
derive c (one p) = if p c then empty else nothing
derive c (seq r q) = alt (seq (derive c r) q) (if nullable r then derive c q else nothing)
derive c (alt r q) = alt (derive c r) (derive c q)
derive c (star r) = seq (derive c r) (star r)

unfoldable pub matches : Regex → List ℕ → Bool
unfolding nullable derive
matches r [] = nullable r
matches r (c ∷ s) = matches (derive c r) s

-- `^r$` on a text.
unfoldable pub match_string : Regex → String → Bool
unfolding matches
match_string r s = matches r (codes s)

-- The classes and repetitions of the syntax.
abbrev pub is_digit : ℕ → Bool
is_digit c = leb b'0' c && leb c b'9'

-- \s: tab, line feed, form feed, carriage return, space.
abbrev pub is_blank : ℕ → Bool
is_blank c = c == 9 || c == 10 || c == 12 || c == 13 || c == 32

abbrev pub char : ℕ → Regex
char k = one (λ c. c == k)

abbrev pub plus : Regex → Regex
plus r = seq r (star r)

abbrev pub maybe : Regex → Regex
maybe r = alt r empty

abbrev pub repeat : ℕ → Regex → Regex
repeat zero r = empty
repeat (suc n) r = seq r (repeat n r)

-- The text `s` itself.
abbrev pub literal : List ℕ → Regex
literal [] = empty
literal (c ∷ cs) = seq (char c) (literal cs)
