-- ===== src/Start/Ids.antt =====
-- internal/lib/id/id.go: ids of surveys and answer sheets.
use Prim.Native.Char.{code}
use wenjuandiaocha_backend.Base.{
  ℕ, zero, suc, ◌%◌, ltb, Bool, true, String, codes, List, [], ◌∷◌, length, any, All, ◌==◌, ◌≡◌,
  refl, arith,
}

-- Without the letters and digits that are mistaken for each other.
abbrev pub alphabet : String
alphabet = "23456789abcdefghjkmnpqrstuvwxyz"

-- sb.WriteByte(s[i]) in front of what is written next; an index out of range, which would panic,
-- writes nothing.
abbrev pub write_byte : ℕ → String → String → String
write_byte n String.[] t = t
write_byte zero (String.◌∷◌ c s) t = String.◌∷◌ c t
write_byte (suc n) (String.◌∷◌ c s) t = write_byte n s t

-- New, over the random bytes.
unfoldable pub new : List ℕ → String
new [] = ""
new (x ∷ bytes) = write_byte (x % length (codes alphabet)) alphabet (new bytes)

abbrev is_in : String → ℕ → Bool
is_in s c = any (λ d. d == c) (codes s)

codes-write_byte :
    (n : ℕ) (s t : String)
    → ltb n (length (codes s)) ≡ true
    → (c : ℕ) × (codes (write_byte n s t) ≡ c ∷ codes t) × (is_in s c ≡ true)
codes-write_byte n String.[] t h = absurd (ground arith)
codes-write_byte zero (String.◌∷◌ c s) t h = (code c, refl, ground arith)
codes-write_byte (suc n) (String.◌∷◌ c s) t h =
    let (d, e, here) = codes-write_byte n s t (ground (arith, h)) in (d, e, ground (arith, here))

-- An id has as many characters as it took random bytes, eight in the program, and each is of the
-- alphabet: no index is out of range.
new-alphabet :
    (bytes : List ℕ)
    → (length (codes (new bytes)) ≡ length bytes)
      × All (λ c. is_in alphabet c ≡ true) (codes (new bytes))
unfolding new
new-alphabet [] = (refl, tt)
new-alphabet (x ∷ bytes) =
    let (c, e, here) = codes-write_byte (x % 31) alphabet (new bytes) (ground arith) in
    let (same, all) = new-alphabet bytes in rw e (omega (arith, same), (here, all))
