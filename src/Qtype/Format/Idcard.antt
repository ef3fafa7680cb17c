-- ===== src/Qtype/Format/Idcard.antt =====
-- What the check character of an identity card is good for.
use wenjuandiaocha_backend.Base.{
  ℕ, ◌+◌, ◌-◌, ◌*◌, ◌%◌, ◌<◌, true, false, String, codes, List, [], ◌∷◌, ◌++◌, ◌==◌, if◌then◌else◌,
  length, All, ◌≡◌, ◌≢◌, refl, sym, ap, ◌∙◌, arith, Bool-cases, inl, inr,
}
use wenjuandiaocha_backend.Regex.{match_string, is_digit}
use wenjuandiaocha_backend.Qtype.Format.{
  idcard_re, weights, check_char, weighted_sum, check_matches, is_valid_idcard,
}

-- int(c - '0')
abbrev value : ℕ → ℕ
value c = (c + 256 - b'0') % 256

-- The weight tells two digits apart, modulo 11, wherever the sum stands.
abbrev Separates : ℕ → Type 0
Separates w = (base p q : ℕ) → p < 10 → q < 10 → (base + p * w) % 11 ≡ (base + q * w) % 11 → p ≡ q

weights_differ : All Separates weights
weights_differ = (
  λ b p q h k e. omega arith,
  (
    λ b p q h k e. omega arith,
    (
      λ b p q h k e. omega arith,
      (
        λ b p q h k e. omega arith,
        (
          λ b p q h k e. omega arith,
          (
            λ b p q h k e. omega arith,
            (
              λ b p q h k e. omega arith,
              (
                λ b p q h k e. omega arith,
                (
                  λ b p q h k e. omega arith,
                  (
                    λ b p q h k e. omega arith,
                    (
                      λ b p q h k e. omega arith,
                      (
                        λ b p q h k e. omega arith,
                        (
                          λ b p q h k e. omega arith,
                          (
                            λ b p q h k e. omega arith,
                            (
                              λ b p q h k e. omega arith,
                              (λ b p q h k e. omega arith, (λ b p q h k e. omega arith, tt)),
                            ),
                          ),
                        ),
                      ),
                    ),
                  ),
                ),
              ),
            ),
          ),
        ),
      ),
    ),
  ),
)

-- A sum that starts higher ends as much higher.
weighted_sum-add :
    (ws cs : List ℕ) (sum k : ℕ)
    → weighted_sum ws cs (sum + k) ≡ ((weighted_sum ws cs sum).0 + k, (weighted_sum ws cs sum).1)
unfolding weighted_sum
weighted_sum-add [] cs sum k = refl
weighted_sum-add (w ∷ ws) [] sum k = refl
weighted_sum-add (w ∷ ws) (c ∷ cs) sum k =
    let e : sum + k + value c * w ≡ sum + value c * w + k = omega arith in
    rw e (weighted_sum-add ws cs (sum + value c * w) k)

-- The sum as a function of the character at one place.
weighted_sum-place :
    (P : ℕ → Type 0) (ws front back : List ℕ) (sum : ℕ)
    → All P ws
    → length front < length ws
    → (w base : ℕ) × (rest : List ℕ) × P w
      × ((c : ℕ) → weighted_sum ws (front ++ (c ∷ back)) sum ≡ (base + value c * w, rest))
unfolding weighted_sum
weighted_sum-place P [] front back sum all h = absurd (omega arith)
weighted_sum-place P (w ∷ ws) [] back sum (p, all) h = (
  w,
  (weighted_sum ws back sum).0,
  (weighted_sum ws back sum).1,
  p,
  λ c. weighted_sum-add ws back sum (value c * w),
)
weighted_sum-place P (w ∷ ws) (x ∷ front) back sum (p, all) h =
    weighted_sum-place P ws front back (sum + value x * w) all (omega arith)

-- The place of a check character.
abbrev place_of : ℕ → ℕ
place_of c =
    if c == b'1'
    then 0
    else if c == b'0'
    then 1
    else if c == b'X'
    then 2
    else if c == b'2'
    then 10
    else 12 - (c - b'0')

place_of-check_char : (i : ℕ) → i < 11 → place_of (check_char i) ≡ i
unfolding check_char
place_of-check_char i h = ground arith

check_char-injective : (i j : ℕ) → i < 11 → j < 11 → check_char i ≡ check_char j → i ≡ j
check_char-injective i j h k e =
    sym (place_of-check_char i h) ∙ ap place_of e ∙ place_of-check_char j k

value-injective : (c d : ℕ) → is_digit c ≡ true → is_digit d ≡ true → value c ≡ value d → c ≡ d
value-injective c d h k e = ground arith

value-lt : (c : ℕ) → is_digit c ≡ true → value c < 10
value-lt c h = ground arith

-- Both sums fit the same check character.
same_remainder :
    (m n : ℕ) (rest : List ℕ)
    → check_matches (m, rest) ≡ true
    → check_matches (n, rest) ≡ true
    → m % 11 ≡ n % 11
unfolding check_matches
same_remainder m n [] h k = cc h
same_remainder m n (x ∷ rest) h k =
    check_char-injective (m % 11) (n % 11) (omega arith) (omega arith) (ground (arith, h, k))

is_valid_idcard-matches :
    (s : String)
    → is_valid_idcard s ≡ true
    → check_matches (weighted_sum weights (codes s) 0) ≡ true
unfolding is_valid_idcard
is_valid_idcard-matches s h = elim (Bool-cases (match_string idcard_re s)) [
  | inl fits ↦ rw fits at h
  | inr odd ↦ cc (rw odd at h)
]

-- A wrong digit is noticed: of two texts that differ in one of the first seventeen characters, both a
-- digit there, at most one is a valid number of an identity card.
pub is_valid_idcard-Detects :
    (s t : String) (front back : List ℕ) (c d : ℕ)
    → codes s ≡ front ++ (c ∷ back)
    → codes t ≡ front ++ (d ∷ back)
    → length front < 17
    → is_digit c ≡ true
    → is_digit d ≡ true
    → c ≢ d
    → is_valid_idcard s ≡ true
    → is_valid_idcard t ≡ false
is_valid_idcard-Detects s t front back c d hs ht short hc hd differ valid =
    elim (Bool-cases (is_valid_idcard t)) [
      | inr invalid ↦ invalid
      | inl both ↦
          let (w, base, rest, separates, at_place) =
            weighted_sum-place Separates weights front back 0 weights_differ short in
          let m = is_valid_idcard-matches s valid in
          let n = is_valid_idcard-matches t both in
          let same =
            same_remainder (base + value c * w) (base + value d * w) rest (rw (hs, at_place c) at m)
              (rw (ht, at_place d) at n) in
          absurd (
            differ (
              value-injective c d hc hd
                (separates base (value c) (value d) (value-lt c hc) (value-lt d hd) same)))
    ]
