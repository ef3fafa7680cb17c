-- ===== src/Regex/Language.antt =====
-- The texts that an expression stands for, and the proof that the matcher decides them.
use wenjuandiaocha_backend.Base.{
  ℕ, zero, suc, ◌≡◌, refl, sym, ap, ◌∙◌, ◌↔◌, inl, inr, Bool, true, false, List, [], ◌∷◌, ◌++◌, All,
  length, arith, Bool-cases, if◌then◌else◌,
}
use wenjuandiaocha_backend.Regex.{
  Regex, nothing, empty, one, seq, alt, star, nullable, derive, matches, repeat,
}

pub data In : Regex → List ℕ → Type 0 where
  in_empty : {s : List ℕ} → s ≡ [] → In empty s
  in_one : {p : ℕ → Bool} {c : ℕ} {s : List ℕ} → s ≡ c ∷ [] → p c ≡ true → In (one p) s
  in_seq : {r q : Regex} {u : List ℕ} (s t : List ℕ) → u ≡ s ++ t → In r s → In q t → In (seq r q) u
  in_left : {r q : Regex} {s : List ℕ} → In r s → In (alt r q) s
  in_right : {r q : Regex} {s : List ℕ} → In q s → In (alt r q) s
  in_stop : {r : Regex} {s : List ℕ} → s ≡ [] → In (star r) s
  -- A round of the star takes at least one character.
  in_round :
      {r : Regex} {u : List ℕ} (c : ℕ) (s t : List ℕ)
      → u ≡ c ∷ (s ++ t)
      → In r (c ∷ s)
      → In (star r) t
      → In (star r) u

append-nil_inv : (s t : List ℕ) → s ++ t ≡ [] → (s ≡ []) × (t ≡ [])
append-nil_inv [] t e = (refl, e)
append-nil_inv (c ∷ s) t e = cc

In-if : (b : Bool) (q : Regex) {s : List ℕ} → In (if b then q else nothing) s → (b ≡ true) × In q s
In-if true q x = (refl, x)
In-if false q x = elim x [ ]

In-empty_inv : {s : List ℕ} → In empty s → s ≡ []
In-empty_inv (in_empty e) = e

nullable_sound : (r : Regex) → nullable r ≡ true → In r []
unfolding nullable
nullable_sound nothing h = cc
nullable_sound empty h = in_empty refl
nullable_sound (one p) h = cc
nullable_sound (seq r q) h =
    in_seq [] [] refl (nullable_sound r (ground arith)) (nullable_sound q (ground arith))
nullable_sound (alt r q) h = elim (Bool-cases (nullable r)) [
  | inl e ↦ in_left (nullable_sound r e)
  | inr e ↦ in_right (nullable_sound q (ground arith))
]
nullable_sound (star r) h = in_stop refl

nullable_complete : {r : Regex} {s : List ℕ} → s ≡ [] → In r s → nullable r ≡ true
unfolding nullable
nullable_complete e (in_empty d) = refl
nullable_complete e (in_one d p) = cc
nullable_complete e (in_seq s t d x y) =
    let (l, r) = append-nil_inv s t (sym d ∙ e) in
    ground (arith, nullable_complete l x, nullable_complete r y)
nullable_complete e (in_left x) = ground (arith, nullable_complete e x)
nullable_complete e (in_right y) = ground (arith, nullable_complete e y)
nullable_complete e (in_stop d) = refl
nullable_complete e (in_round c s t d x y) = refl

derive_sound : (c : ℕ) (r : Regex) {s : List ℕ} → In (derive c r) s → In r (c ∷ s)
unfolding derive
derive_sound c nothing x = elim x [ ]
derive_sound c empty x = elim x [ ]
derive_sound c (one p) x =
    let (h, y) = In-if (p c) empty x in in_one (ap (λ l. c ∷ l) (In-empty_inv y)) h
derive_sound c (seq r q) (in_left (in_seq s t e x y)) =
    in_seq (c ∷ s) t (ap (λ l. c ∷ l) e) (derive_sound c r x) y
derive_sound c (seq r q) (in_right z) =
    let (h, y) = In-if (nullable r) (derive c q) z in
    in_seq [] _ refl (nullable_sound r h) (derive_sound c q y)
derive_sound c (alt r q) (in_left x) = in_left (derive_sound c r x)
derive_sound c (alt r q) (in_right y) = in_right (derive_sound c q y)
derive_sound c (star r) (in_seq s t e x y) =
    in_round c s t (ap (λ l. c ∷ l) e) (derive_sound c r x) y

In-if_true :
    (b : Bool) (q : Regex) {s : List ℕ} → b ≡ true → In q s → In (if b then q else nothing) s
In-if_true true q h x = x
In-if_true false q h x = cc

derive_complete :
    {r : Regex} {u : List ℕ} (c : ℕ) (s : List ℕ) → u ≡ c ∷ s → In r u → In (derive c r) s
unfolding derive
derive_complete c s e (in_empty d) = cc
derive_complete c s e (in_one {p} {c = b} d h) =
    In-if_true (p c) empty (ground arith) (in_empty (ground arith))
derive_complete c s e (in_seq {r} {q} [] t d x y) = in_right (
    In-if_true (nullable r) (derive c q) (nullable_complete refl x)
      (derive_complete c s (sym d ∙ e) y))
derive_complete c s e (in_seq (b ∷ s') t d x y) =
    in_left (in_seq s' t (ground arith) (derive_complete c s' (ground arith) x) y)
derive_complete c s e (in_left x) = in_left (derive_complete c s e x)
derive_complete c s e (in_right y) = in_right (derive_complete c s e y)
derive_complete c s e (in_stop d) = cc
derive_complete c s e (in_round b s' t d x y) =
    in_seq s' t (ground arith) (derive_complete c s' (ground arith) x) y

matches_sound : (r : Regex) (s : List ℕ) → matches r s ≡ true → In r s
unfolding matches
matches_sound r [] h = nullable_sound r h
matches_sound r (c ∷ s) h = derive_sound c r (matches_sound (derive c r) s h)

matches_complete : (r : Regex) (s : List ℕ) → In r s → matches r s ≡ true
unfolding matches
matches_complete r [] x = nullable_complete refl x
matches_complete r (c ∷ s) x = matches_complete (derive c r) s (derive_complete c s refl x)

-- The matcher accepts exactly the texts that the expression stands for.
pub matches_iff : (r : Regex) (s : List ℕ) → (matches r s ≡ true) ↔ In r s
matches_iff r s = (matches_sound r s, matches_complete r s)

-- A class repeated `n` times: `n` characters of the class.
repeat-inv :
    (n : ℕ) (p : ℕ → Bool) {s : List ℕ}
    → In (repeat n (one p)) s
    → (length s ≡ n) × All (λ c. p c ≡ true) s
repeat-inv zero p x = rw (In-empty_inv x) (refl, tt)
repeat-inv (suc n) p (in_seq s t d (in_one e h) y) =
    let (len, all) = repeat-inv n p y in rw (d, e) (ap suc len, (h, all))

repeat-intro :
    (n : ℕ) (p : ℕ → Bool) (s : List ℕ)
    → length s ≡ n
    → All (λ c. p c ≡ true) s
    → In (repeat n (one p)) s
repeat-intro zero p [] e h = in_empty refl
repeat-intro zero p (c ∷ s) e h = absurd (omega arith)
repeat-intro (suc n) p [] e h = absurd (omega arith)
repeat-intro (suc n) p (c ∷ s) e (h, hs) =
    in_seq (c ∷ []) s refl (in_one refl h) (repeat-intro n p s (omega arith) hs)

pub In-repeat_iff :
    (n : ℕ) (p : ℕ → Bool) (s : List ℕ)
    → In (repeat n (one p)) s ↔ ((length s ≡ n) × All (λ c. p c ≡ true) s)
In-repeat_iff n p s = (repeat-inv n p, λ h. repeat-intro n p s h.0 h.1)
