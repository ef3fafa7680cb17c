-- ===== src/Dao/Gen/Rows.antt =====
-- What the queries of internal/dao/queries do with the rows of a table.
use wenjuandiaocha_backend.Base.{
  Bool, ℕ, zero, suc, Option, none, some, List, [], ◌∷◌, if◌then◌else◌,
}
use wenjuandiaocha_backend.Ecode.{GoError}
use wenjuandiaocha_backend.Dao.Exec.{Result, ok, err}

-- The one row of a `:one` query.
abbrev pub one_row {ℓ} : {A : Type ℓ} → Option A → Result A
one_row none = err GoError.no_rows
one_row (some a) = ok a

-- The first row that passes a test.
abbrev pub find {ℓ} : {A : Type ℓ} → (A → Bool) → List A → Option A
find p [] = none
find p (x ∷ xs) = if p x then some x else find p xs

-- WHERE … IN (…), and UPDATE … WHERE of one table.
abbrev pub update_where {ℓ} : {A : Type ℓ} → (A → Bool) → (A → A) → List A → List A
update_where p f [] = []
update_where p f (x ∷ xs) = (if p x then f x else x) ∷ update_where p f xs

abbrev pub keep {ℓ} : {A : Type ℓ} → (A → Bool) → List A → List A
keep p [] = []
keep p (x ∷ xs) = if p x then x ∷ keep p xs else keep p xs

abbrev pub take {ℓ} : {A : Type ℓ} → ℕ → List A → List A
take zero xs = []
take (suc n) [] = []
take (suc n) (x ∷ xs) = x ∷ take n xs

abbrev pub drop {ℓ} : {A : Type ℓ} → ℕ → List A → List A
drop zero xs = xs
drop (suc n) [] = []
drop (suc n) (x ∷ xs) = drop n xs
