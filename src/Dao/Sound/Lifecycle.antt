-- ===== src/Dao/Sound/Lifecycle.antt =====
-- The lifecycle of surveys as internal/domain/status.go has it, without the tables: a state machine
-- over the statuses by id and the keys of the snapshots, each a survey's id and a number.
use wenjuandiaocha_backend.Base.{
  Bool, ℤ, eq_ℤ, ◌&&◌, any, false, String, str_eq, none, some, List, [], ◌∷◌, ◌++◌, lookup, ◌≡◌,
}
use wenjuandiaocha_backend.Dao.Gen.Rows.{update_where}

-- The survey's new status.
abbrev pub moved : String → String → List (String × String) → List (String × String)
moved id status =
    update_where (λ (p : String × String). str_eq p.0 id) (λ (p : String × String). (p.0, status))

abbrev pub Life : Type 0
Life = List (String × String) × List (String × ℤ)

abbrev pub has_key : String → ℤ → List (String × ℤ) → Bool
has_key id v = any (λ (k : String × ℤ). str_eq k.0 id && eq_ℤ k.1 v)

-- A new survey is a draft, a publication adds a snapshot under a new number and makes its survey live,
-- a live survey may be closed, and a closed one may go back to live.
pub data Step : Life → Life → Type 0 where
  created :
      {l : List (String × String)} {k : List (String × ℤ)} (id : String)
      → lookup id l ≡ none
      → Step (l, k) (l ++ ((id, "draft") ∷ []), k)
  published :
      {l : List (String × String)} {k : List (String × ℤ)} (id status : String) (v : ℤ)
      → lookup id l ≡ some status
      → has_key id v k ≡ false
      → Step (l, k) (moved id "live" l, k ++ ((id, v) ∷ []))
  closed :
      {l : List (String × String)} {k : List (String × ℤ)} (id : String)
      → lookup id l ≡ some "live"
      → Step (l, k) (moved id "closed" l, k)
  reopened :
      {l : List (String × String)} {k : List (String × ℤ)} (id : String)
      → lookup id l ≡ some "closed"
      → Step (l, k) (moved id "live" l, k)

pub data Steps : Life → Life → Type 0 where
  no_step : {l : Life} → Steps l l
  a_step : {l m n : Life} → Steps l m → Step m n → Steps l n

pub Steps-trans : {l m n : Life} → Steps l m → Steps m n → Steps l n
Steps-trans p no_step = p
Steps-trans p (a_step q s) = a_step (Steps-trans p q) s
