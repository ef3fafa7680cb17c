-- ===== src/Dao/Sound/Publications.antt =====
-- The lifecycle of surveys: how a survey ceases to be a draft.
use mathlib.Core.Path.{subst}
use wenjuandiaocha_backend.Base.{
  ℕ, suc, ◌≤◌, ◌<◌, ℤ, false, String, str_eq, eq_iff, some, List, [], ◌∷◌, ◌++◌, lookup,
  if◌then◌else◌, ◌≡◌, ◌≢◌, ◌⊎◌, some_injective, refl, sym, ◌∙◌, Bool-cases, inl, inr, arith,
}
use wenjuandiaocha_backend.Dao.Sound.Lifecycle.{
  Life, moved, Step, created, published, closed, reopened, Steps, no_step, a_step,
}

-- The number of a survey's snapshots.
abbrev pub count_keys : String → List (String × ℤ) → ℕ
count_keys id [] = 0
count_keys id ((j, v) ∷ k) = if str_eq j id then suc (count_keys id k) else count_keys id k

count_keys-append :
    (id j : String) (v : ℤ) (k : List (String × ℤ))
    → count_keys id (k ++ ((j, v) ∷ []))
      ≡ (if str_eq j id then suc (count_keys id k) else count_keys id k)
count_keys-append id j v [] = refl
count_keys-append id j v ((i, u) ∷ k) = ground (arith, count_keys-append id j v k)

lookup-append :
    (id s : String) (l m : List (String × String))
    → lookup id l ≡ some s
    → lookup id (l ++ m) ≡ some s
lookup-append id s [] m h = absurd (cc)
lookup-append id s ((j, t) ∷ l) m h = elim (Bool-cases (str_eq j id)) [
  | inl here ↦ rw here (rw here at h)
  | inr further ↦ rw further (lookup-append id s l m (rw further at h))
]

lookup-moved :
    (id j status : String) (l : List (String × String))
    → str_eq j id ≡ false
    → lookup id (moved j status l) ≡ lookup id l
lookup-moved id j status [] h = refl
lookup-moved id j status ((i, t) ∷ l) h = elim (Bool-cases (str_eq i j)) [
  | inl hit ↦
      let miss : str_eq i id ≡ false =
        subst (λ x. str_eq x id ≡ false) (sym ((eq_iff i j).0 hit)) h in
      rw (hit, miss) (lookup-moved id j status l h)
  | inr other ↦ rw (other, lookup-moved id j status l h) refl
]

-- The survey is a draft still, or has one snapshot more at least.
abbrev pub IsStillDraft : String → Life → Life → Type 0
IsStillDraft id a b = (lookup id b.0 ≡ some "draft") ⊎ (count_keys id a.1 < count_keys id b.1)

abbrev Grows : String → Life → Life → Type 0
Grows id a b =
    (count_keys id a.1 ≤ count_keys id b.1) × (lookup id a.0 ≡ some "draft" → IsStillDraft id a b)

moved-Grows :
    (id j from status : String) (l : List (String × String)) (k : List (String × ℤ))
    → lookup j l ≡ some from
    → from ≢ "draft"
    → Grows id (l, k) (moved j status l, k)
moved-Grows id j from status l k here no_draft = (
  omega arith,
  λ draft. elim (Bool-cases (str_eq j id)) [
    | inl hit ↦
        let at_id : lookup id l ≡ some from =
          subst (λ x. lookup x l ≡ some from) ((eq_iff j id).0 hit) here in
        absurd (no_draft (some_injective (sym at_id ∙ draft)))
    | inr other ↦ inl (lookup-moved id j status l other ∙ draft)
  ],
)

published-Grows :
    (id j : String) (v : ℤ) (l : List (String × String)) (k : List (String × ℤ))
    → Grows id (l, k) (moved j "live" l, k ++ ((j, v) ∷ []))
published-Grows id j v l k =
    let more = count_keys-append id j v k in
    elim (Bool-cases (str_eq j id)) [
      | inl hit ↦
          let grown : count_keys id (k ++ ((j, v) ∷ [])) ≡ suc (count_keys id k) = rw hit at more in
          (omega (arith, grown), λ draft. inr (omega (arith, grown)))
      | inr other ↦
          let same : count_keys id (k ++ ((j, v) ∷ [])) ≡ count_keys id k = rw other at more in
          (omega (arith, same), λ draft. inl (lookup-moved id j "live" l other ∙ draft))
    ]

Step-Grows : {a b : Life} (id : String) → Step a b → Grows id a b
Step-Grows id (created {l = l} {k = k} j fresh) =
    (omega arith, λ draft. inl (lookup-append id "draft" l ((j, "draft") ∷ []) draft))
Step-Grows id (published {l = l} {k = k} j status v here fresh) = published-Grows id j v l k
Step-Grows id (closed {l = l} {k = k} j here) =
    moved-Grows id j "live" "closed" l k here (λ e. cc e)
Step-Grows id (reopened {l = l} {k = k} j here) =
    moved-Grows id j "closed" "live" l k here (λ e. cc e)

Grows-trans : (id : String) (a b c : Life) → Grows id a b → Grows id b c → Grows id a c
Grows-trans id a b c (more, keeps) (still_more, still_keeps) = (
  omega (arith, more, still_more),
  λ draft. elim (keeps draft) [
    | inr grown ↦ inr (omega (arith, grown, still_more))
    | inl still ↦ elim (still_keeps still) [
      | inl so ↦ inl so
      | inr grown ↦ inr (omega (arith, grown, more))
    ]
  ],
)

-- Along the lifecycle a draft stays one until its survey is published.
pub Steps-Grows : {a b : Life} (id : String) → Steps a b → Grows id a b
Steps-Grows {a} {b} id no_step = (omega arith, λ draft. inl draft)
Steps-Grows {a} {b} id (a_step {m = m} steps step) =
    Grows-trans id a m b (Steps-Grows id steps) (Step-Grows id step)
