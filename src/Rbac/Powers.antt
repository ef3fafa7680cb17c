-- ===== src/Rbac/Powers.antt =====
-- The capability matrix as a rule: who may do what.
use mathlib.Core.Path.{subst}
use wenjuandiaocha_backend.Base.{
  ◌≡◌, refl, ◌↔◌, ◌⊎◌, inl, inr, true, false, String, str_eq, eq_iff, [], ◌∷◌, ◌++◌, member, arith,
  Bool-cases,
}
use wenjuandiaocha_backend.Rbac.{
  can, role_admin, role_creator, role_respondent, action_submit_answer, action_account_manage,
  survey_actions,
}

-- What the comments of the package grant.
abbrev IsGranted : String → String → Type 0
IsGranted role action =
    ((role ≡ role_admin)
      × (member action (survey_actions ++ (action_submit_answer ∷ action_account_manage ∷ []))
          ≡ true))
    ⊎ ((role ≡ role_creator) × (member action survey_actions ≡ true))
    ⊎ ((role ≡ role_respondent) × (action ≡ action_submit_answer))

only_submit :
    (action : String)
    → member action (action_submit_answer ∷ []) ≡ true
    → action ≡ action_submit_answer
only_submit action h = ground (arith, eq_iff action_submit_answer action)

-- The role is none of the three.
can_other :
    (role action : String)
    → str_eq role_admin role ≡ false
    → str_eq role_creator role ≡ false
    → str_eq role_respondent role ≡ false
    → can role action ≡ false
unfolding can
can_other role action a b c = rw (a, b, c)

can_sound : (role action : String) → can role action ≡ true → IsGranted role action
unfolding can
can_sound role action h = elim (Bool-cases (str_eq role_admin role)) [
  | inl a ↦
      subst (λ r. can r action ≡ true → IsGranted r action) ((eq_iff _ _).0 a) (λ k. inl (refl, k))
        h
  | inr a ↦ elim (Bool-cases (str_eq role_creator role)) [
    | inl b ↦
        subst (λ r. can r action ≡ true → IsGranted r action) ((eq_iff _ _).0 b)
          (λ k. inr (inl (refl, k))) h
    | inr b ↦ elim (Bool-cases (str_eq role_respondent role)) [
      | inl c ↦
          subst (λ r. can r action ≡ true → IsGranted r action) ((eq_iff _ _).0 c)
            (λ k. inr (inr (refl, only_submit action k))) h
      | inr c ↦ absurd (cc (can_other role action a b c))
    ]
  ]
]

can_complete : (role action : String) → IsGranted role action → can role action ≡ true
unfolding can
can_complete role action (inl (e, h)) = rw e h
can_complete role action (inr (inl (e, h))) = rw e h
can_complete role action (inr (inr (e, h))) = rw (e, h) refl

-- The administrator may do every listed action, a creator the nine survey actions, a respondent may
-- submit answers, and nothing else is allowed to anybody.
can_iff : (role action : String) → (can role action ≡ true) ↔ IsGranted role action
can_iff role action = (can_sound role action, can_complete role action)
