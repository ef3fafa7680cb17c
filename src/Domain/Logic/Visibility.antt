-- ===== src/Domain/Logic/Visibility.antt =====
-- Which questions `Evaluate` hides, stated without its loop.
use wenjuandiaocha_backend.Base.{
  Bool, false, not, ◌&&◌, ◌||◌, ◌≡◌, refl, List, [], ◌∷◌, String, str_eq, arith, any, member,
  remove, member-insert, member-remove,
}
use wenjuandiaocha_backend.Platform.{Platform}
use wenjuandiaocha_backend.Domain.Schema.{LogicRule, RuleAction, RuleActionType, Answers}
use wenjuandiaocha_backend.Domain.Logic.{
  Marks, triggered, apply_action, mark_rule, mark_rules, remove_all, evaluate,
}

-- Whether an action hides, or shows, the question `id`.
abbrev pub hides : String → RuleAction → Bool
hides id act = elim act.type [ RuleActionType.hide ↦ str_eq act.target id | _ ↦ false ]

abbrev pub shows : String → RuleAction → Bool
shows id act = elim act.type [ RuleActionType.show ↦ str_eq act.target id | _ ↦ false ]

module _ (pf : Platform) (answers : Answers pf) (id : String) where
  -- Some triggered rule hides, or shows, the question.
  abbrev pub some_rule_hides : List (LogicRule pf) → Bool
  some_rule_hides = any (λ r. triggered pf r answers && hides id r.action)

  abbrev pub some_rule_shows : List (LogicRule pf) → Bool
  some_rule_shows = any (λ r. triggered pf r answers && shows id r.action)

  mark_rule-hidden :
      (r : LogicRule pf) (m : Marks pf)
      → member id (mark_rule pf r answers m).hidden
        ≡ ((triggered pf r answers && hides id r.action) || member id m.hidden)
  unfolding mark_rule apply_action
  mark_rule-hidden r m = ground (arith, member-insert r.action.target id m.hidden)

  mark_rule-forced_show :
      (r : LogicRule pf) (m : Marks pf)
      → member id (mark_rule pf r answers m).forced_show
        ≡ ((triggered pf r answers && shows id r.action) || member id m.forced_show)
  unfolding mark_rule apply_action
  mark_rule-forced_show r m = ground (arith, member-insert r.action.target id m.forced_show)

  mark_rules-hidden :
      (rs : List (LogicRule pf)) (m : Marks pf)
      → member id (mark_rules pf rs answers m).hidden ≡ (some_rule_hides rs || member id m.hidden)
  unfolding mark_rules
  mark_rules-hidden [] m = refl
  mark_rules-hidden (r ∷ rs) m =
      ground (arith, mark_rules-hidden rs (mark_rule pf r answers m), mark_rule-hidden r m)

  mark_rules-forced_show :
      (rs : List (LogicRule pf)) (m : Marks pf)
      → member id (mark_rules pf rs answers m).forced_show
        ≡ (some_rule_shows rs || member id m.forced_show)
  unfolding mark_rules
  mark_rules-forced_show [] m = refl
  mark_rules-forced_show (r ∷ rs) m =
      ground
        (arith, mark_rules-forced_show rs (mark_rule pf r answers m), mark_rule-forced_show r m)

  member-remove_all :
      (ids hidden : List String)
      → member id (remove_all pf ids hidden) ≡ (member id hidden && not (member id ids))
  unfolding remove_all
  member-remove_all [] hidden = ground arith
  member-remove_all (i ∷ ids) hidden =
      ground (arith, member-remove_all ids (remove i hidden), member-remove i id hidden)

  -- A question is hidden exactly when some triggered rule hides it and no triggered rule shows it,
  -- whatever the order of the rules.
  pub member-evaluate :
      (rules : List (LogicRule pf))
      → member id (evaluate pf rules answers)
        ≡ (some_rule_hides rules && not (some_rule_shows rules))
  unfolding evaluate
  member-evaluate rules = ground (
    arith,
    mark_rules-hidden rules (record { hidden = []; forced_show = [] }),
    mark_rules-forced_show rules (record { hidden = []; forced_show = [] }),
    member-remove_all
        (mark_rules pf rules answers (record { hidden = []; forced_show = [] })).forced_show
        (mark_rules pf rules answers (record { hidden = []; forced_show = [] })).hidden,
  )
