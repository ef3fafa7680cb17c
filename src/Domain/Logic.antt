-- ===== src/Domain/Logic.antt =====
-- internal/domain/logic.go: when a condition holds, and which questions the rules hide.
pub mod Visibility
use wenjuandiaocha_backend.Base.{
  Bool, true, false, not, ◌&&◌, Option, none, some, List, [], ◌∷◌, String, str_eq, lookup, is_empty,
  any, every, if◌then◌else◌, insert, remove,
}
use wenjuandiaocha_backend.Platform.{Platform}
use wenjuandiaocha_backend.Domain.Value
use wenjuandiaocha_backend.Domain.Value.{
  Value, null, bool, num, int, int64, str, arr, obj, items, fields, get_or_null,
}
use wenjuandiaocha_backend.Domain.Schema.{
  Condition, Combinator, LogicRule, RuleAction, RuleActionType, Answers, ConditionOp,
}

module _ (pf : Platform) where
  -- Not nil and not the empty text. An empty list or object counts as an answer.
  unfoldable pub is_answered : Value pf.F → Bool
  is_answered null = false
  is_answered (str s) = not (str_eq s "")
  is_answered _ = true

  -- The own field `value` of an object, and any other value as it is.
  unfoldable pub pick_elem_value : Value pf.F → Value pf.F
  pick_elem_value (obj fs) = elim (lookup "value" (fields fs)) [ none ↦ obj fs | some v ↦ v ]
  pick_elem_value v = v

  -- m[sub_id] of an object, and nil of any other value.
  unfoldable pub sub_value : Value pf.F → String → Value pf.F
  sub_value (obj fs) sub_id = get_or_null sub_id (fields fs)
  sub_value _ sub_id = null

  unfoldable pub pick_comparable : Value pf.F → String → Value pf.F
  unfolding sub_value pick_elem_value
  pick_comparable raw sub_id = elim (str_eq sub_id "") [
    | false ↦ sub_value raw sub_id
    | true ↦ pick_elem_value raw
  ]

  unfoldable pub to_float : Value pf.F → Option pf.F
  to_float (num n) = some n
  to_float (int n) = some (pf.of_int n)
  to_float (int64 n) = some (pf.of_int n)
  to_float _ = none

  unfoldable pub js_equal : Value pf.F → Value pf.F → Bool
  unfolding to_float
  js_equal (str a) (str b) = str_eq a b
  js_equal (num a) b = elim (to_float b) [ none ↦ false | some n ↦ pf.float_eq a n ]
  js_equal (bool true) (bool b) = b
  js_equal (bool false) (bool b) = not b
  js_equal _ _ = false

  -- The loop of the operator `includes`.
  unfoldable pub includes : Value pf.F → Value pf.F → Bool
  unfolding js_equal pick_elem_value
  includes (arr vs) wanted = any (λ item. js_equal (pick_elem_value item) wanted) (items vs)
  includes _ wanted = false

  -- a < b of two numbers: `a` is a float64 itself, `b` any number.
  unfoldable pub less : Value pf.F → Value pf.F → Bool
  unfolding to_float
  less (num a) b = elim (to_float b) [ none ↦ false | some n ↦ pf.float_lt a n ]
  less _ b = false

  unfoldable pub greater : Value pf.F → Value pf.F → Bool
  unfolding to_float
  greater (num a) b = elim (to_float b) [ none ↦ false | some n ↦ pf.float_lt n a ]
  greater _ b = false

  -- The switch of evalCondition over the picked answer `a`.
  unfoldable pub eval_op : ConditionOp → Value pf.F → Value pf.F → Bool
  unfolding is_answered js_equal includes less greater
  eval_op ConditionOp.answered a wanted = is_answered a
  eval_op ConditionOp.empty a wanted = not (is_answered a)
  eval_op ConditionOp.eq a wanted = js_equal a wanted
  eval_op ConditionOp.ne a wanted = not (js_equal a wanted)
  eval_op ConditionOp.includes a wanted = includes a wanted
  eval_op ConditionOp.gt a wanted = greater a wanted
  eval_op ConditionOp.lt a wanted = less a wanted
  eval_op (ConditionOp.other _) a wanted = false

  unfoldable pub eval_condition : Condition pf → Answers pf → Bool
  unfolding eval_op pick_comparable
  eval_condition c answers =
      eval_op c.op (pick_comparable (get_or_null c.qid answers) c.sub_id) c.value

  -- No condition at all never triggers. Any combinator but AND is read as OR.
  unfoldable pub eval_conditions : List (Condition pf) → Combinator → Answers pf → Bool
  unfolding eval_condition
  eval_conditions [] comb answers = false
  eval_conditions (c ∷ cs) Combinator.and answers = every (λ d. eval_condition d answers) (c ∷ cs)
  eval_conditions (c ∷ cs) _ answers = any (λ d. eval_condition d answers) (c ∷ cs)

  unfoldable pub triggered : LogicRule pf → Answers pf → Bool
  unfolding eval_conditions
  triggered r answers = eval_conditions r.conditions r.combinator answers

  -- The two sets that the loop of Evaluate builds: hidden and shown by force.
  pub record Marks : Type 0 where
    pub hidden : List String
    pub forced_show : List String

  unfoldable pub apply_action : RuleAction → Marks → Marks
  apply_action act m = elim act.type [
    | RuleActionType.hide ↦ record m { hidden = insert act.target m.hidden }
    | RuleActionType.show ↦ record m { forced_show = insert act.target m.forced_show }
    | _ ↦ m
  ]

  -- One round of the loop over the rules.
  unfoldable pub mark_rule : LogicRule pf → Answers pf → Marks → Marks
  mark_rule r answers m = if triggered r answers then apply_action r.action m else m

  -- The loop over the rules, in their order.
  unfoldable pub mark_rules : List (LogicRule pf) → Answers pf → Marks → Marks
  mark_rules [] answers m = m
  mark_rules (r ∷ rs) answers m = mark_rules rs answers (mark_rule r answers m)

  -- The last loop: what is shown by force is taken out of the hidden set.
  unfoldable pub remove_all : List String → List String → List String
  remove_all [] hidden = hidden
  remove_all (id ∷ ids) hidden = remove_all ids (remove id hidden)

  -- The hidden questions. Evaluate's result has no other field.
  unfoldable pub evaluate : List (LogicRule pf) → Answers pf → List String
  evaluate rules answers =
      let m = mark_rules rules answers (record { hidden = []; forced_show = [] }) in
      remove_all m.forced_show m.hidden
