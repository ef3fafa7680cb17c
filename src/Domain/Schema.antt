-- ===== src/Domain/Schema.antt =====
-- internal/domain/schema.go: surveys, questions, logic rules, answers, normalised rows.
-- An enumeration of texts keeps any other text as `other`.
use wenjuandiaocha_backend.Base.{ℤ, Bool, String, List, [], Option, none, some}
use wenjuandiaocha_backend.Platform.{Platform}
use wenjuandiaocha_backend.Domain.Value.{Value}

pub data SurveyType : Type 0 where
  survey exam vote signup assess review360 : SurveyType
  other : String → SurveyType

pub record Question (pf : Platform) : Type 0 where
  pub id : String
  pub type : String
  pub title : String
  pub hint : String
  pub required : Bool
  pub props : pf.Raw

pub data ConditionOp : Type 0 where
  eq ne includes gt lt answered empty : ConditionOp
  other : String → ConditionOp

-- An empty `sub_id` refers to the whole answer.
pub record Condition (pf : Platform) : Type 0 where
  pub qid : String
  pub sub_id : String
  pub op : ConditionOp
  pub value : Value pf.F

pub data Combinator : Type 0 where
  and or : Combinator
  other : String → Combinator

pub data RuleActionType : Type 0 where
  show hide jump end pipe : RuleActionType
  other : String → RuleActionType

pub record RuleAction : Type 0 where
  pub type : RuleActionType
  pub target : String

pub record LogicRule (pf : Platform) : Type 0 where
  pub id : String
  pub conditions : List (Condition pf)
  pub combinator : Combinator
  pub action : RuleAction

-- The nil slices that a missing `questions` or `rules` leaves are `none`.
pub record SurveySchema (pf : Platform) : Type 0 where
  pub id : String
  pub type : SurveyType
  pub title : String
  pub version : ℤ
  pub questions : Option (List (Question pf))
  pub rules : Option (List (LogicRule pf))
  pub welcome : pf.Raw

abbrev pub Answers : Platform → Type 0
Answers pf = List (String × Value pf.F)

-- The value of a row is a text or a number.
pub data Scalar (pf : Platform) : Type 0 where
  text : String → Scalar pf
  number : pf.F → Scalar pf

pub record NormalizedRow (pf : Platform) : Type 0 where
  pub qid : String
  pub sub_id : String
  pub value : Scalar pf

-- The elements that a `range` over a slice meets: a nil slice has none.
abbrev pub slice {ℓ} : {A : Type ℓ} → Option (List A) → List A
slice none = []
slice (some xs) = xs
