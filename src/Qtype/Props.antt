-- ===== src/Qtype/Props.antt =====
-- The structs that the handlers of internal/domain/qtype decode a question's props into.
-- A pointer field is an `Option`, a slice a list, and a float64 a value of the type `F`.
use wenjuandiaocha_backend.Base.{ℤ, Bool, Option, List, String}

-- props.go: option, row
pub record Choice : Type 0 where
  pub value : String
  pub label : String

pub record Row : Type 0 where
  pub id : String
  pub label : String

-- choice.go: the anonymous struct behind `fill`
pub record Fill : Type 0 where
  pub enabled : Bool
  pub required : Bool

pub record SingleOption : Type 0 where
  pub value : String
  pub label : String
  pub fill : Option Fill

pub record SingleChoiceProps : Type 0 where
  pub options : List SingleOption

pub record MultiOption : Type 0 where
  pub value : String
  pub label : String
  pub fill : Option Fill

pub record MultiChoiceProps : Type 0 where
  pub options : List MultiOption
  pub min : Option ℤ
  pub max : Option ℤ

-- dropdown.go
pub record DropdownProps : Type 0 where
  pub options : List Choice
  pub default_value : Option String

-- matrix.go
pub record MatrixSingleProps : Type 0 where
  pub rows : List Row
  pub options : List Choice

pub record MatrixMultiProps : Type 0 where
  pub rows : List Row
  pub options : List Choice
  pub min : Option ℤ
  pub max : Option ℤ

pub record ScaleOption (F : Type 0) : Type 0 where
  pub value : String
  pub label : String
  pub score : Option F

pub record MatrixScaleProps (F : Type 0) : Type 0 where
  pub rows : List Row
  pub options : List (ScaleOption F)

pub record MatrixFillProps : Type 0 where
  pub rows : List Row
  pub max_length : Option ℤ

pub record MatrixSliderProps (F : Type 0) : Type 0 where
  pub rows : List Row
  pub min : Option F
  pub max : Option F
  pub step : Option F

-- multifill.go
pub record MultiFillBlank : Type 0 where
  pub id : String
  pub label : String
  pub format : String
  pub min_length : Option ℤ
  pub max_length : Option ℤ

pub record MultiFillProps : Type 0 where
  pub blanks : List MultiFillBlank

-- scale.go
pub record ScaleProps (F : Type 0) : Type 0 where
  pub min : Option F
  pub max : Option F

-- text.go
pub record TextInputProps : Type 0 where
  pub format : String
  pub min_length : Option ℤ
  pub max_length : Option ℤ
  pub default_value : Option String

pub record TextareaProps : Type 0 where
  pub min_length : Option ℤ
  pub max_length : Option ℤ
  pub default_value : Option String
