-- ===== src/Samples.antt =====
-- A small world for tests and witnesses: whole numbers for floats, named documents for JSON texts, one
-- survey with a choice, a matrix and a slider, its owner, an administrator and a session.
pub mod Runs
pub mod Witnesses
pub mod Server
pub mod Served
pub mod Ended
pub mod Overlapping
use wenjuandiaocha_backend.Base.{
  ℕ, ℤ, pos, Bool, true, false, String, Option, none, some, List, [], ◌∷◌, eq_ℤ, ltb_ℤ, show_ℤ,
}
use wenjuandiaocha_backend.Platform.{Platform}
use wenjuandiaocha_backend.Qtype.Props.{
  SingleChoiceProps, MultiChoiceProps, DropdownProps, MatrixSingleProps, MatrixMultiProps,
  MatrixScaleProps, MatrixFillProps, MatrixSliderProps, MultiFillProps, ScaleProps, TextInputProps,
  TextareaProps,
}
use wenjuandiaocha_backend.Qtype.Register.{register_all}
use wenjuandiaocha_backend.Domain.Value.{Value, str, num, arr, obj, cons, nil, field, end}
use wenjuandiaocha_backend.Domain.Schema.{
  SurveyType, Question, ConditionOp, Condition, Combinator, RuleActionType, RuleAction, LogicRule,
  SurveySchema, Answers,
}
use wenjuandiaocha_backend.Domain.Registry.{Registry}
use wenjuandiaocha_backend.Dao.Tables.{User, Session, SurveyMeta, Version, Db}
use wenjuandiaocha_backend.Dao.Exec.{World}
use wenjuandiaocha_backend.Dao.Json.{Object, nil_map, entries, Json}
use wenjuandiaocha_backend.Service.Metadata.{Metadata}
use wenjuandiaocha_backend.Service.Submission.{SubmitReq}
use wenjuandiaocha_backend.Service.Survey.Listing.{ListReq}

pub data Doc : Type 0 where
  no_bytes picks grid slides survey_doc numbered_doc answers_doc meta_doc : Doc

abbrev pub has_no_bytes : Doc → Bool
has_no_bytes no_bytes = true
has_no_bytes _ = false

abbrev pub picks_of : Doc → MultiChoiceProps
picks_of picks = record {
  options =
      record { value = "a"; label = "A"; fill = none }
      ∷ record {
        value = "b";
        label = "B";
        fill = some (record { enabled = true; required = true });
      }
      ∷ [];
  min = some (pos 1);
  max = some (pos 2);
}
picks_of _ = record { options = []; min = none; max = none }

abbrev pub grid_of : Doc → MatrixSingleProps
grid_of grid = record {
  rows = record { id = "r1"; label = "1" } ∷ record { id = "r2"; label = "2" } ∷ [];
  options = record { value = "x"; label = "X" } ∷ record { value = "y"; label = "Y" } ∷ [];
}
grid_of _ = record { rows = []; options = [] }

abbrev pub slides_of : Doc → MatrixSliderProps ℤ
slides_of slides = record {
  rows = record { id = "r1"; label = "1" } ∷ [];
  min = none;
  max = some (pos 10);
  step = none;
}
slides_of _ = record { rows = []; min = none; max = none; step = none }

abbrev pub fills_of : Doc → MatrixFillProps
fills_of grid = record { rows = (grid_of grid).rows; max_length = some (pos 5) }
fills_of _ = record { rows = []; max_length = none }

abbrev pub choices_of : Doc → MatrixMultiProps
choices_of grid = record {
  rows = (grid_of grid).rows;
  options = (grid_of grid).options;
  min = none;
  max = some (pos 2);
}
choices_of _ = record { rows = []; options = []; min = none; max = none }

abbrev pub sample_pf : Platform
sample_pf = record {
  F = ℤ;
  float_eq = eq_ℤ;
  float_lt = ltb_ℤ;
  trunc = λ f. f;
  of_int = λ n. n;
  to_int64 = λ f. f;
  show_float = show_ℤ;
  Raw = Doc;
  is_absent = has_no_bytes;
  single_choice_props = λ d. record { options = [] };
  multi_choice_props = picks_of;
  dropdown_props = λ d. record { options = []; default_value = none };
  matrix_single_props = grid_of;
  matrix_multi_props = choices_of;
  matrix_scale_props = λ d. record { rows = []; options = [] };
  matrix_fill_props = fills_of;
  matrix_slider_props = slides_of;
  multi_fill_props = λ d. record { blanks = [] };
  scale_props = λ d. record { min = none; max = none };
  text_input_props =
      λ d. record { format = ""; min_length = none; max_length = none; default_value = none };
  textarea_props = λ d. record { min_length = none; max_length = none; default_value = none };
}

abbrev pub sample_registry : Registry sample_pf
sample_registry = register_all sample_pf

abbrev pub question : (id type : String) → Doc → Question sample_pf
question id type props = record {
  id = id;
  type = type;
  title = "";
  hint = "";
  required = true;
  props = props;
}

abbrev pub sample_rules : List (LogicRule sample_pf)
sample_rules =
    record {
      id = "l1";
      conditions =
          record { qid = "q1"; sub_id = ""; op = ConditionOp.includes; value = str "b" } ∷ [];
      combinator = Combinator.and;
      action = record { type = RuleActionType.hide; target = "q2" };
    }
    ∷ []

abbrev pub sample_schema : SurveySchema sample_pf
sample_schema = record {
  id = "s1";
  type = SurveyType.survey;
  title = "Lunch";
  version = pos 1;
  questions = some (
      question "q1" "multi-choice" picks
      ∷ question "q2" "matrix-single" grid
      ∷ question "q3" "matrix-slider" slides
      ∷ []);
  rules = some sample_rules;
  welcome = no_bytes;
}

abbrev pub schema_in : Doc → Option (SurveySchema sample_pf)
schema_in survey_doc = some sample_schema
schema_in numbered_doc = some sample_schema
schema_in _ = none

abbrev pub object_in : Doc → Option (Object sample_pf)
object_in survey_doc = some (entries (("title", str "Lunch") ∷ []))
object_in numbered_doc = some (entries (("title", str "Dinner") ∷ []))
object_in no_bytes = none
object_in _ = some nil_map

abbrev pub sample_json : Json sample_pf
sample_json = record {
  unmarshal_schema = schema_in;
  marshal_schema = λ s. survey_doc;
  unmarshal_object = object_in;
  marshal_object = λ m. numbered_doc;
  marshal_answers = λ a. answers_doc;
  marshal_meta = λ ip agent. meta_doc;
  jsonb = λ d. some d;
  deep_equal = λ a b. false;
}

abbrev pub survey_row : (id owner status : String) → Option ℤ → SurveyMeta sample_pf
survey_row id owner status version = record {
  survey_id = id;
  owner_id = owner;
  type = "survey";
  title = "Lunch";
  status = status;
  draft_schema = survey_doc;
  published_version = version;
  answer_access = "anonymous";
  display_mode = "single";
  updated_at = 1;
}

abbrev pub sample_world : World sample_pf
sample_world = record {
  db = record {
    users =
        record {
          user_id = "u1";
          account = "root";
          password_hash = "h1";
          name = "Root";
          role = "admin";
        }
        ∷ record {
          user_id = "u2";
          account = "ann";
          password_hash = "h2";
          name = "Ann";
          role = "creator";
        }
        ∷ [];
    sessions = record { token = "t2"; user_id = "u2"; expires_at = 100 } ∷ [];
    surveys =
        survey_row "s1" "u2" "live" (some (pos 1))
        ∷ survey_row "s2" "u2" "draft" none
        ∷ survey_row "s3" "u2" "closed" (some (pos 1))
        ∷ survey_row "s4" "u1" "draft" none
        ∷ [];
    versions =
        record { survey_id = "s1"; version = pos 1; schema = numbered_doc }
        ∷ record { survey_id = "s3"; version = pos 1; schema = numbered_doc }
        ∷ [];
    responses = [];
    answer_rows = [];
  };
  now = 50;
  faults = [];
}

abbrev pub visitor : Metadata
visitor = record {
  user_id = "";
  role = "";
  token = "";
  client_ip = "10.0.0.1";
  user_agent = "curl";
}

abbrev pub ann : Metadata
ann = record {
  user_id = "u2";
  role = "creator";
  token = "t2";
  client_ip = "10.0.0.2";
  user_agent = "curl";
}

-- An element of a multiple choice with a text of its own.
abbrev pub with_text : (value text : String) → Value ℤ
with_text value text = obj (field "value" (str value) (field "text" (str text) end))

-- Option b hides the matrix, so its answer is dropped.
abbrev pub sample_answers : Answers sample_pf
sample_answers =
    ("q1", arr (cons (str "a") (cons (with_text "b" "soup") nil)))
    ∷ ("q2", obj (field "r1" (str "x") end))
    ∷ ("q3", obj (field "r1" (num (pos 7)) end))
    ∷ []

abbrev pub sample_request : SubmitReq sample_pf
sample_request = record { survey_id = "s1"; answers = sample_answers; version = pos 0 }

abbrev pub every_survey : ListReq
every_survey = record { q = ""; status = ""; type = ""; limit = pos 500; page = pos 1 }
