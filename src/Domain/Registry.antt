-- ===== src/Domain/Registry.antt =====
-- internal/domain/registry.go: the question types by name. Its lock makes each operation atomic, so
-- the table is passed as a value.
use wenjuandiaocha_backend.Base.{String, List, Option, lookup, assign}
use wenjuandiaocha_backend.Platform.{Platform}
use wenjuandiaocha_backend.Domain.Value.{Value}
use wenjuandiaocha_backend.Domain.Schema.{Question, NormalizedRow}

-- The interface Handler. An empty message of `validate` means that the answer passes.
pub record Handler (pf : Platform) : Type 0 where
  pub type : String
  pub validate : Question pf → Value pf.F → String
  pub normalize : Question pf → Value pf.F → List (NormalizedRow pf)

abbrev pub Registry : Platform → Type 0
Registry pf = List (String × Handler pf)

module _ (pf : Platform) where
  -- A second handler of one type replaces the first.
  unfoldable pub register_handler : Registry pf → Handler pf → Registry pf
  register_handler reg h = assign h.type h reg

  unfoldable pub get_handler : Registry pf → String → Option (Handler pf)
  get_handler reg t = lookup t reg
