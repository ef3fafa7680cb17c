-- ===== src/Base/Messages.antt =====
-- A loop that may return from the function around it, and messages one after the other.
use Prim.Native.String.{String}
use mathlib.Core.Path.{◌≡◌}
use mathlib.Core.Logic.{◌↔◌}
use native.Mathlib.Omega.{arith}
use text.Mathlib.Text.{◌==◌ as str_eq}
use text.Mathlib.TextEquality.{eq_iff}
use wenjuandiaocha_backend.Base.Tests.{if◌then◌else◌}

-- `returned m`: the function returns the message `m`. `finished s`: the loop ends with state `s`.
pub data Loop {ℓ} (S : Type ℓ) : Type ℓ where
  returned : String → Loop S
  finished : S → Loop S

-- The first of two messages that is not empty.
abbrev pub or_else : String → String → String
or_else m n = if str_eq m "" then n else m

pub or_else-nil_iff : (m n : String) → (or_else m n ≡ "") ↔ ((m ≡ "") × (n ≡ ""))
or_else-nil_iff m n = ground (arith, eq_iff m "")
