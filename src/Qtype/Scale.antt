-- ===== src/Qtype/Scale.antt =====
-- internal/domain/qtype/scale.go: a whole number in a range.
use wenjuandiaocha_backend.Base.{
  Bool, not, ◌||◌, String, Option, none, some, List, [], ◌∷◌, pos, show_ℤ, ◌⊹◌, if◌then◌else◌,
}
use wenjuandiaocha_backend.Platform.{Platform}
use wenjuandiaocha_backend.Domain.Value.{Value, num}
use wenjuandiaocha_backend.Domain.Schema.{Question, NormalizedRow, Scalar}
use wenjuandiaocha_backend.Domain.Registry.{Handler}
use wenjuandiaocha_backend.Qtype.Text.{unmarshal_props, whole_row}

module _ (pf : Platform) where
  -- *p, or the default where p is nil.
  abbrev pub or_default {ℓ} : {A : Type ℓ} → Option A → A → A
  or_default none d = d
  or_default (some a) d = a

  unfoldable pub num_str : pf.F → String
  num_str f = if pf.float_eq f (pf.trunc f) then show_ℤ (pf.to_int64 f) else pf.show_float f

  -- The ends of the range: 1 and 5 where the props give none.
  unfoldable pub read_range : Question pf → pf.F × pf.F
  read_range q =
      let p = unmarshal_props pf (record { min = none; max = none }) pf.scale_props q.props in
      (or_default p.min (pf.of_int (pos 1)), or_default p.max (pf.of_int (pos 5)))

  -- n < min || n > max
  abbrev pub outside : pf.F × pf.F → pf.F → Bool
  outside (lo, hi) n = pf.float_lt n lo || pf.float_lt hi n

  unfoldable pub range_text : String → pf.F × pf.F → String
  range_text subject (lo, hi) = subject ⊹ "应在 " ⊹ num_str lo ⊹ " 到 " ⊹ num_str hi ⊹ " 之间"

  unfoldable pub scale_validate : Question pf → Value pf.F → String
  scale_validate q (num n) =
      if not (pf.float_eq n (pf.trunc n))
      then "答案应为整数刻度值"
      else if outside (read_range q) n
      then range_text "刻度值" (read_range q)
      else ""
  scale_validate q _ = "答案应为整数刻度值"

  unfoldable pub scale_normalize : Question pf → Value pf.F → List (NormalizedRow pf)
  scale_normalize q (num n) = whole_row pf q (Scalar.number n) ∷ []
  scale_normalize q _ = []

  abbrev pub scale : Handler pf
  scale = record { type = "scale"; validate = scale_validate; normalize = scale_normalize }
