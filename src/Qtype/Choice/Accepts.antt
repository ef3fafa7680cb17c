-- ===== src/Qtype/Choice/Accepts.antt =====
-- Which answers a multiple-choice question accepts.
use mathlib.Core.Path.{subst}
use wenjuandiaocha_backend.Base.{
  ℤ, pos, suc, ◌+◌, Bool, true, false, ◌&&◌, String, ◌==◌, Option, none, some, List, [], ◌∷◌,
  length, is_empty, lookup, member, insert, leb, sprintf_d-ne, ne-nil, Loop, returned, finished,
  ◌≡◌, ◌≢◌, refl, sym, ap, ◌∙◌, ◌↔◌, Bool-cases, Option-cases, inl, inr, arith,
}
use wenjuandiaocha_backend.Platform.{Platform}
use wenjuandiaocha_backend.Domain.Value.{Value, arr, items}
use wenjuandiaocha_backend.Domain.Schema.{Question}
use wenjuandiaocha_backend.Qtype.Props.{MultiOption, MultiChoiceProps}
use wenjuandiaocha_backend.Qtype.Format.{above, below}
use wenjuandiaocha_backend.Qtype.Choice.{
  lacks_text, options_by_value, read_multi_elem, multi_props, pick_option, elem_round, next_round,
  elem_loop, count_message, after_loop, multi_choice_validate,
}

returned-injective :
    {S : Type 0} {a b : String} → ◌≡◌ {A = Loop S} (returned a) (returned b) → a ≡ b
returned-injective h = cc

finished-injective : {S : Type 0} {a b : S} → finished a ≡ finished b → a ≡ b
finished-injective h = cc

module _ (pf : Platform) where
  -- Each element names an option that no earlier one names, with its text where the option asks for
  -- one.
  abbrev pub PicksNew : List (String × MultiOption) → List String → List (Value pf.F) → Type 0
  PicksNew opt_of seen [] = Unit
  PicksNew opt_of seen (el ∷ els) =
      (value : String) × (text : String) × (o : MultiOption) × (read_multi_elem pf el
        ≡ some (value, text))
      × (lookup value opt_of ≡ some o)
      × (lacks_text o.fill text ≡ false)
      × (member value seen ≡ false)
      × PicksNew opt_of (value ∷ seen) els

  module _ (opt_of : List (String × MultiOption)) where
    PicksNew-elem_loop :
        (els : List (Value pf.F)) (seen : List String)
        → PicksNew opt_of seen els
        → (s : List String) × (elem_loop pf opt_of els seen ≡ finished s)
          × (length s ≡ length seen + length els)
    unfolding elem_loop elem_round
    PicksNew-elem_loop [] seen h = (seen, refl, omega arith)
    PicksNew-elem_loop (el ∷ els) seen (value, text, o, read, known, filled, new, rest) =
        let (s, ends, size) = PicksNew-elem_loop els (value ∷ seen) rest in
        (s, rw (read, known, filled, new) ends, omega (arith, size))

    -- A round that goes on has read an option, and has put its value into the set.
    round-finished :
        (o : Option (String × String)) (seen s : List String)
        → elem_round pf opt_of o seen ≡ finished s
        → (value : String) × (text : String) × (m : MultiOption) × (o ≡ some (value, text))
          × (lookup value opt_of ≡ some m)
          × (lacks_text m.fill text ≡ false)
          × (s ≡ insert value seen)
    unfolding elem_round
    round-finished none seen s h = cc h
    round-finished (some (value, text)) seen s h = elim (Option-cases (lookup value opt_of)) [
      | inl unknown ↦ cc (rw unknown at h)
      | inr (m, known) ↦ elim (Bool-cases (lacks_text m.fill text)) [
        | inl lacks ↦ cc (rw (known, lacks) at h)
        | inr filled ↦ (
          value,
          text,
          m,
          refl,
          known,
          filled,
          finished-injective (sym (rw (known, filled) at h)),
        )
      ]
    ]

    next_round-finished :
        (r : Loop (List String)) (k : List String → Loop (List String)) (s : List String)
        → next_round pf r k ≡ finished s
        → (seen : List String) × (r ≡ finished seen) × (k seen ≡ finished s)
    next_round-finished (returned m) k s h = cc h
    next_round-finished (finished seen) k s h = (seen, refl, h)

    -- The loop ends with at most one value for each element, and with that many only if every
    -- element picks a new option.
    elem_loop-finished :
        (els : List (Value pf.F)) (seen s : List String)
        → elem_loop pf opt_of els seen ≡ finished s
        → (leb (length s) (length seen + length els) ≡ true)
          × (length s ≡ length seen + length els → PicksNew opt_of seen els)
    unfolding elem_loop
    elem_loop-finished [] seen s h =
        let e = ap (λ (t : List String). length t) (finished-injective h) in
        (ground (arith, e), λ size. tt)
    elem_loop-finished (el ∷ els) seen s h =
        let (seen', round, rest) =
          next_round-finished (elem_round pf opt_of (read_multi_elem pf el) seen) _ s h in
        let (value, text, o, read, known, filled, e) =
          round-finished (read_multi_elem pf el) seen seen' round in
        let (most, new) = elem_loop-finished els seen' s rest in
        elim (Bool-cases (member value seen)) [
          | inl old ↦
              let size : length seen' ≡ length seen = rw (e, old) refl in
              (ground (arith, most, size), λ full. ground (arith, most, size, full))
          | inr fresh ↦
              let size : length seen' ≡ suc (length seen) = rw (e, fresh) refl in
              (
                ground (arith, most, size),
                λ full. (
                  value,
                  text,
                  o,
                  read,
                  known,
                  filled,
                  fresh,
                  subst (λ t. PicksNew opt_of t els) (e ∙ rw fresh refl)
                      (new (omega (arith, size, full))),
                ),
              )
        ]

  -- What a multiple-choice question asks of its answer.
  abbrev pub Accepts : Question pf → Value pf.F → Type 0
  Accepts q (arr vs) =
      ((q.required && is_empty (items vs)) ≡ false)
      × PicksNew (options_by_value [] (multi_props pf q).options) [] (items vs)
      × (below (pos (length (items vs))) (multi_props pf q).min ≡ false)
      × (above (pos (length (items vs))) (multi_props pf q).max ≡ false)
  Accepts q _ = ⊥

  count_message-nil :
      (p : MultiChoiceProps) (n : ℤ) (distinct : Bool)
      → count_message pf p n distinct ≡ ""
      → (distinct ≡ true) × (below n p.min ≡ false) × (above n p.max ≡ false)
  unfolding count_message
  count_message-nil p n true h = elim (Bool-cases (below n p.min)) [
    | inl few ↦ absurd (sprintf_d-ne _ _ _ (ne-nil "至少选择 " refl) (rw few at h))
    | inr enough ↦ elim (Bool-cases (above n p.max)) [
      | inl many ↦ absurd (sprintf_d-ne _ _ _ (ne-nil "最多选择 " refl) (rw (enough, many) at h))
      | inr fits ↦ (refl, enough, fits)
    ]
  ]
  count_message-nil p n false h = absurd (ne-nil "选项不可重复" refl h)

  picked_round :
      (r : Loop (List String)) {m : String}
      → ((n : String) → r ≡ returned n → n ≢ "")
      → (k : List String → Loop (List String)) → next_round pf r k ≡ returned m
      → ((seen' : List String) → k seen' ≡ returned m → m ≢ "")
      → m ≢ ""
  picked_round (returned n) not_empty k h rest = λ e. not_empty n refl (returned-injective h ∙ e)
  picked_round (finished s) not_empty k h rest = rest s h

  pick_option-ne :
      (o : Option MultiOption) (value text : String) (seen : List String) (m : String)
      → pick_option pf o value text seen ≡ returned m
      → m ≢ ""
  pick_option-ne none value text seen m h = λ e. ne-nil "包含不存在的选项" refl (returned-injective h ∙ e)
  pick_option-ne (some o) value text seen m h = elim (Bool-cases (lacks_text o.fill text)) [
    | inl lacks ↦ λ e. ne-nil "请填写补充内容" refl (returned-injective (rw lacks at h) ∙ e)
    | inr filled ↦ cc (rw filled at h)
  ]

  next_round-ne :
      (opt_of : List (String × MultiOption)) (o : Option (String × String)) (seen : List String)
      (m : String) (k : List String → Loop (List String))
      → next_round pf (elem_round pf opt_of o seen) k ≡ returned m
      → ((seen' : List String) → k seen' ≡ returned m → m ≢ "")
      → m ≢ ""
  unfolding elem_round
  next_round-ne opt_of none seen m k h rest = λ e. ne-nil "包含不存在的选项" refl (returned-injective h ∙ e)
  next_round-ne opt_of (some (value, text)) seen m k h rest =
      picked_round (pick_option pf (lookup value opt_of) value text seen)
        (pick_option-ne (lookup value opt_of) value text seen) k h rest

  returned-ne :
      (els : List (Value pf.F)) (opt_of : List (String × MultiOption)) (seen : List String)
      (m : String)
      → elem_loop pf opt_of els seen ≡ returned m
      → m ≢ ""
  unfolding elem_loop
  returned-ne [] opt_of seen m h = cc h
  returned-ne (el ∷ els) opt_of seen m h =
      next_round-ne opt_of (read_multi_elem pf el) seen m (elem_loop pf opt_of els) h
        (λ seen' e. returned-ne els opt_of seen' m e)

  after_loop-nil :
      (p : MultiChoiceProps) (opt_of : List (String × MultiOption)) (vs : List (Value pf.F))
      (r : Loop (List String))
      → elem_loop pf opt_of vs [] ≡ r
      → after_loop pf p vs r ≡ ""
      → PicksNew opt_of [] vs
        × (below (pos (length vs)) p.min ≡ false)
        × (above (pos (length vs)) p.max ≡ false)
  unfolding after_loop
  after_loop-nil p opt_of vs (returned m) ends h = absurd (returned-ne vs opt_of [] m ends h)
  after_loop-nil p opt_of vs (finished s) ends h =
      let (distinct, enough, fits) =
        count_message-nil p (pos (length vs)) (length s == length vs) h in
      let (most, new) = elem_loop-finished opt_of vs [] s ends in
      (new (ground (arith, distinct)), enough, fits)

  after_finished :
      (p : MultiChoiceProps) (vs : List (Value pf.F)) (s : List String)
      → length s ≡ length vs
      → below (pos (length vs)) p.min ≡ false
      → above (pos (length vs)) p.max ≡ false
      → after_loop pf p vs (finished s) ≡ ""
  unfolding after_loop count_message
  after_finished p vs s size enough fits =
      let distinct : (length s == length vs) ≡ true = ground (arith, size) in
      rw (distinct, enough, fits) refl

  -- A multiple-choice question accepts an answer exactly if it is an array, not empty where the
  -- question is required, in which each element names an option that no earlier element names, with
  -- a text where that option demands one, and whose length is within the question's bounds.
  pub multi_choice_validate-nil_iff :
      (q : Question pf) (a : Value pf.F) → (multi_choice_validate pf q a ≡ "") ↔ Accepts q a
  unfolding multi_choice_validate
  multi_choice_validate-nil_iff q (arr vs) =
      let opt_of = options_by_value [] (multi_props pf q).options in
      elim (Bool-cases (q.required && is_empty (items vs))) [
        | inl blank ↦ (λ h. absurd (ne-nil "此题为必答" refl (rw blank at h)), λ h. cc (h.0, blank))
        | inr given ↦ (
          λ h.
              let (new, enough, fits) =
                after_loop-nil (multi_props pf q) opt_of (items vs)
                  (elem_loop pf opt_of (items vs) []) refl (rw given at h) in
              (given, new, enough, fits),
          λ (_, new, enough, fits).
              let (s, ends, size) = PicksNew-elem_loop opt_of (items vs) [] new in
              rw (given, ends)
                (after_finished (multi_props pf q) (items vs) s (ground (arith, size)) enough fits),
        )
      ]
  multi_choice_validate-nil_iff q _ = (λ h. ne-nil "答案格式应为选项数组" refl h, λ h. absurd h)
