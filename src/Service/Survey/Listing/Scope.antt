-- ===== src/Service/Survey/Listing/Scope.antt =====
-- The page that a caller gets of the list of surveys.
use mathlib.Core.Path.{subst}
use mathlib.Core.List.{reverse, reverse_aux}
use wenjuandiaocha_backend.Base.{
  ℕ, zero, suc, ℤ, pos, negsuc, ltb_ℤ, pos_part, leb, Bool, true, false, ◌&&◌, ◌||◌, String, str_eq,
  List, [], ◌∷◌, is_some, All, All-map, length, ◌≡◌, refl, sym, ap, ◌∙◌, Bool-cases, inl, inr,
  arith, eq_iff,
}
use wenjuandiaocha_backend.Platform.{Platform}
use wenjuandiaocha_backend.Rbac.{is_admin}
use wenjuandiaocha_backend.Dao.Tables.{SurveyMeta}
use wenjuandiaocha_backend.Dao.Exec.{ok, World, query}
use wenjuandiaocha_backend.Dao.Exec.Laws.{>>=-ok, pure-ok, query-ok, ok-injective}
use wenjuandiaocha_backend.Dao.Store.{
  SurveyListParams, keep, take, drop, is_listed, page_of, list_where, list_surveys_by_owner,
}
use wenjuandiaocha_backend.Service.Metadata.{Metadata}
use wenjuandiaocha_backend.Service.Survey.Listing.{
  ListReq, page_size, trim_to_ptr, list_params, scoped_rows,
}

page_size-bounds :
    (limit : ℤ) → (leb 1 (page_size limit) ≡ true) × (leb (page_size limit) 100 ≡ true)
unfolding page_size
page_size-bounds (pos zero) = (refl, refl)
page_size-bounds (pos (suc n)) = (ground arith, ground arith)
page_size-bounds (negsuc n) = (ground arith, ground arith)

module _ {A : Type 0} (P : A → Type 0) where
  All-keep : (p : A → Bool) (xs : List A) → ((x : A) → p x ≡ true → P x) → All P (keep p xs)
  All-keep p [] h = tt
  All-keep p (x ∷ xs) h = elim (Bool-cases (p x)) [
    | inl yes_it_does ↦ rw yes_it_does (h x yes_it_does, All-keep p xs h)
    | inr it_does_not ↦ rw it_does_not (All-keep p xs h)
  ]

  All-take : (n : ℕ) (xs : List A) → All P xs → All P (take n xs)
  All-take zero xs h = tt
  All-take (suc n) [] h = tt
  All-take (suc n) (x ∷ xs) (p, h) = (p, All-take n xs h)

  All-drop : (n : ℕ) (xs : List A) → All P xs → All P (drop n xs)
  All-drop zero xs h = h
  All-drop (suc n) [] h = tt
  All-drop (suc n) (x ∷ xs) (p, h) = All-drop n xs h

  length-take : (n : ℕ) (xs : List A) → leb (length (take n xs)) n ≡ true
  length-take zero xs = refl
  length-take (suc n) [] = ground arith
  length-take (suc n) (x ∷ xs) = ground (arith, length-take n xs)

  reverse_aux-All : (xs ys : List A) → All P xs → All P ys → All P (reverse_aux xs ys)
  reverse_aux-All [] ys h k = k
  reverse_aux-All (x ∷ xs) ys (p, h) k = reverse_aux-All xs (x ∷ ys) h (p, k)

  All-reverse : (xs : List A) → All P xs → All P (reverse xs)
  All-reverse xs h = reverse_aux-All xs [] h tt

page_of-ok :
    (pf : Platform) {A : Type 0} (limit offset : ℤ) (xs rows : List A)
    → page_of pf limit offset xs ≡ ok rows
    → rows ≡ take (pos_part limit) (drop (pos_part offset) xs)
unfolding page_of
page_of-ok pf limit offset xs rows h =
    elim (Bool-cases (ltb_ℤ limit (pos 0) || ltb_ℤ offset (pos 0))) [
      | inl negative ↦ cc (rw negative at h)
      | inr fine ↦ sym (ok-injective (rw fine at h))
    ]

module _ (pf : Platform) (ilike : String → String → Bool) where
  -- A page holds rows of the scope only, as many as its limit at most, and changes nothing.
  list_where-ok :
      (mine : SurveyMeta pf → Bool) (p : SurveyListParams pf) (rows : List (SurveyMeta pf))
      (total : ℕ) (w w' : World pf)
      → list_where pf ilike mine p w ≡ (ok (rows, total), w')
      → All (λ (s : SurveyMeta pf). mine s ≡ true) rows
        × (leb (length rows) (pos_part p.limit) ≡ true)
        × (w'.db ≡ w.db)
  unfolding list_where
  list_where-ok mine p rows total w w' h =
      let listed = λ (s : SurveyMeta pf). mine s && is_listed pf ilike p s in
      let own = λ (s : SurveyMeta pf). mine s ≡ true in
      let (page, u, got, rest) =
        >>=-ok (query (λ db. page_of pf p.limit p.offset (reverse (keep listed db.surveys)))) _ w
          h in
      let (e, same, _) =
        query-ok (λ db. page_of pf p.limit p.offset (reverse (keep listed db.surveys))) w got in
      let (count, x, counted, end) =
        >>=-ok (query (λ db. ok (length (keep listed db.surveys)))) _ u rest in
      let (_, same', _) = query-ok (λ db. ok (length (keep listed db.surveys))) u counted in
      let done = pure-ok (page, count) end in
      let cut = page_of-ok pf p.limit p.offset (reverse (keep listed w.db.surveys)) page e in
      let is_cut : rows
          ≡ take (pos_part p.limit)
              (drop (pos_part p.offset) (reverse (keep listed w.db.surveys))) =
        ap (λ q. q.0) (sym done.0) ∙ cut in
      (
        subst (All own) (sym is_cut) (
            All-take own (pos_part p.limit) _ (
              All-drop own (pos_part p.offset) _ (
                All-reverse own _
                  (All-keep own listed w.db.surveys (λ s both. ground (arith, both)))))),
        subst (λ (xs : List (SurveyMeta pf)). leb (length xs) (pos_part p.limit) ≡ true)
            (sym is_cut) (length-take own (pos_part p.limit) _),
        ap (λ (y : World pf). y.db) (sym done.1) ∙ same' ∙ same,
      )

  limit_bound : (req : ListReq) → leb (pos_part (list_params pf req).limit) 100 ≡ true
  unfolding list_params
  limit_bound req = elim (Bool-cases (is_some (trim_to_ptr req.q))) [
    | inl searching ↦ rw searching refl
    | inr paging ↦ rw paging (page_size-bounds req.limit).1
  ]

  -- Whatever filters and page a caller asks for who is no administrator: a list that is answered
  -- holds surveys of the caller's own only, at most a hundred of them, and changes nothing.
  pub scoped_rows-Own :
      (md : Metadata) (req : ListReq) (rows : List (SurveyMeta pf)) (total : ℕ) (w w' : World pf)
      → is_admin md.role ≡ false
      → scoped_rows pf ilike md (list_params pf req) w ≡ (ok (rows, total), w')
      → All (λ (s : SurveyMeta pf). s.owner_id ≡ md.user_id) rows
        × (leb (length rows) 100 ≡ true)
        × (w'.db ≡ w.db)
  unfolding scoped_rows list_surveys_by_owner
  scoped_rows-Own md req rows total w w' no_admin h =
      let (mine, few, same) =
        list_where-ok (λ s. str_eq s.owner_id md.user_id) (list_params pf req) rows total w w'
          (rw no_admin at h) in
      (
        All-map (λ (s : SurveyMeta pf) own. (eq_iff s.owner_id md.user_id).0 own) rows mine,
        ground (arith, few, limit_bound req),
        same,
      )
