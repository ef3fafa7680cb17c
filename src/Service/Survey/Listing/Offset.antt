-- ===== src/Service/Survey/Listing/Offset.antt =====
-- The pages of the list of surveys: the row at which each begins, and all of them together.
use wenjuandiaocha_backend.Base.{
  ℕ, zero, suc, ◌+◌, ◌*◌, ◌^◌, ◌%◌, ℤ, pos, int32, int64, ltb_ℤ, ltb, true, false, if◌then◌else◌,
  none, List, [], ◌∷◌, ◌++◌, ◌≡◌, refl, sym, ◌∙◌, arith,
}
use wenjuandiaocha_backend.Platform.{Platform}
use wenjuandiaocha_backend.Dao.Exec.{Result, ok, err, panic}
use wenjuandiaocha_backend.Dao.Store.{take, drop, page_of}
use wenjuandiaocha_backend.Service.Survey.Listing.{
  ListReq, trim_to_ptr, page_size, pages_before, page_offset, list_params,
}

pub int64-small : (n : ℕ) → ltb n (2 ^ 63) ≡ true → int64 n ≡ pos n
int64-small n h = let e : n % 2 ^ 64 ≡ n = ground (arith, h) in rw (e, h) refl

int32-small : (n : ℕ) → ltb n (2 ^ 31) ≡ true → int32 n ≡ pos n
int32-small n h = let e : n % 2 ^ 32 ≡ n = ground (arith, h) in rw (e, h) refl

cut_at :
    (n : ℕ)
    → ltb n (2 ^ 31) ≡ true
    → (if ltb_ℤ (pos 2147483647) (pos n) then pos 2147483647 else int32 n) ≡ pos n
cut_at n h =
    let e : n + 0 ≡ n = omega arith in
    let near : ltb 2147483647 n ≡ false = ground (arith, h) in rw (e, near) (int32-small n h)

pages_before-suc : (n : ℕ) → pages_before (pos (suc n)) ≡ n
unfolding pages_before
pages_before-suc n = ground arith

-- The page after the first n ones begins at the row n * size.
page_offset-suc :
    (n size : ℕ) → ltb (n * size) (2 ^ 31) ≡ true → page_offset (pos (suc n)) size ≡ pos (n * size)
unfolding page_offset
page_offset-suc n size h =
    let small : ltb (n * size) (2 ^ 63) ≡ true = ground (arith, h) in
    rw (pages_before-suc n, int64-small (n * size) small) (cut_at (n * size) h)

-- A page number below 1 is the first page.
page_offset-below :
    (page : ℤ) (size : ℕ)
    → ltb_ℤ page (pos 1) ≡ true
    → page_offset page size ≡ page_offset (pos 1) size
unfolding page_offset pages_before
page_offset-below page size h = rw h refl

module _ {A : Type 0} where
  take-nil : (n : ℕ) → take {A = A} n [] ≡ []
  take-nil zero = refl
  take-nil (suc n) = refl

  take-add : (m n : ℕ) (xs : List A) → take (m + n) xs ≡ take m xs ++ take n (drop m xs)
  take-add zero n xs = let e : 0 + n ≡ n = omega arith in rw e refl
  take-add (suc m) n [] = take-nil (suc m + n) ∙ sym (take-nil n)
  take-add (suc m) n (x ∷ xs) =
      let e : suc m + n ≡ suc (m + n) = omega arith in rw (e, take-add m n xs) refl

  -- The rows of a page that is no error.
  abbrev rows_of_page : Result (List A) → List A
  rows_of_page (ok rows) = rows
  rows_of_page (err e) = []
  rows_of_page panic = []

nonneg : (k : ℕ) → ltb_ℤ (pos k) (pos 0) ≡ false
nonneg k = ground arith

abbrev pub on_page : ListReq → ℤ → ListReq
on_page req page = record req { page = page }

module _ (pf : Platform) {A : Type 0} where
  -- The page that a request asks for, out of all the rows.
  abbrev pub page_rows : ListReq → List A → List A
  page_rows req rows = let p = list_params pf req in rows_of_page (page_of pf p.limit p.offset rows)

  -- The first pages of a request, one behind the other.
  abbrev pub first_pages : ListReq → ℕ → List A → List A
  first_pages req zero rows = []
  first_pages req (suc n) rows =
      first_pages req n rows ++ page_rows (on_page req (pos (suc n))) rows

  page_of-pos :
      (k m : ℕ) (rows : List A) → page_of pf (pos k) (pos m) rows ≡ ok (take k (drop m rows))
  unfolding page_of
  page_of-pos k m rows = rw (nonneg k, nonneg m) refl

  page_rows-suc :
      (req : ListReq) (n : ℕ) (rows : List A)
      → trim_to_ptr req.q ≡ none
      → ltb (n * page_size req.limit) (2 ^ 31) ≡ true
      → page_rows (on_page req (pos (suc n))) rows
        ≡ take (page_size req.limit) (drop (n * page_size req.limit) rows)
  unfolding list_params
  page_rows-suc req n rows no_search small =
      let size = page_size req.limit in
      rw (no_search, page_offset-suc n size small, page_of-pos size (n * size) rows) refl

  -- The pages of a list neither overlap nor leave a row out, and a page number below 1 is the first
  -- page: without a search, the first n pages of a request, one behind the other, are the first
  -- n times the page size of all the rows, as long as that is an int32.
  pub first_pages-take :
      (req : ListReq) (n : ℕ) (rows : List A)
      → trim_to_ptr req.q ≡ none
      → ltb (n * page_size req.limit) (2 ^ 31) ≡ true
      → (first_pages req n rows ≡ take (n * page_size req.limit) rows)
        × ((page : ℤ)
            → ltb_ℤ page (pos 1) ≡ true
            → page_rows (on_page req page) rows ≡ page_rows (on_page req (pos 1)) rows)
  unfolding list_params
  first_pages-take req n rows no_search small = (pages n small, below)
    where
      pages :
          (n : ℕ)
          → ltb (n * page_size req.limit) (2 ^ 31) ≡ true
          → first_pages req n rows ≡ take (n * page_size req.limit) rows
      pages zero h = let e : 0 * page_size req.limit ≡ 0 = grind arith in rw e refl
      pages (suc n) h =
          let size = page_size req.limit in
          let less : ltb (n * size) (2 ^ 31) ≡ true = grind (arith, h) in
          let e : suc n * size ≡ n * size + size = grind arith in
          rw (e, pages n less, page_rows-suc req n rows no_search less)
            (sym (take-add (n * size) size rows))

      below :
          (page : ℤ)
          → ltb_ℤ page (pos 1) ≡ true
          → page_rows (on_page req page) rows ≡ page_rows (on_page req (pos 1)) rows
      below page h = rw (page_offset-below page (page_size req.limit) h) refl
