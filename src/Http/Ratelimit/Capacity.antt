-- ===== src/Http/Ratelimit/Capacity.antt =====
-- The rate limit over time: the buckets and the capacity.
use wenjuandiaocha_backend.Base.{
  ℕ, false, String, str_eq, Option, none, some, List, [], ◌∷◌, All, lookup, assign, ◌≡◌, Bool-cases,
  inl, inr,
}
use wenjuandiaocha_backend.Platform.{Platform}
use wenjuandiaocha_backend.Http.Ratelimit.{
  Arithmetic, TokenBucket, Limiter, one, put, refilled, spend, allow_found, allow,
}

module _ (pf : Platform) (ar : Arithmetic pf) where
  -- No bucket holds more than the capacity.
  abbrev pub IsWithin : Limiter pf → Type 0
  IsWithin l =
      All (λ (b : String × TokenBucket pf). pf.float_lt l.capacity b.1.tokens ≡ false) l.buckets

  assign-All :
      (P : TokenBucket pf → Type 0) (key : String) (b : TokenBucket pf)
      (m : List (String × TokenBucket pf))
      → P b
      → All (λ (e : String × TokenBucket pf). P e.1) m
      → All (λ (e : String × TokenBucket pf). P e.1) (assign key b m)
  assign-All P key b [] p h = (p, tt)
  assign-All P key b ((k, c) ∷ m) p (q, h) = elim (Bool-cases (str_eq k key)) [
    | inl hit ↦ rw hit (p, h)
    | inr miss ↦ rw miss (q, assign-All P key b m p h)
  ]

  -- What this needs of float64: no number is below itself, and taking one away does not lead over a
  -- bound.
  pub record IsOrdered : Type 0 where
    pub irreflexive : (x : pf.F) → pf.float_lt x x ≡ false
    pub below : (c t : pf.F) → pf.float_lt c t ≡ false → pf.float_lt c (ar.sub t (one pf)) ≡ false

  refilled-bound :
      (l : Limiter pf) (b : TokenBucket pf) (now : ℕ)
      → IsOrdered
      → pf.float_lt l.capacity (refilled pf ar l b now) ≡ false
  unfolding refilled
  refilled-bound l b now ordered =
      let tokens = ar.add b.tokens (ar.mul (ar.seconds now b.last) l.rate) in
      elim (Bool-cases (pf.float_lt l.capacity tokens)) [
        | inl over ↦ rw over (ordered.irreflexive l.capacity)
        | inr fits ↦ rw fits fits
      ]

  put-IsWithin :
      (key : String) (b : TokenBucket pf) (l : Limiter pf)
      → pf.float_lt l.capacity b.tokens ≡ false
      → IsWithin l
      → IsWithin (put pf key b l)
  put-IsWithin key b l p h =
      assign-All (λ c. pf.float_lt l.capacity c.tokens ≡ false) key b l.buckets p h

  spend-IsWithin :
      (key : String) (now : ℕ) (l : Limiter pf) (tokens : pf.F)
      → IsOrdered
      → pf.float_lt l.capacity tokens ≡ false
      → IsWithin l
      → IsWithin (spend pf ar key now l tokens).1
  unfolding spend
  spend-IsWithin key now l tokens ordered fits h = elim (Bool-cases (pf.float_lt tokens (one pf))) [
    | inl few ↦ rw few (put-IsWithin key _ l fits h)
    | inr enough ↦ rw enough (put-IsWithin key _ l (ordered.below l.capacity tokens fits) h)
  ]

  allow_found-IsWithin :
      (key : String) (now : ℕ) (l : Limiter pf) (o : Option (TokenBucket pf))
      → IsOrdered
      → IsWithin l
      → IsWithin (allow_found pf ar key now l o).1
  unfolding allow_found
  allow_found-IsWithin key now l none ordered h =
      put-IsWithin key _ l (ordered.below l.capacity l.capacity (ordered.irreflexive l.capacity)) h
  allow_found-IsWithin key now l (some b) ordered h =
      spend-IsWithin key now l (refilled pf ar l b now) ordered (refilled-bound l b now ordered) h

  -- However long a client stays away, no call leaves a bucket with more tokens than the capacity, if
  -- none had more before: for a float64 order in which no number is below itself, and in which taking
  -- one away does not lead over a bound.
  pub allow-IsWithin :
      (key : String) (now : ℕ) (l : Limiter pf)
      → IsOrdered
      → IsWithin l
      → IsWithin (allow pf ar key now l).1
  unfolding allow
  allow-IsWithin key now l ordered h =
      allow_found-IsWithin key now l (lookup key l.buckets) ordered h
