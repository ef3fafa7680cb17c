-- ===== src/Http/Ratelimit/Burst.antt =====
-- The rate limit at work: one key and another, and a burst of calls.
use wenjuandiaocha_backend.Base.{
  ℕ, zero, suc, ◌≤◌, ltb, pos, true, false, String, str_eq, eq_iff, Option, none, some, lookup,
  lookup-assign, if◌then◌else◌, ◌≡◌, refl, ◌∙◌, arith, Bool-cases, inl, inr,
}
use wenjuandiaocha_backend.Platform.{Platform}
use wenjuandiaocha_backend.Http.Ratelimit.{
  Arithmetic, TokenBucket, Limiter, one, put, refilled, spend, allow_found, allow,
}

module _ (pf : Platform) (ar : Arithmetic pf) where
  -- The change that a call makes: one bucket is put.
  abbrev IsPut : String → Limiter pf → Limiter pf → Type 0
  IsPut key l after = (b : TokenBucket pf) × (after ≡ put pf key b l)

  spend-IsPut :
      (key : String) (now : ℕ) (l : Limiter pf) (tokens : pf.F)
      → IsPut key l (spend pf ar key now l tokens).1
  unfolding spend
  spend-IsPut key now l tokens = elim (Bool-cases (pf.float_lt tokens (one pf))) [
    | inl few ↦ (record { tokens = tokens; last = now }, rw few refl)
    | inr enough ↦ (record { tokens = ar.sub tokens (one pf); last = now }, rw enough refl)
  ]

  allow_found-IsPut :
      (key : String) (now : ℕ) (l : Limiter pf) (o : Option (TokenBucket pf))
      → IsPut key l (allow_found pf ar key now l o).1
  unfolding allow_found
  allow_found-IsPut key now l none =
      (record { tokens = ar.sub l.capacity (one pf); last = now }, refl)
  allow_found-IsPut key now l (some b) = spend-IsPut key now l (refilled pf ar l b now)

  -- A call for one key leaves the bucket of any other key as it was, and the rate and the capacity.
  allow-frame :
      (key other : String) (now : ℕ) (l : Limiter pf)
      → str_eq key other ≡ false
      → (lookup other (allow pf ar key now l).1.buckets ≡ lookup other l.buckets)
        × ((allow pf ar key now l).1.rate ≡ l.rate)
        × ((allow pf ar key now l).1.capacity ≡ l.capacity)
  unfolding allow
  allow-frame key other now l h =
      let (b, e) = allow_found-IsPut key now l (lookup key l.buckets) in
      rw e (lookup-assign key other b l.buckets ∙ rw h refl, refl, refl)

  -- Some calls for one key at one time: how many of them pass, and the limit after them.
  unfoldable pub burst : ℕ → String → ℕ → Limiter pf → ℕ × Limiter pf
  burst zero key now l = (0, l)
  burst (suc n) key now l =
      let (passes, after) = allow pf ar key now l in
      let (rest, at_end) = burst n key now after in (if passes then suc rest else rest, at_end)

  -- What a burst needs of float64 on the whole numbers up to a bound, all of them exact there, and of
  -- the rate: no time times the rate adds nothing to them.
  pub record IsExact (bound : ℕ) (rate : pf.F) : Type 0 where
    pub less :
        (m n : ℕ)
        → m ≤ bound
        → n ≤ bound
        → pf.float_lt (pf.of_int (pos m)) (pf.of_int (pos n)) ≡ ltb m n
    pub minus :
        (n : ℕ) → suc n ≤ bound → ar.sub (pf.of_int (pos (suc n))) (one pf) ≡ pf.of_int (pos n)
    pub still :
        (n now : ℕ)
        → n ≤ bound
        → ar.add (pf.of_int (pos n)) (ar.mul (ar.seconds now now) rate) ≡ pf.of_int (pos n)

  -- The key's bucket at a time, with a whole number of tokens.
  abbrev Holds : String → ℕ → ℕ → ℕ → Limiter pf → Type 0
  Holds key now size k l =
      (lookup key l.buckets ≡ some (record { tokens = pf.of_int (pos k); last = now }))
      × (l.capacity ≡ pf.of_int (pos size))
      × (k ≤ size)

  lookup-put :
      (key : String) (b : TokenBucket pf) (l : Limiter pf)
      → lookup key (put pf key b l).buckets ≡ some b
  lookup-put key b l = lookup-assign key key b l.buckets ∙ rw ((eq_iff key key).1 refl) refl

  refilled-still :
      (size k now : ℕ) (l : Limiter pf)
      → IsExact size l.rate
      → l.capacity ≡ pf.of_int (pos size)
      → k ≤ size
      → refilled pf ar l (record { tokens = pf.of_int (pos k); last = now }) now ≡ pf.of_int (pos k)
  unfolding refilled
  refilled-still size k now l exact full small =
      let full_enough : ltb size k ≡ false = ground arith in
      rw (exact.still k now small, full, exact.less size k (omega arith) small, full_enough) refl

  spend-suc :
      (size k now : ℕ) (key : String) (l : Limiter pf)
      → IsExact size l.rate
      → suc k ≤ size
      → spend pf ar key now l (pf.of_int (pos (suc k)))
        ≡ (true, put pf key (record { tokens = pf.of_int (pos k); last = now }) l)
  unfolding spend
  spend-suc size k now key l exact small =
      let enough : ltb (suc k) 1 ≡ false = ground arith in
      rw (exact.less (suc k) 1 small (omega arith), enough, exact.minus k small) refl

  spend-zero :
      (size now : ℕ) (key : String) (l : Limiter pf)
      → IsExact size l.rate
      → 1 ≤ size
      → spend pf ar key now l (pf.of_int (pos 0))
        ≡ (false, put pf key (record { tokens = pf.of_int (pos 0); last = now }) l)
  unfolding spend
  spend-zero size now key l exact small = rw (exact.less 0 1 (omega arith) small) refl

  allow-held :
      (size k now : ℕ) (key : String) (l : Limiter pf)
      → IsExact size l.rate
      → Holds key now size k l
      → allow pf ar key now l ≡ spend pf ar key now l (pf.of_int (pos k))
  unfolding allow allow_found
  allow-held size k now key l exact (found, full, small) =
      rw (found, refilled-still size k now l exact full small) refl

  -- A held bucket passes as many calls as it has tokens.
  burst-held :
      (size k n now : ℕ) (key : String) (l : Limiter pf)
      → IsExact size l.rate
      → 1 ≤ size
      → Holds key now size k l
      → (burst n key now l).0 ≡ (if ltb k n then k else n)
  unfolding burst
  burst-held size k zero now key l exact some_cap holds = ground arith
  burst-held size zero (suc n) now key l exact some_cap (found, full, small) =
      let rest =
        burst-held size zero n now key
          (put pf key (record { tokens = pf.of_int (pos 0); last = now }) l) exact some_cap
          (lookup-put key _ l, full, small) in
      rw
        (
          allow-held size zero now key l exact (found, full, small),
          spend-zero size now key l exact some_cap,
        )
        (ground arith)
  burst-held size (suc k) (suc n) now key l exact some_cap (found, full, small) =
      let rest =
        burst-held size k n now key
          (put pf key (record { tokens = pf.of_int (pos k); last = now }) l) exact some_cap
          (lookup-put key _ l, full, omega arith) in
      rw
        (
          allow-held size (suc k) now key l exact (found, full, small),
          spend-suc size k now key l exact small,
        )
        (ground arith)

  -- Of n calls at one moment for a key that has no bucket yet, the first ones pass, up to the
  -- capacity, and no other: for a capacity that is a whole number from 1 on, and a float64 that on
  -- the whole numbers up to it compares them as they are, takes one from them exactly, and leaves
  -- them as they are when no time times the limit's rate is added (which float64 does for a finite
  -- rate). The public submission has the rate 1 and the capacity 10.
  pub burst-fresh :
      (size n now : ℕ) (key : String) (l : Limiter pf)
      → IsExact size l.rate
      → 1 ≤ size
      → l.capacity ≡ pf.of_int (pos size)
      → lookup key l.buckets ≡ none
      → (burst n key now l).0 ≡ (if ltb size n then size else n)
  unfolding burst allow allow_found
  burst-fresh size zero now key l exact some_cap full fresh = ground arith
  burst-fresh zero (suc n) now key l exact some_cap full fresh = absurd (omega arith)
  burst-fresh (suc size) (suc n) now key l exact some_cap full fresh =
      let rest =
        burst-held (suc size) size n now key
          (put pf key (record { tokens = pf.of_int (pos size); last = now }) l) exact some_cap
          (lookup-put key _ l, full, omega arith) in
      let left : ar.sub l.capacity (one pf) ≡ pf.of_int (pos size) =
        rw full (exact.minus size (omega arith)) in
      rw (fresh, left) (ground arith)
