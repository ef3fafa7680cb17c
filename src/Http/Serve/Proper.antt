-- ===== src/Http/Serve/Proper.antt =====
-- The form of every answer: what handlers render, and where a panic can come from.
use wenjuandiaocha_backend.Base.{
  ℕ, Bool, true, false, String, Option, none, some, List, ◌≡◌, ◌≢◌, refl, if◌then◌else◌, inl, inr,
  ◌⊎◌,
}
use wenjuandiaocha_backend.Platform.{Platform}
use wenjuandiaocha_backend.Domain.Validate.{ValidationError}
use wenjuandiaocha_backend.Ecode.{GoError, from_error, data_from_error}
use wenjuandiaocha_backend.Ecode.Envelope.{
  Response, result, errors, no_content, envelope, fail, render_data, render_error, payload_content,
}
use wenjuandiaocha_backend.Dao.Exec.{Result, ok, err, panic, World, M}
use wenjuandiaocha_backend.Dao.Exec.Ends.{IsCoded, Ends, from_error-IsCoded, Ends-weaken, Returns}
use wenjuandiaocha_backend.Http.Messages.{Payload, Reply}
use wenjuandiaocha_backend.Http.Handlers

module _ (pf : Platform) where
  -- A result has the code 0; errors have another one, and so has what has neither data nor an empty
  -- message. Outside the envelope there are three statuses.
  abbrev pub IsProper : Response (Payload pf) → Type 0
  IsProper (envelope code message (result a)) = (code ≡ 0) × (message ≡ "")
  IsProper (envelope code message (errors es)) = code ≢ 0
  IsProper (envelope code message no_content) = ((code ≡ 0) × (message ≡ "")) ⊎ (code ≢ 0)
  IsProper (fail status message) = (status ≡ 400) ⊎ (status ≡ 401) ⊎ (status ≡ 429)

  -- A handler has replied, or it has panicked under `P`.
  abbrev pub Replies : Type 0 → Result (Reply pf) × World pf → Type 0
  Replies P (ok reply, w) = IsProper reply.response
  Replies P (err e, w) = ⊥
  Replies P (panic, w) = P

  payload_content-IsProper :
      (o : Option (List ValidationError)) (code : ℕ) (message : String)
      → code ≢ 0
      → IsProper (envelope code message (payload_content o))
  unfolding payload_content
  payload_content-IsProper none code message h = inr h
  payload_content-IsProper (some es) code message h = h

  pub render_error-IsProper : (e : GoError) → IsCoded e → IsProper (render_error e)
  unfolding render_error
  render_error-IsProper e h =
      payload_content-IsProper (data_from_error e) (from_error e).0 (from_error e).1
        (from_error-IsCoded e h)

  pub rendered-Replies :
      {A : Type 0} (P : Type 0) (success : A → Reply pf) (r : Result A × World pf)
      → ((a : A) → IsProper (success a).response)
      → Ends P r
      → Replies P (Handlers.rendered pf success r)
  rendered-Replies P success (ok a, w) k h = k a
  rendered-Replies P success (err e, w) k h = render_error-IsProper e h
  rendered-Replies P success (panic, w) k h = h

  pub with_data-IsProper :
      {A : Type 0} (payload : A → Payload pf) (a : A)
      → IsProper (Handlers.with_data pf payload a).response
  unfolding render_data
  with_data-IsProper payload a = (refl, refl)

  without_data-IsProper : {A : Type 0} (a : A) → IsProper (Handlers.without_data pf a).response
  unfolding render_data
  without_data-IsProper a = inl (refl, refl)

  -- A call that returns, rendered with its data or without.
  pub data-Replies :
      {A : Type 0} (P : Type 0) (payload : A → Payload pf) (m : M pf A) (w : World pf)
      → Returns m
      → Replies P (Handlers.answer pf (Handlers.with_data pf payload) m w)
  unfolding Returns
  data-Replies P payload m w h =
      rendered-Replies P (Handlers.with_data pf payload) (m w) (with_data-IsProper payload)
        (Ends-weaken P (m w) (h w))

  pub no_data-Replies :
      {A : Type 0} (P : Type 0) (m : M pf A) (w : World pf)
      → Returns m
      → Replies P (Handlers.answer pf (Handlers.without_data pf) m w)
  unfolding Returns
  no_data-Replies P m w h =
      rendered-Replies P (Handlers.without_data pf) (m w) without_data-IsProper
        (Ends-weaken P (m w) (h w))

  pub choice-Replies :
      (P : Type 0) (b : Bool) (m k : M pf (Reply pf)) (w : World pf)
      → Replies P (m w)
      → Replies P (k w)
      → Replies P ((if b then m else k) w)
  choice-Replies P true m k w hm hk = hm
  choice-Replies P false m k w hm hk = hk
