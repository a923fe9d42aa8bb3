-- ===== src/Web/ApiClient/Outcomes.antt =====
-- When a call of the API gives data.
use arcpass.Prelude.{ℕ, ◌≡◌, ◌≤◌, ◌&&◌, Option, Text, arith, leb, Bool-cases, inl, inr, ap}
use arcpass.Web.ApiClient.{
  Json, parsed, unparsed, cut_off, Answer, response, aborted, broken, fetched, read_json,
  fetch_with_timeout,
}

module _ {A : Type 0} where
  read_json-parsed : (json : Json A) (a : A) → read_json json ≡ fetched a → json ≡ parsed a
  read_json-parsed (parsed b) a h = cc
  read_json-parsed (unparsed message) a h = cc
  read_json-parsed cut_off a h = cc

  -- A call gives data only from a response whose status is between 200 and 299 and whose body is that
  -- data: what else may come, an error status, a body that is no JSON, the timer's abort or an error of
  -- the network, ends in one of the three errors.
  pub fetch_with_timeout-fetched :
      (show_number : ℕ → Text) (answer : Answer A) (a : A)
      → fetch_with_timeout show_number answer ≡ fetched a
      → (status : ℕ) × (error : Option Text) × (answer ≡ response status error (parsed a))
        × (200 ≤ status)
        × (status ≤ 299)
  unfolding fetch_with_timeout
  fetch_with_timeout-fetched show_number (response status error json) a h =
      elim (Bool-cases (leb 200 status && leb status 299)) [
        | inl good ↦ (
          status,
          error,
          ap (λ j. response status error j) (read_json-parsed json a (ground (arith, h, good))),
          ground arith,
          ground arith,
        )
        | inr bad ↦ absurd (ground (arith, h, bad))
      ]
  fetch_with_timeout-fetched show_number aborted a h = absurd (ground arith)
  fetch_with_timeout-fetched show_number (broken message) a h = absurd (ground arith)
