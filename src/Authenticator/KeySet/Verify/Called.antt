-- ===== src/Authenticator/KeySet/Verify/Called.antt =====
-- The three things that a call of `VerifySignature` can do to the key set.
use holos_substrate.Base.{
  ◌≡◌, inl, inr, Bool, true, false, some, List, arith, Result, ok, err, Bool-cases, Option-cases,
  Result-cases,
}
use holos_substrate.Base.Text.{Text}
use holos_substrate.Authenticator.KeySet.{SigningKey}
use holos_substrate.Authenticator.KeySet.Verify.{
  Jws, FetchError, VerifyError, Moment, HardenedKeySet, verify_once, throttled, adopt_keys,
  try_refresh, verify_again, refreshed, verify_signature,
}

abbrev pub plain : Result (Bool × VerifyError) Text → Result VerifyError Text
plain (ok payload) = ok payload
plain (err (refreshable, e)) = err e

-- A refetch needs a token whose kid no key has, and an interval that is over.
pub record MayFetch {K : Type 0} (parse : Text → Result Text (Jws K)) (w : Moment)
    (set : HardenedKeySet K) (raw_token : Text)
    (refresh : Moment → Result FetchError (List (SigningKey K))) : Type 0 where
  pub configured : set.refresh ≡ some refresh
  pub unknown_kid : (e : VerifyError) × (verify_once parse set.keys raw_token ≡ err (true, e))
  pub interval_over : throttled w.checked_at set.last_refresh set.min_refresh ≡ false

module _ {K : Type 0} (parse : Text → Result Text (Jws K)) (w : Moment) (set : HardenedKeySet K)
    (raw_token : Text) where
  pub data Called (r : Result VerifyError Text) (after : HardenedKeySet K) : Type 0 where
    kept : after ≡ set → r ≡ plain (verify_once parse set.keys raw_token) → Called r after
    fetch_failed :
        (refresh : Moment → Result FetchError (List (SigningKey K))) (e : FetchError)
        (e' : VerifyError)
        → MayFetch parse w set raw_token refresh
        → refresh w ≡ err e
        → after ≡ record set { last_refresh = some w.fetched_at }
        → r ≡ err e'
        → Called r after
    fetched :
        (refresh : Moment → Result FetchError (List (SigningKey K))) (keys : List (SigningKey K))
        → MayFetch parse w set raw_token refresh
        → refresh w ≡ ok keys
        → after ≡ record set { last_refresh = some w.fetched_at; keys = keys }
        → r ≡ plain (verify_once parse keys raw_token)
        → Called r after

  again :
      (e : VerifyError) (after : HardenedKeySet K)
      → verify_again parse raw_token e (true, after)
        ≡ (plain (verify_once parse after.keys raw_token), after)
  unfolding verify_again
  again e after = elim (Result-cases (verify_once parse after.keys raw_token)) [
    | inl (payload, q) ↦ ground arith
    | inr (x, q) ↦ ground arith
  ]

  fetch :
      (refresh : Moment → Result FetchError (List (SigningKey K))) (e : VerifyError)
      → MayFetch parse w set raw_token refresh
      → {r : Result VerifyError Text} {after : HardenedKeySet K}
      → verify_again parse raw_token e (adopt_keys set w.fetched_at (refresh w)) ≡ (r, after)
      → Called r after
  unfolding adopt_keys verify_again
  fetch refresh e may {r} {after} h = elim (Result-cases (refresh w)) [
    | inr (x, q) ↦ fetch_failed refresh x e may q (ground arith) (ground arith)
    | inl (keys, q) ↦
        fetched refresh keys may q
          (ground (arith, again e (record set { last_refresh = some w.fetched_at; keys = keys })))
          (ground (arith, again e (record set { last_refresh = some w.fetched_at; keys = keys })))
  ]

  pub called :
      {r : Result VerifyError Text} {after : HardenedKeySet K}
      → verify_signature parse w set raw_token ≡ (r, after)
      → Called r after
  unfolding verify_signature refreshed try_refresh
  called h = elim (Result-cases (verify_once parse set.keys raw_token)) [
    | inl (payload, q) ↦ kept (ground arith) (ground arith)
    | inr ((false, e), q) ↦ kept (ground arith) (ground arith)
    | inr ((true, e), q) ↦ elim (Option-cases set.refresh) [
      | inl o ↦ kept (ground arith) (ground arith)
      | inr (refresh, o) ↦
          elim (Bool-cases (throttled w.checked_at set.last_refresh set.min_refresh)) [
            | inl t ↦ kept (ground (arith, again e set)) (ground (arith, again e set))
            | inr t ↦
                fetch refresh e (record { configured = o; unknown_kid = (e, q); interval_over = t })
                  (ground arith)
          ]
    ]
  ]
