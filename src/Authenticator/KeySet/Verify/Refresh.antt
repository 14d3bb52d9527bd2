-- ===== src/Authenticator/KeySet/Verify/Refresh.antt =====
-- When `VerifySignature` asks the issuer for its keys again, and what that is good for.
use holos_substrate.Base.{
  ◌≡◌, ◌≢◌, inl, inr, refl, ap, subst, true, false, none, some, List, [], ◌∷◌, map, arith, Result,
  ok, Bool-cases, Result-cases, Has, here, there, All,
}
use holos_substrate.Base.Text.{Text}
use holos_substrate.Base.Int.{ℤ, ◌-ℤ◌, ltb_ℤ}
use holos_substrate.Authenticator.KeySet.{SigningKey, contains_sig_alg}
use holos_substrate.Authenticator.KeySet.Verify.{
  Header, Jws, FetchError, VerifyError, Moment, HardenedKeySet, other_kid, search_keys, conclude,
  verify_parsed, verify_once, throttled, adopt_keys, try_refresh, verify_again, refreshed,
  verify_signature,
}
use holos_substrate.Authenticator.KeySet.Verify.Called.{plain, kept, fetch_failed, fetched, called}
use holos_substrate.Authenticator.KeySet.Verify.Sound.{IsSigned}

module _ {K : Type 0} (parse : Text → Result Text (Jws K)) where
  -- The calls of `VerifySignature` on one key set, one after the other.
  unfoldable pub verify_all :
      HardenedKeySet K → List (Moment × Text) → List (Result VerifyError Text) × HardenedKeySet K
  verify_all set [] = ([], set)
  verify_all set ((w, raw_token) ∷ calls) =
      let (r, next) = verify_signature parse w set raw_token in
      let (rs, end) = verify_all next calls in (r ∷ rs, end)

  abbrev Within : ℤ → ℤ → Moment × Text → Type 0
  Within fetched_at interval call = ltb_ℤ (call.0.checked_at -ℤ fetched_at) interval ≡ true

  throttled-kept :
      (w : Moment) (set : HardenedKeySet K) (raw_token : Text) {fetched_at : ℤ}
      → set.last_refresh ≡ some fetched_at
      → ltb_ℤ (w.checked_at -ℤ fetched_at) set.min_refresh ≡ true
      → verify_signature parse w set raw_token ≡ (plain (verify_once parse set.keys raw_token), set)
  unfolding throttled
  throttled-kept w set raw_token l t =
      let over : throttled w.checked_at set.last_refresh set.min_refresh ≡ true =
        rw (l, throttled) t in
      elim (called parse w set raw_token refl) [
        | kept a r ↦ cc
        | fetch_failed refresh e e' m f a r ↦ ground (arith, over)
        | fetched refresh keys m f a r ↦ ground (arith, over)
      ]

  stamped :
      (w : Moment) (set after : HardenedKeySet K) (raw_token : Text) {r : Result VerifyError Text}
      → verify_signature parse w set raw_token ≡ (r, after)
      → after ≢ set
      → (after.last_refresh ≡ some w.fetched_at) × (after.min_refresh ≡ set.min_refresh)
  stamped w set after raw_token h n = elim (called parse w set raw_token h) [
    | kept a r ↦ elim (n a) [ ]
    | fetch_failed refresh e e' m f a r ↦
        (ap HardenedKeySet.last_refresh a, ap HardenedKeySet.min_refresh a)
    | fetched refresh keys m f a r ↦
        (ap HardenedKeySet.last_refresh a, ap HardenedKeySet.min_refresh a)
  ]

  kept_calls :
      (set : HardenedKeySet K) (calls : List (Moment × Text)) {fetched_at : ℤ}
      → set.last_refresh ≡ some fetched_at
      → All (Within fetched_at set.min_refresh) calls
      → verify_all set calls
        ≡ (map (λ (c : Moment × Text). plain (verify_once parse set.keys c.1)) calls, set)
  unfolding verify_all
  kept_calls set [] l h = refl
  kept_calls set ((w, raw_token) ∷ calls) l h =
      rw (throttled-kept w set raw_token l h.0) (rw (kept_calls set calls l h.1) refl)

  -- After a call that asked the issuer for its keys, whether they could be had or not, calls made
  -- within the interval since then leave the key set as it is and answer by its keys alone, however
  -- many calls they are and whatever tokens they bring. A call that asked is one that changed the set.
  pub verify_all-throttled :
      (w : Moment) (set after : HardenedKeySet K) (raw_token : Text) (r : Result VerifyError Text)
      (calls : List (Moment × Text))
      → verify_signature parse w set raw_token ≡ (r, after)
      → after ≢ set
      → All (Within w.fetched_at set.min_refresh) calls
      → verify_all after calls
        ≡ (map (λ (c : Moment × Text). plain (verify_once parse after.keys c.1)) calls, after)
  verify_all-throttled w set after raw_token r calls h n q =
      let (l, m) = stamped w set after raw_token h n in kept_calls after calls l (rw m q)

module _ {K : Type 0} where
  found-of-Has :
      (jws : Jws K) (header : Header) (keys : List (SigningKey K)) {payload : Text}
      {key : SigningKey K}
      → Has key keys
      → IsSigned jws header payload key
      → (payload' : Text) × ((search_keys jws header keys).payload ≡ some payload')
  unfolding search_keys
  found-of-Has jws header [] m i = elim m [ ]
  found-of-Has jws header (key ∷ keys) {payload} (here e) i =
      let j : IsSigned jws header payload key = subst (IsSigned jws header payload) e i in
      (payload, rw j.named (rw j.allowed (rw j.signed refl)))
  found-of-Has jws header (key ∷ keys) (there m) i =
      let (p, q) = found-of-Has jws header keys m i in
      elim (Bool-cases (other_kid header key)) [
        | inl o ↦ (p, rw o q)
        | inr o ↦ elim (Bool-cases (contains_sig_alg key.algs header.algorithm)) [
          | inr a ↦ (p, ground arith)
          | inl a ↦ elim (Result-cases (jws.verify key.pub_key)) [
            | inl (x, v) ↦ (x, ground arith)
            | inr (x, v) ↦ (p, ground arith)
          ]
        ]
      ]

  unmatched :
      (jws : Jws K) (header : Header) (keys : List (SigningKey K))
      → All (λ (key : SigningKey K). other_kid header key ≡ true) keys
      → search_keys jws header keys ≡ record { matched_kid = false; payload = none }
  unfolding search_keys
  unmatched jws header [] h = refl
  unmatched jws header (key ∷ keys) h = rw h.0 (unmatched jws header keys h.1)

  once_parsed :
      (parse : Text → Result Text (Jws K)) (keys : List (SigningKey K)) (raw_token : Text)
      (jws : Jws K) (header : Header)
      → parse raw_token ≡ ok jws
      → jws.signatures ≡ header ∷ []
      → verify_once parse keys raw_token ≡ conclude header (search_keys jws header keys)
  unfolding verify_once verify_parsed
  once_parsed parse keys raw_token jws header p one =
      rw (p, verify_once) (rw (one, verify_parsed) refl)

  -- A token with one signature, whose kid no loaded key has, is verified when the interval is over
  -- and the keys that the issuer then returns have one of that kid that may use the token's
  -- algorithm and verifies it. The key set has the issuer's keys from then on.
  pub verify_signature-rotated :
      (parse : Text → Result Text (Jws K)) (w : Moment) (set : HardenedKeySet K)
      (refresh : Moment → Result FetchError (List (SigningKey K))) (raw_token : Text) (jws : Jws K)
      (header : Header) (keys : List (SigningKey K)) (key : SigningKey K) (payload : Text)
      → parse raw_token ≡ ok jws
      → jws.signatures ≡ header ∷ []
      → All (λ (loaded : SigningKey K). other_kid header loaded ≡ true) set.keys
      → set.refresh ≡ some refresh
      → throttled w.checked_at set.last_refresh set.min_refresh ≡ false
      → refresh w ≡ ok keys
      → Has key keys
      → IsSigned jws header payload key
      → (payload' : Text) × (after : HardenedKeySet K) × (verify_signature parse w set raw_token
          ≡ (ok payload', after))
        × (after.keys ≡ keys)
  unfolding verify_signature refreshed try_refresh adopt_keys verify_again conclude
  verify_signature-rotated parse w set refresh raw_token jws header keys key payload p one o c t f m
        i =
      let (payload', found) = found-of-Has jws header keys m i in
      let fresh = record set { last_refresh = some w.fetched_at; keys = keys } in
      (
        payload',
        fresh,
        ground (
          arith,
          once_parsed parse set.keys raw_token jws header p one,
          once_parsed parse keys raw_token jws header p one,
          unmatched jws header set.keys o,
          found,
        ),
        refl,
      )
