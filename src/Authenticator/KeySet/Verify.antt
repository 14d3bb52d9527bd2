-- ===== src/Authenticator/KeySet/Verify.antt =====
-- internal/authenticator/oidc.go: `hardenedKeySet`, which verifies the signature of a token. `Jws` is
-- what `jose.ParseSigned` returns: the protected headers of its signatures, and `Verify` of it.
pub mod Called
pub mod Sound
pub mod Refresh
use holos_substrate.Base.{
  ℕ, Bool, true, false, not, ◌&&◌, ◌*◌, Option, none, some, List, [], ◌∷◌, length, Result, ok, err,
  num_eq, if◌then◌else◌,
}
use holos_substrate.Base.Text.{Text, ◌==◌}
use holos_substrate.Base.Int.{ℤ, pos, ◌-ℤ◌, ltb_ℤ}
use holos_substrate.Authenticator.KeySet.{
  PublicKey, JsonWebKey, SigningKey, KeyError, contains_sig_alg, reduce_jwks,
}

pub record Header : Type 0 where
  pub key_id : Text
  pub algorithm : Text

pub record Jws (K : Type 0) : Type 0 where
  pub signatures : List Header
  pub verify : PublicKey K → Result Text Text

-- What the requests to the issuer end in.
pub data FetchError : Type 0 where
  request_failed : Text → FetchError
  bad_status : ℕ → FetchError
  unread : Text → FetchError
  unparsed : Text → FetchError
  no_usable_keys : FetchError
  unreduced : KeyError → FetchError

pub data VerifyError : Type 0 where
  parsing : Text → VerifyError
  signature_count : ℕ → VerifyError
  no_matching_key : Text → VerifyError
  unverified : Text → Text → VerifyError

pub record HttpResponse : Type 0 where
  pub status : ℕ
  -- the bytes of the body, or the error of reading them
  pub body : Result Text Text

-- A client of `oidcHTTPClient`: the bundle it trusts besides the system's roots, where it has one.
pub record HttpClient : Type 0 where
  pub timeout : ℤ
  pub root_cas : Option Text

-- What one call meets outside: the clock before and after a fetch, and what a GET then returns.
pub record Moment : Type 0 where
  pub checked_at : ℤ
  pub fetched_at : ℤ
  pub get : HttpClient → Text → Result Text HttpResponse

-- `last_refresh` is `none` while it is Go's zero time.
pub record HardenedKeySet (K : Type 0) : Type 0 where
  pub keys : List (SigningKey K)
  pub refresh : Option (Moment → Result FetchError (List (SigningKey K)))
  pub last_refresh : Option ℤ
  pub min_refresh : ℤ

-- What the loop over the keys finds.
pub record Search : Type 0 where
  pub matched_kid : Bool
  pub payload : Option Text

-- An error goes with `refreshable`.
unfoldable pub conclude : Header → Search → Result (Bool × VerifyError) Text
conclude header found = elim found.payload [
  | some payload ↦ ok payload
  | none ↦
      if not found.matched_kid
      then err (true, no_matching_key header.key_id)
      else err (false, unverified header.key_id header.algorithm)
]

unfoldable pub throttled : ℤ → Option ℤ → ℤ → Bool
throttled now none min_refresh = false
throttled now (some last) min_refresh = ltb_ℤ (now -ℤ last) min_refresh

module _ {K : Type 0} where
  -- The keys that the loop passes over by its first test.
  unfoldable pub other_kid : Header → SigningKey K → Bool
  unfolding ◌==◌
  other_kid header key = not (header.key_id == []) && not (key.key_id == header.key_id)

  unfoldable pub search_keys : Jws K → Header → List (SigningKey K) → Search
  unfolding other_kid contains_sig_alg
  search_keys jws header [] = record { matched_kid = false; payload = none }
  search_keys jws header (key ∷ keys) =
      let rest = search_keys jws header keys in
      if other_kid header key
      then rest
      else if not (contains_sig_alg key.algs header.algorithm)
      then record { matched_kid = true; payload = rest.payload }
      else elim (jws.verify key.pub_key) [
        | ok payload ↦ record { matched_kid = true; payload = some payload }
        | err e ↦ record { matched_kid = true; payload = rest.payload }
      ]

  unfoldable pub verify_parsed : List (SigningKey K) → Jws K → Result (Bool × VerifyError) Text
  unfolding search_keys conclude
  verify_parsed keys jws = elim jws.signatures [
    | header ∷ [] ↦ conclude header (search_keys jws header keys)
    | signatures ↦ err (false, signature_count (length signatures))
  ]

  -- `parse` is `jose.ParseSigned` with `verifiableSigAlgs`.
  unfoldable pub verify_once :
      (Text → Result Text (Jws K)) → List (SigningKey K) → Text → Result (Bool × VerifyError) Text
  unfolding verify_parsed
  verify_once parse keys raw_token = elim (parse raw_token) [
    | err e ↦ err (false, parsing e)
    | ok jws ↦ verify_parsed keys jws
  ]

  adopt_keys :
      HardenedKeySet K → ℤ → Result FetchError (List (SigningKey K)) → Bool × HardenedKeySet K
  adopt_keys set now (err e) = (false, record set { last_refresh = some now })
  adopt_keys set now (ok keys) = (true, record set { last_refresh = some now; keys = keys })

  -- `tryRefresh` of a set whose `refresh` is the given function.
  unfoldable pub try_refresh :
      Moment
      → (Moment → Result FetchError (List (SigningKey K)))
      → HardenedKeySet K
      → Bool × HardenedKeySet K
  unfolding throttled adopt_keys
  try_refresh w refresh set =
      if throttled w.checked_at set.last_refresh set.min_refresh
      then (true, set)
      else adopt_keys set w.fetched_at (refresh w)

  verify_again :
      (Text → Result Text (Jws K))
      → Text
      → VerifyError
      → Bool × HardenedKeySet K
      → Result VerifyError Text × HardenedKeySet K
  verify_again parse raw_token e (false, set) = (err e, set)
  verify_again parse raw_token e (true, set) = elim (verify_once parse set.keys raw_token) [
    | ok payload ↦ (ok payload, set)
    | err (refreshable, e') ↦ (err e', set)
  ]

  refreshed :
      (Text → Result Text (Jws K))
      → Moment
      → HardenedKeySet K
      → Text
      → Bool
      → VerifyError
      → Result VerifyError Text × HardenedKeySet K
  unfolding try_refresh verify_again
  refreshed parse w set raw_token false e = (err e, set)
  refreshed parse w set raw_token true e = elim set.refresh [
    | none ↦ (err e, set)
    | some refresh ↦ verify_again parse raw_token e (try_refresh w refresh set)
  ]

  -- `VerifySignature`, from the key set before the call to the one after it.
  unfoldable pub verify_signature :
      (Text → Result Text (Jws K))
      → Moment
      → HardenedKeySet K
      → Text
      → Result VerifyError Text × HardenedKeySet K
  unfolding verify_once refreshed
  verify_signature parse w set raw_token = elim (verify_once parse set.keys raw_token) [
    | ok payload ↦ (ok payload, set)
    | err (refreshable, e) ↦ refreshed parse w set raw_token refreshable e
  ]
