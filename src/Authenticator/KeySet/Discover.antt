-- ===== src/Authenticator/KeySet/Discover.antt =====
-- internal/authenticator/oidc.go: the verifiers of a static JWKS and of a discovered issuer. `Oidc` is
-- what the code takes from elsewhere: go-oidc's discovery, the decoders of JSON, and the check of a
-- token's other claims, of which the key set's `VerifySignature` is a part.
pub mod Trusted
use holos_substrate.Base.{
  ℕ, Bool, true, false, not, ◌-◌, ◌*◌, Option, none, some, List, [], ◌∷◌, Result, ok, err, ◌>>=◌,
  map_err, num_eq, if◌then◌else◌,
}
use holos_substrate.Base.Text.{Text, ◌==◌}
use holos_substrate.Base.Int.{ℤ, pos}
use holos_substrate.Authenticator.Claims.{Claims}
use holos_substrate.Authenticator.KeySet.{
  JsonWebKey, SigningKey, KeyError, rs256, verifiable_sig_algs, is_nil, usable_jwks_keys,
  reduce_jwks,
}
use holos_substrate.Authenticator.KeySet.Verify.{
  FetchError, request_failed, bad_status, unread, unparsed, no_usable_keys, unreduced, HttpClient,
  HttpResponse, Moment, HardenedKeySet,
}

-- A minute.
abbrev pub jwks_refresh_interval : ℤ
jwks_refresh_interval = pos (60 * 1000000000)

-- Thirty seconds.
abbrev discovery_timeout : ℤ
discovery_timeout = pos (30 * 1000000000)

-- 1 << 20.
abbrev max_jwks_body : ℕ
max_jwks_body = 1048576

-- `io.LimitReader`.
limited : ℕ → Text → Text
limited n [] = []
limited n (c ∷ body) = let rest = limited (n - 1) body in if num_eq n 0 then [] else c ∷ rest

pub record ProviderClaims : Type 0 where
  pub jwks_url : Text
  pub signing_algs : List Text

-- What `oidc.NewProvider` returns: the discovery document, by the outcome of decoding it.
pub record Provider : Type 0 where
  pub claims : Result Text ProviderClaims

pub record Oidc (K : Type 0) : Type 0 where
  pub new_provider : HttpClient → Text → Result Text Provider
  pub append_certs : Text → Bool
  pub unmarshal : Text → Result Text (List (JsonWebKey K))

-- `oidc.IDTokenVerifier`, by the arguments of `oidc.NewVerifier`.
pub record Verifier (K : Type 0) : Type 0 where
  pub issuer_url : Text
  pub client_id : Text
  pub key_set : HardenedKeySet K
  pub supported_signing_algs : List Text

pub data DiscoverError : Type 0 where
  bad_ca_bundle : DiscoverError
  undiscovered : Text → DiscoverError
  unread_claims : Text → DiscoverError
  no_jwks_uri : DiscoverError
  unfetched : FetchError → DiscoverError
  bad_jwks : KeyError → DiscoverError
  unparsed_static : Text → DiscoverError

unfoldable pub discovery_claims : Provider → Result DiscoverError ProviderClaims
discovery_claims provider = map_err unread_claims provider.claims >>= λ claims.
    if claims.jwks_url == [] then err no_jwks_uri else ok claims

unfoldable pub advertised_algs : ProviderClaims → List Text
advertised_algs claims = if is_nil claims.signing_algs then rs256 ∷ [] else claims.signing_algs

-- `append_certs` is `AppendCertsFromPEM` on the bundle.
unfoldable pub oidc_http_client : (Text → Bool) → Text → Result DiscoverError HttpClient
oidc_http_client append_certs [] = ok (record { timeout = discovery_timeout; root_cas = none })
oidc_http_client append_certs (c ∷ ca_bundle) =
    if not (append_certs (c ∷ ca_bundle))
    then err bad_ca_bundle
    else ok (record { timeout = discovery_timeout; root_cas = some (c ∷ ca_bundle) })

module _ {K : Type 0} where
  unfoldable pub new_static_key_set : List (JsonWebKey K) → Result KeyError (HardenedKeySet K)
  new_static_key_set key_set = reduce_jwks key_set true [] >>= λ keys.
      ok (record { keys = keys; refresh = none; last_refresh = none; min_refresh = pos 0 })

  unfoldable pub new_verifier : Text → Text → HardenedKeySet K → Verifier K
  new_verifier issuer_url client_id set = record {
    issuer_url = issuer_url;
    client_id = client_id;
    key_set = set;
    supported_signing_algs = verifiable_sig_algs;
  }

  unfoldable pub static_verifier : Oidc K → Text → Text → Text → Result DiscoverError (Verifier K)
  unfolding new_static_key_set new_verifier
  static_verifier o issuer_url client_id jwks =
      map_err unparsed_static (o.unmarshal jwks) >>= λ key_set.
      map_err bad_jwks (new_static_key_set key_set) >>= λ hardened.
      ok (new_verifier issuer_url client_id hardened)

  read_body : Oidc K → HttpResponse → Result FetchError (List (JsonWebKey K))
  unfolding limited
  read_body o response =
      if not (num_eq response.status 200)
      then err (bad_status response.status)
      else (map_err unread response.body >>= λ body.
          map_err unparsed (o.unmarshal (limited max_jwks_body body)))

  usable : List (JsonWebKey K) → Result FetchError (List (JsonWebKey K))
  unfolding usable_jwks_keys
  usable key_set = if is_nil (usable_jwks_keys key_set) then err no_usable_keys else ok key_set

  unfoldable pub fetch_jwks_from_url :
      Oidc K → (Text → Result Text HttpResponse) → Text → Result FetchError (List (JsonWebKey K))
  unfolding read_body usable
  fetch_jwks_from_url o get url = map_err request_failed (get url) >>= read_body o >>= usable

  -- The closure that refetches the keys.
  unfoldable pub refetch :
      Oidc K → HttpClient → ProviderClaims → Moment → Result FetchError (List (SigningKey K))
  unfolding fetch_jwks_from_url advertised_algs
  refetch o http claims w = fetch_jwks_from_url o (w.get http) claims.jwks_url >>= λ key_set.
      map_err unreduced (reduce_jwks key_set false (advertised_algs claims))

  unfoldable pub discovered_key_set :
      Oidc K → HttpClient → ProviderClaims → List (SigningKey K) → HardenedKeySet K
  unfolding refetch
  discovered_key_set o http claims keys = record {
    keys = keys;
    refresh = some (refetch o http claims);
    last_refresh = none;
    min_refresh = jwks_refresh_interval;
  }

  unfoldable pub discover_verifier :
      Oidc K → Moment → Text → Text → Text → Result DiscoverError (Verifier K)
  unfolding oidc_http_client discovery_claims fetch_jwks_from_url advertised_algs discovered_key_set
      new_verifier
  discover_verifier o w issuer_url client_id ca_bundle =
      oidc_http_client o.append_certs ca_bundle >>= λ http.
      map_err undiscovered (o.new_provider http issuer_url) >>= λ provider.
      discovery_claims provider >>= λ claims.
      map_err unfetched (fetch_jwks_from_url o (w.get http) claims.jwks_url) >>= λ key_set.
      map_err bad_jwks (reduce_jwks key_set false (advertised_algs claims)) >>= λ keys.
      ok (new_verifier issuer_url client_id (discovered_key_set o http claims keys))
