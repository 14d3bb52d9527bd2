-- ===== src/Tests/Signing.antt =====
-- The theorems about internal/authenticator/oidc.go at a JWKS of two keys: an RSA one and one for
-- encryption. A key's material is a text.
use holos_substrate.Base.{
  ◌≡◌, ◌≢◌, refl, ap, true, false, Option, none, some, List, [], ◌∷◌, Result, ok, Has, here, All,
  map_err,
}
use holos_substrate.Base.Text.{Text, text, ◌==◌}
use holos_substrate.Base.Int.{ℤ, pos, ◌-ℤ◌}
use holos_substrate.Authenticator.KeySet.{
  rsa, JsonWebKey, SigningKey, rs256, reduce_jwks, verifiable_sig_algs, reduce_keys,
  usable_jwks_keys, reduce_key, required_keys, contains_sig_alg,
}
use holos_substrate.Authenticator.KeySet.Bound.{IsBound, reduce_jwks-IsBound}
use holos_substrate.Authenticator.KeySet.Verify.{
  Header, Jws, Moment, HardenedKeySet, HttpClient, FetchError, other_kid, throttled,
  verify_signature, verify_once,
}
use holos_substrate.Authenticator.KeySet.Verify.Sound.{IsVerified, IsSigned}
use holos_substrate.Authenticator.KeySet.Verify.Refresh.{
  verify_all, verify_all-throttled, verify_signature-rotated,
}
use holos_substrate.Authenticator.KeySet.Discover.{
  Oidc, Provider, ProviderClaims, Verifier, discovery_claims, advertised_algs, discovered_key_set,
  new_verifier, discover_verifier,
}
use holos_substrate.Authenticator.KeySet.Discover.Trusted.{discover_verifier-IsVerified}

abbrev key_of : Text → Text → JsonWebKey Text
key_of id key_use = record {
  key_id = id;
  algorithm = [];
  key_use = key_use;
  valid = true;
  public = rsa id;
}

abbrev jwks : List (JsonWebKey Text)
jwks = key_of (text "new") (text "sig") ∷ key_of (text "enc") (text "enc") ∷ []

abbrev new_key : SigningKey Text
new_key = record { key_id = text "new"; algs = rs256 ∷ []; pub_key = rsa (text "new") }

abbrev old_key : SigningKey Text
old_key = record { key_id = text "old"; algs = rs256 ∷ []; pub_key = rsa (text "old") }

test_reduce : reduce_jwks jwks true [] ≡ ok (new_key ∷ [])
unfolding reduce_jwks reduce_keys usable_jwks_keys reduce_key required_keys
test_reduce = refl

test_reduce_advertised : reduce_jwks jwks false (rs256 ∷ text "ES256" ∷ []) ≡ ok (new_key ∷ [])
unfolding reduce_jwks reduce_keys usable_jwks_keys reduce_key required_keys
test_reduce_advertised = refl

reduce_jwks-IsBound_example :
    ◌≢◌ {A = List (SigningKey Text)} (new_key ∷ []) [] × All (IsBound jwks []) (new_key ∷ [])
reduce_jwks-IsBound_example = reduce_jwks-IsBound jwks true [] (new_key ∷ []) test_reduce

abbrev header : Header
header = record { key_id = text "new"; algorithm = rs256 }

abbrev claimed : Text
claimed = text "claims"

abbrev jws : Jws Text
jws = record { signatures = header ∷ []; verify = λ _. ok claimed }

abbrev parse : Text → Result Text (Jws Text)
parse _ = ok jws

abbrev issuer : Moment → Result FetchError (List (SigningKey Text))
issuer _ = ok (new_key ∷ [])

-- A minute in nanoseconds is the interval.
abbrev stale : HardenedKeySet Text
stale = record {
  keys = old_key ∷ [];
  refresh = some issuer;
  last_refresh = none;
  min_refresh = pos 60000000000;
}

abbrev fresh : HardenedKeySet Text
fresh = record stale { keys = new_key ∷ []; last_refresh = some (pos 7) }

abbrev moment : Moment
moment = record {
  checked_at = pos 5;
  fetched_at = pos 7;
  get = λ _ _. ok (record { status = 200; body = ok [] });
}

test_refetch : verify_signature parse moment stale [] ≡ (ok claimed, fresh)
unfolding verify_signature
test_refetch = refl

fresh-not-stale : fresh ≢ stale
fresh-not-stale e =
    let q : ◌≡◌ {A = Option ℤ} (some (pos 7)) none = ap HardenedKeySet.last_refresh e in cc

verify_all-throttled_example :
    verify_all parse fresh ((moment, []) ∷ (moment, text "t") ∷ [])
    ≡ (ok claimed ∷ ok claimed ∷ [], fresh)
unfolding ◌-ℤ◌ verify_once
verify_all-throttled_example =
    verify_all-throttled parse moment stale fresh [] (ok claimed)
      ((moment, []) ∷ (moment, text "t") ∷ []) test_refetch fresh-not-stale (refl, (refl, tt))

signed : IsSigned jws header claimed new_key
unfolding other_kid contains_sig_alg
signed = record { named = refl; allowed = refl; signed = refl }

test_unknown : All (λ (loaded : SigningKey Text). other_kid header loaded ≡ true) (old_key ∷ [])
unfolding other_kid
test_unknown = (refl, tt)

test_due : throttled (pos 5) none (pos 60000000000) ≡ false
unfolding throttled
test_due = refl

verify_signature-rotated_example :
    (payload : Text) × (after : HardenedKeySet Text) × (verify_signature parse moment stale []
      ≡ (ok payload, after))
    × (after.keys ≡ new_key ∷ [])
verify_signature-rotated_example =
    verify_signature-rotated parse moment stale issuer [] jws header (new_key ∷ []) new_key claimed
      refl refl test_unknown refl test_due refl (here refl) signed

abbrev claims : ProviderClaims
claims = record { jwks_url = text "https://issuer/jwks"; signing_algs = [] }

abbrev oidc : Oidc Text
oidc = record {
  new_provider = λ _ _. ok (record { claims = ok claims });
  append_certs = λ _. true;
  unmarshal = λ _. ok jwks;
}

abbrev http : HttpClient
http = record { timeout = pos 30000000000; root_cas = none }

abbrev discovered : HardenedKeySet Text
discovered = discovered_key_set oidc http claims (new_key ∷ [])

abbrev verifier : Verifier Text
verifier = new_verifier (text "https://issuer") (text "holos") discovered

test_discover :
    discover_verifier oidc moment (text "https://issuer") (text "holos") [] ≡ ok verifier
unfolding discover_verifier map_err ◌==◌ reduce_jwks reduce_keys reduce_key required_keys
test_discover = refl

test_verify :
    verify_signature parse moment (verify_all parse discovered ((moment, []) ∷ [])).1 (text "t")
    ≡ (ok claimed, discovered)
unfolding verify_signature verify_all discovered_key_set
test_verify = refl

discover_verifier-IsVerified_example :
    (h : HttpClient) × (provider : Provider) × (c : ProviderClaims) × (oidc.new_provider h
        (text "https://issuer")
      ≡ ok provider)
    × (discovery_claims provider ≡ ok c)
    × (i : IsVerified parse discovered.keys (text "t") claimed) × Has i.header.algorithm
        (advertised_algs c)
    × Has i.header.algorithm verifiable_sig_algs
unfolding new_verifier discovered_key_set
discover_verifier-IsVerified_example =
    discover_verifier-IsVerified oidc moment (text "https://issuer") (text "holos") [] verifier
      parse ((moment, []) ∷ []) moment (text "t") claimed discovered test_discover test_verify
