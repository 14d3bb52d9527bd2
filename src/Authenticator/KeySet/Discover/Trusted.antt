-- ===== src/Authenticator/KeySet/Discover/Trusted.antt =====
-- What the verifier of a discovered issuer accepts, over all the refetches of its keys.
use holos_substrate.Base.{
  ◌≡◌, ◌≢◌, inl, inr, refl, sym, ap, subst, ◌∙◌, false, some, List, [], ◌∷◌, arith, Result, ok,
  >>=-eq-ok, map_err, map_err-eq-ok, ok-injective, Has, All, Bool-cases, All-intro, All-of-Has,
}
use holos_substrate.Base.Text.{Text}
use holos_substrate.Authenticator.KeySet.{SigningKey, is_nil, verifiable_sig_algs, reduce_jwks}
use holos_substrate.Authenticator.KeySet.Bound.{IsBound, reduce_jwks-IsBound}
use holos_substrate.Authenticator.KeySet.Verify.{
  FetchError, unreduced, HttpClient, Jws, VerifyError, Moment, HardenedKeySet, verify_signature,
}
use holos_substrate.Authenticator.KeySet.Verify.Called.{kept, fetch_failed, fetched, called}
use holos_substrate.Authenticator.KeySet.Verify.Sound.{IsVerified, verify_signature-IsVerified}
use holos_substrate.Authenticator.KeySet.Verify.Refresh.{verify_all}
use holos_substrate.Authenticator.KeySet.Discover.{
  Oidc, Provider, ProviderClaims, Verifier, undiscovered, unfetched, bad_jwks, oidc_http_client,
  discovery_claims, advertised_algs, fetch_jwks_from_url, refetch, discovered_key_set, new_verifier,
  discover_verifier,
}

advertised_algs-some : (claims : ProviderClaims) → advertised_algs claims ≢ []
unfolding advertised_algs
advertised_algs-some claims h = elim (Bool-cases (is_nil claims.signing_algs)) [
  | inl e ↦ ground arith
  | inr e ↦ ground arith
]

module _ {K : Type 0} where
  -- The key is bound to advertised, asymmetric algorithms only.
  abbrev IsAdvertised : ProviderClaims → SigningKey K → Type 0
  IsAdvertised claims key =
      (alg : Text)
      → Has alg key.algs
      → Has alg (advertised_algs claims) × Has alg verifiable_sig_algs

  -- The key set is one of an issuer with the given discovery document.
  abbrev Follows : Oidc K → HttpClient → ProviderClaims → HardenedKeySet K → Type 0
  Follows o http claims set =
      All (IsAdvertised claims) set.keys × (set.refresh ≡ some (refetch o http claims))

  reduced-IsAdvertised :
      (claims : ProviderClaims) {keys : List (SigningKey K)} (key_set : _)
      → reduce_jwks key_set false (advertised_algs claims) ≡ ok keys
      → All (IsAdvertised claims) keys
  reduced-IsAdvertised claims {keys} key_set h =
      let (n, bound) = reduce_jwks-IsBound key_set false (advertised_algs claims) keys h in
      All-intro (IsAdvertised claims) keys (λ key m alg k.
        let i =
          (All-of-Has (IsBound key_set (advertised_algs claims)) keys bound m).authorized alg k in
        elim i.listed [
          | inl e ↦ elim (advertised_algs-some claims e) [ ]
          | inr l ↦ (l, i.asymmetric)
        ])

  refetch-IsAdvertised :
      (o : Oidc K) (http : HttpClient) (claims : ProviderClaims) (w : Moment)
      {keys : List (SigningKey K)}
      → refetch o http claims w ≡ ok keys
      → All (IsAdvertised claims) keys
  unfolding refetch
  refetch-IsAdvertised o http claims w h =
      let (key_set, e, q) = >>=-eq-ok (fetch_jwks_from_url o (w.get http) claims.jwks_url) _ h in
      reduced-IsAdvertised claims key_set (map_err-eq-ok unreduced _ q)

  verify_signature-Follows :
      (o : Oidc K) (http : HttpClient) (claims : ProviderClaims)
      (parse : Text → Result Text (Jws K)) (w : Moment) (set : HardenedKeySet K) (raw_token : Text)
      {r : Result VerifyError Text} {after : HardenedKeySet K}
      → Follows o http claims set
      → verify_signature parse w set raw_token ≡ (r, after)
      → Follows o http claims after
  verify_signature-Follows o http claims parse w set raw_token f h =
      elim (called parse w set raw_token h) [
        | kept a r ↦ subst (Follows o http claims) (sym a) f
        | fetch_failed refresh e e' m q a r ↦ subst (Follows o http claims) (sym a) f
        | fetched refresh keys m q a r ↦
            let same : refresh ≡ refetch o http claims = cc in
            let fresh =
              refetch-IsAdvertised o http claims w (
                ap (λ (g : Moment → Result FetchError (List (SigningKey K))). g w) (sym same)
                ∙ q) in
            subst (Follows o http claims) (sym a) (fresh, f.1)
      ]

  verify_all-Follows :
      (o : Oidc K) (http : HttpClient) (claims : ProviderClaims)
      (parse : Text → Result Text (Jws K)) (set : HardenedKeySet K) (calls : List (Moment × Text))
      → Follows o http claims set
      → Follows o http claims (verify_all parse set calls).1
  unfolding verify_all
  verify_all-Follows o http claims parse set [] f = f
  verify_all-Follows o http claims parse set ((w, raw_token) ∷ calls) f =
      verify_all-Follows o http claims parse (verify_signature parse w set raw_token).1 calls
        (verify_signature-Follows o http claims parse w set raw_token f refl)

  -- What `discover_verifier` starts from.
  discover_verifier-Follows :
      (o : Oidc K) (w : Moment) (issuer_url client_id ca_bundle : Text) {v : Verifier K}
      → discover_verifier o w issuer_url client_id ca_bundle ≡ ok v
      → (http : HttpClient) × (provider : Provider) × (claims : ProviderClaims) × (o.new_provider
            http issuer_url
          ≡ ok provider)
        × (discovery_claims provider ≡ ok claims)
        × Follows o http claims v.key_set
  unfolding discover_verifier discovered_key_set new_verifier
  discover_verifier-Follows o w issuer_url client_id ca_bundle h =
      let (http, e1, q1) = >>=-eq-ok (oidc_http_client o.append_certs ca_bundle) _ h in
      let (provider, e2, q2) =
        >>=-eq-ok (map_err undiscovered (o.new_provider http issuer_url)) _ q1 in
      let (claims, e3, q3) = >>=-eq-ok (discovery_claims provider) _ q2 in
      let (key_set, e4, q4) =
        >>=-eq-ok (map_err unfetched (fetch_jwks_from_url o (w.get http) claims.jwks_url)) _ q3 in
      let (keys, e5, q5) =
        >>=-eq-ok (map_err bad_jwks (reduce_jwks key_set false (advertised_algs claims))) _ q4 in
      (
        http,
        provider,
        claims,
        map_err-eq-ok undiscovered (o.new_provider http issuer_url) e2,
        e3,
        subst (λ (v : Verifier K). Follows o http claims v.key_set) (ok-injective q5)
            (reduced-IsAdvertised claims key_set (map_err-eq-ok bad_jwks _ e5), refl),
      )

  -- A payload that the key set of a discovered issuer returns, after any calls of
  -- `VerifySignature` on that key set and with whatever keys the issuer gave in the meantime, is of a
  -- token with one signature that a key of the set verifies: a key of the kid that the token names,
  -- and one that may use the token's algorithm. That algorithm is one the issuer's discovery
  -- document advertises, RS256 where it advertises none, and is asymmetric: neither "none" nor an
  -- HMAC one.
  pub discover_verifier-IsVerified :
      (o : Oidc K) (w : Moment) (issuer_url client_id ca_bundle : Text) (v : Verifier K)
      (parse : Text → Result Text (Jws K)) (calls : List (Moment × Text)) (w' : Moment)
      (raw_token payload : Text) (after : HardenedKeySet K)
      → discover_verifier o w issuer_url client_id ca_bundle ≡ ok v
      → verify_signature parse w' (verify_all parse v.key_set calls).1 raw_token
        ≡ (ok payload, after)
      → (http : HttpClient) × (provider : Provider) × (claims : ProviderClaims) × (o.new_provider
            http issuer_url
          ≡ ok provider)
        × (discovery_claims provider ≡ ok claims)
        × (i : IsVerified parse after.keys raw_token payload) × Has i.header.algorithm
            (advertised_algs claims)
        × Has i.header.algorithm verifiable_sig_algs
  discover_verifier-IsVerified o w issuer_url client_id ca_bundle v parse calls w' raw_token payload
        after d h =
      let (http, provider, claims, e1, e2, f) =
        discover_verifier-Follows o w issuer_url client_id ca_bundle d in
      let set = (verify_all parse v.key_set calls).1 in
      let (bound, _) =
        verify_signature-Follows o http claims parse w' set raw_token
          (verify_all-Follows o http claims parse v.key_set calls f) h in
      let i = verify_signature-IsVerified parse w' set raw_token payload after h in
      let (listed, asymmetric) =
        All-of-Has (IsAdvertised claims) after.keys bound i.trusted i.header.algorithm
          i.authorized in
      (http, provider, claims, e1, e2, i, listed, asymmetric)
