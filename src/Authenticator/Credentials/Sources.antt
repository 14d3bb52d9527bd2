-- ===== src/Authenticator/Credentials/Sources.antt =====
-- Where the impersonator credential of an allowed request comes from.
use holos_substrate.Base.{
  ◌≡◌, ◌≢◌, ◌↔◌, ◌⊎◌, inl, inr, Option, none, some, [], ok, arith, map_err-eq-ok, map_err-ok,
  Option-cases, Result-cases,
}
use holos_substrate.Base.Text.{Text, ==_iff}
use holos_substrate.Base.Dict.{Dict, lookup}
use holos_substrate.Authenticator.Entry.{Entry, SecretReference, ServiceAccountReference}
use holos_substrate.Authenticator.TokenManager.{Call, token}
use holos_substrate.Authenticator.Credentials.{
  not_found, transient, Reader, TokenManager, text_or, credential_key_token,
  default_credentials_secret_name, token_of, value_of, expiration_of, resolve_impersonator_token,
  mint_credential, resolve_credential,
}

-- The Secret that the reference names, or the default one, holds the token under the key that the
-- reference names, or the default one.
pub record IsStored (reader : Reader) (namespace : Text) (ref : SecretReference) (t : Text)
    : Type 0 where
  pub secret : Dict Text
  pub read : reader namespace (text_or ref.name default_credentials_secret_name) ≡ ok secret
  pub held : lookup (text_or ref.key credential_key_token) secret ≡ some t
  pub nonempty : t ≢ []

-- The token manager hands out the token for the ServiceAccount.
pub record IsMintedFor (w : Call) (tm : Option TokenManager) (ref : ServiceAccountReference)
    (t : Text) : Type 0 where
  pub manager : TokenManager
  pub wired : tm ≡ some manager
  pub handed :
      (token manager.fraction manager.namespace w ref.name ref.audience
        (expiration_of ref.expiration_seconds)
        manager.cache).0
      ≡ ok t

token_of-ok :
    (namespace name key : Text) (o : Option Text) (t : Text)
    → token_of namespace name key (value_of o) ≡ ok t
    → (o ≡ some t) × (t ≢ [])
unfolding token_of value_of
token_of-ok namespace name key none t h = absurd (ground (arith, ==_iff [] []))
token_of-ok namespace name key (some v) t h = ground (arith, ==_iff v [])

module _ (reader : Reader) (namespace : Text) (ref : SecretReference) (t : Text) where
  stored : resolve_impersonator_token reader namespace ref ≡ ok t → IsStored reader namespace ref t
  unfolding resolve_impersonator_token
  stored h =
      elim (Result-cases (reader namespace (text_or ref.name default_credentials_secret_name))) [
        | inr (not_found, e) ↦ absurd (ground (arith, e))
        | inr (transient x, e) ↦ absurd (ground (arith, e))
        | inl (secret, e) ↦
            let key = text_or ref.key credential_key_token in
            let (held, nonempty) =
              token_of-ok namespace (text_or ref.name default_credentials_secret_name) key
                (lookup key secret) t (ground (arith, e)) in
            record { secret = secret; read = e; held = held; nonempty = nonempty }
      ]

  resolved :
      IsStored reader namespace ref t → resolve_impersonator_token reader namespace ref ≡ ok t
  unfolding resolve_impersonator_token token_of value_of
  resolved s = ground (arith, s.read, s.held, s.nonempty, ==_iff t [])

module _ (w : Call) (tm : Option TokenManager) (ref : ServiceAccountReference) (t : Text) where
  minted_for :
      (m : TokenManager) → tm ≡ some m → (mint_credential m w ref).0 ≡ ok t → IsMintedFor w tm ref t
  unfolding mint_credential
  minted_for m wired h = record { manager = m; wired = wired; handed = map_err-eq-ok _ _ h }

  mint-of-IsMintedFor : (i : IsMintedFor w tm ref t) → (mint_credential i.manager w ref).0 ≡ ok t
  unfolding mint_credential
  mint-of-IsMintedFor i = map_err-ok _ _ i.handed

abbrev Source : Reader → Call → Option TokenManager → Text → Entry → Text → Type 0
Source reader w tm namespace entry t =
    ((entry.service_account_ref ≡ none) × IsStored reader namespace entry.credentials_secret_ref t)
    ⊎ ((ref : ServiceAccountReference) × (entry.service_account_ref ≡ some ref)
        × IsMintedFor w tm ref t)

module _ (reader : Reader) (w : Call) (tm : Option TokenManager) (namespace : Text) (entry : Entry)
    (t : Text) where
  source :
      (resolve_credential reader w tm namespace entry).0 ≡ ok t
      → Source reader w tm namespace entry t
  unfolding resolve_credential
  source h = elim (Option-cases entry.service_account_ref) [
    | inl e ↦ inl (e, stored reader namespace entry.credentials_secret_ref t (ground (arith, e, h)))
    | inr (ref, e) ↦ elim (Option-cases tm) [
      | inl unwired ↦ absurd (ground (arith, e, unwired, h))
      | inr (m, q) ↦ inr (ref, e, minted_for w tm ref t m q (ground (arith, e, q, h)))
    ]
  ]

  credential_of_Source :
      Source reader w tm namespace entry t
      → (resolve_credential reader w tm namespace entry).0 ≡ ok t
  unfolding resolve_credential
  credential_of_Source (inl (e, s)) =
      ground (arith, e, resolved reader namespace entry.credentials_secret_ref t s)
  credential_of_Source (inr (ref, e, i)) =
      ground (arith, e, i.wired, mint-of-IsMintedFor w tm ref t i)

-- A credential is resolved exactly if the backend names no ServiceAccount and its Secret holds a
-- non-empty token under the configured key, or it names one, a token manager is wired and hands
-- out a token for it. A ServiceAccount rules the Secret out, also if minting fails.
pub resolve_credential_iff :
    (reader : Reader) (w : Call) (tm : Option TokenManager) (namespace : Text) (entry : Entry)
    (t : Text)
    → ((resolve_credential reader w tm namespace entry).0 ≡ ok t) ↔ (
        ((entry.service_account_ref ≡ none)
          × IsStored reader namespace entry.credentials_secret_ref t)
        ⊎ ((ref : ServiceAccountReference) × (entry.service_account_ref ≡ some ref)
            × IsMintedFor w tm ref t))
resolve_credential_iff reader w tm namespace entry t =
    (source reader w tm namespace entry t, credential_of_Source reader w tm namespace entry t)
