-- ===== src/Authenticator/TokenManager.antt =====
-- internal/authenticator/token_manager.go: ServiceAccount tokens, minted, cached and rotated. Times
-- and durations are nanoseconds. `Call` is what one call of `Token` meets outside: the clock when
-- the cache is read, the clock when a mint begins, and the answer of the TokenRequest API.
pub mod Rotation
pub mod Calls
use holos_substrate.Base.{
  ℕ, Bool, true, false, not, ◌&&◌, ◌*◌, Option, none, some, List, [], ◌∷◌, Result, ok, err, num_eq,
  if◌then◌else◌,
}
use holos_substrate.Base.Text.{Text, text, ◌==◌}
use holos_substrate.Base.Int.{ℤ, pos, negsuc, ◌-ℤ◌, ltb_ℤ, int_eq}

abbrev pub default_token_expiration_seconds : ℤ
default_token_expiration_seconds = pos 3600

abbrev pub default_impersonator_service_account_name : Text
default_impersonator_service_account_name = text "holos-authenticator-impersonator"

-- Five minutes.
abbrev pub token_rotation_margin : ℤ
token_rotation_margin = pos (300 * 1000000000)

pub record CachedToken : Type 0 where
  pub token : Text
  pub expires_at : ℤ
  pub lifetime : ℤ

-- `fraction` is the product of a duration with the float `tokenRotationFraction`.
unfoldable pub rotation_margin : (ℤ → ℤ) → ℤ → ℤ
rotation_margin fraction lifetime =
    if ltb_ℤ (fraction lifetime) token_rotation_margin
    then fraction lifetime
    else token_rotation_margin

unfoldable pub needs_refresh : (ℤ → ℤ) → CachedToken → ℤ → Bool
unfolding rotation_margin ◌-ℤ◌
needs_refresh fraction c t = not (ltb_ℤ t (c.expires_at -ℤ rotation_margin fraction c.lifetime))

pub record TokenKey : Type 0 where
  pub name : Text
  pub audience : Text
  pub expiration_seconds : ℤ

unfoldable pub same_key : TokenKey → TokenKey → Bool
unfolding ◌==◌
same_key a b =
    a.name == b.name
    && (a.audience == b.audience && int_eq a.expiration_seconds b.expiration_seconds)

abbrev pub Cache : Type 0
Cache = List (TokenKey × CachedToken)

unfoldable pub find_token : TokenKey → Cache → Option CachedToken
unfolding same_key
find_token k [] = none
find_token k ((j, c) ∷ cache) = if same_key j k then some c else find_token k cache

unfoldable pub put_token : TokenKey → CachedToken → Cache → Cache
unfolding same_key
put_token k c [] = (k, c) ∷ []
put_token k c ((j, d) ∷ cache) =
    let rest = put_token k c cache in if same_key j k then (k, c) ∷ cache else (j, d) ∷ rest

-- `authenticationv1.TokenRequestSpec`, with no bound object.
pub record TokenRequestSpec : Type 0 where
  pub audiences : List Text
  pub expiration_seconds : ℤ

pub record TokenRequestStatus : Type 0 where
  pub token : Text
  pub expiration_timestamp : ℤ

pub record Call : Type 0 where
  pub read_at : ℤ
  pub minted_at : ℤ
  -- namespace and name of the ServiceAccount, and the request
  pub create : Text → Text → TokenRequestSpec → Result Text TokenRequestStatus

pub data MintError : Type 0 where
  minting : Text → Text → Text → MintError
  empty_token : Text → Text → MintError

unfoldable pub token_request : TokenKey → TokenRequestSpec
unfolding ◌==◌
token_request key = record {
  audiences = if key.audience == [] then [] else key.audience ∷ [];
  expiration_seconds = key.expiration_seconds;
}

checked : Text → TokenKey → ℤ → TokenRequestStatus → Result MintError CachedToken
checked namespace key minted_at status =
    if status.token == []
    then err (empty_token namespace key.name)
    else ok (record {
      token = status.token;
      expires_at = status.expiration_timestamp;
      lifetime = status.expiration_timestamp -ℤ minted_at;
    })

unfoldable pub mint : Text → Call → TokenKey → Result MintError CachedToken
unfolding checked
mint namespace w key = elim (w.create namespace key.name (token_request key)) [
  | err e ↦ err (minting namespace key.name e)
  | ok status ↦ checked namespace key w.minted_at status
]

unfoldable pub token_key : Text → Text → ℤ → TokenKey
unfolding ◌==◌
token_key name audience expiration_seconds = record {
  name = if name == [] then default_impersonator_service_account_name else name;
  audience = audience;
  expiration_seconds =
      if ltb_ℤ (pos 0) expiration_seconds
      then expiration_seconds
      else default_token_expiration_seconds;
}

-- The cached token, if it is still good at the time of the call.
unfoldable pub good_token : (ℤ → ℤ) → ℤ → Option CachedToken → Option CachedToken
good_token fraction t none = none
good_token fraction t (some c) = if needs_refresh fraction c t then none else some c

store_minted : TokenKey → Result MintError CachedToken → Cache → Result MintError Text × Cache
store_minted key (err e) cache = (err e, cache)
store_minted key (ok c) cache = (ok c.token, put_token key c cache)

-- `Token`, from the cache before the call to the cache after it.
unfoldable pub token :
    (ℤ → ℤ) → Text → Call → Text → Text → ℤ → Cache → Result MintError Text × Cache
unfolding store_minted
token fraction namespace w name audience expiration_seconds cache =
    let key = token_key name audience expiration_seconds in
    elim (good_token fraction w.read_at (find_token key cache)) [
      | some c ↦ (ok c.token, cache)
      | none ↦ store_minted key (mint namespace w key) cache
    ]
