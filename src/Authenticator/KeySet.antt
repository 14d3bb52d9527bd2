-- ===== src/Authenticator/KeySet.antt =====
-- internal/authenticator/oidc.go: JSON Web Keys reduced to the signing keys that are trusted. `K` is
-- the material of a public key. A `JsonWebKey` holds what the code reads of go-jose's one: its
-- fields, the answer of `Valid()` and the key of `Public()`.
pub mod Bound
pub mod Verify
pub mod Discover
use holos_substrate.Base.{
  ℕ, Bool, true, false, not, ◌||◌, Option, none, some, List, [], ◌∷◌, map, Result, ok, err, ◌>>=◌,
  if◌then◌else◌,
}
use holos_substrate.Base.Text.{Text, text, ◌==◌}

pub data Curve : Type 0 where
  p256 : Curve
  p384 : Curve
  p521 : Curve
  other_curve : Curve

-- A Go `crypto.PublicKey` by its dynamic type.
pub data PublicKey (K : Type 0) : Type 0 where
  rsa : K → PublicKey K
  ecdsa : Curve → K → PublicKey K
  ed25519 : K → PublicKey K
  other_key : PublicKey K

pub record JsonWebKey (K : Type 0) : Type 0 where
  pub key_id : Text
  pub algorithm : Text
  pub key_use : Text
  pub valid : Bool
  pub public : PublicKey K

pub record SigningKey (K : Type 0) : Type 0 where
  pub key_id : Text
  pub algs : List Text
  pub pub_key : PublicKey K

pub data KeyError : Type 0 where
  unsupported_key_type : Text → KeyError
  incompatible_alg : Text → Text → KeyError
  no_usable_signing_keys : KeyError

abbrev pub rs256 : Text
rs256 = text "RS256"

abbrev pub rsa_algs : List Text
rsa_algs = rs256 ∷ text "RS384" ∷ text "RS512" ∷ text "PS256" ∷ text "PS384" ∷ text "PS512" ∷ []

unfoldable pub verifiable_sig_algs : List Text
verifiable_sig_algs =
    rs256
    ∷ text "RS384"
    ∷ text "RS512"
    ∷ text "PS256"
    ∷ text "PS384"
    ∷ text "PS512"
    ∷ text "ES256"
    ∷ text "ES384"
    ∷ text "ES512"
    ∷ text "EdDSA"
    ∷ []

unfoldable pub key_algs : {K : Type 0} → PublicKey K → List Text
key_algs (rsa k) = rsa_algs
key_algs (ecdsa p256 k) = text "ES256" ∷ []
key_algs (ecdsa p384 k) = text "ES384" ∷ []
key_algs (ecdsa p521 k) = text "ES512" ∷ []
key_algs (ecdsa other_curve k) = []
key_algs (ed25519 k) = text "EdDSA" ∷ []
key_algs other_key = []

unfoldable pub contains_string : List Text → Text → Bool
contains_string [] s = false
contains_string (x ∷ xs) s = x == s || contains_string xs s

unfoldable pub contains_sig_alg : List Text → Text → Bool
contains_sig_alg [] alg = false
contains_sig_alg (a ∷ algs) alg = a == alg || contains_sig_alg algs alg

unfoldable pub intersect_strings : List Text → List Text → List Text
intersect_strings [] ys = []
intersect_strings (x ∷ xs) ys =
    let rest = intersect_strings xs ys in if contains_string ys x then x ∷ rest else rest

-- `jose.SignatureAlgorithm` is a string.
abbrev to_sig_algs : List Text → List Text
to_sig_algs = map (λ (s : Text). s)

abbrev pub is_nil {ℓ} : {A : Type ℓ} → List A → Bool
is_nil [] = true
is_nil (x ∷ xs) = false

-- `none` is the loop's `continue`.
skip_or : Bool → KeyError → Result KeyError (Option (List Text))
skip_or strict e = if strict then err e else ok none

-- What the advertised algorithms leave of a key's own. `none` is the loop's `continue`.
advertised_of : List Text → List Text → Option (List Text)
unfolding intersect_strings
advertised_of [] algs = some algs
advertised_of (a ∷ advertised) algs =
    let common = intersect_strings algs (a ∷ advertised) in
    if is_nil common then none else some common

module _ {K : Type 0} where
  unfoldable pub usable_jwks_keys : List (JsonWebKey K) → List (JsonWebKey K)
  usable_jwks_keys [] = []
  usable_jwks_keys (key ∷ keys) =
      let rest = usable_jwks_keys keys in if key.valid then key ∷ rest else rest

  -- The algorithms of a key before the advertised ones are looked at, from those of its type.
  own_algs : Bool → List Text → JsonWebKey K → List Text → Result KeyError (Option (List Text))
  unfolding skip_or contains_string ◌==◌
  own_algs strict advertised key [] = skip_or strict (unsupported_key_type key.key_id)
  own_algs strict advertised key (canonical ∷ others) =
      if not (key.algorithm == [])
      then (if contains_string (canonical ∷ others) key.algorithm
          then ok (some (key.algorithm ∷ []))
          else skip_or strict (incompatible_alg key.key_id key.algorithm))
      else if not (is_nil advertised)
      then ok (some (canonical ∷ others))
      else ok (some (canonical ∷ []))

  trusted_key : JsonWebKey K → List Text → SigningKey K
  trusted_key key algs = record {
    key_id = key.key_id;
    algs = to_sig_algs algs;
    pub_key = key.public;
  }

  bind_key : List Text → JsonWebKey K → Option (List Text) → Option (SigningKey K)
  unfolding advertised_of trusted_key
  bind_key advertised key none = none
  bind_key advertised key (some algs) = elim (advertised_of advertised algs) [
    | none ↦ none
    | some common ↦ some (trusted_key key common)
  ]

  -- A key for signatures has the use "sig" or none.
  unfoldable pub is_signing : JsonWebKey K → Bool
  is_signing key = key.key_use == [] || key.key_use == text "sig"

  -- One round of the loop of `reduceJWKS`.
  unfoldable pub reduce_key :
      Bool → List Text → JsonWebKey K → Result KeyError (Option (SigningKey K))
  unfolding own_algs bind_key is_signing key_algs
  reduce_key strict advertised key =
      if is_signing key
      then own_algs strict advertised key (key_algs key.public)
        >>= (λ algs. ok (bind_key advertised key algs))
      else ok none

  append_key : Option (SigningKey K) → List (SigningKey K) → List (SigningKey K)
  append_key none keys = keys
  append_key (some key) keys = key ∷ keys

  unfoldable pub reduce_keys :
      Bool → List Text → List (JsonWebKey K) → Result KeyError (List (SigningKey K))
  unfolding append_key
  reduce_keys strict advertised [] = ok []
  reduce_keys strict advertised (key ∷ keys) = reduce_key strict advertised key >>= λ o.
      reduce_keys strict advertised keys >>= λ rest. ok (append_key o rest)

  unfoldable pub required_keys : List (SigningKey K) → Result KeyError (List (SigningKey K))
  required_keys [] = err no_usable_signing_keys
  required_keys (key ∷ keys) = ok (key ∷ keys)

  unfoldable pub reduce_jwks :
      List (JsonWebKey K) → Bool → List Text → Result KeyError (List (SigningKey K))
  reduce_jwks key_set strict advertised =
      reduce_keys strict advertised (usable_jwks_keys key_set) >>= required_keys
