-- ===== src/Authenticator/KeySet/Verify/Sound.antt =====
-- What a payload that `verifySignature` returns proves.
use holos_substrate.Base.{
  ◌≡◌, ◌⊎◌, inl, inr, refl, sym, ap, ◌∙◌, true, false, some, List, [], ◌∷◌, arith, Result, ok,
  Bool-cases, Option-cases, Result-cases, Has, here, there,
}
use holos_substrate.Base.Text.{Text, ◌==◌, ==_iff}
use holos_substrate.Authenticator.KeySet.{SigningKey, contains_sig_alg}
use holos_substrate.Authenticator.KeySet.Verify.{
  Header, Jws, Moment, HardenedKeySet, Search, other_kid, search_keys, conclude, verify_parsed,
  verify_once, verify_signature,
}
use holos_substrate.Authenticator.KeySet.Verify.Called.{plain, kept, fetch_failed, fetched, called}

Has-of-contains_sig_alg : (xs : List Text) (s : Text) → contains_sig_alg xs s ≡ true → Has s xs
unfolding contains_sig_alg
Has-of-contains_sig_alg [] s h = cc
Has-of-contains_sig_alg (x ∷ xs) s h = elim (Bool-cases (x == s)) [
  | inl e ↦ here (sym ((==_iff x s).0 e))
  | inr e ↦ there (Has-of-contains_sig_alg xs s (ground arith))
]

conclude-ok :
    (header : Header) (found : Search) {payload : Text}
    → conclude header found ≡ ok payload
    → found.payload ≡ some payload
unfolding conclude
conclude-ok header found h = elim (Option-cases found.payload) [
  | inl e ↦ elim (Bool-cases found.matched_kid) [ inl m ↦ ground arith | inr m ↦ ground arith ]
  | inr (p, e) ↦ ground arith
]

names_it_lem :
    {K : Type 0} (header : Header) (key : SigningKey K)
    → other_kid header key ≡ false
    → (header.key_id ≡ []) ⊎ (header.key_id ≡ key.key_id)
unfolding other_kid
names_it_lem header key h = elim (Bool-cases (header.key_id == [])) [
  | inl e ↦ inl ((==_iff header.key_id []).0 e)
  | inr e ↦ inr (sym ((==_iff key.key_id header.key_id).0 (ground arith)))
]

module _ {K : Type 0} where
  -- The token that `parse` accepts has one signature, and the key of `keys` verifies it.
  pub record IsVerified (parse : Text → Result Text (Jws K)) (keys : List (SigningKey K))
      (raw_token payload : Text) : Type 0 where
    pub jws : Jws K
    pub header : Header
    pub key : SigningKey K
    pub parsed : parse raw_token ≡ ok jws
    pub one_signature : jws.signatures ≡ header ∷ []
    pub trusted : Has key keys
    pub names_it : (header.key_id ≡ []) ⊎ (header.key_id ≡ key.key_id)
    pub authorized : Has header.algorithm key.algs
    pub verified : jws.verify key.pub_key ≡ ok payload

  -- The same for one header of a token that is parsed.
  pub record IsSigned (jws : Jws K) (header : Header) (payload : Text) (key : SigningKey K)
      : Type 0 where
    pub named : other_kid header key ≡ false
    pub allowed : contains_sig_alg key.algs header.algorithm ≡ true
    pub signed : jws.verify key.pub_key ≡ ok payload

  search_keys-IsSigned :
      (jws : Jws K) (header : Header) (keys : List (SigningKey K)) {payload : Text}
      → (search_keys jws header keys).payload ≡ some payload
      → (key : SigningKey K) × Has key keys × IsSigned jws header payload key
  unfolding search_keys
  search_keys-IsSigned jws header [] h = ground arith
  search_keys-IsSigned jws header (key ∷ keys) {payload} h =
      let later : (search_keys jws header keys).payload ≡ some payload
          → (key' : SigningKey K) × Has key' (key ∷ keys) × IsSigned jws header payload key' =
        λ e. let (k, m, i) = search_keys-IsSigned jws header keys e in (k, there m, i) in
      elim (Bool-cases (other_kid header key)) [
        | inl o ↦ later (ground arith)
        | inr o ↦ elim (Bool-cases (contains_sig_alg key.algs header.algorithm)) [
          | inr a ↦ later (ground arith)
          | inl a ↦ elim (Result-cases (jws.verify key.pub_key)) [
            | inr (e, v) ↦ later (ground arith)
            | inl (p, v) ↦ (
              key,
              here refl,
              record { named = o; allowed = a; signed = v ∙ ap ok (ground arith) },
            )
          ]
        ]
      ]

  verify_parsed-ok :
      (keys : List (SigningKey K)) (jws : Jws K) (signatures : List Header) {payload : Text}
      → jws.signatures ≡ signatures
      → verify_parsed keys jws ≡ ok payload
      → (header : Header) × (signatures ≡ header ∷ [])
        × ((search_keys jws header keys).payload ≡ some payload)
  unfolding verify_parsed
  verify_parsed-ok keys jws [] e h = ground arith
  verify_parsed-ok keys jws (header ∷ []) e h =
      (header, refl, conclude-ok header (search_keys jws header keys) (ground arith))
  verify_parsed-ok keys jws (header ∷ other ∷ rest) e h = ground arith

  pub verify_once-IsVerified :
      (parse : Text → Result Text (Jws K)) (keys : List (SigningKey K)) (raw_token : Text)
      {payload : Text}
      → verify_once parse keys raw_token ≡ ok payload
      → IsVerified parse keys raw_token payload
  unfolding verify_once
  verify_once-IsVerified parse keys raw_token h = elim (Result-cases (parse raw_token)) [
    | inr (e, p) ↦ ground arith
    | inl (jws, p) ↦
        let (header, one, found) = verify_parsed-ok keys jws jws.signatures refl (ground arith) in
        let (key, m, i) = search_keys-IsSigned jws header keys found in
        record {
          jws = jws;
          header = header;
          key = key;
          parsed = p;
          one_signature = one;
          trusted = m;
          names_it = names_it_lem header key i.named;
          authorized = Has-of-contains_sig_alg key.algs header.algorithm i.allowed;
          verified = i.signed;
        }
  ]

  plain-IsVerified :
      (parse : Text → Result Text (Jws K)) (keys : List (SigningKey K)) (raw_token : Text)
      {payload : Text}
      → ok payload ≡ plain (verify_once parse keys raw_token)
      → IsVerified parse keys raw_token payload
  plain-IsVerified parse keys raw_token h = elim (Result-cases (verify_once parse keys raw_token)) [
    | inl (p, e) ↦ verify_once-IsVerified parse keys raw_token (e ∙ ap ok (ground arith))
    | inr (x, e) ↦ ground arith
  ]

  pub verify_signature-IsVerified :
      (parse : Text → Result Text (Jws K)) (w : Moment) (set : HardenedKeySet K) (raw_token : Text)
      (payload : Text) (after : HardenedKeySet K)
      → verify_signature parse w set raw_token ≡ (ok payload, after)
      → IsVerified parse after.keys raw_token payload
  verify_signature-IsVerified parse w set raw_token payload after h =
      elim (called parse w set raw_token h) [
        | kept a r ↦ rw a (plain-IsVerified parse set.keys raw_token r)
        | fetch_failed refresh e e' m f a r ↦ ground arith
        | fetched refresh keys m f a r ↦ rw a (plain-IsVerified parse keys raw_token r)
      ]
