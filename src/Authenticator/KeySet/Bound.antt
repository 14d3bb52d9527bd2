-- ===== src/Authenticator/KeySet/Bound.antt =====
-- What `reduceJWKS` binds a trusted key to.
use holos_substrate.Base.{
  ◌≡◌, ◌≢◌, ◌⊎◌, inl, inr, refl, sym, ap, ◌∙◌, subst, Bool, true, false, Option, none, some, List,
  [], ◌∷◌, arith, ok, if◌then◌else◌, >>=-eq-ok, ok-injective, Bool-cases, Option-cases, Has, here,
  there, All, All-of-Has,
}
use holos_substrate.Base.Text.{Text, ◌==◌, ==_iff}
use holos_substrate.Authenticator.KeySet.{
  p256, p384, p521, other_curve, PublicKey, rsa, ecdsa, ed25519, other_key, JsonWebKey, SigningKey,
  verifiable_sig_algs, key_algs, contains_string, intersect_strings, is_nil, is_signing, skip_or,
  own_algs, advertised_of, bind_key, trusted_key, reduce_key, append_key, reduce_keys,
  required_keys, reduce_jwks, usable_jwks_keys, to_sig_algs,
}

pub Has-of-contains_string : (xs : List Text) (s : Text) → contains_string xs s ≡ true → Has s xs
unfolding contains_string
Has-of-contains_string [] s h = cc
Has-of-contains_string (x ∷ xs) s h = elim (Bool-cases (x == s)) [
  | inl e ↦ here (sym ((==_iff x s).0 e))
  | inr e ↦ there (Has-of-contains_string xs s (ground arith))
]

-- A loop's `append` under an `if`.
Has-append_if {ℓ} :
    {A : Type ℓ} (b : Bool) {a x : A} {xs : List A}
    → Has a (if b then x ∷ xs else xs)
    → ((b ≡ true) × (a ≡ x)) ⊎ Has a xs
Has-append_if true (here e) = inl (refl, e)
Has-append_if true (there m) = inr m
Has-append_if false m = inr m

pub Has-intersect_strings :
    (xs ys : List Text) {s : Text} → Has s (intersect_strings xs ys) → Has s xs × Has s ys
unfolding intersect_strings
Has-intersect_strings [] ys m = elim m [ ]
Has-intersect_strings (x ∷ xs) ys m = elim (Has-append_if (contains_string ys x) m) [
  | inl (b, e) ↦ (here e, rw e (Has-of-contains_string ys x b))
  | inr n ↦ let (p, q) = Has-intersect_strings xs ys n in (there p, q)
]

pub Has-usable_jwks_keys :
    {K : Type 0} (keys : List (JsonWebKey K)) {key : JsonWebKey K}
    → Has key (usable_jwks_keys keys)
    → Has key keys × (key.valid ≡ true)
unfolding usable_jwks_keys
Has-usable_jwks_keys [] m = elim m [ ]
Has-usable_jwks_keys (k ∷ keys) m = elim (Has-append_if k.valid m) [
  | inl (b, e) ↦ (here e, rw e b)
  | inr n ↦ let (p, q) = Has-usable_jwks_keys keys n in (there p, q)
]

abbrev IsVerifiable : Text → Type 0
IsVerifiable alg = contains_string verifiable_sig_algs alg ≡ true

key_algs-IsVerifiable : {K : Type 0} (pub_key : PublicKey K) → All IsVerifiable (key_algs pub_key)
unfolding contains_string verifiable_sig_algs key_algs ◌==◌
key_algs-IsVerifiable (rsa k) = (refl, (refl, (refl, (refl, (refl, (refl, tt))))))
key_algs-IsVerifiable (ecdsa p256 k) = (refl, tt)
key_algs-IsVerifiable (ecdsa p384 k) = (refl, tt)
key_algs-IsVerifiable (ecdsa p521 k) = (refl, tt)
key_algs-IsVerifiable (ecdsa other_curve k) = tt
key_algs-IsVerifiable (ed25519 k) = (refl, tt)
key_algs-IsVerifiable other_key = tt

-- Every algorithm of a key type is asymmetric: neither "none" nor an HMAC one.
Has-verifiable_sig_algs :
    {K : Type 0} (pub_key : PublicKey K) {alg : Text}
    → Has alg (key_algs pub_key)
    → Has alg verifiable_sig_algs
Has-verifiable_sig_algs pub_key m =
    Has-of-contains_string verifiable_sig_algs _
      (All-of-Has IsVerifiable (key_algs pub_key) (key_algs-IsVerifiable pub_key) m)

-- What the algorithm `alg` of a trusted key satisfies, `key` being the JSON Web Key it comes from.
pub record IsAuthorized {K : Type 0} (advertised : List Text) (key : JsonWebKey K) (alg : Text)
    : Type 0 where
  pub of_its_type : Has alg (key_algs key.public)
  pub stated : (key.algorithm ≡ []) ⊎ (alg ≡ key.algorithm)
  pub listed : (advertised ≡ []) ⊎ Has alg advertised
  pub asymmetric : Has alg verifiable_sig_algs

pub record IsBound {K : Type 0} (key_set : List (JsonWebKey K)) (advertised : List Text)
    (trusted : SigningKey K) : Type 0 where
  pub key : JsonWebKey K
  pub from_the_set : Has key key_set
  pub usable : key.valid ≡ true
  pub signing : is_signing key ≡ true
  pub same_id : trusted.key_id ≡ key.key_id
  pub same_key : trusted.pub_key ≡ key.public
  pub some_alg : trusted.algs ≢ []
  pub authorized : (alg : Text) → Has alg trusted.algs → IsAuthorized advertised key alg

Has-singleton {ℓ} : {A : Type ℓ} {a x : A} → Has a (x ∷ []) → a ≡ x
Has-singleton (here e) = e
Has-singleton (there m) = elim m [ ]

-- What the advertised algorithms leave.
advertised_of-own :
    (advertised algs : List Text) {common : List Text}
    → algs ≢ []
    → advertised_of advertised algs ≡ some common
    → (common ≢ [])
      × ((alg : Text) → Has alg common → Has alg algs × ((advertised ≡ []) ⊎ Has alg advertised))
unfolding advertised_of
advertised_of-own [] algs {common} n h =
    let e : algs ≡ common = cc in (λ q. n (e ∙ q), λ alg m. (subst (Has alg) (sym e) m, inl refl))
advertised_of-own (a ∷ advertised) algs {common} n h =
    let all = intersect_strings algs (a ∷ advertised) in
    let e : all ≡ common = ground arith in
    (
      λ q. ground arith,
      λ alg m.
          let (p, q) = Has-intersect_strings algs (a ∷ advertised) (subst (Has alg) (sym e) m) in
          (p, inr q),
    )

to_sig_algs_self : (algs : List Text) → to_sig_algs algs ≡ algs
to_sig_algs_self [] = refl
to_sig_algs_self (alg ∷ algs) = ground (arith, to_sig_algs_self algs)

module _ {K : Type 0} where
  -- The algorithms that `own_algs` leaves.
  AreOwn : JsonWebKey K → List Text → List Text → Type 0
  AreOwn key compatible algs =
      (algs ≢ [])
      × ((alg : Text)
          → Has alg algs
          → Has alg compatible × ((key.algorithm ≡ []) ⊎ (alg ≡ key.algorithm)))

  own_algs-AreOwn :
      (strict : Bool) (advertised : List Text) (key : JsonWebKey K) (compatible : List Text)
      {algs : List Text}
      → own_algs strict advertised key compatible ≡ ok (some algs)
      → AreOwn key compatible algs
  unfolding own_algs skip_or AreOwn
  own_algs-AreOwn strict advertised key [] h = elim (Bool-cases strict) [ inl e ↦ cc | inr e ↦ cc ]
  own_algs-AreOwn strict advertised key (c ∷ cs) {algs} h =
      elim (Bool-cases (key.algorithm == [])) [
        | inl e ↦ elim (Bool-cases (is_nil advertised)) [
          | inl k ↦
              subst (AreOwn key (c ∷ cs)) {x = c ∷ []} (ground arith)
                (λ q. cc, λ alg m. (here (Has-singleton m), inl ((==_iff key.algorithm []).0 e)))
          | inr k ↦
              subst (AreOwn key (c ∷ cs)) {x = c ∷ cs} (ground arith)
                (λ q. cc, λ alg m. (m, inl ((==_iff key.algorithm []).0 e)))
        ]
        | inr e ↦ elim (Bool-cases (contains_string (c ∷ cs) key.algorithm)) [
          | inl k ↦ subst (AreOwn key (c ∷ cs)) {x = key.algorithm ∷ []} (ground arith) (
            λ q. cc,
            λ alg m.
                let q = Has-singleton m in
                (
                  subst (λ a. Has a (c ∷ cs)) (sym q)
                      (Has-of-contains_string (c ∷ cs) key.algorithm k),
                  inr q,
                ),
          )
          | inr k ↦ elim (Bool-cases strict) [ inl t ↦ ground arith | inr t ↦ ground arith ]
        ]
      ]

  -- The key that is trusted, by the choices that lead to it.
  bind_key-some :
      (advertised : List Text) (key : JsonWebKey K) (o : Option (List Text))
      {trusted : SigningKey K}
      → bind_key advertised key o ≡ some trusted
      → (algs : List Text) × (o ≡ some algs)
        × (common : List Text) × (advertised_of advertised algs ≡ some common)
        × (trusted_key key common ≡ trusted)
  unfolding bind_key
  bind_key-some advertised key none h = cc
  bind_key-some advertised key (some algs) h = elim (Option-cases (advertised_of advertised algs)) [
    | inl e ↦ cc
    | inr (common, e) ↦ (algs, refl, common, e, ground arith)
  ]

  trusted_key-IsBound :
      (advertised : List Text) (key : JsonWebKey K) (key_set : List (JsonWebKey K))
      (algs : List Text) {common : List Text}
      → Has key key_set
      → key.valid ≡ true
      → is_signing key ≡ true
      → AreOwn key (key_algs key.public) algs
      → advertised_of advertised algs ≡ some common
      → IsBound key_set advertised (trusted_key key common)
  unfolding trusted_key AreOwn
  trusted_key-IsBound advertised key key_set algs m v g (n, own) h =
      let (n', shared) = advertised_of-own advertised algs n h in
      record {
        key = key;
        from_the_set = m;
        usable = v;
        signing = g;
        same_id = refl;
        same_key = refl;
        some_alg = λ q. n' (sym (to_sig_algs_self _) ∙ q);
        authorized = λ alg k.
            let (p, q) = shared alg (subst (Has alg) (to_sig_algs_self _) k) in
            let (c, r) = own alg p in
            record {
              of_its_type = c;
              stated = r;
              listed = q;
              asymmetric = Has-verifiable_sig_algs key.public c;
            };
      }

  reduce_key-IsBound :
      (strict : Bool) (advertised : List Text) (key : JsonWebKey K) (key_set : List (JsonWebKey K))
      {trusted : SigningKey K}
      → Has key key_set
      → key.valid ≡ true
      → reduce_key strict advertised key ≡ ok (some trusted)
      → IsBound key_set advertised trusted
  unfolding reduce_key
  reduce_key-IsBound strict advertised key key_set m v h = elim (Bool-cases (is_signing key)) [
    | inl g ↦
        let (o, e, q) =
          >>=-eq-ok (own_algs strict advertised key (key_algs key.public))
            (λ algs. ok (bind_key advertised key algs)) (ground arith) in
        let (algs, e', common, a, t) = bind_key-some advertised key o (ok-injective q) in
        subst (IsBound key_set advertised) t (
          trusted_key-IsBound advertised key key_set algs m v g
            (own_algs-AreOwn strict advertised key (key_algs key.public) (rw (← e') e)) a)
    | inr g ↦ ground arith
  ]

  All-append_key :
      (P : SigningKey K → Type 0) (o : Option (SigningKey K)) (rest : List (SigningKey K))
      → ((key : SigningKey K) → o ≡ some key → P key)
      → All P rest
      → All P (append_key o rest)
  unfolding append_key
  All-append_key P none rest p h = h
  All-append_key P (some key) rest p h = (p key refl, h)

  reduce_keys-IsBound :
      (strict : Bool) (advertised : List Text) (key_set keys : List (JsonWebKey K))
      {trusted : List (SigningKey K)}
      → ((key : JsonWebKey K) → Has key keys → Has key key_set × (key.valid ≡ true))
      → reduce_keys strict advertised keys ≡ ok trusted
      → All (IsBound key_set advertised) trusted
  unfolding reduce_keys
  reduce_keys-IsBound strict advertised key_set [] p h =
      subst (All (IsBound key_set advertised)) (ok-injective h) tt
  reduce_keys-IsBound strict advertised key_set (key ∷ keys) p h =
      let (o, e, q) = >>=-eq-ok (reduce_key strict advertised key) _ h in
      let (rest, e', t) = >>=-eq-ok (reduce_keys strict advertised keys) _ q in
      let bound = reduce_keys-IsBound strict advertised key_set keys (λ k m. p k (there m)) e' in
      subst (All (IsBound key_set advertised)) (ok-injective t) (
        All-append_key (IsBound key_set advertised) o rest
          (λ trusted_key i.
            reduce_key-IsBound strict advertised key key_set (p key (here refl)).0
              (p key (here refl)).1 (e ∙ ap ok i))
          bound)

  required_keys-ok :
      (keys : List (SigningKey K)) {trusted : List (SigningKey K)}
      → required_keys keys ≡ ok trusted
      → (keys ≡ trusted) × (trusted ≢ [])
  unfolding required_keys
  required_keys-ok [] h = cc
  required_keys-ok (key ∷ keys) h = let e = ok-injective h in (e, λ q. ground arith)

  -- The keys that `reduceJWKS` returns are some, and each one stands for a valid JSON Web Key of the
  -- set that is for signatures: it has that key's id and its key, and is bound to at least one
  -- algorithm. Each algorithm it is bound to is one its type can produce, is the stated one where
  -- the key states one, is advertised where the issuer advertises any, and is an asymmetric one.
  pub reduce_jwks-IsBound :
      (key_set : List (JsonWebKey K)) (strict : Bool) (advertised : List Text)
      (trusted : List (SigningKey K))
      → reduce_jwks key_set strict advertised ≡ ok trusted
      → (trusted ≢ []) × All (IsBound key_set advertised) trusted
  unfolding reduce_jwks
  reduce_jwks-IsBound key_set strict advertised trusted h =
      let (keys, e, q) =
        >>=-eq-ok (reduce_keys strict advertised (usable_jwks_keys key_set)) required_keys h in
      let (same, n) = required_keys-ok keys q in
      (
        n,
        subst (All (IsBound key_set advertised)) same (
            reduce_keys-IsBound strict advertised key_set (usable_jwks_keys key_set)
              (λ key m. Has-usable_jwks_keys key_set m) e),
      )
