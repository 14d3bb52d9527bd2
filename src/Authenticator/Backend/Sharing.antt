-- ===== src/Authenticator/Backend/Sharing.antt =====
-- Which Backends are reconciled again when one of them changes.
use holos_substrate.Base.{
  ◌≡◌, ◌≢◌, ◌↔◌, ◌⊎◌, inl, inr, refl, sym, subst, ap, Bool, true, not, ◌&&◌, List, [], ◌∷◌, arith,
  Has, here, there, if◌then◌else◌, Bool-cases, Result, ok, err, ok-injective,
}
use holos_substrate.Base.Text.{Text, ◌==◌, ==_iff}
use holos_substrate.Authenticator.Backend.{Backend, requests_sharing_host, backends_sharing_host}

abbrev pub request_of : Backend → Text × Text
request_of b = (b.namespace, b.name)

-- Another Backend that names the same host.
pub record IsCoClaimant (changed b : Backend) : Type 0 where
  pub shares : b.spec.host ≡ changed.spec.host
  pub other : request_of b ≢ request_of changed

abbrev same_object : Backend → Backend → Bool
same_object changed b = b.namespace == changed.namespace && b.name == changed.name

same_object_iff :
    (changed b : Backend) → (same_object changed b ≡ true) ↔ (request_of b ≡ request_of changed)
same_object_iff changed b = (
  λ h. ground (arith, ==_iff b.namespace changed.namespace, ==_iff b.name changed.name),
  λ e. ground (
    arith,
    ==_iff b.namespace changed.namespace,
    ==_iff b.name changed.name,
    ap (λ (p : Text × Text). p.0) e,
    ap (λ (p : Text × Text). p.1) e,
  ),
)

-- One step of the loop, in either direction.
module _ (changed b : Backend) (bs : List Backend) where
  unfolding_step : requests_sharing_host changed (b ∷ bs) ≡ (
      if not (b.spec.host == changed.spec.host)
      then requests_sharing_host changed bs
      else if same_object changed b
      then requests_sharing_host changed bs
      else (b.namespace, b.name) ∷ requests_sharing_host changed bs)
  unfolding requests_sharing_host
  unfolding_step = refl

  requested :
      IsCoClaimant changed b
      → requests_sharing_host changed (b ∷ bs)
        ≡ (b.namespace, b.name) ∷ requests_sharing_host changed bs
  requested c = ground (
    arith,
    unfolding_step,
    c.shares,
    c.other,
    ==_iff b.spec.host changed.spec.host,
    same_object_iff changed b,
  )

  requested_or_skipped :
      (IsCoClaimant changed b
        × (requests_sharing_host changed (b ∷ bs)
            ≡ (b.namespace, b.name) ∷ requests_sharing_host changed bs))
      ⊎ (requests_sharing_host changed (b ∷ bs) ≡ requests_sharing_host changed bs)
  requested_or_skipped = elim (Bool-cases (b.spec.host == changed.spec.host)) [
    | inr e ↦ inr (ground (arith, unfolding_step, e))
    | inl e ↦ elim (Bool-cases (same_object changed b)) [
      | inl o ↦ inr (ground (arith, unfolding_step, e, o))
      | inr o ↦
          let c : IsCoClaimant changed b = record {
            shares = (==_iff b.spec.host changed.spec.host).0 e;
            other = λ p. ground (arith, o, (same_object_iff changed b).1 p);
          } in
          inl (c, requested c)
    ]
  ]

-- A listed Backend, other than the changed one, that names its host and has this key.
abbrev pub Listed : Backend → List Backend → Text × Text → Type 0
Listed changed bs request =
    (b : Backend) × Has b bs × IsCoClaimant changed b × (request ≡ request_of b)

no_request :
    (changed : Backend) (request : Text × Text)
    → Has request (requests_sharing_host changed [])
    → Listed changed [] request
unfolding requests_sharing_host
no_request changed request h = elim h [ ]

module _ (changed b : Backend) (bs : List Backend) (request : Text × Text) where
  Listed-later : Listed changed bs request → Listed changed (b ∷ bs) request
  Listed-later (x, at, c, e) = (x, there at, c, e)

  Listed-here :
      IsCoClaimant changed b
      → (Has request (requests_sharing_host changed bs) → Listed changed bs request)
      → Has request (request_of b ∷ requests_sharing_host changed bs)
      → Listed changed (b ∷ bs) request
  Listed-here c rest (here e) = (b, here refl, c, e)
  Listed-here c rest (there h) = Listed-later (rest h)

Listed-of_request :
    (changed : Backend) (bs : List Backend) (request : Text × Text)
    → Has request (requests_sharing_host changed bs)
    → Listed changed bs request
Listed-of_request changed [] request h = no_request changed request h
Listed-of_request changed (b ∷ bs) request h =
    let rest = Listed-of_request changed bs request in
    elim (requested_or_skipped changed b bs) [
      | inl (c, e) ↦ Listed-here changed b bs request c rest (subst (Has request) e h)
      | inr e ↦ Listed-later changed b bs request (rest (subst (Has request) e h))
    ]

request_of_listed :
    (changed : Backend) (bs : List Backend) (b : Backend)
    → Has b bs
    → IsCoClaimant changed b
    → Has (request_of b) (requests_sharing_host changed bs)
request_of_listed changed [] b at c = elim at [ ]
request_of_listed changed (x ∷ bs) b (here e) c =
    subst (λ (y : Backend). Has (request_of b) (requests_sharing_host changed (y ∷ bs))) e
      (subst (Has (request_of b)) (sym (requested changed b bs c)) (here refl))
request_of_listed changed (x ∷ bs) b (there h) c =
    let rest = request_of_listed changed bs b h c in
    elim (requested_or_skipped changed x bs) [
      | inl (_, e) ↦ subst (Has (request_of b)) (sym e) (there rest)
      | inr e ↦ subst (Has (request_of b)) (sym e) rest
    ]

-- When a Backend changes, exactly the other listed Backends that name its host are reconciled
-- again: each co-claimant of the host, and neither the changed Backend nor one of another host. If
-- they cannot be listed, none is.
pub backends_sharing_host_iff :
    (changed : Backend) (answer : Result Text (List Backend)) (request : Text × Text)
    → Has request (backends_sharing_host changed answer)
      ↔ ((bs : List Backend) × (answer ≡ ok bs) × Listed changed bs request)
unfolding backends_sharing_host
backends_sharing_host_iff changed (err e) request =
    (λ h. elim h [ ], λ (bs, q, l). ground (arith, q))
backends_sharing_host_iff changed (ok bs) request = (
  λ h. (bs, refl, Listed-of_request changed bs request h),
  λ (items, q, (b, at, c, e)).
      subst (λ (r : Text × Text). Has r (requests_sharing_host changed bs)) (sym e)
        (request_of_listed changed bs b
          (subst (λ (l : List Backend). Has b l) (sym (ok-injective q)) at) c),
)
