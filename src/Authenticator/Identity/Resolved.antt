-- ===== src/Authenticator/Identity/Resolved.antt =====
-- `authenticate` against a description of the identity that a token stands for.
use holos_substrate.Base.{
  ◌≡◌, ◌≢◌, ◌↔◌, refl, some, [], ◌++◌, arith, ok, map_err, map_err-eq-ok, map_err-ok, >>=-eq-ok,
  Bool-cases, inl, inr, subst, ok-injective,
}
use holos_substrate.Base.Text.{Text, ◌==◌, ==_iff}
use holos_substrate.Base.Dict.{lookup}
use holos_substrate.Authenticator.Claims.{Claims, str, string_claim, resolve_extra}
use holos_substrate.Authenticator.Claims.Extra.{string_claim_sound, string_claim_complete}
use holos_substrate.Authenticator.Mapping.{groups}
use holos_substrate.Authenticator.Identity.{
  Identity, Authenticator, AuthError, read_uid, extra_label, authenticate, verifying,
  mapping_groups, extra_claim,
}

-- The UID is off when no claim is configured for it, and otherwise a non-empty string of the token.
abbrev pub IsUid : Claims → Text → Text → Type 0
IsUid claims claim uid =
    (claim ≡ [] → uid ≡ []) × (claim ≢ [] → (lookup claim claims ≡ some (str uid)) × (uid ≢ []))

-- The identity that the verified token stands for under the backend's configuration.
pub record IsResolved (a : Authenticator) (raw : Text) (i : Identity) : Type 0 where
  pub verified : a.verifier raw ≡ ok i.claims
  pub username :
      (u : Text) × (i.username ≡ a.username_prefix ++ u)
      × (lookup a.username_claim i.claims ≡ some (str u))
      × (u ≢ [])
  pub mapped : groups a.mapper i.claims ≡ ok i.groups
  pub uid : IsUid i.claims a.uid_claim i.uid
  pub extras : resolve_extra i.claims a.extra extra_label ≡ ok i.extra
  pub no_actor_extras : i.impersonation_extra ≡ []

read_uid_iff :
    (claims : Claims) (claim uid : Text) → (read_uid claims claim ≡ ok uid) ↔ IsUid claims claim uid
unfolding read_uid
read_uid_iff claims claim uid = elim (Bool-cases (claim == [])) [
  | inl off ↦ (
    λ h. (λ _. ground arith, λ n. absurd (n ((==_iff claim []).0 off))),
    λ (a, _). ground (arith, a ((==_iff claim []).0 off)),
  )
  | inr on ↦ (
    λ h.
        let read : string_claim claims claim ≡ ok uid =
          map_err-eq-ok AuthError.uid_claim (string_claim claims claim) (ground arith) in
        (
          λ e. absurd (ground (arith, ==_iff claim [])),
          λ _. string_claim_sound claims claim uid read,
        ),
    λ (_, b).
        let (l, n) = b (ground (arith, ==_iff claim [])) in
        ground (
          arith,
          map_err-ok AuthError.uid_claim (string_claim claims claim)
              (string_claim_complete claims claim uid l n),
        ),
  )
]

module _ (a : Authenticator) (raw : Text) (i : Identity) where
  IsResolved-of-ok : authenticate a raw ≡ ok i → IsResolved a raw i
  unfolding authenticate
  IsResolved-of-ok h =
      let (claims, e0, h0) = >>=-eq-ok (map_err verifying (a.verifier raw)) _ h in
      let (name, e1, h1) =
        >>=-eq-ok (map_err AuthError.username_claim (string_claim claims a.username_claim)) _ h0 in
      let (gs, e2, h2) = >>=-eq-ok (map_err mapping_groups (groups a.mapper claims)) _ h1 in
      let (uid, e3, h3) = >>=-eq-ok (read_uid claims a.uid_claim) _ h2 in
      let (extra, e4, h4) =
        >>=-eq-ok (map_err extra_claim (resolve_extra claims a.extra extra_label)) _ h3 in
      let (found, nonempty) =
        string_claim_sound claims a.username_claim name
          (map_err-eq-ok AuthError.username_claim (string_claim claims a.username_claim) e1) in
      subst (IsResolved a raw) (ok-injective h4) (record {
        verified = map_err-eq-ok verifying (a.verifier raw) e0;
        username = (name, refl, found, nonempty);
        mapped = map_err-eq-ok mapping_groups (groups a.mapper claims) e2;
        uid = (read_uid_iff claims a.uid_claim uid).0 e3;
        extras = map_err-eq-ok extra_claim (resolve_extra claims a.extra extra_label) e4;
        no_actor_extras = refl;
      })

  ok-of-IsResolved : IsResolved a raw i → authenticate a raw ≡ ok i
  unfolding authenticate
  ok-of-IsResolved r =
      let (name, e, found, nonempty) = r.username in
      let e1 = string_claim_complete i.claims a.username_claim name found nonempty in
      let e3 = (read_uid_iff i.claims a.uid_claim i.uid).1 r.uid in
      ground (arith, r.verified, e1, r.mapped, e3, r.extras)

-- A token is authenticated as an identity exactly if the backend's verifier accepts it, the
-- username claim is a non-empty string (which is the username behind the configured prefix), the
-- group mapping yields the groups, the UID is a non-empty claim where one is configured and empty
-- where none is, the configured extras resolve, and no actor extra has been resolved yet.
pub authenticate_iff :
    (a : Authenticator) (raw : Text) (i : Identity)
    → (authenticate a raw ≡ ok i) ↔ IsResolved a raw i
authenticate_iff a raw i = (IsResolved-of-ok a raw i, ok-of-IsResolved a raw i)
