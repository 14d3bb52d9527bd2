-- ===== src/Keycloak/Links/Linked.antt =====
-- What `reconcileIdentityProviderLink` leaves, when it succeeds and on every path.
use holos_substrate.Base.{
  ◌≡◌, inl, inr, refl, sym, ap, ◌∙◌, subst, false, Option, none, some, [], arith, Bool-cases,
  Option-cases,
}
use holos_substrate.Base.Text.{Text, ◌==◌}
use holos_substrate.Keycloak.Links.{
  FederatedIdentity, IdentityProviderLink, LinkClient, LinkError, LinkSync,
  parse_managed_identity_provider, serialize_managed_identity_provider, desired_link, desired_entry,
  is_stale, create_federated, establish, withdraw_link, reconcile_identity_provider_link,
}
use holos_substrate.Keycloak.Links.Kept.{IsFederation, Survive, reconcile-Survive}

module _ {S : Type 0} (kc : LinkClient S) (link : S → Text → Text → Option Text)
    (laws : IsFederation kc link) (user_id : Text) where
  -- The link is there, and the status records it.
  abbrev pub IsLinked : IdentityProviderLink → LinkSync S → Type 0
  IsLinked l after =
      (link after.realm user_id l.alias ≡ some l.user_id)
      × (after.managed ≡ serialize_managed_identity_provider l.alias l.user_id)

  create-IsLinked :
      (l : IdentityProviderLink) (sync : LinkSync S)
      → (create_federated kc user_id l sync).0 ≡ none
      → IsLinked l (create_federated kc user_id l sync).1
  unfolding create_federated
  create-IsLinked l sync h =
      let i : FederatedIdentity = record {
        identity_provider = l.alias;
        user_id = l.user_id;
        user_name = l.user_name;
      } in
      let done = laws.created user_id l.alias i sync.realm in
      elim (Option-cases
        (kc.create_federated_identity_if_not_exists user_id l.alias i sync.realm).0) [
          | inr (x, e) ↦ ground arith
          | inl e ↦ (rw (e, create_federated) (done e), rw (e, create_federated) refl)
        ]

  establish-IsLinked :
      (l : IdentityProviderLink) (sync : LinkSync S)
      → (l.alias == []) ≡ false
      → (establish kc user_id (some l) sync).0 ≡ none
      → IsLinked l (establish kc user_id (some l) sync).1
  unfolding establish
  establish-IsLinked l sync n h =
      let same : (create_federated kc user_id l sync).1 ≡ (establish kc user_id (some l) sync).1 =
        rw (n, establish) refl in
      subst (IsLinked l) same (create-IsLinked l sync (ground arith))

  reconcile-IsLinked :
      (wanted : Option IdentityProviderLink) (l : IdentityProviderLink) (sync : LinkSync S)
      → desired_link wanted ≡ some l
      → (l.alias == []) ≡ false
      → (reconcile_identity_provider_link kc user_id wanted sync).0 ≡ none
      → IsLinked l (reconcile_identity_provider_link kc user_id wanted sync).1
  unfolding reconcile_identity_provider_link
  reconcile-IsLinked wanted l sync d n h =
      let stale =
        is_stale (parse_managed_identity_provider sync.managed)
          (desired_entry (desired_link wanted)) in
      let next = (withdraw_link kc user_id sync).1 in
      elim (Bool-cases stale) [
        | inr e ↦
            let same : reconcile_identity_provider_link kc user_id wanted sync
                ≡ establish kc user_id (some l) sync =
              rw (e, reconcile_identity_provider_link) (rw d refl) in
            subst (IsLinked l) (ap (λ (r : Option LinkError × LinkSync S). r.1) (sym same)) (
              establish-IsLinked l sync n
                (ap (λ (r : Option LinkError × LinkSync S). r.0) (sym same) ∙ h))
        | inl e ↦ elim (Option-cases (withdraw_link kc user_id sync).0) [
          | inr (x, f) ↦ ground arith
          | inl f ↦
              let same : reconcile_identity_provider_link kc user_id wanted sync
                  ≡ establish kc user_id (some l) next =
                rw (e, reconcile_identity_provider_link) (rw f (rw d refl)) in
              subst (IsLinked l) (ap (λ (r : Option LinkError × LinkSync S). r.1) (sym same)) (
                establish-IsLinked l next n
                  (ap (λ (r : Option LinkError × LinkSync S). r.0) (sym same) ∙ h))
        ]
      ]

-- On every path, `reconcileIdentityProviderLink` keeps every link that there is, of any user and to
-- any provider, with its subject, but for one: the link of its user to the provider that the status
-- records, if that link has the recorded subject or the status records none. When it returns no
-- error and the spec has a link with an alias and a subject, the user has that link, and the
-- status records it.
pub reconcile_link-IsLinked :
    {S : Type 0} (kc : LinkClient S) (link : S → Text → Text → Option Text)
    (laws : IsFederation kc link) (user_id : Text) (wanted : Option IdentityProviderLink)
    (sync : LinkSync S)
    → Survive kc link laws user_id
        (parse_managed_identity_provider sync.managed).0
        (parse_managed_identity_provider sync.managed).1
        sync.realm
        (reconcile_identity_provider_link kc user_id wanted sync).1.realm
      × ((l : IdentityProviderLink)
          → desired_link wanted ≡ some l
          → (l.alias == []) ≡ false
          → (reconcile_identity_provider_link kc user_id wanted sync).0 ≡ none
          → IsLinked kc link laws user_id l
              (reconcile_identity_provider_link kc user_id wanted sync).1)
reconcile_link-IsLinked kc link laws user_id wanted sync =
    let (alias, subject) = parse_managed_identity_provider sync.managed in
    (
      reconcile-Survive kc link laws user_id alias subject wanted sync refl,
      λ l. reconcile-IsLinked kc link laws user_id wanted l sync,
    )
