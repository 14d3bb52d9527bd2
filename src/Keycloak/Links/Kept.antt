-- ===== src/Keycloak/Links/Kept.antt =====
-- Which links survive `reconcileIdentityProviderLink`.
use holos_substrate.Base.{
  ◌≡◌, ◌≢◌, ◌⊎◌, inl, inr, refl, sym, ap, ◌∙◌, subst, Bool, true, false, Option, none, some, List,
  [], ◌∷◌, ok, arith, clash, Bool-cases, Option-cases, Result-cases, Has, here, there,
}
use holos_substrate.Base.Text.{Text, ◌==◌, ==_iff}
use holos_substrate.Keycloak.Links.{
  FederatedIdentity, IdentityProviderLink, LinkClient, LinkSync, parse_managed_identity_provider,
  may_delete, desired_link, desired_entry, is_stale, delete_federated,
  delete_federated_if_subject_matches, create_federated, establish, withdraw_entry, withdraw_link,
  reconcile_identity_provider_link,
}

-- `link s w b` is the subject that the user `w` has at the provider `b`. Listing changes no link and
-- tells every one. A deletion leaves the links of other users and providers, and a creation leaves
-- every link there is, also when it fails. A creation that succeeds means that the link is there.
pub record IsFederation {S : Type 0} (kc : LinkClient S) (link : S → Text → Text → Option Text)
    : Type 0 where
  pub list :
      (w : Text) (s : S) (u b : Text) → link (kc.list_federated_identities w s).1 u b ≡ link s u b
  pub listed :
      (w : Text) (s : S) (links : List FederatedIdentity)
      → (kc.list_federated_identities w s).0 ≡ ok links
      → (b v : Text) → link s w b ≡ some v
      → (l : FederatedIdentity) × Has l links × (l.identity_provider ≡ b) × (l.user_id ≡ v)
  pub delete_other :
      (w a : Text) (s : S) (u b : Text)
      → ((u ≢ w) ⊎ (b ≢ a))
      → link (kc.delete_federated_identity_if_exists w a s).1 u b ≡ link s u b
  pub create_keeps :
      (w a : Text) (i : FederatedIdentity) (s : S) (u b v : Text)
      → link s u b ≡ some v
      → link (kc.create_federated_identity_if_not_exists w a i s).1 u b ≡ some v
  pub created :
      (w a : Text) (i : FederatedIdentity) (s : S)
      → (kc.create_federated_identity_if_not_exists w a i s).0 ≡ none
      → link (kc.create_federated_identity_if_not_exists w a i s).1 w a ≡ some i.user_id

-- What may have become of a link: only the one at hand may be lost.
pub data Kept (may_go : Type 0) (after : Option Text) (v : Text) : Type 0 where
  stays : after ≡ some v → Kept may_go after v
  gone : may_go → Kept may_go after v

-- A deletion that is decided by the list means that each link of the alias has the subject.
may_delete-subject :
    (alias subject : Text) (found : Bool) (links : List FederatedIdentity) (l : FederatedIdentity)
    → may_delete alias subject found links ≡ true
    → Has l links
    → l.identity_provider ≡ alias
    → l.user_id ≡ subject
unfolding may_delete
may_delete-subject alias subject found [] l h m e = elim m [ ]
may_delete-subject alias subject found (k ∷ links) l h m e =
    elim (Bool-cases (k.identity_provider == alias)) [
      | inl p ↦ elim (Bool-cases (k.user_id == subject)) [
        | inl q ↦ elim m [
          | here i ↦ ap (λ (x : FederatedIdentity). x.user_id) i ∙ (==_iff k.user_id subject).0 q
          | there o ↦ may_delete-subject alias subject true links l (ground arith) o e
        ]
        | inr q ↦ ground arith
      ]
      | inr p ↦ elim m [
        | here i ↦
            clash (k.identity_provider == alias)
              ((==_iff k.identity_provider alias).1
                (sym (ap (λ (x : FederatedIdentity). x.identity_provider) i) ∙ e))
              p
        | there o ↦ may_delete-subject alias subject found links l (ground arith) o e
      ]
    ]

distinct : (a b : Text) → (a == b) ≡ false → a ≢ b
distinct a b h e = let q : (a == b) ≡ true = (==_iff a b).1 e in cc

at_edge : (u w b a : Text) → ((u ≡ w) × (b ≡ a)) ⊎ ((u ≢ w) ⊎ (b ≢ a))
at_edge u w b a = elim (Bool-cases (u == w)) [
  | inr e ↦ inr (inl (distinct u w e))
  | inl e ↦ elim (Bool-cases (b == a)) [
    | inl f ↦ inl ((==_iff u w).0 e, (==_iff b a).0 f)
    | inr f ↦ inr (inr (distinct b a f))
  ]
]

module _ {S : Type 0} (kc : LinkClient S) (link : S → Text → Text → Option Text)
    (laws : IsFederation kc link) (user_id alias subject : Text) where
  -- The links that an entry of the status records.
  abbrev pub Recorded : Text → Text → Text → Type 0
  Recorded u b v = (u ≡ user_id) × (b ≡ alias) × ((v ≡ subject) ⊎ (subject ≡ []))

  abbrev pub Survive : S → S → Type 0
  Survive s t = (u b v : Text) → link s u b ≡ some v → Kept (Recorded u b v) (link t u b) v

  to_realm : (s : S) {t r : S} → r ≡ t → Survive s t → Survive s r
  to_realm s e h = subst (Survive s) (sym e) h

  then_Survive : (s t r : S) → Survive s t → Survive t r → Survive s r
  then_Survive s t r p q u b v h = elim (p u b v h) [ gone c ↦ gone c | stays e ↦ q u b v e ]

  list-Survive : (s : S) → Survive s (kc.list_federated_identities user_id s).1
  list-Survive s u b v h = stays (laws.list user_id s u b ∙ h)

  delete_federated-realm :
      (s : S)
      → (delete_federated kc user_id alias s).1
        ≡ (kc.delete_federated_identity_if_exists user_id alias s).1
  unfolding delete_federated
  delete_federated-realm s =
      elim (Option-cases (kc.delete_federated_identity_if_exists user_id alias s).0) [
        | inl e ↦ ground arith
        | inr (x, e) ↦ ground arith
      ]

  delete_federated-Survive :
      (s : S)
      → ((v : Text) → link s user_id alias ≡ some v → (v ≡ subject) ⊎ (subject ≡ []))
      → Survive s (delete_federated kc user_id alias s).1
  delete_federated-Survive s c = to_realm s (delete_federated-realm s) (λ u b v h.
      elim (at_edge u user_id b alias) [
        | inl (p, q) ↦ gone (p, q, c v (rw (← p) (rw (← q) h)))
        | inr n ↦ stays (laws.delete_other user_id alias s u b n ∙ h)
      ])

  verified :
      (s : S) (links : List FederatedIdentity) (v : Text)
      → (kc.list_federated_identities user_id s).0 ≡ ok links
      → may_delete alias subject false links ≡ true
      → link (kc.list_federated_identities user_id s).1 user_id alias ≡ some v
      → v ≡ subject
  verified s links v r m h =
      let (l, has, provider, same) =
        laws.listed user_id s links r alias v (sym (laws.list user_id s user_id alias) ∙ h) in
      sym same ∙ may_delete-subject alias subject false links l m has provider

  deleted-Survive :
      (s : S) → Survive s (delete_federated_if_subject_matches kc user_id alias subject s).1
  unfolding delete_federated_if_subject_matches
  deleted-Survive s =
      let next = (kc.list_federated_identities user_id s).1 in
      elim (Bool-cases (subject == [])) [
        | inl e ↦
            to_realm s {t = (delete_federated kc user_id alias s).1} (ground arith)
              (delete_federated-Survive s (λ v h. inr ((==_iff subject []).0 e)))
        | inr e ↦ elim (Result-cases (kc.list_federated_identities user_id s).0) [
          | inr (x, r) ↦ to_realm s {t = next} (ground arith) (list-Survive s)
          | inl (links, r) ↦ elim (Bool-cases (may_delete alias subject false links)) [
            | inr m ↦ to_realm s {t = next} (ground arith) (list-Survive s)
            | inl m ↦ to_realm s {t = (delete_federated kc user_id alias next).1} (ground arith) (
                then_Survive s next _ (list-Survive s)
                  (delete_federated-Survive next (λ v h. inl (verified s links v r m h))))
          ]
        ]
      ]

  create-Survive :
      (l : IdentityProviderLink) (sync : LinkSync S)
      → Survive sync.realm (create_federated kc user_id l sync).1.realm
  unfolding create_federated
  create-Survive l sync =
      let i : FederatedIdentity = record {
        identity_provider = l.alias;
        user_id = l.user_id;
        user_name = l.user_name;
      } in
      let next = (kc.create_federated_identity_if_not_exists user_id l.alias i sync.realm).1 in
      let kept : Survive sync.realm next =
        λ u b v h. stays (laws.create_keeps user_id l.alias i sync.realm u b v h) in
      elim (Option-cases
        (kc.create_federated_identity_if_not_exists user_id l.alias i sync.realm).0) [
          | inl e ↦ to_realm sync.realm {t = next} (ground arith) kept
          | inr (x, e) ↦ to_realm sync.realm {t = next} (ground arith) kept
        ]

  nothing-Survive : (s : S) → Survive s s
  nothing-Survive s u b v h = stays h

  establish-Survive :
      (wanted : Option IdentityProviderLink) (sync : LinkSync S)
      → Survive sync.realm (establish kc user_id wanted sync).1.realm
  unfolding establish
  establish-Survive none sync = nothing-Survive sync.realm
  establish-Survive (some l) sync = elim (Bool-cases (l.alias == [])) [
    | inl e ↦ to_realm sync.realm {t = sync.realm} (ground arith) (nothing-Survive sync.realm)
    | inr e ↦
        to_realm sync.realm {t = (create_federated kc user_id l sync).1.realm} (ground arith)
          (create-Survive l sync)
  ]

  withdraw_entry-realm :
      (sync : LinkSync S)
      → (withdraw_entry kc user_id (alias, subject) sync).1.realm
        ≡ (delete_federated_if_subject_matches kc user_id alias subject sync.realm).1
  unfolding withdraw_entry
  withdraw_entry-realm sync =
      elim (Option-cases
        (delete_federated_if_subject_matches kc user_id alias subject sync.realm).0) [
          | inl e ↦ rw (e, withdraw_entry) refl
          | inr (x, e) ↦ rw (e, withdraw_entry) refl
        ]

  withdraw-realm :
      (sync : LinkSync S)
      → parse_managed_identity_provider sync.managed ≡ (alias, subject)
      → (withdraw_link kc user_id sync).1.realm
        ≡ (delete_federated_if_subject_matches kc user_id alias subject sync.realm).1
  unfolding withdraw_link
  withdraw-realm sync p = rw (p, withdraw_link) (withdraw_entry-realm sync)

  withdraw-Survive :
      (sync : LinkSync S)
      → parse_managed_identity_provider sync.managed ≡ (alias, subject)
      → Survive sync.realm (withdraw_link kc user_id sync).1.realm
  withdraw-Survive sync p = to_realm sync.realm (withdraw-realm sync p) (deleted-Survive sync.realm)

  pub reconcile-Survive :
      (wanted : Option IdentityProviderLink) (sync : LinkSync S)
      → parse_managed_identity_provider sync.managed ≡ (alias, subject)
      → Survive sync.realm (reconcile_identity_provider_link kc user_id wanted sync).1.realm
  unfolding reconcile_identity_provider_link
  reconcile-Survive link sync p =
      let s = sync.realm in
      let wanted = desired_link link in
      let next = (withdraw_link kc user_id sync).1 in
      let first = withdraw-Survive sync p in
      elim (Bool-cases
        (is_stale (parse_managed_identity_provider sync.managed) (desired_entry wanted))) [
          | inr e ↦
              to_realm s {t = (establish kc user_id wanted sync).1.realm} (ground arith)
                (establish-Survive wanted sync)
          | inl e ↦ elim (Option-cases (withdraw_link kc user_id sync).0) [
            | inr (x, f) ↦ to_realm s {t = next.realm} (ground arith) first
            | inl f ↦
                to_realm s {t = (establish kc user_id wanted next).1.realm} (ground arith)
                  (then_Survive s next.realm _ first (establish-Survive wanted next))
          ]
        ]
