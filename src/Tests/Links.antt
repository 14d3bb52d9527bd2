-- ===== src/Tests/Links.antt =====
-- The theorem about the identity provider links of internal/controller/keycloak/user_controller.go at
-- a realm whose one user is "u": a map from providers to subjects.
use holos_substrate.Base.{
  ◌≡◌, ◌≢◌, ◌⊎◌, inl, inr, refl, sym, subst, ◌∙◌, ok-injective, Bool, true, false, Option, none,
  some, List, [], ◌∷◌, arith, ok, Bool-cases, Option-cases, if◌then◌else◌, Has, here, there,
}
use holos_substrate.Base.Text.{Text, text, ◌==◌, ==_iff, ==-self}
use holos_substrate.Base.Dict.{Dict, lookup, insert, erase, lookup-insert, lookup-erase}
use holos_substrate.Keycloak.Membership.{ApiError, other_error}
use holos_substrate.Keycloak.Links.{
  FederatedIdentity, IdentityProviderLink, LinkClient, LinkSync, parse_managed_identity_provider,
  desired_link, reconcile_identity_provider_link,
}
use holos_substrate.Keycloak.Links.Kept.{IsFederation, Survive}
use holos_substrate.Keycloak.Links.Linked.{IsLinked, reconcile_link-IsLinked}

abbrev Realm : Type 0
Realm = Dict Text

unfoldable pub is_user : Text → Bool
is_user w = w == text "u"

unfoldable pub links_of : Realm → List FederatedIdentity
links_of [] = []
links_of ((b, v) ∷ s) = record { identity_provider = b; user_id = v; user_name = [] } ∷ links_of s

-- A link to another account is an error.
unfoldable pub put : Text → Text → Realm → Option ApiError × Realm
put a v s = elim (lookup a s) [
  | none ↦ (none, insert a v s)
  | some held ↦ if held == v then (none, s) else (some (other_error (text "409")), s)
]

unfoldable pub client : LinkClient Realm
client = record {
  list_federated_identities = λ w s. (ok (if is_user w then links_of s else []), s);
  create_federated_identity_if_not_exists =
      λ w a i s. if is_user w then put a i.user_id s else (some (other_error (text "404")), s);
  delete_federated_identity_if_exists = λ w a s. (none, if is_user w then erase a s else s);
}

unfoldable pub link : Realm → Text → Text → Option Text
link s w b = if is_user w then lookup b s else none

told :
    (s : Realm) (b v : Text)
    → lookup b s ≡ some v
    → (l : FederatedIdentity) × Has l (links_of s) × (l.identity_provider ≡ b) × (l.user_id ≡ v)
unfolding lookup links_of
told [] b v h = ground arith
told ((a, w) ∷ s) b v h = elim (Bool-cases (a == b)) [
  | inl e ↦ (
    record { identity_provider = a; user_id = w; user_name = [] },
    here refl,
    (==_iff a b).0 e,
    ground arith,
  )
  | inr e ↦
      let (l, has, provider, subject) = told s b v (ground arith) in
      (l, there has, provider, subject)
]

put-keeps :
    (a i : Text) (s : Realm) (b v : Text) → lookup b s ≡ some v → lookup b (put a i s).1 ≡ some v
unfolding put
put-keeps a i s b v h = elim (Option-cases (lookup a s)) [
  | inr (x, e) ↦ ground arith
  | inl e ↦ elim (Bool-cases (a == b)) [
    | inl p ↦
        let q : a ≡ b = (==_iff a b).0 p in let z : lookup b s ≡ none = rw (← q) e in ground arith
    | inr p ↦ ground (arith, lookup-insert b a i s)
  ]
]

put-held : (a i : Text) (s : Realm) → (put a i s).0 ≡ none → lookup a (put a i s).1 ≡ some i
unfolding put
put-held a i s h = elim (Option-cases (lookup a s)) [
  | inl e ↦ ground (arith, lookup-insert a a i s, ==-self a)
  | inr (x, e) ↦ elim (Bool-cases (x == i)) [
    | inl p ↦ let q : x ≡ i = (==_iff x i).0 p in ground arith
    | inr p ↦ ground arith
  ]
]

erased :
    (w a : Text) (s : Realm) (u b : Text)
    → ((u ≢ w) ⊎ (b ≢ a))
    → is_user w ≡ true
    → is_user u ≡ true
    → lookup b (erase a s) ≡ lookup b s
unfolding is_user
erased w a s u b (inl n) p q =
    elim (n ((==_iff u (text "u")).0 q ∙ sym ((==_iff w (text "u")).0 p))) [ ]
erased w a s u b (inr n) p q = elim (Bool-cases (a == b)) [
  | inl e ↦ elim (n (sym ((==_iff a b).0 e))) [ ]
  | inr e ↦ ground (arith, lookup-erase b a s)
]

delete_other :
    (w a : Text) (s : Realm) (u b : Text)
    → ((u ≢ w) ⊎ (b ≢ a))
    → link (client.delete_federated_identity_if_exists w a s).1 u b ≡ link s u b
unfolding client link
delete_other w a s u b n = elim (Bool-cases (is_user w)) [
  | inr p ↦ ground arith
  | inl p ↦ elim (Bool-cases (is_user u)) [
    | inr q ↦ ground arith
    | inl q ↦ ground (arith, erased w a s u b n p q)
  ]
]

create_keeps :
    (w a : Text) (i : FederatedIdentity) (s : Realm) (u b v : Text)
    → link s u b ≡ some v
    → link (client.create_federated_identity_if_not_exists w a i s).1 u b ≡ some v
unfolding client link
create_keeps w a i s u b v h = elim (Bool-cases (is_user u)) [
  | inr q ↦ ground arith
  | inl q ↦ elim (Bool-cases (is_user w)) [
    | inr p ↦ ground arith
    | inl p ↦ let k = put-keeps a i.user_id s b v (ground arith) in ground arith
  ]
]

created :
    (w a : Text) (i : FederatedIdentity) (s : Realm)
    → (client.create_federated_identity_if_not_exists w a i s).0 ≡ none
    → link (client.create_federated_identity_if_not_exists w a i s).1 w a ≡ some i.user_id
unfolding client link
created w a i s h = elim (Bool-cases (is_user w)) [
  | inr p ↦ ground arith
  | inl p ↦ let k = put-held a i.user_id s (ground arith) in ground arith
]

listed :
    (w : Text) (s : Realm) (links : List FederatedIdentity)
    → (client.list_federated_identities w s).0 ≡ ok links
    → (b v : Text) → link s w b ≡ some v
    → (l : FederatedIdentity) × Has l links × (l.identity_provider ≡ b) × (l.user_id ≡ v)
unfolding client link
listed w s links e b v h = elim (Bool-cases (is_user w)) [
  | inr p ↦ ground arith
  | inl p ↦
      let answer : (client.list_federated_identities w s).0 ≡ ok (links_of s) = ground arith in
      let same : links_of s ≡ links = ok-injective (sym answer ∙ e) in
      let (l, has, provider, subject) = told s b v (ground arith) in
      (l, subst (Has l) same has, provider, subject)
]

laws : IsFederation client link
unfolding client
laws = record {
  list = λ w s u b. refl;
  listed = listed;
  delete_other = delete_other;
  create_keeps = create_keeps;
  created = created;
}

abbrev wanted : IdentityProviderLink
wanted = record { alias = text "new"; user_id = text "7"; user_name = [] }

abbrev before : LinkSync Realm
before = record {
  realm = (text "old", text "5") ∷ (text "own", text "6") ∷ [];
  managed = text "old|5";
  mutated = false;
}

abbrev after : LinkSync Realm
after = record {
  realm = (text "own", text "6") ∷ (text "new", text "7") ∷ [];
  managed = text "new|7";
  mutated = true;
}

test_switch :
    reconcile_identity_provider_link client (text "u") (some wanted) before ≡ (none, after)
unfolding reconcile_identity_provider_link client put is_user links_of lookup erase insert
test_switch = refl

-- A link that was made again to another subject stays.
test_foreign :
    reconcile_identity_provider_link client
      (text "u")
      none
      (record before { managed = text "own|5" })
    ≡ (none, record before { managed = []; mutated = true })
unfolding reconcile_identity_provider_link client is_user links_of
test_foreign = refl

reconcile_link-IsLinked_example :
    Survive client link laws
      (text "u")
      (text "old")
      (text "5")
      before.realm
      (reconcile_identity_provider_link client (text "u") (some wanted) before).1.realm
    × ((l : IdentityProviderLink)
        → desired_link (some wanted) ≡ some l
        → (l.alias == []) ≡ false
        → (reconcile_identity_provider_link client (text "u") (some wanted) before).0 ≡ none
        → IsLinked client link laws
            (text "u")
            l
            (reconcile_identity_provider_link client (text "u") (some wanted) before).1)
unfolding parse_managed_identity_provider
reconcile_link-IsLinked_example =
    reconcile_link-IsLinked client link laws (text "u") (some wanted) before
