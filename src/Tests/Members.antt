-- ===== src/Tests/Members.antt =====
-- The theorems about internal/controller/keycloak/membership_controller.go at a realm that is a list
-- of memberships. The users "a" and "b" have the emails "a@x" and "b@x", and "a" has "new@x" besides.
use holos_substrate.Base.{
  ◌≡◌, ◌≢◌, ◌⊎◌, inl, inr, refl, sym, ap, ok-injective, Bool, true, false, ◌&&◌, ◌||◌, Option, none,
  some, List, [], ◌∷◌, arith, ok, Bool-cases, if◌then◌else◌, some_of, Has,
}
use holos_substrate.Base.Text.{Text, text, ◌==◌, ==_iff, ==-self}
use holos_substrate.Keycloak.Membership.{
  Group, ManagedGroupMember, MembershipClient, Sync, contains_group_id, sync_members,
}
use holos_substrate.Keycloak.Membership.Laws.{IsKeycloak}
use holos_substrate.Keycloak.Membership.Outcome.{Gone}
use holos_substrate.Keycloak.Membership.Edits.{Edits}
use holos_substrate.Keycloak.Membership.Managed.{CanJoin, CanLeave, sync_members-Edits}
use holos_substrate.Keycloak.Membership.Complete.{IsConverged, sync_members-IsConverged}
use holos_substrate.Keycloak.Finalize.{finalize_members}
use holos_substrate.Keycloak.Finalize.Released.{Nobody, MayRelease, finalize_members-releases}

abbrev pub Realm : Type 0
Realm = List (Text × Text)

unfoldable pub is_edge : Text × Text → Text → Text → Bool
is_edge (v, h) u g = v == u && h == g

unfoldable pub is_member : Realm → Text → Text → Bool
is_member [] u g = false
is_member (e ∷ s) u g = is_edge e u g || is_member s u g

unfoldable pub groups_of : Text → Realm → List Group
groups_of v [] = []
groups_of v ((u, h) ∷ s) =
    let rest = groups_of v s in if u == v then record { id = h; path = [] } ∷ rest else rest

unfoldable pub without : Text → Text → Realm → Realm
without v h [] = []
without v h (e ∷ s) = let rest = without v h s in if is_edge e v h then rest else e ∷ rest

unfoldable pub find_user : Text → Option Text
find_user email =
    if email == text "a@x" || email == text "new@x"
    then some (text "a")
    else if email == text "b@x"
    then some (text "b")
    else none

unfoldable pub client : MembershipClient Realm
client = record {
  get_group_by_path = λ path s. (ok (record { id = text "dev"; path = path }), s);
  find_user_by_email = λ email s. (ok (find_user email), s);
  list_user_groups = λ v s. (ok (groups_of v s), s);
  add_user_to_group = λ v h s. (none, (v, h) ∷ s);
  remove_user_from_group_if_member = λ v h s. (none, without v h s);
}

listed : (v : Text) (s : Realm) (g : Text) → contains_group_id (groups_of v s) g ≡ is_member s v g
unfolding contains_group_id groups_of is_member is_edge some_of
listed v [] g = refl
listed v ((u, h) ∷ s) g = ground (arith, listed v s g)

other : (v h u g : Text) → ((u ≢ v) ⊎ (g ≢ h)) → is_edge (v, h) u g ≡ false
unfolding is_edge
other v h u g (inl n) = elim (Bool-cases (v == u)) [
  | inl e ↦ elim (n (sym ((==_iff v u).0 e))) [ ]
  | inr e ↦ ground arith
]
other v h u g (inr n) = elim (Bool-cases (h == g)) [
  | inl e ↦ elim (n (sym ((==_iff h g).0 e))) [ ]
  | inr e ↦ ground arith
]

same_edge : (w k v h : Text) → is_edge (w, k) v h ≡ true → (w ≡ v) × (k ≡ h)
unfolding is_edge
same_edge w k v h e = elim (Bool-cases (w == v)) [
  | inl p ↦ ((==_iff w v).0 p, (==_iff k h).0 (ground arith))
  | inr p ↦ ground arith
]

kept :
    (v h : Text) (s : Realm) (u g : Text)
    → ((u ≢ v) ⊎ (g ≢ h))
    → is_member (without v h s) u g ≡ is_member s u g
unfolding is_member without
kept v h [] u g n = refl
kept v h ((w, k) ∷ s) u g n = elim (Bool-cases (is_edge (w, k) v h)) [
  | inr e ↦ ground (arith, kept v h s u g n)
  | inl e ↦
      let (p, q) = same_edge w k v h e in
      let f : is_edge (w, k) u g ≡ false = rw p (rw q (other v h u g n)) in
      ground (arith, kept v h s u g n)
]

gone : (v h : Text) (s : Realm) → is_member (without v h s) v h ≡ false
unfolding is_member without
gone v h [] = refl
gone v h (e ∷ s) = ground (arith, gone v h s)

absent :
    (v h : Text) (s : Realm) (u g : Text)
    → is_member s u g ≡ false
    → is_member (without v h s) u g ≡ false
unfolding is_member without
absent v h [] u g n = refl
absent v h (e ∷ s) u g n = ground (arith, absent v h s u g)

self : (v h : Text) → is_edge (v, h) v h ≡ true
unfolding is_edge
self v h = ground (arith, ==-self v, ==-self h)

laws : IsKeycloak client is_member
unfolding client is_member
laws = record {
  get_group = λ p s u g. refl;
  find = λ e s u g. refl;
  list = λ v s u g. refl;
  listed = λ v s groups e g. rw (← ok-injective e) (listed v s g);
  add_other = λ v h s u g n. ground (arith, other v h u g n);
  add_keeps = λ v h s u g m. ground arith;
  added = λ v h s e. ground (arith, self v h);
  remove_other = λ v h s u g n. kept v h s u g n;
  remove_keeps = λ v h s u g n. absent v h s u g n;
  removed = λ v h s e. gone v h s;
}

abbrev no_peer : Text → Bool
no_peer email = email == text "peer@x"

-- The status has "a" under an email that the spec no longer has, and "p" that a peer has.
abbrev before : Sync Realm
before = record {
  realm = (text "a", text "dev") ∷ (text "p", text "dev") ∷ (text "a", text "ops") ∷ [];
  managed = (text "a@x", text "a") ∷ (text "peer@x", text "p") ∷ [];
  changed = false;
  mutation = record { mutated = false; healed_drift = false };
  missing = [];
}

abbrev spec : List Text
spec = text "b@x" ∷ text "nobody@x" ∷ []

abbrev after : Sync Realm
after = record {
  realm = (text "b", text "dev") ∷ (text "p", text "dev") ∷ (text "a", text "ops") ∷ [];
  managed = (text "b@x", text "b") ∷ [];
  changed = true;
  mutation = record { mutated = true; healed_drift = false };
  missing = text "nobody@x" ∷ [];
}

test_sync : sync_members client (text "dev") no_peer spec (text "dev") before ≡ (none, after)
unfolding sync_members client find_user groups_of without is_edge
test_sync = refl

-- A user whose email is renamed in the spec and in Keycloak is taken out of the group, though the
-- spec has the new email: the entry of the old one is withdrawn after the user is recorded again.
abbrev renamed : Sync Realm
renamed = record before {
  realm = (text "a", text "dev") ∷ [];
  managed = (text "a@x", text "a") ∷ [];
}

test_renamed : sync_members client (text "dev") no_peer (text "new@x" ∷ []) (text "dev") renamed ≡ (
  none,
  record renamed {
    realm = [];
    managed = (text "new@x", text "a") ∷ [];
    changed = true;
    mutation = record { mutated = true; healed_drift = false };
  },
)
unfolding sync_members client find_user groups_of without is_edge
test_renamed = refl

sync_members-Edits_example :
    Edits client is_member laws
      (text "dev")
      (CanJoin client is_member laws (text "dev") spec)
      (CanLeave client is_member laws (text "dev") no_peer spec (text "dev") before.managed)
      before.realm
      (sync_members client (text "dev") no_peer spec (text "dev") before).1.realm
sync_members-Edits_example =
    sync_members-Edits client is_member laws (text "dev") no_peer spec (text "dev") before

sync_members-IsConverged_example :
    IsConverged client is_member laws
      (text "dev")
      no_peer
      spec
      (text "dev")
      before
      (sync_members client (text "dev") no_peer spec (text "dev") before).1
sync_members-IsConverged_example =
    sync_members-IsConverged client is_member laws (text "dev") no_peer spec (text "dev") before
      (ap (λ r. r.0) test_sync)

abbrev recorded : List ManagedGroupMember
recorded =
    record { email = text "a@x"; user_id = text "a" }
    ∷ record { email = text "peer@x"; user_id = text "p" }
    ∷ []

test_finalize :
    finalize_members client no_peer (text "dev") recorded before.realm
    ≡ (none, (text "p", text "dev") ∷ (text "a", text "ops") ∷ [])
unfolding finalize_members client groups_of without is_edge
test_finalize = refl

finalize_members-releases_example :
    Edits client is_member laws
      (text "dev")
      Nobody
      (MayRelease client is_member laws (text "dev") no_peer recorded)
      before.realm
      (finalize_members client no_peer (text "dev") recorded before.realm).1
    × ((finalize_members client no_peer (text "dev") recorded before.realm).0 ≡ none
        → (m : ManagedGroupMember) → Has m recorded
        → no_peer m.email ≡ false
        → Gone client is_member laws
            (text "dev")
            m.user_id
            (finalize_members client no_peer (text "dev") recorded before.realm).1)
finalize_members-releases_example =
    finalize_members-releases client is_member laws (text "dev") no_peer recorded before.realm
