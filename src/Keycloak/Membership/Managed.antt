-- ===== src/Keycloak/Membership/Managed.antt =====
-- The map `managed` of `reconcileMembers`, and the memberships that the whole of it changes.
use holos_substrate.Base.{
  ◌≡◌, ◌⊎◌, inl, inr, sym, ap, subst, Bool, true, false, some, List, [], ◌∷◌, arith, ok, clash,
  Option-cases, Has, if◌then◌else◌, here, there, some_of-of-Has,
}
use holos_substrate.Base.Text.{Text, ◌==◌, ==-self}
use holos_substrate.Base.Dict.{Dict, insert}
use holos_substrate.Base.Loop.{each, each-keeps}
use holos_substrate.Keycloak.Membership.{
  MembershipClient, Sync, is_desired, ensure_member, stays, prune_member, prune_after, sync_members,
}
use holos_substrate.Keycloak.Membership.Laws.{IsKeycloak}
use holos_substrate.Keycloak.Membership.Outcome.{
  ensure_failed, not_found, placed, ensure_member-outcome,
}
use holos_substrate.Keycloak.Membership.Edits.{
  Edits, one_by_one, to_realm, ensure_member-Edits, prune_member-Edits, each-Edits,
}

pub is_desired-of-Has :
    (members : List Text) {email : Text} → Has email members → is_desired members email ≡ true
unfolding is_desired
is_desired-of-Has members {email} m =
    some_of-of-Has (λ (e : Text). e == email) members m (==-self email)

-- An `if` between a pair put in front and one that is looked for further on.
Has-if_cons :
    (b : Bool) {x y z : Text × Text} {d rest : Dict Text}
    → Has x (if b then y ∷ d else z ∷ rest)
    → (x ≡ y) ⊎ Has x d ⊎ (x ≡ z) ⊎ Has x rest
Has-if_cons true (here e) = inl e
Has-if_cons true (there m) = inr (inl m)
Has-if_cons false (here e) = inr (inr (inl e))
Has-if_cons false (there m) = inr (inr (inr m))

Has-insert :
    (k v : Text) (d : Dict Text) {x : Text × Text} → Has x (insert k v d) → (x.0 ≡ k) ⊎ Has x d
unfolding insert
Has-insert k v [] (here e) = inl (ap (λ (p : Text × Text). p.0) e)
Has-insert k v [] (there m) = elim m [ ]
Has-insert k v ((j, w) ∷ d) m = elim (Has-if_cons (j == k) m) [
  | inl e ↦ inl (ap (λ (p : Text × Text). p.0) e)
  | inr (inl n) ↦ inr (there n)
  | inr (inr (inl e)) ↦ inr (here e)
  | inr (inr (inr n)) ↦ elim (Has-insert k v d n) [ inl e ↦ inl e | inr q ↦ inr (there q) ]
]

-- A pair that `managed` has was there before, or its email is desired.
abbrev pub FromBefore : List Text → Dict Text → Dict Text → Type 0
FromBefore members before managed =
    (x : Text × Text) → Has x managed → (is_desired members x.0 ≡ true) ⊎ Has x before

module _ {S : Type 0} (kc : MembershipClient S) (member : S → Text → Text → Bool)
    (laws : IsKeycloak kc member) (group_id : Text) where
  ensure_member-FromBefore :
      (members : List Text) (before : Dict Text) (email : Text) (sync : Sync S)
      → Has email members
      → FromBefore members before sync.managed
      → FromBefore members before (ensure_member kc group_id email sync).1.managed
  ensure_member-FromBefore members before email sync m h =
      elim (ensure_member-outcome kc member laws group_id email sync) [
        | ensure_failed x e a ↦ subst (FromBefore members before) (sym a) h
        | not_found e a n ↦ subst (FromBefore members before) (sym a) h
        | placed v e a n i ↦ subst (FromBefore members before) (sym a) (λ x k.
            elim (Has-insert email v sync.managed k) [
              | inl q ↦ inl (rw q (is_desired-of-Has members m))
              | inr q ↦ h x q
            ])
      ]

  -- Who may be added: a user that Keycloak has under an email of the spec.
  abbrev pub CanJoin : List Text → Text → Type 0
  CanJoin members v =
      (email : Text) × Has email members
      × (s : S) × ((kc.find_user_by_email email s).0 ≡ ok (some v))

  -- Who may be removed: a user that was added under an email that neither this spec nor an
  -- authorized peer's has, while the group is the one it was added to.
  abbrev pub CanLeave : (Text → Bool) → List Text → Text → Dict Text → Text → Type 0
  CanLeave peer_desires members previous managed v =
      (email : Text) × Has {A = Text × Text} (email, v) managed
      × (is_desired members email ≡ false)
      × (stays group_id peer_desires previous email ≡ false)

  pub ensure_all-FromBefore :
      (members : List Text) (sync : Sync S)
      → FromBefore members sync.managed (each (ensure_member kc group_id) members sync).1.managed
  ensure_all-FromBefore members sync =
      each-keeps (λ (at : Sync S). FromBefore members sync.managed at.managed)
        (ensure_member kc group_id) members sync
        (λ email m at. ensure_member-FromBefore members sync.managed email at m) (λ x k. inr k)

  pub prune_all-Edits :
      (peer_desires : Text → Bool) (members : List Text) (previous : Text) (before : Dict Text)
      (sync : Sync S)
      → FromBefore members before sync.managed
      → Edits kc member laws group_id
          (CanJoin members)
          (CanLeave peer_desires members previous before)
          sync.realm
          (each (prune_member kc group_id peer_desires members previous) sync.managed sync).1.realm
  prune_all-Edits peer_desires members previous before sync known =
      let leave = CanLeave peer_desires members previous before in
      each-Edits kc member laws group_id (CanJoin members) leave
        (prune_member kc group_id peer_desires members previous) sync.managed sync
        (λ x m at.
          prune_member-Edits kc member laws group_id (CanJoin members) leave peer_desires members
            previous x.0 x.1 at
            (λ d t. elim (known x m) [
              | inl q ↦ clash (is_desired members x.0) q d
              | inr b ↦ (x.0, b, d, t)
            ]))

  -- `reconcileMembers`, whether it fails or not, changes no membership of another group, adds only
  -- users that Keycloak has under an email of the spec, and removes only users that the status
  -- records under an email that is in neither this spec nor that of an authorized peer, and only if
  -- the status records this group or none.
  pub sync_members-Edits :
      (peer_desires : Text → Bool) (members : List Text) (previous : Text) (sync : Sync S)
      → Edits kc member laws group_id
          (CanJoin members)
          (CanLeave peer_desires members previous sync.managed)
          sync.realm
          (sync_members kc group_id peer_desires members previous sync).1.realm
  unfolding sync_members prune_after
  sync_members-Edits peer_desires members previous sync =
      let join = CanJoin members in
      let leave = CanLeave peer_desires members previous sync.managed in
      let first = (each (ensure_member kc group_id) members sync).1 in
      let second =
        (each (prune_member kc group_id peer_desires members previous) first.managed first).1 in
      let ensured =
        each-Edits kc member laws group_id join leave (ensure_member kc group_id) members sync
          (λ email m at.
            ensure_member-Edits kc member laws group_id join leave email at
              (λ v s e. (email, m, s, e))) in
      let pruned =
        prune_all-Edits peer_desires members previous sync.managed first
          (ensure_all-FromBefore members sync) in
      elim (Option-cases (each (ensure_member kc group_id) members sync).0) [
        | inr (x, e) ↦
            to_realm kc member laws group_id join leave sync.realm {t = first.realm} (ground arith)
              ensured
        | inl e ↦
            to_realm kc member laws group_id join leave sync.realm {t = second.realm} (ground arith)
              (one_by_one kc member laws group_id join leave sync.realm first.realm second.realm
                ensured pruned)
      ]
