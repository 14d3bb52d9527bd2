-- ===== src/Keycloak/Membership/Pruned.antt =====
-- What the second loop of `reconcileMembers` leaves, and the whole of it when it succeeds.
use holos_substrate.Base.{
  ◌≡◌, ◌≢◌, ◌⊎◌, inl, inr, sym, ap, subst, ◌∙◌, Bool, true, false, Option, none, some, List, [],
  ◌∷◌, arith, Bool-cases, clash, Has, here, there,
}
use holos_substrate.Base.Text.{Text, ◌==◌, ==_iff}
use holos_substrate.Base.Dict.{Dict, lookup, insert, erase, lookup-erase}
use holos_substrate.Base.Loop.{each}
use holos_substrate.Keycloak.Membership.{
  SyncError, MembershipClient, Sync, Step, is_desired, stays, prune_member,
}
use holos_substrate.Keycloak.Membership.Laws.{IsKeycloak}
use holos_substrate.Keycloak.Membership.Outcome.{
  Gone, out, unknown, prune_failed, kept, released, prune_member-outcome,
}
use holos_substrate.Keycloak.Membership.Edits.{same, joined, left, prune_member-Edits}
use holos_substrate.Keycloak.Membership.Converged.{Never, Always, each-next}

Has-erase : (k : Text) (d : Dict Text) {x : Text × Text} → Has x (erase k d) → (x.0 ≢ k) × Has x d
unfolding erase
Has-erase k [] m = elim m [ ]
Has-erase k ((j, w) ∷ d) m = elim (Bool-cases (j == k)) [
  | inl e ↦ let (n, l) = Has-erase k d (subst (Has _) (ground arith) m) in (n, there l)
  | inr e ↦ elim (subst (Has _) {y = (j, w) ∷ erase k d} (ground arith) m) [
    | here i ↦
        (λ q. clash (j == k) ((==_iff j k).1 (sym (ap (λ (p : Text × Text). p.0) i) ∙ q)) e, here i)
    | there l ↦ let (n, o) = Has-erase k d l in (n, there o)
  ]
]

pub Has-insert-other :
    (k v : Text) (d : Dict Text) {x : Text × Text} → Has x d → x.0 ≢ k → Has x (insert k v d)
unfolding insert
Has-insert-other k v [] m n = elim m [ ]
Has-insert-other k v ((j, w) ∷ d) {x} m n = elim (Bool-cases (j == k)) [
  | inl e ↦ subst (Has x) {x = (k, v) ∷ d} (ground arith) (elim m [
    | here i ↦ elim (n (ap (λ (p : Text × Text). p.0) i ∙ (==_iff j k).0 e)) [ ]
    | there l ↦ there l
  ])
  | inr e ↦
      subst (Has x) {x = (j, w) ∷ insert k v d} (ground arith)
        (elim m [ here i ↦ here i | there l ↦ there (Has-insert-other k v d l n) ])
]

module _ {S : Type 0} (kc : MembershipClient S) (member : S → Text → Text → Bool)
    (laws : IsKeycloak kc member) (group_id : Text) (peer_desires : Text → Bool)
    (members : List Text) (previous : Text) where
  unfoldable pub prune : Text × Text → Step S
  prune = prune_member kc group_id peer_desires members previous

  -- The managed members that are desired, or still to be looked at.
  unfoldable pub Remaining : Dict Text → Dict Text → Type 0
  Remaining rest managed =
      (x : Text × Text) → Has x managed → (is_desired members x.0 ≡ true) ⊎ Has x rest

  prune-Remaining :
      (x : Text × Text) (rest : Dict Text) (sync : Sync S)
      → (prune x sync).0 ≡ none
      → Remaining (x ∷ rest) sync.managed
      → Remaining rest (prune x sync).1.managed
  unfolding prune Remaining
  prune-Remaining (email, v) rest sync e h y m =
      elim (prune_member-outcome kc member laws group_id peer_desires members previous email v
        sync) [
          | prune_failed x q ↦ cc
          | kept d a b ↦ elim (h y (subst (Has y) a m)) [
            | inl q ↦ inl q
            | inr (here i) ↦
                inl (subst (λ (p : Text × Text). is_desired members p.0 ≡ true) (sym i) d)
            | inr (there l) ↦ inr l
          ]
          | released d a b g ↦
              let (n, l) = Has-erase email sync.managed (subst (Has y) a m) in
              elim (h y l) [
                | inl q ↦ inl q
                | inr (here i) ↦ elim (n (ap (λ (p : Text × Text). p.0) i)) [ ]
                | inr (there o) ↦ inr o
              ]
        ]

  pub each-Remaining :
      (entries : Dict Text) (sync : Sync S)
      → (each prune entries sync).0 ≡ none
      → Remaining entries sync.managed
      → Remaining [] (each prune entries sync).1.managed
  unfolding each
  each-Remaining [] sync e h = h
  each-Remaining (x ∷ entries) sync e h =
      let (q, n) = each-next prune x entries sync e in
      subst (λ (r : Option SyncError × Sync S). Remaining [] r.1.managed) (sym n)
        (each-Remaining entries (prune x sync).1
          (ap (λ (r : Option SyncError × Sync S). r.0) (sym n) ∙ e)
          (prune-Remaining x entries sync q h))

  -- What is recorded for a desired email stays.
  pub prune-lookup :
      (x : Text × Text) (sync : Sync S) (email v : Text)
      → (prune x sync).0 ≡ none
      → is_desired members email ≡ true
      → lookup email sync.managed ≡ some v
      → lookup email (prune x sync).1.managed ≡ some v
  unfolding prune
  prune-lookup (k, w) sync email v e d l =
      elim (prune_member-outcome kc member laws group_id peer_desires members previous k w sync) [
        | prune_failed x q ↦ cc
        | kept c a b ↦ rw a l
        | released c a b g ↦ elim (Bool-cases (k == email)) [
          | inl t ↦ clash (is_desired members email) d (rw (← (==_iff k email).0 t) c)
          | inr t ↦ rw a (ground (arith, lookup-erase email k sync.managed))
        ]
      ]

  pub prune-missing :
      (x : Text × Text) (sync : Sync S)
      → (prune x sync).0 ≡ none
      → (prune x sync).1.missing ≡ sync.missing
  unfolding prune
  prune-missing (k, w) sync e =
      elim (prune_member-outcome kc member laws group_id peer_desires members previous k w sync) [
        | prune_failed x q ↦ cc
        | kept c a b ↦ b
        | released c a b g ↦ b
      ]

  abbrev pub Pending : Text × Text → Type 0
  Pending x = (is_desired members x.0 ≡ false) × (stays group_id peer_desires previous x.0 ≡ false)

  abbrev pub GoneIn : Text → S → Type 0
  GoneIn = Gone kc member laws group_id

  pub prune-own :
      (x : Text × Text) (sync : Sync S)
      → (prune x sync).0 ≡ none
      → Pending x
      → GoneIn x.1 (prune x sync).1.realm
  unfolding prune
  prune-own (k, w) sync e (d, t) =
      elim (prune_member-outcome kc member laws group_id peer_desires members previous k w sync) [
        | prune_failed x q ↦ cc
        | kept c a b ↦ clash (is_desired members k) c d
        | released c a b (inl g) ↦ clash (stays group_id peer_desires previous k) g t
        | released c a b (inr g) ↦ g
      ]

  -- No one is added while members are removed.
  pub prune-Gone :
      (v : Text) (x : Text × Text) (sync : Sync S)
      → GoneIn v sync.realm
      → GoneIn v (prune x sync).1.realm
  unfolding prune
  prune-Gone v (k, w) sync (unknown s e a b) = unknown s e a b
  prune-Gone v (k, w) sync (out h) =
      elim (prune_member-Edits kc member laws group_id Never Always peer_desires members previous k
        w sync (λ d t. tt) v group_id) [
          | same e ↦ out (e ∙ h)
          | joined a b c ↦ cc
          | left a b c ↦ out a
        ]
