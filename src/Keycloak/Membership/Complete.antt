-- ===== src/Keycloak/Membership/Complete.antt =====
-- The whole of `reconcileMembers` when it succeeds.
use holos_substrate.Base.{
  ◌≡◌, ◌⊎◌, inl, inr, refl, sym, ap, subst, ◌∙◌, Bool, true, false, Option, none, some, List, arith,
  clash, Option-cases, Has,
}
use holos_substrate.Base.Text.{Text}
use holos_substrate.Base.Dict.{lookup}
use holos_substrate.Base.Loop.{each, each-keeps}
use holos_substrate.Keycloak.Membership.{
  SyncError, MembershipClient, Sync, Step, is_desired, ensure_member, stays, prune_after,
  sync_members,
}
use holos_substrate.Keycloak.Membership.Laws.{IsKeycloak}
use holos_substrate.Keycloak.Membership.Outcome.{
  Gone, ensure_failed, not_found, placed, ensure_member-outcome,
}
use holos_substrate.Keycloak.Membership.Edits.{same, joined, left}
use holos_substrate.Keycloak.Membership.Managed.{
  is_desired-of-Has, CanLeave, ensure_all-FromBefore, prune_all-Edits,
}
use holos_substrate.Keycloak.Membership.Converged.{
  each-done, each-own, Settled, ensure_member-Settled, ensure_member-own,
}
use holos_substrate.Keycloak.Membership.Pruned.{
  prune, Remaining, each-Remaining, prune-lookup, prune-missing, prune-own, prune-Gone, Pending,
  Has-insert-other,
}

module _ {S : Type 0} (kc : MembershipClient S) (member : S → Text → Text → Bool)
    (laws : IsKeycloak kc member) (group_id : Text) (peer_desires : Text → Bool)
    (members : List Text) (previous : Text) where
  -- A call of `reconcileMembers` that ends without an error.
  pub record IsConverged (before after : Sync S) : Type 0 where
    pub settled :
        (email : Text)
        → Has email members
        → Has email after.missing
          ⊎ ((v : Text) × (lookup email after.managed ≡ some v)
              × ((member after.realm v group_id ≡ true)
                  ⊎ CanLeave kc member laws group_id peer_desires members previous before.managed
                      v))
    pub owned : (x : Text × Text) → Has x after.managed → is_desired members x.0 ≡ true
    pub gone :
        (email v : Text)
        → Has {A = Text × Text} (email, v) before.managed
        → is_desired members email ≡ false
        → stays group_id peer_desires previous email ≡ false
        → Gone kc member laws group_id v after.realm

  abbrev step : Text × Text → Step S
  step = prune kc member laws group_id peer_desires members previous

  -- The two loops, one after the other.
  abbrev first : Sync S → Option SyncError × Sync S
  first sync = each (ensure_member kc group_id) members sync

  abbrev second : Sync S → Option SyncError × Sync S
  second sync = each step (first sync).1.managed (first sync).1

  both_done :
      (sync : Sync S)
      → (sync_members kc group_id peer_desires members previous sync).0 ≡ none
      → ((first sync).0 ≡ none)
        × (sync_members kc group_id peer_desires members previous sync ≡ second sync)
  unfolding sync_members prune_after prune
  both_done sync e = elim (Option-cases (first sync).0) [
    | inr (x, q) ↦ let c : some x ≡ none = ground arith in cc
    | inl q ↦ (q, ground arith)
  ]

  -- A managed member that is not desired is still there when the second loop starts.
  ensure-Pending :
      (x : Text × Text) (sync : Sync S)
      → is_desired members x.0 ≡ false
      → Has x sync.managed
      → Has x (first sync).1.managed
  ensure-Pending x sync d m =
      each-keeps (λ (at : Sync S). Has x at.managed) (ensure_member kc group_id) members sync
        (λ email k at h. elim (ensure_member-outcome kc member laws group_id email at) [
          | ensure_failed y e a ↦ subst (Has x) (sym a) h
          | not_found e a n ↦ subst (Has x) (sym a) h
          | placed v e a n i ↦ subst (Has x) (sym a) (
              Has-insert-other email v at.managed h
                (λ q. clash (is_desired members x.0) (rw q (is_desired-of-Has members k)) d))
        ])
        m

  settled_after :
      (sync : Sync S) (email : Text)
      → (first sync).0 ≡ none
      → (second sync).0 ≡ none
      → Has email members
      → Has email (second sync).1.missing
        ⊎ ((v : Text) × (lookup email (second sync).1.managed ≡ some v)
            × ((member (second sync).1.realm v group_id ≡ true)
                ⊎ CanLeave kc member laws group_id peer_desires members previous sync.managed v))
  unfolding Settled prune
  settled_after sync email e d m =
      let at = (first sync).1 in
      let settled =
        each-own (ensure_member kc group_id) (Settled kc member laws group_id) members sync
          (λ b a s. ensure_member-Settled kc member laws group_id b a s)
          (ensure_member-own kc member laws group_id) e email m in
      elim settled [
        | inl k ↦ inl (
            subst (Has email)
              (sym (
                each-done step (λ (s : Sync S). s.missing ≡ at.missing) at.managed at
                  (λ x l s q p.
                    prune-missing kc member laws group_id peer_desires members previous x s q ∙ p)
                  d refl))
              k)
        | inr (v, l, i) ↦ inr (
          v,
          each-done step (λ (s : Sync S). lookup email s.managed ≡ some v) at.managed at
              (λ x k s q.
                prune-lookup kc member laws group_id peer_desires members previous x s email v q
                  (is_desired-of-Has members m))
              d l,
          elim (prune_all-Edits kc member laws group_id peer_desires members previous sync.managed
              at (ensure_all-FromBefore kc member laws group_id members sync) v group_id) [
                | same q ↦ inl (q ∙ i)
                | joined a b c ↦ inl a
                | left a b c ↦ inr c
              ],
        )
      ]

  -- When `reconcileMembers` ends without an error: for every email of the spec, either the email is
  -- reported as missing, or a user is recorded for it who is in the group, unless the status
  -- recorded that same user under an email that is to be removed; no other email is recorded; and a
  -- user recorded under an email that is in neither this spec nor that of an authorized peer is out
  -- of the group or unknown to Keycloak, if the status records this group or none.
  pub sync_members-IsConverged :
      (sync : Sync S)
      → (sync_members kc group_id peer_desires members previous sync).0 ≡ none
      → IsConverged sync (sync_members kc group_id peer_desires members previous sync).1
  unfolding Remaining
  sync_members-IsConverged sync h =
      let (e, n) = both_done sync h in
      let d = ap (λ (r : Option SyncError × Sync S). r.0) (sym n) ∙ h in
      let at = (first sync).1 in
      subst (λ (r : Option SyncError × Sync S). IsConverged sync r.1) (sym n)
        (record {
          settled = λ email m. settled_after sync email e d m;
          owned = λ x m.
              elim (each-Remaining kc member laws group_id peer_desires members previous at.managed
                at d (λ y k. inr k) x m) [ inl q ↦ q | inr k ↦ elim k [ ] ];
          gone = λ email v m p q.
              each-own step
                (λ x (s : Sync S).
                  Pending kc member laws group_id peer_desires members previous x
                  → Gone kc member laws group_id x.1 s.realm)
                at.managed at
                (λ b a s k g r.
                  prune-Gone kc member laws group_id peer_desires members previous b.1 a s (g r))
                (λ a s k r. prune-own kc member laws group_id peer_desires members previous a s k r)
                d (email, v) (ensure-Pending (email, v) sync p m) (p, q);
        })
