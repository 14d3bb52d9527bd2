-- ===== src/Keycloak/Membership/Outcome.antt =====
-- What one round of each loop of `reconcileMembers` ends in.
use holos_substrate.Base.{
  ◌≡◌, ◌⊎◌, inl, inr, refl, ap, subst, Bool, true, false, Option, none, some, List, [], ◌∷◌, ◌++◌,
  arith, err, Bool-cases, Option-cases, Result-cases,
}
use holos_substrate.Base.Text.{Text}
use holos_substrate.Base.Dict.{insert, erase}
use holos_substrate.Keycloak.Membership.{
  ApiError, SyncError, looking_up, listing_groups, adding, removing, listing_managed,
  MembershipClient, Sync, contains_group_id, is_desired, record_member, with_drift, with_mutation,
  add_user, ensure_user, ensure_member, release, remove_user, withdraw, stays, prune_member,
  is_not_found,
}
use holos_substrate.Keycloak.Membership.Laws.{IsKeycloak}

module _ {S : Type 0} (kc : MembershipClient S) (member : S → Text → Text → Bool)
    (laws : IsKeycloak kc member) (group_id : Text) where
  pub data Ensured (email : Text) (before : Sync S) (e : Option SyncError) (after : Sync S)
      : Type 0 where
    ensure_failed :
        (x : SyncError) → e ≡ some x → after.managed ≡ before.managed → Ensured email before e after
    not_found :
        e ≡ none
        → after.managed ≡ before.managed
        → after.missing ≡ before.missing ++ (email ∷ [])
        → Ensured email before e after
    placed :
        (v : Text)
        → e ≡ none
        → after.managed ≡ insert email v before.managed
        → after.missing ≡ before.missing
        → member after.realm v group_id ≡ true
        → Ensured email before e after

  add_outcome :
      (email v : Text) (before sync : Sync S)
      → sync.managed ≡ before.managed
      → sync.missing ≡ before.missing
      → Ensured email before
          (add_user kc group_id email v sync).0
          (add_user kc group_id email v sync).1
  unfolding add_user record_member with_mutation
  add_outcome email v before sync m n =
      elim (Option-cases (kc.add_user_to_group v group_id sync.realm).0) [
        | inr (x, e) ↦
            ensure_failed (adding email group_id x) (rw (e, add_user) refl) (rw (e, add_user) m)
        | inl e ↦
            placed v (rw (e, add_user) refl) (rw (e, add_user) (ap (insert email v) m))
              (rw (e, add_user) n) (rw (e, add_user) (laws.added v group_id sync.realm e))
      ]

  ensure_outcome :
      (email v : Text) (before sync : Sync S)
      → sync.managed ≡ before.managed
      → sync.missing ≡ before.missing
      → Ensured email before
          (ensure_user kc group_id email v sync).0
          (ensure_user kc group_id email v sync).1
  unfolding ensure_user record_member with_drift
  ensure_outcome email v before sync m n =
      let s = sync.realm in
      let next = record sync { realm = (kc.list_user_groups v s).1 } in
      elim (Result-cases (kc.list_user_groups v s).0) [
        | inr (x, e) ↦
            ensure_failed (listing_groups email x) (rw (e, ensure_user) refl)
              (rw (e, ensure_user) m)
        | inl (groups, e) ↦ elim (Bool-cases (contains_group_id groups group_id)) [
          | inl d ↦
              placed v (ground arith) (ground arith) (ground arith)
                (ground (arith, laws.list v s v group_id, laws.listed v s groups e group_id))
          | inr d ↦
              subst (λ (r : Option SyncError × Sync S). Ensured email before r.0 r.1)
                {x = add_user kc group_id email v (with_drift email v next)} (ground arith)
                (add_outcome email v before (with_drift email v next) m n)
        ]
      ]

  pub ensure_member-outcome :
      (email : Text) (sync : Sync S)
      → Ensured email sync
          (ensure_member kc group_id email sync).0
          (ensure_member kc group_id email sync).1
  unfolding ensure_member
  ensure_member-outcome email sync =
      let s = sync.realm in
      let next = record sync { realm = (kc.find_user_by_email email s).1 } in
      elim (Result-cases (kc.find_user_by_email email s).0) [
        | inr (x, e) ↦
            ensure_failed (looking_up email x) (rw (e, ensure_member) refl)
              (rw (e, ensure_member) refl)
        | inl (none, e) ↦
            not_found (rw (e, ensure_member) refl) (rw (e, ensure_member) refl)
              (rw (e, ensure_member) refl)
        | inl (some v, e) ↦
            subst (λ (r : Option SyncError × Sync S). Ensured email sync r.0 r.1)
              {x = ensure_user kc group_id email v next} (ground arith)
              (ensure_outcome email v sync next refl refl)
      ]

  -- A user who is out of the group, or whom Keycloak no longer knows.
  pub data Gone (v : Text) (after : S) : Type 0 where
    out : member after v group_id ≡ false → Gone v after
    unknown :
        (s : S) (e : ApiError)
        → (kc.list_user_groups v s).0 ≡ err e
        → is_not_found e ≡ true
        → Gone v after

  pub data Pruned (members : List Text) (stay : Bool) (email v : Text) (before : Sync S)
      (e : Option SyncError) (after : Sync S) : Type 0 where
    prune_failed : (x : SyncError) → e ≡ some x → Pruned members stay email v before e after
    kept :
        is_desired members email ≡ true
        → after.managed ≡ before.managed
        → after.missing ≡ before.missing
        → Pruned members stay email v before e after
    released :
        is_desired members email ≡ false
        → after.managed ≡ erase email before.managed
        → after.missing ≡ before.missing
        → (stay ≡ true) ⊎ Gone v after.realm
        → Pruned members stay email v before e after

  remove_outcome :
      (members : List Text) (stay : Bool) (email v : Text) (before sync : Sync S)
      → is_desired members email ≡ false
      → sync.managed ≡ before.managed
      → sync.missing ≡ before.missing
      → Pruned members stay email v before
          (remove_user kc group_id email v sync).0
          (remove_user kc group_id email v sync).1
  unfolding remove_user release with_mutation
  remove_outcome members stay email v before sync d m n =
      elim (Option-cases (kc.remove_user_from_group_if_member v group_id sync.realm).0) [
        | inr (x, e) ↦ prune_failed (removing email group_id x) (rw (e, remove_user) refl)
        | inl e ↦
            released d (rw (e, remove_user) (ap (erase email) m)) (rw (e, remove_user) n)
              (inr (out (rw (e, remove_user) (laws.removed v group_id sync.realm e))))
      ]

  withdraw_outcome :
      (members : List Text) (stay : Bool) (email v : Text) (sync : Sync S)
      → is_desired members email ≡ false
      → Pruned members stay email v sync
          (withdraw kc group_id email v sync).0
          (withdraw kc group_id email v sync).1
  unfolding withdraw release
  withdraw_outcome members stay email v sync d =
      let s = sync.realm in
      let next = record sync { realm = (kc.list_user_groups v s).1 } in
      elim (Result-cases (kc.list_user_groups v s).0) [
        | inr (x, e) ↦ elim (Bool-cases (is_not_found x)) [
          | inl n ↦ released d (ground arith) (ground arith) (inr (unknown s x e n))
          | inr n ↦ prune_failed (listing_managed email x) (ground arith)
        ]
        | inl (groups, e) ↦ elim (Bool-cases (contains_group_id groups group_id)) [
          | inr c ↦ released d (ground arith) (ground arith) (
              inr
                (out (ground (arith, laws.list v s v group_id, laws.listed v s groups e group_id))))
          | inl c ↦
              subst (λ (r : Option SyncError × Sync S). Pruned members stay email v sync r.0 r.1)
                {x = remove_user kc group_id email v next} (ground arith)
                (remove_outcome members stay email v sync next d refl refl)
        ]
      ]

  pub prune_member-outcome :
      (peer_desires : Text → Bool) (members : List Text) (previous email v : Text) (sync : Sync S)
      → Pruned members
          (stays group_id peer_desires previous email)
          email
          v
          sync
          (prune_member kc group_id peer_desires members previous (email, v) sync).0
          (prune_member kc group_id peer_desires members previous (email, v) sync).1
  unfolding prune_member release
  prune_member-outcome peer_desires members previous email v sync =
      elim (Bool-cases (is_desired members email)) [
        | inl d ↦ kept d (ground arith) (ground arith)
        | inr d ↦ elim (Bool-cases (stays group_id peer_desires previous email)) [
          | inl t ↦ released d (ground arith) (ground arith) (inl t)
          | inr t ↦
              subst
                (λ (r : Option SyncError × Sync S).
                  Pruned members (stays group_id peer_desires previous email) email v sync r.0 r.1)
                {x = withdraw kc group_id email v sync} (ground arith)
                (withdraw_outcome members _ email v sync d)
        ]
      ]
