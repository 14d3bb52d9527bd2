-- ===== src/Keycloak/Membership/Edits.antt =====
-- Which memberships `reconcileMembers` changes, whether it fails or not.
use holos_substrate.Base.{
  ◌≡◌, ◌≢◌, ◌⊎◌, inl, inr, refl, sym, subst, ◌∙◌, Bool, true, false, none, some, List, [], ◌∷◌,
  arith, ok, Bool-cases, Option-cases, Result-cases, Has, here, there,
}
use holos_substrate.Base.Text.{Text, ◌==◌, ==_iff}
use holos_substrate.Base.Loop.{each}
use holos_substrate.Keycloak.Membership.{
  MembershipClient, Sync, Step, contains_group_id, is_desired, record_member, with_drift,
  with_mutation, add_user, ensure_user, ensure_member, release, remove_user, withdraw, stays,
  prune_member, is_not_found,
}
use holos_substrate.Keycloak.Membership.Laws.{IsKeycloak}

-- What may have become of one membership: `here_in` says that it is one of the group at hand.
pub data Change (here_in can_join can_leave : Type 0) (before after : Bool) : Type 0 where
  same : after ≡ before → Change here_in can_join can_leave before after
  joined : after ≡ true → here_in → can_join → Change here_in can_join can_leave before after
  left : after ≡ false → here_in → can_leave → Change here_in can_join can_leave before after

distinct : (a b : Text) → (a == b) ≡ false → a ≢ b
distinct a b h e = let q : (a == b) ≡ true = (==_iff a b).1 e in cc

module _ {S : Type 0} (kc : MembershipClient S) (member : S → Text → Text → Bool)
    (laws : IsKeycloak kc member) (group_id : Text) (can_join can_leave : Text → Type 0) where
  -- Every membership that differs is one of the group, of a user who may join or leave it.
  abbrev pub Edits : S → S → Type 0
  Edits s t =
      (u g : Text) → Change (g ≡ group_id) (can_join u) (can_leave u) (member s u g) (member t u g)

  pub untouched : (s t : S) → ((u g : Text) → member t u g ≡ member s u g) → Edits s t
  untouched s t h u g = same (h u g)

  pub one_by_one : (s t r : S) → Edits s t → Edits t r → Edits s r
  one_by_one s t r p q u g = elim (q u g) [
    | joined a b c ↦ joined a b c
    | left a b c ↦ left a b c
    | same e ↦ elim (p u g) [
      | same d ↦ same (e ∙ d)
      | joined a b c ↦ joined (e ∙ a) b c
      | left a b c ↦ left (e ∙ a) b c
    ]
  ]

  -- Is the membership that of the call?
  at_edge : (v u g : Text) → ((u ≡ v) × (g ≡ group_id)) ⊎ ((u ≢ v) ⊎ (g ≢ group_id))
  at_edge v u g = elim (Bool-cases (u == v)) [
    | inr e ↦ inr (inl (distinct u v e))
    | inl e ↦ elim (Bool-cases (g == group_id)) [
      | inr d ↦ inr (inr (distinct g group_id d))
      | inl d ↦ inl ((==_iff u v).0 e, (==_iff g group_id).0 d)
    ]
  ]

  add-Edits : (v : Text) (s : S) → can_join v → Edits s (kc.add_user_to_group v group_id s).1
  add-Edits v s c u g = elim (at_edge v u g) [
    | inr n ↦ same (laws.add_other v group_id s u g n)
    | inl (e, d) ↦ elim (Bool-cases (member s u g)) [
      | inl m ↦ same (laws.add_keeps v group_id s u g m ∙ sym m)
      | inr m ↦ elim (Bool-cases (member (kc.add_user_to_group v group_id s).1 u g)) [
        | inl t ↦ joined t d (subst can_join (sym e) c)
        | inr t ↦ same (t ∙ sym m)
      ]
    ]
  ]

  pub remove-Edits :
      (v : Text) (s : S)
      → can_leave v
      → Edits s (kc.remove_user_from_group_if_member v group_id s).1
  remove-Edits v s c u g = elim (at_edge v u g) [
    | inr n ↦ same (laws.remove_other v group_id s u g n)
    | inl (e, d) ↦ elim (Bool-cases (member s u g)) [
      | inr m ↦ same (laws.remove_keeps v group_id s u g m ∙ sym m)
      | inl m ↦
          elim (Bool-cases (member (kc.remove_user_from_group_if_member v group_id s).1 u g)) [
            | inl t ↦ same (t ∙ sym m)
            | inr t ↦ left t d (subst can_leave (sym e) c)
          ]
    ]
  ]

  find-Edits : (e : Text) (s : S) → Edits s (kc.find_user_by_email e s).1
  find-Edits e s = untouched s _ (laws.find e s)

  pub list-Edits : (v : Text) (s : S) → Edits s (kc.list_user_groups v s).1
  list-Edits v s = untouched s _ (laws.list v s)

  -- The realm after a step, given where its computation ends.
  pub to_realm : (s : S) {t r : S} → r ≡ t → Edits s t → Edits s r
  to_realm s e h = subst (Edits s) (sym e) h

  add_user-realm :
      (email v : Text) (sync : Sync S)
      → (add_user kc group_id email v sync).1.realm ≡ (kc.add_user_to_group v group_id sync.realm).1
  unfolding add_user record_member with_mutation
  add_user-realm email v sync = elim (Option-cases (kc.add_user_to_group v group_id sync.realm).0) [
    | inl e ↦ ground arith
    | inr (x, e) ↦ ground arith
  ]

  remove_user-realm :
      (email v : Text) (sync : Sync S)
      → (remove_user kc group_id email v sync).1.realm
        ≡ (kc.remove_user_from_group_if_member v group_id sync.realm).1
  unfolding remove_user release with_mutation
  remove_user-realm email v sync =
      elim (Option-cases (kc.remove_user_from_group_if_member v group_id sync.realm).0) [
        | inl e ↦ ground arith
        | inr (x, e) ↦ ground arith
      ]

  ensure_user-Edits :
      (email v : Text) (sync : Sync S)
      → can_join v
      → Edits sync.realm (ensure_user kc group_id email v sync).1.realm
  unfolding ensure_user record_member with_drift
  ensure_user-Edits email v sync c =
      let s = sync.realm in
      let next = (kc.list_user_groups v s).1 in
      elim (Result-cases (kc.list_user_groups v s).0) [
        | inr (x, e) ↦ to_realm s {t = next} (ground arith) (list-Edits v s)
        | inl (groups, e) ↦ elim (Bool-cases (contains_group_id groups group_id)) [
          | inl d ↦ to_realm s {t = next} (ground arith) (list-Edits v s)
          | inr d ↦
              to_realm s {t = (kc.add_user_to_group v group_id next).1}
                (ground (
                  arith,
                  add_user-realm email v (with_drift email v (record sync { realm = next })),
                ))
                (one_by_one s next _ (list-Edits v s) (add-Edits v next c))
        ]
      ]

  pub ensure_member-Edits :
      (email : Text) (sync : Sync S)
      → ((v : Text) (s : S) → (kc.find_user_by_email email s).0 ≡ ok (some v) → can_join v)
      → Edits sync.realm (ensure_member kc group_id email sync).1.realm
  unfolding ensure_member
  ensure_member-Edits email sync c =
      let s = sync.realm in
      let next = (kc.find_user_by_email email s).1 in
      elim (Result-cases (kc.find_user_by_email email s).0) [
        | inr (x, e) ↦ to_realm s {t = next} (ground arith) (find-Edits email s)
        | inl (none, e) ↦ to_realm s {t = next} (ground arith) (find-Edits email s)
        | inl (some v, e) ↦
            to_realm s
              {t = (ensure_user kc group_id email v (record sync { realm = next })).1.realm}
              (ground arith)
              (one_by_one s next _ (find-Edits email s)
                (ensure_user-Edits email v (record sync { realm = next }) (c v s e)))
      ]

  withdraw-Edits :
      (email v : Text) (sync : Sync S)
      → can_leave v
      → Edits sync.realm (withdraw kc group_id email v sync).1.realm
  unfolding withdraw release
  withdraw-Edits email v sync c =
      let s = sync.realm in
      let next = (kc.list_user_groups v s).1 in
      elim (Result-cases (kc.list_user_groups v s).0) [
        | inr (x, e) ↦ elim (Bool-cases (is_not_found x)) [
          | inl n ↦ to_realm s {t = next} (ground arith) (list-Edits v s)
          | inr n ↦ to_realm s {t = next} (ground arith) (list-Edits v s)
        ]
        | inl (groups, e) ↦ elim (Bool-cases (contains_group_id groups group_id)) [
          | inr d ↦ to_realm s {t = next} (ground arith) (list-Edits v s)
          | inl d ↦
              to_realm s {t = (kc.remove_user_from_group_if_member v group_id next).1}
                (ground (arith, remove_user-realm email v (record sync { realm = next })))
                (one_by_one s next _ (list-Edits v s) (remove-Edits v next c))
        ]
      ]

  pub prune_member-Edits :
      (peer_desires : Text → Bool) (members : List Text) (previous email v : Text) (sync : Sync S)
      → (is_desired members email ≡ false
          → stays group_id peer_desires previous email ≡ false
          → can_leave v)
      → Edits sync.realm
          (prune_member kc group_id peer_desires members previous (email, v) sync).1.realm
  unfolding prune_member release
  prune_member-Edits peer_desires members previous email v sync c =
      let s = sync.realm in
      elim (Bool-cases (is_desired members email)) [
        | inl d ↦ to_realm s {t = s} (ground arith) (untouched s s (λ u g. refl))
        | inr d ↦ elim (Bool-cases (stays group_id peer_desires previous email)) [
          | inl t ↦ to_realm s {t = s} (ground arith) (untouched s s (λ u g. refl))
          | inr t ↦
              to_realm s {t = (withdraw kc group_id email v sync).1.realm} (ground arith)
                (withdraw-Edits email v sync (c d t))
        ]
      ]

  pub each-Edits :
      {A : Type 0} (step : A → Step S) (xs : List A) (sync : Sync S)
      → ((a : A) → Has a xs → (at : Sync S) → Edits at.realm (step a at).1.realm)
      → Edits sync.realm (each step xs sync).1.realm
  unfolding each
  each-Edits step [] sync h = untouched _ _ (λ u g. refl)
  each-Edits step (a ∷ xs) sync h =
      let next = (step a sync).1 in
      let first = h a (here refl) sync in
      elim (Option-cases (step a sync).0) [
        | inr (x, e) ↦ to_realm sync.realm {t = next.realm} (ground arith) first
        | inl e ↦ to_realm sync.realm {t = (each step xs next).1.realm} (ground arith) (
            one_by_one sync.realm next.realm _ first
              (each-Edits step xs next (λ b m. h b (there m))))
      ]
