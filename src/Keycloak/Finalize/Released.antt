-- ===== src/Keycloak/Finalize/Released.antt =====
-- Which memberships the loop of `reconcileDelete` changes, and what it leaves when it succeeds.
use holos_substrate.Base.{
  ◌≡◌, inl, inr, refl, sym, subst, ◌∙◌, Bool, true, false, none, List, [], ◌∷◌, arith, Bool-cases,
  clash, Option-cases, Result-cases, Has, here, there,
}
use holos_substrate.Base.Text.{Text}
use holos_substrate.Keycloak.Membership.{
  ManagedGroupMember, MembershipClient, contains_group_id, is_not_found,
}
use holos_substrate.Keycloak.Membership.Laws.{IsKeycloak}
use holos_substrate.Keycloak.Membership.Outcome.{Gone, out, unknown}
use holos_substrate.Keycloak.Membership.Edits.{
  same, joined, left, Edits, untouched, one_by_one, to_realm, list-Edits, remove-Edits,
}
use holos_substrate.Keycloak.Finalize.{
  finalize_user, finalize_listed, finalize_member, finalize_members,
}

abbrev pub Nobody : Text → Type 0
Nobody v = true ≡ false

module _ {S : Type 0} (kc : MembershipClient S) (member : S → Text → Text → Bool)
    (laws : IsKeycloak kc member) (group_id : Text) (desires : Text → Bool) where
  -- Who may be removed: a user recorded under an email that no authorized peer has.
  abbrev pub MayRelease : List ManagedGroupMember → Text → Type 0
  MayRelease managed v =
      (m : ManagedGroupMember) × Has m managed × (m.user_id ≡ v) × (desires m.email ≡ false)

  module _ (can_leave : Text → Type 0) where
    abbrev Leaves : S → S → Type 0
    Leaves = Edits kc member laws group_id Nobody can_leave

    finalize_user-realm :
        (m : ManagedGroupMember) (s : S)
        → (finalize_user kc desires group_id m s).1
          ≡ (kc.remove_user_from_group_if_member m.user_id group_id s).1
    unfolding finalize_user
    finalize_user-realm m s =
        elim (Option-cases (kc.remove_user_from_group_if_member m.user_id group_id s).0) [
          | inl e ↦ ground arith
          | inr (x, e) ↦ ground arith
        ]

    finalize_listed-Edits :
        (m : ManagedGroupMember) (s : S)
        → can_leave m.user_id
        → Leaves s (finalize_listed kc desires group_id m s).1
    unfolding finalize_listed
    finalize_listed-Edits m s c =
        let v = m.user_id in
        let next = (kc.list_user_groups v s).1 in
        let read = list-Edits kc member laws group_id Nobody can_leave v s in
        elim (Result-cases (kc.list_user_groups v s).0) [
          | inr (x, e) ↦ elim (Bool-cases (is_not_found x)) [
            | inl n ↦
                to_realm kc member laws group_id Nobody can_leave s {t = next} (ground arith) read
            | inr n ↦
                to_realm kc member laws group_id Nobody can_leave s {t = next} (ground arith) read
          ]
          | inl (groups, e) ↦ elim (Bool-cases (contains_group_id groups group_id)) [
            | inr d ↦
                to_realm kc member laws group_id Nobody can_leave s {t = next} (ground arith) read
            | inl d ↦
                to_realm kc member laws group_id Nobody can_leave s
                  {t = (kc.remove_user_from_group_if_member v group_id next).1}
                  (ground (arith, finalize_user-realm m next))
                  (one_by_one kc member laws group_id Nobody can_leave s next _ read
                    (remove-Edits kc member laws group_id Nobody can_leave v next c))
          ]
        ]

    finalize_member-Edits :
        (m : ManagedGroupMember) (s : S)
        → (desires m.email ≡ false → can_leave m.user_id)
        → Leaves s (finalize_member kc desires group_id m s).1
    unfolding finalize_member
    finalize_member-Edits m s c = elim (Bool-cases (desires m.email)) [
      | inl e ↦
          to_realm kc member laws group_id Nobody can_leave s {t = s} (ground arith)
            (untouched kc member laws group_id Nobody can_leave s s (λ u g. refl))
      | inr e ↦
          to_realm kc member laws group_id Nobody can_leave s
            {t = (finalize_listed kc desires group_id m s).1} (ground arith)
            (finalize_listed-Edits m s (c e))
    ]

    finalize_all-Edits :
        (ms : List ManagedGroupMember) (s : S)
        → ((m : ManagedGroupMember) → Has m ms → desires m.email ≡ false → can_leave m.user_id)
        → Leaves s (finalize_members kc desires group_id ms s).1
    unfolding finalize_members
    finalize_all-Edits [] s c = untouched kc member laws group_id Nobody can_leave s s (λ u g. refl)
    finalize_all-Edits (m ∷ ms) s c =
        let next = (finalize_member kc desires group_id m s).1 in
        let first = finalize_member-Edits m s (c m (here refl)) in
        elim (Option-cases (finalize_member kc desires group_id m s).0) [
          | inr (x, e) ↦
              to_realm kc member laws group_id Nobody can_leave s {t = next} (ground arith) first
          | inl e ↦
              to_realm kc member laws group_id Nobody can_leave s
                {t = (finalize_members kc desires group_id ms next).1} (ground arith)
                (one_by_one kc member laws group_id Nobody can_leave s next _ first
                  (finalize_all-Edits ms next (λ k h. c k (there h))))
        ]

  abbrev GoneIn : Text → S → Type 0
  GoneIn = Gone kc member laws group_id

  -- Nobody who is gone comes back.
  still_Gone :
      (can_leave : Text → Type 0) (v : Text) (s t : S)
      → Edits kc member laws group_id Nobody can_leave s t
      → GoneIn v s
      → GoneIn v t
  still_Gone can_leave v s t h (unknown r e a b) = unknown r e a b
  still_Gone can_leave v s t h (out a) = elim (h v group_id) [
    | same e ↦ out (e ∙ a)
    | joined e d c ↦ clash true refl c
    | left e d c ↦ out e
  ]

  finalize_listed-Gone :
      (m : ManagedGroupMember) (s : S)
      → (finalize_listed kc desires group_id m s).0 ≡ none
      → GoneIn m.user_id (finalize_listed kc desires group_id m s).1
  unfolding finalize_listed finalize_user
  finalize_listed-Gone m s q =
      let v = m.user_id in
      let next = (kc.list_user_groups v s).1 in
      elim (Result-cases (kc.list_user_groups v s).0) [
        | inr (x, e) ↦ elim (Bool-cases (is_not_found x)) [
          | inl n ↦ unknown s x e n
          | inr n ↦ ground arith
        ]
        | inl (groups, e) ↦ elim (Bool-cases (contains_group_id groups group_id)) [
          | inr d ↦
              out (ground (arith, laws.list v s v group_id, laws.listed v s groups e group_id))
          | inl d ↦ elim (Option-cases (kc.remove_user_from_group_if_member v group_id next).0) [
            | inr (x, f) ↦ ground arith
            | inl f ↦ out (ground (arith, laws.removed v group_id next f))
          ]
        ]
      ]

  finalize_member-Gone :
      (m : ManagedGroupMember) (s : S)
      → desires m.email ≡ false
      → (finalize_member kc desires group_id m s).0 ≡ none
      → GoneIn m.user_id (finalize_member kc desires group_id m s).1
  unfolding finalize_member
  finalize_member-Gone m s d q =
      subst (GoneIn m.user_id) {x = (finalize_listed kc desires group_id m s).1} (ground arith)
        (finalize_listed-Gone m s (ground arith))

  finalize_all-Gone :
      (m : ManagedGroupMember) (ms : List ManagedGroupMember) (s : S)
      → Has m ms
      → desires m.email ≡ false
      → (finalize_members kc desires group_id ms s).0 ≡ none
      → GoneIn m.user_id (finalize_members kc desires group_id ms s).1
  unfolding finalize_members
  finalize_all-Gone m [] s h d q = elim h [ ]
  finalize_all-Gone m (k ∷ ms) s h d q =
      let next = (finalize_member kc desires group_id k s).1 in
      let last = (finalize_members kc desires group_id ms next).1 in
      elim (Option-cases (finalize_member kc desires group_id k s).0) [
        | inr (x, e) ↦ ground arith
        | inl e ↦ subst (GoneIn m.user_id) {x = last} (ground arith) (elim h [
          | there l ↦ finalize_all-Gone m ms next l d (ground arith)
          | here i ↦
              still_Gone (MayRelease (k ∷ ms)) m.user_id next last
                (finalize_all-Edits (MayRelease (k ∷ ms)) ms next (λ b c o. (b, there c, refl, o)))
                (subst (λ (b : ManagedGroupMember). GoneIn b.user_id next) (sym i)
                  (finalize_member-Gone k s
                    (subst (λ (b : ManagedGroupMember). desires b.email ≡ false) i d) e))
        ])
      ]

  -- The loop of `reconcileDelete`, whether it fails or not, adds no one to a group, and takes out of
  -- the recorded group only users recorded under an email that no authorized peer has. When it
  -- returns no error, each of those users is out of the group, or a call found the user unknown.
  pub finalize_members-releases :
      (managed : List ManagedGroupMember) (s : S)
      → Edits kc member laws group_id Nobody
          (MayRelease managed)
          s
          (finalize_members kc desires group_id managed s).1
        × ((finalize_members kc desires group_id managed s).0 ≡ none
            → (m : ManagedGroupMember) → Has m managed
            → desires m.email ≡ false
            → Gone kc member laws group_id m.user_id
                (finalize_members kc desires group_id managed s).1)
  finalize_members-releases managed s = (
    finalize_all-Edits (MayRelease managed) managed s (λ m h d. (m, h, refl, d)),
    λ q m h d. finalize_all-Gone m managed s h d q,
  )
