-- ===== src/Keycloak/Membership/Converged.antt =====
-- What holds after `reconcileMembers` has succeeded.
use holos_substrate.Base.{
  ◌≡◌, ◌⊎◌, inl, inr, refl, sym, ap, subst, ◌∙◌, Bool, true, false, Option, none, some, List, [],
  ◌∷◌, ◌++◌, arith, Bool-cases, Option-cases, Has, here, there,
}
use holos_substrate.Base.Text.{Text, ◌==◌, ==-self}
use holos_substrate.Base.Dict.{lookup, lookup-insert}
use holos_substrate.Base.Loop.{each}
use holos_substrate.Keycloak.Membership.{SyncError, MembershipClient, Sync, Step, ensure_member}
use holos_substrate.Keycloak.Membership.Laws.{IsKeycloak}
use holos_substrate.Keycloak.Membership.Outcome.{
  ensure_failed, not_found, placed, ensure_member-outcome,
}
use holos_substrate.Keycloak.Membership.Edits.{same, joined, left, ensure_member-Edits}

abbrev pub Never : Text → Type 0
Never v = true ≡ false

abbrev pub Always : Text → Type 0
Always v = Unit

Has-++-left : (xs ys : List Text) {x : Text} → Has x xs → Has x (xs ++ ys)
Has-++-left [] ys m = elim m [ ]
Has-++-left (z ∷ xs) ys (here e) = here e
Has-++-left (z ∷ xs) ys (there m) = there (Has-++-left xs ys m)

Has-++-right : (xs ys : List Text) {x : Text} → Has x ys → Has x (xs ++ ys)
Has-++-right [] ys m = m
Has-++-right (z ∷ xs) ys m = there (Has-++-right xs ys m)

module _ {S : Type 0} {A : Type 0} (step : A → Step S) where
  pub each-next :
      (a : A) (xs : List A) (sync : Sync S)
      → (each step (a ∷ xs) sync).0 ≡ none
      → ((step a sync).0 ≡ none) × (each step (a ∷ xs) sync ≡ each step xs (step a sync).1)
  unfolding each
  each-next a xs sync e = elim (Option-cases (step a sync).0) [
    | inr (x, q) ↦ let c : some x ≡ none = ground arith in cc
    | inl q ↦ (q, ground arith)
  ]

  -- What every step that succeeds keeps holds after a loop that succeeds.
  pub each-done :
      (P : Sync S → Type 0) (xs : List A) (sync : Sync S)
      → ((a : A) → Has a xs → (at : Sync S) → (step a at).0 ≡ none → P at → P (step a at).1)
      → (each step xs sync).0 ≡ none
      → P sync
      → P (each step xs sync).1
  unfolding each
  each-done P [] sync h e p = p
  each-done P (a ∷ xs) sync h e p =
      let (q, n) = each-next a xs sync e in
      subst (λ (r : Option SyncError × Sync S). P r.1) (sym n)
        (each-done P xs (step a sync).1 (λ b m. h b (there m))
          (ap (λ (r : Option SyncError × Sync S). r.0) (sym n) ∙ e) (h a (here refl) sync q p))

  -- What each step makes true, and the later ones keep, holds after a loop that succeeds.
  pub each-own :
      (Q : A → Sync S → Type 0) (xs : List A) (sync : Sync S)
      → ((b a : A) (at : Sync S) → (step a at).0 ≡ none → Q b at → Q b (step a at).1)
      → ((a : A) (at : Sync S) → (step a at).0 ≡ none → Q a (step a at).1)
      → (each step xs sync).0 ≡ none
      → (a : A) → Has a xs
      → Q a (each step xs sync).1
  unfolding each
  each-own Q [] sync k o e b m = elim m [ ]
  each-own Q (a ∷ xs) sync k o e b m =
      let next = (step a sync).1 in
      let (q, n) = each-next a xs sync e in
      let e' = ap (λ (r : Option SyncError × Sync S). r.0) (sym n) ∙ e in
      subst (λ (r : Option SyncError × Sync S). Q b r.1) (sym n)
        (elim m [
          | here i ↦
              each-done (Q b) xs next (λ c n at. k b c at) e'
                (subst (λ (x : A). Q x next) (sym i) (o a sync q))
          | there l ↦ each-own Q xs next k o e' b l
        ])

module _ {S : Type 0} (kc : MembershipClient S) (member : S → Text → Text → Bool)
    (laws : IsKeycloak kc member) (group_id : Text) where
  -- The member is reported as missing, or a user of the group is recorded for it.
  unfoldable pub Settled : Text → Sync S → Type 0
  Settled email sync =
      Has email sync.missing
      ⊎ ((v : Text) × (lookup email sync.managed ≡ some v) × (member sync.realm v group_id ≡ true))

  -- No one leaves while members are added.
  stays_in :
      (email v : Text) (sync : Sync S)
      → member sync.realm v group_id ≡ true
      → member (ensure_member kc group_id email sync).1.realm v group_id ≡ true
  stays_in email v sync h =
      elim (ensure_member-Edits kc member laws group_id Always Never email sync (λ u s e. tt) v
        group_id) [ same e ↦ e ∙ h | joined a b c ↦ a | left a b c ↦ cc ]

  pub ensure_member-Settled :
      (other email : Text) (sync : Sync S)
      → (ensure_member kc group_id email sync).0 ≡ none
      → Settled other sync
      → Settled other (ensure_member kc group_id email sync).1
  unfolding Settled
  ensure_member-Settled other email sync q (inr (v, l, i)) =
      elim (ensure_member-outcome kc member laws group_id email sync) [
        | ensure_failed x e a ↦ cc
        | not_found e a n ↦ inr (v, rw a l, stays_in email v sync i)
        | placed w e a n j ↦ elim (Bool-cases (email == other)) [
          | inl t ↦ inr (w, ground (arith, lookup-insert other email w sync.managed), j)
          | inr t ↦
              inr (
                v,
                ground (arith, lookup-insert other email w sync.managed),
                stays_in email v sync i,
              )
        ]
      ]
  ensure_member-Settled other email sync q (inl m) =
      elim (ensure_member-outcome kc member laws group_id email sync) [
        | ensure_failed x e a ↦ cc
        | not_found e a n ↦ inl (rw n (Has-++-left sync.missing (email ∷ []) m))
        | placed w e a n j ↦ inl (rw n m)
      ]

  pub ensure_member-own :
      (email : Text) (sync : Sync S)
      → (ensure_member kc group_id email sync).0 ≡ none
      → Settled email (ensure_member kc group_id email sync).1
  unfolding Settled
  ensure_member-own email sync q = elim (ensure_member-outcome kc member laws group_id email sync) [
    | ensure_failed x e a ↦ cc
    | not_found e a n ↦ inl (rw n (Has-++-right sync.missing (email ∷ []) (here refl)))
    | placed w e a n j ↦
        inr (w, ground (arith, lookup-insert email email w sync.managed, ==-self email), j)
  ]
