-- ===== src/Quay/Teams/About.antt =====
-- Steps of `reconcileSyncedTeams` that touch one team only.
use holos_substrate.Base.{
  ◌≡◌, ◌≢◌, inl, inr, refl, sym, subst, ◌∙◌, Bool, true, false, not, Option, none, some, List, [],
  ◌∷◌, arith, Result, Bool-cases, Option-cases, Result-cases, ◌&&◌, if◌then◌else◌,
}
use holos_substrate.Base.Text.{Text, ◌==◌, ==_iff}
use holos_substrate.Base.Loop.{then_step}
use holos_substrate.Quay.Teams.{
  QuayError, Prototype, TeamClient, SyncedTeam, Organization, Team, TeamSync, Step, is_key, put_key,
  drop_key, find_team_prototype, call, query, failed, skip, rebind, bind_team_sync, prototype_step,
  reconcile_team_prototype, ensure_team_sync_and_prototype, up_to_date, ensure_team_upserted,
  managed_team_marker,
}

-- `view s n` is what the registry has of the team `n`. A call for one team changes no other; a call
-- that reads, or that is for a default permission, changes none.
pub record IsRegistry {S : Type 0} {V : Type 0} (qc : TeamClient S) (view : S → Text → V)
    : Type 0 where
  pub list_teams : (s : S) (n : Text) → view (qc.list_teams s).1 n ≡ view s n
  pub members : (t : Text) (s : S) (n : Text) → view (qc.get_team_members t s).1 n ≡ view s n
  pub prototypes : (s : S) (n : Text) → view (qc.list_prototypes s).1 n ≡ view s n
  pub created : (r t : Text) (s : S) (n : Text) → view (qc.create_prototype r t s).1 n ≡ view s n
  pub updated : (i r : Text) (s : S) (n : Text) → view (qc.update_prototype i r s).1 n ≡ view s n
  pub deleted :
      (i : Text) (s : S) (n : Text) → view (qc.delete_prototype_if_exists i s).1 n ≡ view s n
  pub upserted :
      (t r d : Text) (s : S) (n : Text) → n ≢ t → view (qc.upsert_team t r d s).1 n ≡ view s n
  pub removed :
      (t : Text) (s : S) (n : Text) → n ≢ t → view (qc.delete_team_if_exists t s).1 n ≡ view s n
  pub enabled :
      (t g : Text) (s : S) (n : Text) → n ≢ t → view (qc.enable_team_sync t g s).1 n ≡ view s n
  pub disabled :
      (t : Text) (s : S) (n : Text) → n ≢ t → view (qc.disable_team_sync t s).1 n ≡ view s n

pub is_key-put :
    (k n : Text) (names : List Text)
    → n ≢ k
    → is_key n (put_key k names) ≡ true
    → is_key n names ≡ true
unfolding put_key is_key
is_key-put k n names d h = elim (Bool-cases (is_key k names)) [
  | inl e ↦ ground arith
  | inr e ↦ elim (Bool-cases (k == n)) [
    | inl q ↦ elim (d (sym ((==_iff k n).0 q))) [ ]
    | inr q ↦ ground arith
  ]
]

pub is_key-drop :
    (k n : Text) (names : List Text) → is_key n (drop_key k names) ≡ true → is_key n names ≡ true
unfolding drop_key is_key
is_key-drop k n [] h = h
is_key-drop k n (m ∷ names) h = ground (arith, is_key-drop k n names)

module _ {S : Type 0} {V : Type 0} (qc : TeamClient S) (view : S → Text → V)
    (laws : IsRegistry qc view) (t : Text) where
  -- Nothing but the team `t` differs, and no other name has become managed.
  unfoldable pub AboutTeam : TeamSync S → TeamSync S → Type 0
  AboutTeam s at =
      (n : Text)
      → n ≢ t
      → (view at.registry n ≡ view s.registry n)
        × (is_key n at.managed ≡ true → is_key n s.managed ≡ true)

  abbrev pub IsAbout : Step S → Type 0
  IsAbout f = (s : TeamSync S) → AboutTeam s (f s).1

  pub then_step-IsAbout : (f g : Step S) → IsAbout f → IsAbout g → IsAbout (then_step f g)
  unfolding then_step AboutTeam
  then_step-IsAbout f g hf hg s n d = elim (Option-cases (f s).0) [
    | inr (x, e) ↦
        let same : (f s).1 ≡ (then_step f g s).1 = ground arith in
        subst (λ (at : TeamSync S). AboutTeam s at) same (hf s) n d
    | inl e ↦
        let same : (g (f s).1).1 ≡ (then_step f g s).1 = ground arith in
        subst (λ (at : TeamSync S). AboutTeam s at) same
          (λ m c. let (p, q) = hf s m c in let (p', q') = hg (f s).1 m c in (p' ∙ p, λ k. q (q' k)))
          n d
  ]

  pub call-IsAbout :
      (team : Text) (mutated healed : Bool) (f : S → Option QuayError × S)
      → ((s : S) (n : Text) → n ≢ t → view (f s).1 n ≡ view s n)
      → IsAbout (call team mutated healed f)
  unfolding call AboutTeam
  call-IsAbout team mutated healed f h s n d = elim (Option-cases (f s.registry).0) [
    | inr (x, e) ↦ (ground (arith, h s.registry n d), λ k. ground arith)
    | inl e ↦ (ground (arith, h s.registry n d), λ k. ground arith)
  ]

  pub query-IsAbout :
      {A : Type 0} (f : S → Result QuayError A × S) (on_error : QuayError → Step S)
      (go : A → Step S)
      → ((s : S) (n : Text) → view (f s).1 n ≡ view s n)
      → ((x : QuayError) → IsAbout (on_error x))
      → ((a : A) → IsAbout (go a))
      → IsAbout (query f on_error go)
  unfolding query AboutTeam
  query-IsAbout f on_error go h he hg s n d =
      let at : TeamSync S = record s { registry = (f s.registry).1 } in
      elim (Result-cases (f s.registry).0) [
        | inr (x, e) ↦
            let same : (on_error x at).1 ≡ (query f on_error go s).1 = ground arith in
            subst (λ (r : TeamSync S). AboutTeam s r) same
              (λ m c. let (p, q) = he x at m c in (p ∙ h s.registry m, q)) n d
        | inl (a, e) ↦
            let same : (go a at).1 ≡ (query f on_error go s).1 = ground arith in
            subst (λ (r : TeamSync S). AboutTeam s r) same
              (λ m c. let (p, q) = hg a at m c in (p ∙ h s.registry m, q)) n d
      ]

  pub skip-IsAbout : IsAbout skip
  unfolding skip AboutTeam
  skip-IsAbout s n d = (refl, λ k. k)

  pub failed-IsAbout : (x : QuayError) → IsAbout (failed t x)
  unfolding failed AboutTeam
  failed-IsAbout x s n d = (refl, λ k. k)

  pub if-IsAbout : (b : Bool) (f g : Step S) → IsAbout f → IsAbout g → IsAbout (if b then f else g)
  if-IsAbout true f g hf hg = hf
  if-IsAbout false f g hf hg = hg

  rebind-IsAbout :
      (oidc_group : Text) (owned_before can_mark_drift : Bool) (b : Option Text)
      → IsAbout (rebind qc t oidc_group owned_before can_mark_drift b)
  unfolding rebind
  rebind-IsAbout oidc_group owned_before can_mark_drift none =
      call-IsAbout t true _ _ (λ s n d. laws.enabled t oidc_group s n d)
  rebind-IsAbout oidc_group owned_before can_mark_drift (some group_name) =
      if-IsAbout (group_name == oidc_group) skip _ skip-IsAbout (
        then_step-IsAbout (call t true can_mark_drift (qc.disable_team_sync t))
          (call t true (can_mark_drift && owned_before) (qc.enable_team_sync t oidc_group))
          (call-IsAbout t true _ _ (λ s n d. laws.disabled t s n d))
          (call-IsAbout t true _ _ (λ s n d. laws.enabled t oidc_group s n d)))

  bind_team_sync-IsAbout :
      (oidc_group : Text) (owned_before can_mark_drift : Bool)
      → IsAbout (bind_team_sync qc t oidc_group owned_before can_mark_drift)
  unfolding bind_team_sync
  bind_team_sync-IsAbout oidc_group owned_before can_mark_drift =
      query-IsAbout (qc.get_team_members t) (failed t)
        (rebind qc t oidc_group owned_before can_mark_drift) (laws.members t) failed-IsAbout
        (rebind-IsAbout oidc_group owned_before can_mark_drift)

module _ {S : Type 0} {V : Type 0} (qc : TeamClient S) (view : S → Text → V)
    (laws : IsRegistry qc view) (t : SyncedTeam) where
  abbrev IsAboutIt : Step S → Type 0
  IsAboutIt = IsAbout qc view laws t.name

  permission-IsAbout :
      (mutated healed : Bool) (f : S → Option QuayError × S)
      → ((s : S) (n : Text) → view (f s).1 n ≡ view s n)
      → IsAboutIt (call t.name mutated healed f)
  permission-IsAbout mutated healed f h =
      call-IsAbout qc view laws t.name t.name mutated healed f (λ s n d. h s n)

  prototype_step-IsAbout :
      (owned_before can_mark_drift : Bool) (permission : Option Text) (p : Option Prototype)
      → IsAboutIt (prototype_step qc t owned_before can_mark_drift permission p)
  unfolding prototype_step
  prototype_step-IsAbout o c none none = skip-IsAbout qc view laws t.name
  prototype_step-IsAbout o c none (some p) = permission-IsAbout true c _ (laws.deleted p.id)
  prototype_step-IsAbout o c (some role) none =
      permission-IsAbout true _ _ (laws.created role t.name)
  prototype_step-IsAbout o c (some role) (some p) =
      if-IsAbout qc view laws t.name (not (p.role == role)) _ skip
        (permission-IsAbout true c (qc.update_prototype p.id role) (laws.updated p.id role))
        (skip-IsAbout qc view laws t.name)

  pub ensure_team_sync_and_prototype-IsAbout :
      (owned_before can_mark_drift : Bool)
      → IsAboutIt (ensure_team_sync_and_prototype qc t owned_before can_mark_drift)
  unfolding ensure_team_sync_and_prototype reconcile_team_prototype
  ensure_team_sync_and_prototype-IsAbout o c =
      then_step-IsAbout qc view laws t.name (bind_team_sync qc t.name t.oidc_group o c)
        (reconcile_team_prototype qc t o c)
        (bind_team_sync-IsAbout qc view laws t.name t.oidc_group o c)
        (query-IsAbout qc view laws t.name qc.list_prototypes (failed t.name)
          (λ prototypes.
            prototype_step qc t o c t.repository_permission (find_team_prototype prototypes t.name))
          laws.prototypes (failed-IsAbout qc view laws t.name)
          (λ prototypes.
            prototype_step-IsAbout o c t.repository_permission
              (find_team_prototype prototypes t.name)))

  pub ensure_team_upserted-IsAbout :
      (org : Organization) (existing : Option Team) (owned can_mark_drift : Bool)
      → IsAboutIt (ensure_team_upserted qc org t existing owned can_mark_drift)
  unfolding ensure_team_upserted
  ensure_team_upserted-IsAbout org existing owned c =
      if-IsAbout qc view laws t.name (up_to_date org t existing) skip _
        (skip-IsAbout qc view laws t.name)
        (call-IsAbout qc view laws t.name t.name true _
          (qc.upsert_team t.name t.role (managed_team_marker org))
          (λ s n d. laws.upserted t.name t.role (managed_team_marker org) s n d))
