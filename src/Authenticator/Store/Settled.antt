-- ===== src/Authenticator/Store/Settled.antt =====
-- One more registration keeps what a history of registrations establishes: each claimed host is
-- owned by the least key that claims it.
use holos_substrate.Base.{
  ◌≡◌, ◌≢◌, refl, sym, ap, subst, ◌∙◌, Bool, true, false, none, some, List, [], ◌∷◌, arith,
  Option-cases, Bool-cases, inl, inr, Has, here, there,
}
use holos_substrate.Base.Text.{Text, ◌==◌, ==_iff, ==-self}
use holos_substrate.Base.Order.{precedes, precedes_irrefl, precedes_trans, precedes_total}
use holos_substrate.Authenticator.Entry.{Entry}
use holos_substrate.Authenticator.Store.{Store, new_store, outranked, set, get, owner}
use holos_substrate.Authenticator.Store.Coherent.{IsCoherent, set-IsCoherent}
use holos_substrate.Authenticator.Store.Ownership.{held_by, set-effect}

-- A Backend's key with the entry that its spec resolves to.
abbrev pub Claim : Type 0
Claim = Text × Entry

-- The Store after a history of registrations, the latest first.
unfoldable pub replay : List Claim → Store
unfolding set
replay [] = new_store
replay ((key, entry) ∷ claims) = (set key entry (replay claims)).0

-- No Backend changed its spec during the history.
pub record IsSteady (claims : List Claim) : Type 0 where
  pub same :
      (k : Text) (e e' : Entry)
      → Has {A = Claim} (k, e) claims
      → Has {A = Claim} (k, e') claims
      → e ≡ e'

pub record Settled (claims : List Claim) (s : Store) : Type 0 where
  pub coherent : IsCoherent s
  pub claimed :
      (h k : Text)
      → owner h s ≡ some k
      → (e : Entry) × Has {A = Claim} (k, e) claims × (e.host ≡ h) × (get h s ≡ some e)
  pub least :
      (h k : Text)
      → owner h s ≡ some k
      → (k' : Text) (e' : Entry) → Has {A = Claim} (k', e') claims
      → e'.host ≡ h
      → precedes k' k ≡ false
  pub free :
      (h : Text)
      → owner h s ≡ none
      → (k : Text) (e : Entry) → Has {A = Claim} (k, e) claims
      → e.host ≢ h

module _ (claims : List Claim) (s : Store) (set_up : Settled claims s) (key : Text) (entry : Entry)
    (steady : IsSteady ((key, entry) ∷ claims)) where
  -- The key owns no other host, since it never claimed one.
  not_elsewhere : (h : Text) → (entry.host == h) ≡ false → held_by key (owner h s) ≡ false
  not_elsewhere h other = elim (Option-cases (owner h s)) [
    | inl free_host ↦ ground (arith, free_host)
    | inr (k, e) ↦ elim (Bool-cases (k == key)) [
      | inl same_key ↦
          let (old, m, at, _) = set_up.claimed h k e in
          absurd (
            ground (
              arith,
              other,
              ==_iff entry.host h,
              ap (λ (z : Entry). z.host)
                  (steady.same key entry old (here refl) (
                    there (
                      subst (λ (j : Text). Has {A = Claim} (j, old) claims)
                        ((==_iff k key).0 same_key) m))),
            ))
      | inr other_key ↦ ground (arith, e)
    ]
  ]

  abbrev pub after : Store
  after = (set key entry s).0

  abbrev lost : Bool
  lost = outranked key (owner entry.host s)

  -- What the registration leaves at a host: the three cases of `set-effect`.
  elsewhere :
      (h : Text) → (entry.host == h) ≡ false → (get h after ≡ get h s) × (owner h after ≡ owner h s)
  elsewhere h other =
      ground (arith, set-effect key entry s set_up.coherent h, not_elsewhere h other)

  refused :
      lost ≡ true
      → (get entry.host after ≡ get entry.host s) × (owner entry.host after ≡ owner entry.host s)
  refused l = ground (arith, set-effect key entry s set_up.coherent entry.host, ==-self entry.host)

  won : lost ≡ false → (get entry.host after ≡ some entry) × (owner entry.host after ≡ some key)
  won l = ground (arith, set-effect key entry s set_up.coherent entry.host, ==-self entry.host)

  -- A key that did not outrank this one as the owner does not sort before it.
  not_before : (o : Text) → lost ≡ false → owner entry.host s ≡ some o → precedes o key ≡ false
  not_before o l e = elim (Bool-cases (o == key)) [
    | inl same_key ↦ rw ((==_iff o key).0 same_key) (precedes_irrefl key)
    | inr other_key ↦ ground (arith, e)
  ]

  not_after : (o : Text) → lost ≡ true → owner entry.host s ≡ some o → precedes key o ≡ false
  not_after o l e = elim (Bool-cases (precedes key o)) [
    | inl p ↦ absurd (ground (arith, e, precedes_trans key o key, precedes_irrefl key))
    | inr q ↦ q
  ]

  keeps_least :
      (k k' : Text)
      → lost ≡ false
      → k ≡ key
      → (e' : Entry) → Has {A = Claim} (k', e') claims
      → e'.host ≡ entry.host
      → precedes k' k ≡ false
  keeps_least k k' l same_key e' m at = elim (Option-cases (owner entry.host s)) [
    | inl unowned ↦ absurd (set_up.free entry.host unowned k' e' m at)
    | inr (o, e) ↦ elim (Bool-cases (precedes k' key)) [
      | inl p ↦
          let low = set_up.least entry.host o e k' e' m at in
          let rank = not_before o l e in absurd (beaten o p low rank)
      | inr q ↦ rw same_key q
    ]
  ]
    where
      beaten :
          (o : Text) → precedes k' key ≡ true → precedes k' o ≡ false → precedes o key ≡ false → ⊥
      beaten o p low rank = elim (Bool-cases (precedes key o)) [
        | inl q ↦ ground (arith, precedes_trans k' key o)
        | inr q ↦
            ground
              (arith, subst (λ (z : Text). precedes k' z ≡ true) (precedes_total key o q rank) p)
      ]

  abbrev Claimed : Text → Text → Type 0
  Claimed h k =
      (e : Entry) × Has {A = Claim} (k, e) ((key, entry) ∷ claims)
      × (e.host ≡ h)
      × (get h after ≡ some e)

  -- What held before still holds at a host whose entry and owner did not change.
  Claimed-still :
      (h k : Text)
      → get h after ≡ get h s
      → owner h after ≡ owner h s
      → owner h after ≡ some k
      → Claimed h k
  Claimed-still h k g o e =
      let (x, m, at, q) = set_up.claimed h k (sym o ∙ e) in (x, there m, at, g ∙ q)

  Claimed-here : (k : Text) → owner entry.host after ≡ some k → Claimed entry.host k
  Claimed-here k e = elim (Bool-cases lost) [
    | inl l ↦ Claimed-still entry.host k (refused l).0 (refused l).1 e
    | inr w ↦ (entry, here (ap (λ (j : Text). (j, entry)) (own w)), refl, (won w).0)
  ]
    where
      own : lost ≡ false → k ≡ key
      own w = ground (arith, won w, e)

  Claimed-all : (h k : Text) → owner h after ≡ some k → Claimed h k
  Claimed-all h k e = elim (Bool-cases (entry.host == h)) [
    | inl same ↦
        let q = (==_iff entry.host h).0 same in
        subst (λ (j : Text). Claimed j k) q
          (Claimed-here k (subst (λ (j : Text). owner j after ≡ some k) (sym q) e))
    | inr other ↦ Claimed-still h k (elsewhere h other).0 (elsewhere h other).1 e
  ]

  abbrev Least : Text → Text → Type 0
  Least h k =
      (k' : Text) (e' : Entry)
      → Has {A = Claim} (k', e') ((key, entry) ∷ claims)
      → e'.host ≡ h
      → precedes k' k ≡ false

  Least-here : (k : Text) → owner entry.host after ≡ some k → Least entry.host k
  Least-here k e k' e' (here p) at = elim (Bool-cases lost) [
    | inl l ↦
        subst (λ (z : Claim). precedes z.0 k ≡ false) (sym p)
          (not_after k l (sym (refused l).1 ∙ e))
    | inr w ↦
        subst (λ (z : Claim). precedes z.0 k ≡ false) (sym p)
          (rw (owner_is w) (precedes_irrefl key))
  ]
    where
      owner_is : lost ≡ false → k ≡ key
      owner_is w = ground (arith, won w, e)
  Least-here k e k' e' (there m) at = elim (Bool-cases lost) [
    | inl l ↦ set_up.least entry.host k (sym (refused l).1 ∙ e) k' e' m at
    | inr w ↦ keeps_least k k' w (ground (arith, won w, e)) e' m at
  ]

  Least-elsewhere : (h k : Text) → (entry.host == h) ≡ false → owner h after ≡ some k → Least h k
  Least-elsewhere h k other e k' e' (here p) at =
      absurd (ground (arith, other, ==_iff entry.host h, ap (λ (z : Claim). z.1.host) p))
  Least-elsewhere h k other e k' e' (there m) at =
      set_up.least h k (sym (elsewhere h other).1 ∙ e) k' e' m at

  free_all :
      (h : Text)
      → owner h after ≡ none
      → (k : Text) (f : Entry) → Has {A = Claim} (k, f) ((key, entry) ∷ claims)
      → f.host ≢ h
  free_all h e k f m at = elim (Bool-cases (entry.host == h)) [
    | inl same ↦ taken ((==_iff entry.host h).0 same)
    | inr other ↦ outside other m
  ]
    where
      taken : entry.host ≡ h → ⊥
      taken q = elim (Bool-cases lost) [
        | inl l ↦ ground (arith, refused l, e, ap (λ (j : Text). owner j after) q)
        | inr w ↦ ground (arith, won w, e, ap (λ (j : Text). owner j after) q)
      ]

      outside : (entry.host == h) ≡ false → Has {A = Claim} (k, f) ((key, entry) ∷ claims) → ⊥
      outside other (here p) =
          ground (arith, other, ==_iff entry.host h, ap (λ (z : Claim). z.1.host) p)
      outside other (there n) = set_up.free h (sym (elsewhere h other).1 ∙ e) k f n at

  pub step-Settled : Settled ((key, entry) ∷ claims) after
  step-Settled = record {
    coherent = set-IsCoherent key entry s set_up.coherent;
    claimed = Claimed-all;
    least = λ h k e. elim (Bool-cases (entry.host == h)) [
      | inl same ↦
          let q = (==_iff entry.host h).0 same in
          subst (λ (j : Text). Least j k) q
            (Least-here k (subst (λ (j : Text). owner j after ≡ some k) (sym q) e))
      | inr other ↦ Least-elsewhere h k other e
    ];
    free = free_all;
  }
