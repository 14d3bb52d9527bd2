-- ===== src/Authenticator/Store/Converge.antt =====
-- Replicas that see the same Backends in different orders, and as often as they like, agree.
use holos_substrate.Base.{
  ◌≡◌, ◌↔◌, refl, sym, ap, subst, ◌∙◌, false, none, some, List, [], ◌∷◌, Option-cases, inl, inr,
  Has, there,
}
use holos_substrate.Base.Text.{Text}
use holos_substrate.Base.Order.{precedes, precedes_total}
use holos_substrate.Base.Dict.{lookup}
use holos_substrate.Authenticator.Entry.{Entry}
use holos_substrate.Authenticator.Store.{Store, get, owner}
use holos_substrate.Authenticator.Store.Coherent.{IsCoherent, new_store-IsCoherent}
use holos_substrate.Authenticator.Store.Settled.{Claim, replay, IsSteady, Settled, step-Settled}

tail-IsSteady : (c : Claim) (claims : List Claim) → IsSteady (c ∷ claims) → IsSteady claims
tail-IsSteady c claims u = record { same = λ k e e' a b. u.same k e e' (there a) (there b) }

replay-Settled : (claims : List Claim) → IsSteady claims → Settled claims (replay claims)
unfolding replay
replay-Settled [] u = record {
  coherent = new_store-IsCoherent;
  claimed = λ h k e. unfold owner lookup in cc;
  least = λ h k e k' e' m at. elim m [ ];
  free = λ h e k f m at. elim m [ ];
}
replay-Settled ((key, entry) ∷ claims) u =
    step-Settled claims (replay claims)
      (replay-Settled claims (tail-IsSteady (key, entry) claims u)) key entry u

-- However often and in whatever order Backends with unchanging specs are registered, a host is
-- served by the claim of the least key among those that name it.
pub get-replay :
    (claims : List Claim) (k : Text) (e : Entry)
    → IsSteady claims
    → Has {A = Claim} (k, e) claims
    → ((k' : Text) (e' : Entry)
        → Has {A = Claim} (k', e') claims
        → e'.host ≡ e.host
        → precedes k' k ≡ false)
    → (get e.host (replay claims) ≡ some e) × (owner e.host (replay claims) ≡ some k)
get-replay claims k e u m low = elim (Option-cases (owner e.host (replay claims))) [
  | inl unowned ↦ absurd ((replay-Settled claims u).free e.host unowned k e m refl)
  | inr (o, q) ↦
      let all = replay-Settled claims u in
      let (x, mx, at, g) = all.claimed e.host o q in
      let o_is : o ≡ k = precedes_total o k (low o x mx at) (all.least e.host o q k e m refl) in
      let x_is : x ≡ e =
        u.same k x e (subst (λ (j : Text). Has {A = Claim} (j, x) claims) o_is mx) m in
      (g ∙ ap some x_is, q ∙ ap some o_is)
]

abbrev pub SameClaims : List Claim → List Claim → Type 0
SameClaims left right = (c : Claim) → (Has {A = Claim} c left) ↔ (Has {A = Claim} c right)

module _ (left right : List Claim) (ul : IsSteady left) (ur : IsSteady right)
    (same : SameClaims left right) where
  owned_alike :
      (h k : Text)
      → owner h (replay left) ≡ some k
      → (get h (replay left) ≡ get h (replay right))
        × (owner h (replay left) ≡ owner h (replay right))
  owned_alike h k q =
      let all = replay-Settled left ul in
      let (e, m, at, g) = all.claimed h k q in
      let low : (k' : Text) (e' : Entry)
          → Has {A = Claim} (k', e') right
          → e'.host ≡ e.host
          → precedes k' k ≡ false =
        λ k' e' n at'. all.least h k q k' e' ((same (k', e')).1 n) (at' ∙ at) in
      let (g', q') = get-replay right k e ur ((same (k, e)).0 m) low in
      (
        g ∙ sym (subst (λ (j : Text). get j (replay right) ≡ some e) at g'),
        q ∙ sym (subst (λ (j : Text). owner j (replay right) ≡ some k) at q'),
      )

unowned_empty : (s : Store) (h : Text) → IsCoherent s → owner h s ≡ none → get h s ≡ none
unfolding get owner
unowned_empty s h c q = elim (Option-cases (lookup h s.entries)) [
  | inl e ↦ e
  | inr (x, e) ↦ absurd (c.owned h (λ n. cc) q)
]

-- Two replicas that registered the same Backends, each in its own order and each Backend any
-- positive number of times, serve every host alike: the same entry under the same owner.
pub converge :
    (left right : List Claim)
    → IsSteady left
    → IsSteady right
    → SameClaims left right
    → (h : Text)
    → (get h (replay left) ≡ get h (replay right))
      × (owner h (replay left) ≡ owner h (replay right))
converge left right ul ur same h = elim (Option-cases (owner h (replay left))) [
  | inr (k, q) ↦ owned_alike left right ul ur same h k q
  | inl q ↦ elim (Option-cases (owner h (replay right))) [
    | inr (k, p) ↦
        let (g, o) = owned_alike right left ur ul (λ c. ((same c).1, (same c).0)) h k p in
        (sym g, sym o)
    | inl p ↦ (
      unowned_empty (replay left) h (replay-Settled left ul).coherent q
          ∙ sym (unowned_empty (replay right) h (replay-Settled right ur).coherent p),
      q ∙ sym p,
    )
  ]
]
