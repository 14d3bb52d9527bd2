-- ===== src/Grant/Authorize.antt =====
-- What a positive answer of `allowed` rests on, entry by entry.
use holos_substrate.Base.{
  ◌≡◌, refl, ◌≢◌, ◌↔◌, Bool, true, false, ◌&&◌, ◌||◌, not, Option, none, some,
}
use holos_substrate.Base.{List, [], ◌∷◌, arith, inl, inr, Result-cases, Result, ok}
use holos_substrate.Base.{Has, some_of, some_of-of-Has, Has-of-some_of}
use holos_substrate.Base.Text.{Text, ◌==◌, ==_iff}
use holos_substrate.Grant.{
  ReferenceGrantFrom, ReferenceGrantTo, ReferenceGrant, FromRef, ToRef, trusts, from_matches,
  other_name, to_matches, grant_matches, allowed,
}

-- The entry names exactly the referrer's group, kind and namespace.
pub record Trusts (e : ReferenceGrantFrom) (from : FromRef) : Type 0 where
  pub group : e.group ≡ from.group
  pub kind : e.kind ≡ from.kind
  pub namespace : e.namespace ≡ from.namespace

-- The entry names the target's group and kind, and no other name than the target's.
pub record Permits (e : ReferenceGrantTo) (to : ToRef) : Type 0 where
  pub group : e.group ≡ to.group
  pub kind : e.kind ≡ to.kind
  pub name : (n : Text) → e.name ≡ some n → n ≡ to.name

-- One grant holds a trusting and a permitting entry.
pub record Authorizes (grant : ReferenceGrant) (from : FromRef) (to : ToRef) : Type 0 where
  pub referrer : ReferenceGrantFrom
  pub referrer_listed : Has referrer grant.from
  pub trusted : Trusts referrer from
  pub target : ReferenceGrantTo
  pub target_listed : Has target grant.to
  pub permitted : Permits target to

trusts-Trusts : (e : ReferenceGrantFrom) (from : FromRef) → trusts from e ≡ true → Trusts e from
unfolding trusts
trusts-Trusts e from h =
    ground
      (arith, ==_iff e.group from.group, ==_iff e.kind from.kind, ==_iff e.namespace from.namespace)

Trusts-trusts : (e : ReferenceGrantFrom) (from : FromRef) → Trusts e from → trusts from e ≡ true
unfolding trusts
Trusts-trusts e from t =
    ground
      (arith, ==_iff e.group from.group, ==_iff e.kind from.kind, ==_iff e.namespace from.namespace)

name-of-other_name :
    (o : Option Text) (name : Text) → other_name o name ≡ false → (n : Text) → o ≡ some n → n ≡ name
unfolding other_name
name-of-other_name o name h n e = ground (arith, ==_iff n name)

other_name-of-name :
    (o : Option Text) (name : Text)
    → ((n : Text) → o ≡ some n → n ≡ name)
    → other_name o name ≡ false
unfolding other_name
other_name-of-name none name h = refl
other_name-of-name (some n) name h = ground (arith, ==_iff n name, h n refl)

-- The test of one round of the loop in `to_matches`.
permits : ToRef → ReferenceGrantTo → Bool
unfolding other_name
permits to e =
    not (not (e.group == to.group) || not (e.kind == to.kind)) && not (other_name e.name to.name)

to_matches-eq-some_of :
    (entries : List ReferenceGrantTo) (to : ToRef)
    → to_matches entries to ≡ some_of (permits to) entries
unfolding to_matches permits some_of
to_matches-eq-some_of [] to = refl
to_matches-eq-some_of (e ∷ es) to = ground (arith, to_matches-eq-some_of es to)

permits-name :
    (e : ReferenceGrantTo) (to : ToRef) → permits to e ≡ true → other_name e.name to.name ≡ false
unfolding permits
permits-name e to h = ground arith

permits-Permits : (e : ReferenceGrantTo) (to : ToRef) → permits to e ≡ true → Permits e to
permits-Permits e to h = record {
  group = unfold permits in ground (arith, ==_iff e.group to.group);
  kind = unfold permits in ground (arith, ==_iff e.kind to.kind);
  name = name-of-other_name e.name to.name named;
}
  where
    named : other_name e.name to.name ≡ false
    named = permits-name e to h

Permits-permits : (e : ReferenceGrantTo) (to : ToRef) → Permits e to → permits to e ≡ true
unfolding permits
Permits-permits e to p = ground (
  arith,
  ==_iff e.group to.group,
  ==_iff e.kind to.kind,
  other_name-of-name e.name to.name p.name,
)

grant_matches-parts :
    (from : FromRef) (to : ToRef) (grant : ReferenceGrant)
    → grant_matches from to grant ≡ true
    → (some_of (trusts from) grant.from ≡ true) × (some_of (permits to) grant.to ≡ true)
unfolding grant_matches from_matches
grant_matches-parts from to grant h = ground (arith, to_matches-eq-some_of grant.to to)

module _ (from : FromRef) (to : ToRef) where
  grant_matches-Authorizes :
      (grant : ReferenceGrant) → grant_matches from to grant ≡ true → Authorizes grant from to
  grant_matches-Authorizes grant h =
      let (a, b) = grant_matches-parts from to grant h in
      let (e, he, te) = Has-of-some_of (trusts from) grant.from a in
      let (t, ht, pt) = Has-of-some_of (permits to) grant.to b in
      record {
        referrer = e;
        referrer_listed = he;
        trusted = trusts-Trusts e from te;
        target = t;
        target_listed = ht;
        permitted = permits-Permits t to pt;
      }

  Authorizes-grant_matches :
      (grant : ReferenceGrant) → Authorizes grant from to → grant_matches from to grant ≡ true
  unfolding grant_matches from_matches
  Authorizes-grant_matches grant a =
      let e =
        some_of-of-Has (trusts from) grant.from a.referrer_listed
          (Trusts-trusts a.referrer from a.trusted) in
      let t =
        some_of-of-Has (permits to) grant.to a.target_listed
          (Permits-permits a.target to a.permitted) in
      rw (to_matches-eq-some_of, e, t)

-- Some grant that the target's namespace lists authorises the reference.
abbrev pub SomeGrant : List ReferenceGrant → FromRef → ToRef → Type 0
SomeGrant items from to = (g : ReferenceGrant) × Has g items × Authorizes g from to

module _ {E : Type 0} (list : Text → Result E (List ReferenceGrant)) (from : FromRef)
    (to : ToRef) where
  Answer : Type 0
  Answer =
      (from.namespace ≢ [])
      × (to.namespace ≢ [])
      × ((items : List ReferenceGrant) × (list to.namespace ≡ ok items) × SomeGrant items from to)

  answer-of-allowed : allowed list from to ≡ ok true → Answer
  unfolding allowed Answer
  answer-of-allowed h = elim (Result-cases (list to.namespace)) [
    | inl (items, e) ↦
        let (g, m, a) = Has-of-some_of (grant_matches from to) items (ground (arith, e)) in
        (
          ground (arith, ==_iff from.namespace []),
          ground (arith, ==_iff to.namespace []),
          (items, e, (g, m, grant_matches-Authorizes from to g a)),
        )
    | inr (e, q) ↦ absurd (ground (arith, q))
  ]

  allowed-of-answer : Answer → allowed list from to ≡ ok true
  unfolding allowed Answer
  allowed-of-answer (hf, ht, (items, e, (g, m, a))) =
      let found =
        some_of-of-Has (grant_matches from to) items m (Authorizes-grant_matches from to g a) in
      ground (arith, ==_iff from.namespace [], ==_iff to.namespace [])

  -- A reference is allowed exactly when both namespaces are named, the target's namespace was
  -- listed, and one listed grant holds an entry that trusts the referrer's group, kind and
  -- namespace and an entry that permits the target's group, kind and, if it names one, name.
  pub allowed_iff : (allowed list from to ≡ ok true) ↔ (
      (from.namespace ≢ [])
      × (to.namespace ≢ [])
      × ((items : List ReferenceGrant) × (list to.namespace ≡ ok items) × SomeGrant items from to))
  unfolding Answer
  allowed_iff = (answer-of-allowed, allowed-of-answer)
