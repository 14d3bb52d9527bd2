-- ===== src/Authenticator/Claims/Extra.antt =====
-- What `resolve_extra` returns, in terms of the claims.
use holos_substrate.Base.{
  ◌≡◌, ◌≢◌, ◌⊎◌, inl, inr, refl, ◌∙◌, some, List, [], ◌∷◌, arith, ok, err, Has, here, there, All,
  Bool-cases, subst, ap, sym, ◌↔◌,
}
use holos_substrate.Base.Text.{Text, ◌==◌, ==_iff}
use holos_substrate.Base.Dict.{Dict, lookup, insert, lookup-insert}
use holos_substrate.Authenticator.Claims.{
  str, Claims, ExtraMapping, ExtraError, resolve_from, resolve_extra, string_claim,
}
use holos_substrate.Authenticator.Claims.Reading.{
  IsMalformed, Emits, skipped, emitted, refused, reading, NodupKeys, resolve_from-other,
  step_skipped, step_emitted, step_refused, malformed-not-ok, lookup-empty,
}

-- A username or UID that is read is a non-empty string of the token, verbatim.
pub string_claim_sound :
    (claims : Claims) (claim s : Text)
    → string_claim claims claim ≡ ok s
    → (lookup claim claims ≡ some (str s)) × (s ≢ [])
unfolding string_claim
string_claim_sound claims claim s h = ground (arith, ==_iff s [])

pub string_claim_complete :
    (claims : Claims) (claim s : Text)
    → lookup claim claims ≡ some (str s)
    → s ≢ []
    → string_claim claims claim ≡ ok s
unfolding string_claim
string_claim_complete claims claim s h n = ground (arith, ==_iff s [])

module _ (label : Text) (claims : Claims) where
  -- What the finished map holds was in it before or comes from a mapping.
  resolve_from_sound :
      (k v : Text) (ms : List ExtraMapping) (out res : Dict Text)
      → resolve_from label claims ms out ≡ ok res
      → lookup k res ≡ some v
      → (lookup k out ≡ some v) ⊎ ((m : ExtraMapping) × Has m ms × Emits claims m k v)
  unfolding resolve_from
  resolve_from_sound k v [] out res e l = inl (ground arith)
  resolve_from_sound k v (m ∷ ms) out res e l = elim (reading claims m) [
    | skipped q _ ↦ later (resolve_from_sound k v ms out res (rw (q, resolve_from) at e) l)
    | emitted w q c ↦
        added w c (resolve_from_sound k v ms (insert m.key w out) res (rw (q, resolve_from) at e) l)
    | refused x q _ ↦ absurd (ground (arith, q))
  ]
    where
      later :
          (lookup k out ≡ some v) ⊎ ((n : ExtraMapping) × Has n ms × Emits claims n k v)
          → (lookup k out ≡ some v) ⊎ ((n : ExtraMapping) × Has n (m ∷ ms) × Emits claims n k v)
      later (inl h) = inl h
      later (inr (n, h, c)) = inr (n, there h, c)

      added :
          (w : Text)
          → lookup m.value_claim claims ≡ some (str w)
          → (lookup k (insert m.key w out) ≡ some v)
            ⊎ ((n : ExtraMapping) × Has n ms × Emits claims n k v)
          → (lookup k out ≡ some v) ⊎ ((n : ExtraMapping) × Has n (m ∷ ms) × Emits claims n k v)
      added w c (inr (n, h, x)) = inr (n, there h, x)
      added w c (inl h) = elim (Bool-cases (m.key == k)) [
        | inl same ↦ inr (
          m,
          here refl,
          ((==_iff m.key k).0 same, ground (arith, lookup-insert k m.key w out, ==_iff m.key k)),
        )
        | inr other ↦ inl (ground (arith, lookup-insert k m.key w out))
      ]

  -- A mapping whose claim is a string is in the finished map.
  resolve_from_complete :
      (k v : Text) (ms : List ExtraMapping) (out res : Dict Text) {m : ExtraMapping}
      → NodupKeys ms
      → resolve_from label claims ms out ≡ ok res
      → Has m ms
      → Emits claims m k v
      → lookup k res ≡ some v
  resolve_from_complete k v [] out res u e h x = elim h [ ]
  resolve_from_complete k v (n ∷ ms) out res u e (here p) x = elim (reading claims n) [
    | skipped q c ↦
        absurd
          (c v (subst (λ (z : ExtraMapping). lookup z.value_claim claims ≡ some (str v)) p x.1))
    | emitted w q c ↦
        let n_key : n.key ≡ k = cc (ap (λ (z : ExtraMapping). z.key) p) in
        resolve_from-other label claims k ms (insert n.key w out) res
          (subst (λ (j : Text). All (λ (z : ExtraMapping). z.key ≢ j) ms) n_key u.0)
          (sym (step_emitted label claims n ms out q) ∙ e)
        ∙ ground (
          arith,
          lookup-insert k n.key w out,
          ==_iff n.key k,
          ap (λ (z : ExtraMapping). lookup z.value_claim claims) p,
        )
    | refused y q _ ↦ absurd (step_refused label claims n ms out res q e)
  ]
  resolve_from_complete k v (n ∷ ms) out res u e (there h) x = elim (reading claims n) [
    | skipped q c ↦
        resolve_from_complete k v ms out res u.1 (sym (step_skipped label claims n ms out q) ∙ e) h
          x
    | emitted w q c ↦
        resolve_from_complete k v ms (insert n.key w out) res u.1
          (sym (step_emitted label claims n ms out q) ∙ e) h x
    | refused y q _ ↦ absurd (step_refused label claims n ms out res q e)
  ]

  -- A failure names a malformed mapping of the list, and one malformed mapping suffices to fail.
  resolve_from-error :
      (ms : List ExtraMapping) (out : Dict Text) (x : ExtraError)
      → resolve_from label claims ms out ≡ err x
      → (m : ExtraMapping) × Has m ms × IsMalformed claims m × (x.key ≡ m.key) × (x.label ≡ label)
  unfolding resolve_from
  resolve_from-error [] out x e = absurd (ground (arith, e))
  resolve_from-error (m ∷ ms) out x e = elim (reading claims m) [
    | skipped q _ ↦ further (resolve_from-error ms out x (rw (q, resolve_from) at e))
    | emitted w q _ ↦
        further (resolve_from-error ms (insert m.key w out) x (rw (q, resolve_from) at e))
    | refused y q bad ↦ (m, here refl, bad, ground (arith, q), ground (arith, q))
  ]
    where
      further :
          ((n : ExtraMapping) × Has n ms
            × IsMalformed claims n
            × (x.key ≡ n.key)
            × (x.label ≡ label))
          → (n : ExtraMapping) × Has n (m ∷ ms)
            × IsMalformed claims n
            × (x.key ≡ n.key)
            × (x.label ≡ label)
      further (n, h, bad, a, b) = (n, there h, bad, a, b)

  -- One malformed mapping suffices to fail.
  resolve_from-refuses :
      (ms : List ExtraMapping) (out : Dict Text) {m : ExtraMapping}
      → Has m ms
      → IsMalformed claims m
      → (x : ExtraError) × (resolve_from label claims ms out ≡ err x)
  resolve_from-refuses [] out h bad = elim h [ ]
  resolve_from-refuses (n ∷ ms) out (here p) bad = elim (reading claims n) [
    | skipped q c ↦ absurd (malformed-not-ok claims n (subst (IsMalformed claims) p bad) q)
    | emitted w q c ↦ absurd (malformed-not-ok claims n (subst (IsMalformed claims) p bad) q)
    | refused y q _ ↦ (
      record { label = label; key = n.key; cause = y },
      unfold resolve_from in rw (q, resolve_from),
    )
  ]
  resolve_from-refuses (n ∷ ms) out (there h) bad = elim (reading claims n) [
    | skipped q c ↦
        let (x, e) = resolve_from-refuses ms out h bad in
        (x, step_skipped label claims n ms out q ∙ e)
    | emitted w q c ↦
        let (x, e) = resolve_from-refuses ms (insert n.key w out) h bad in
        (x, step_emitted label claims n ms out q ∙ e)
    | refused y q _ ↦ (
      record { label = label; key = n.key; cause = y },
      unfold resolve_from in rw (q, resolve_from),
    )
  ]

-- When the extras resolve and no two mappings share a key, a key is emitted with a value exactly
-- if a mapping has that key and its claim is that string: nothing is invented, renamed or dropped.
pub lookup-resolve_extra :
    (claims : Claims) (ms : List ExtraMapping) (label : Text) (out : Dict Text) (k v : Text)
    → NodupKeys ms
    → resolve_extra claims ms label ≡ ok out
    → (lookup k out ≡ some v)
      ↔ ((m : ExtraMapping) × Has m ms × (m.key ≡ k) × (lookup m.value_claim claims ≡ some (str v)))
unfolding resolve_extra
lookup-resolve_extra claims ms label out k v u e = (
  λ l. found (resolve_from_sound label claims k v ms [] out e l),
  λ (m, h, a, b). resolve_from_complete label claims k v ms [] out u e h (a, b),
)
  where
    found :
        (lookup k [] ≡ some v) ⊎ ((m : ExtraMapping) × Has m ms × Emits claims m k v)
        → (m : ExtraMapping) × Has m ms × (m.key ≡ k) × (lookup m.value_claim claims ≡ some (str v))
    found (inl h) = absurd (lookup-empty k v h)
    found (inr (m, h, c)) = (m, h, c.0, c.1)

-- The extras fail to resolve exactly if a mapping's claim is present as something other than null
-- or a string; an absent claim or a null one is no failure.
pub resolve_extra-err_iff :
    (claims : Claims) (ms : List ExtraMapping) (label : Text)
    → ((x : ExtraError) × (resolve_extra claims ms label ≡ err x))
      ↔ ((m : ExtraMapping) × Has m ms × IsMalformed claims m)
unfolding resolve_extra
resolve_extra-err_iff claims ms label = (
  λ (x, e). let (m, h, bad, _, _) = resolve_from-error label claims ms [] x e in (m, h, bad),
  λ (m, h, bad). resolve_from-refuses label claims ms [] h bad,
)
