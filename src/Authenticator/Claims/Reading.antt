-- ===== src/Authenticator/Claims/Reading.antt =====
-- One round of the loop of `resolve_extra`, by what the mapping's claim is.
use holos_substrate.Base.{
  ◌≡◌, ◌≢◌, inl, inr, refl, ◌∙◌, none, some, List, [], ◌∷◌, arith, ok, err, All, Option,
  Option-cases,
}
use holos_substrate.Base.Text.{Text, ==_iff}
use holos_substrate.Base.Dict.{Dict, lookup, insert, lookup-insert}
use holos_substrate.Authenticator.Claims.{
  Value, null, boolean, number, str, array, object, not_a_string, Claims, ClaimError, ExtraMapping,
  optional_string_claim, resolve_from,
}

-- What makes a mapping fail: its claim is there and neither null nor a string.
abbrev pub IsMalformed : Claims → ExtraMapping → Type 0
IsMalformed claims m =
    (v : Value) × (lookup m.value_claim claims ≡ some v) × (v ≢ null) × ((s : Text) → v ≢ str s)

abbrev pub Emits : Claims → ExtraMapping → Text → Text → Type 0
Emits claims m k v = (m.key ≡ k) × (lookup m.value_claim claims ≡ some (str v))

-- The mapping's claim decides what the loop does with it.
pub data Reading (claims : Claims) (m : ExtraMapping) : Type 0 where
  skipped :
      optional_string_claim claims m.value_claim ≡ ok none
      → ((v : Text) → lookup m.value_claim claims ≢ some (str v))
      → Reading claims m
  emitted :
      (v : Text)
      → optional_string_claim claims m.value_claim ≡ ok (some v)
      → lookup m.value_claim claims ≡ some (str v)
      → Reading claims m
  refused :
      (e : ClaimError)
      → optional_string_claim claims m.value_claim ≡ err e
      → IsMalformed claims m
      → Reading claims m

read_value :
    (claims : Claims) (m : ExtraMapping) (v : Value)
    → lookup m.value_claim claims ≡ some v
    → Reading claims m
unfolding optional_string_claim
read_value claims m null e = skipped (rw (e, optional_string_claim)) (λ v q. cc)
read_value claims m (str s) e = emitted s (rw (e, optional_string_claim)) e
read_value claims m (boolean b) e =
    refused (not_a_string m.value_claim) (rw (e, optional_string_claim))
      (boolean b, e, λ q. cc, λ s q. cc)
read_value claims m (number n) e =
    refused (not_a_string m.value_claim) (rw (e, optional_string_claim))
      (number n, e, λ q. cc, λ s q. cc)
read_value claims m (array vs) e =
    refused (not_a_string m.value_claim) (rw (e, optional_string_claim))
      (array vs, e, λ q. cc, λ s q. cc)
read_value claims m (object fs) e =
    refused (not_a_string m.value_claim) (rw (e, optional_string_claim))
      (object fs, e, λ q. cc, λ s q. cc)

pub reading : (claims : Claims) (m : ExtraMapping) → Reading claims m
unfolding optional_string_claim
reading claims m = elim (Option-cases (lookup m.value_claim claims)) [
  | inl e ↦ skipped (rw (e, optional_string_claim)) (λ v q. cc)
  | inr (v, e) ↦ read_value claims m v e
]

pub lookup-empty : (k v : Text) → lookup k [] ≢ some v
unfolding lookup
lookup-empty k v h = cc

-- No two mappings share a key, as the custom resource's list key demands.
abbrev pub NodupKeys : List ExtraMapping → Type 0
NodupKeys [] = Unit
NodupKeys (m ∷ ms) = All (λ (n : ExtraMapping). n.key ≢ m.key) ms × NodupKeys ms

pub malformed-not-ok :
    (claims : Claims) (m : ExtraMapping) {o : Option Text}
    → IsMalformed claims m
    → optional_string_claim claims m.value_claim ≢ ok o
unfolding optional_string_claim
malformed-not-ok claims m (null, e, a, b) h = a refl
malformed-not-ok claims m (str s, e, a, b) h = b s refl
malformed-not-ok claims m (boolean v, e, a, b) h = ground (arith, e)
malformed-not-ok claims m (number v, e, a, b) h = ground (arith, e)
malformed-not-ok claims m (array v, e, a, b) h = ground (arith, e)
malformed-not-ok claims m (object v, e, a, b) h = ground (arith, e)

module _ (label : Text) (claims : Claims) where
  -- A key that no mapping has keeps its value through the loop.
  pub resolve_from-other :
      (k : Text) (ms : List ExtraMapping) (out res : Dict Text)
      → All (λ (n : ExtraMapping). n.key ≢ k) ms
      → resolve_from label claims ms out ≡ ok res
      → lookup k res ≡ lookup k out
  unfolding resolve_from
  resolve_from-other k [] out res h e = ground arith
  resolve_from-other k (m ∷ ms) out res h e = elim (reading claims m) [
    | skipped q _ ↦ resolve_from-other k ms out res h.1 (rw (q, resolve_from) at e)
    | emitted v q _ ↦
        resolve_from-other k ms (insert m.key v out) res h.1 (rw (q, resolve_from) at e)
        ∙ ground (arith, lookup-insert k m.key v out, ==_iff m.key k)
    | refused x q _ ↦ absurd (ground (arith, q))
  ]

  pub step_skipped :
      (m : ExtraMapping) (ms : List ExtraMapping) (out : Dict Text)
      → optional_string_claim claims m.value_claim ≡ ok none
      → resolve_from label claims (m ∷ ms) out ≡ resolve_from label claims ms out
  unfolding resolve_from
  step_skipped m ms out q = rw (q, resolve_from)

  pub step_emitted :
      (m : ExtraMapping) (ms : List ExtraMapping) (out : Dict Text) {w : Text}
      → optional_string_claim claims m.value_claim ≡ ok (some w)
      → resolve_from label claims (m ∷ ms) out ≡ resolve_from label claims ms (insert m.key w out)
  unfolding resolve_from
  step_emitted m ms out q = rw (q, resolve_from)

  pub step_refused :
      (m : ExtraMapping) (ms : List ExtraMapping) (out res : Dict Text) {x : ClaimError}
      → optional_string_claim claims m.value_claim ≡ err x
      → resolve_from label claims (m ∷ ms) out ≢ ok res
  unfolding resolve_from
  step_refused m ms out res q e = ground (arith, q)
