-- ===== src/Tests/Access.antt =====
-- Histories of the store, tokens and reference grants.
use holos_substrate.Base.{
  ◌≡◌, ◌≢◌, ◌↔◌, ◌⊎◌, refl, sym, ap, subst, zero, suc, ◌∙◌, inl, inr, Bool, true, false, not, none,
  some, List, [], ◌∷◌, arith, Result, ok, err, Has, here, there, if◌then◌else◌,
}
use holos_substrate.Base.Text.{Text, text, ◌==◌}
use holos_substrate.Base.Order.{precedes}
use holos_substrate.Base.Int.{ℤ, pos, negsuc, ◌-ℤ◌, ◌≤ℤ◌, ◌<ℤ◌}
use holos_substrate.Authenticator.Entry.{Entry}
use holos_substrate.Authenticator.Store.{new_store, get, owner, set, outranked, delete_by_key}
use holos_substrate.Authenticator.Store.Coherent.{
  IsCoherent, new_store-IsCoherent, set-IsCoherent, delete_by_key-IsCoherent,
}
use holos_substrate.Authenticator.Store.Ownership.{held_by, set-effect, delete_by_key-effect}
use holos_substrate.Authenticator.Store.Settled.{Claim, replay, IsSteady}
use holos_substrate.Authenticator.Store.Converge.{get-replay, SameClaims, converge}
use holos_substrate.Authenticator.TokenManager.{
  CachedToken, Call, Cache, minting, same_key, find_token, needs_refresh, token, token_key, mint,
  good_token,
}
use holos_substrate.Authenticator.TokenManager.Rotation.{IsFraction, IsMintedBy, fresh-unexpired}
use holos_substrate.Authenticator.TokenManager.Calls.{
  IsTimely, Minted, token_sound, token-error, token-steady, token-IsTimely,
}
use holos_substrate.Grant.{ReferenceGrant, FromRef, ToRef, allowed}
use holos_substrate.Grant.Authorize.{SomeGrant, allowed_iff}
use holos_substrate.Tests.{api}

abbrev a : Text
a = text "a/x"

abbrev b : Text
b = text "b/x"

set-IsCoherent_example : IsCoherent (set a api new_store).0
set-IsCoherent_example = set-IsCoherent a api new_store new_store-IsCoherent

one : IsCoherent (set b api new_store).0
one = set-IsCoherent b api new_store new_store-IsCoherent

delete_by_key-IsCoherent_example : IsCoherent (delete_by_key b (set b api new_store).0)
delete_by_key-IsCoherent_example = delete_by_key-IsCoherent b (set b api new_store).0 one

set-effect_example :
    let s = (set b api new_store).0 in
    let lost = outranked a (owner (text "api") s) in
    ((set a api s).1 ≡ not lost)
    × (get (text "api") (set a api s).0 ≡ (
        if text "api" == text "api"
        then (if lost then get (text "api") s else some api)
        else if held_by a (owner (text "api") s)
        then none
        else get (text "api") s))
    × (owner (text "api") (set a api s).0 ≡ (
        if text "api" == text "api"
        then (if lost then owner (text "api") s else some a)
        else if held_by a (owner (text "api") s)
        then none
        else owner (text "api") s))
set-effect_example = set-effect a api (set b api new_store).0 one (text "api")

delete_by_key-effect_example :
    let s = (set b api new_store).0 in
    (get (text "api") (delete_by_key b s)
      ≡ (if held_by b (owner (text "api") s) then none else get (text "api") s))
    × (owner (text "api") (delete_by_key b s)
        ≡ (if held_by b (owner (text "api") s) then none else owner (text "api") s))
delete_by_key-effect_example = delete_by_key-effect b (set b api new_store).0 one (text "api")

-- Both Backends name the same host with the same entry.
abbrev left : List Claim
left = (b, api) ∷ (a, api) ∷ []

abbrev right : List Claim
right = (a, api) ∷ (b, api) ∷ (a, api) ∷ []

left-api : (k : Text) (e : Entry) → Has {A = Claim} (k, e) left → e ≡ api
left-api k e (here p) = ap (λ (c : Claim). c.1) p
left-api k e (there (here p)) = ap (λ (c : Claim). c.1) p
left-api k e (there (there h)) = elim h [ ]

right-api : (k : Text) (e : Entry) → Has {A = Claim} (k, e) right → e ≡ api
right-api k e (here p) = ap (λ (c : Claim). c.1) p
right-api k e (there h) = left-api k e (right_tail h)
  where
    right_tail : Has {A = Claim} (k, e) ((b, api) ∷ (a, api) ∷ []) → Has {A = Claim} (k, e) left
    right_tail h = h

left-IsSteady : IsSteady left
left-IsSteady = record { same = λ k e f h g. left-api k e h ∙ sym (left-api k f g) }

right-IsSteady : IsSteady right
right-IsSteady = record { same = λ k e f h g. right-api k e h ∙ sym (right-api k f g) }

left-right : SameClaims left right
left-right c = (λ h. there h, back)
  where
    back : Has c right → Has c left
    back (here p) = there (here p)
    back (there h) = h

converge_example :
    (get (text "api") (replay left) ≡ get (text "api") (replay right))
    × (owner (text "api") (replay left) ≡ owner (text "api") (replay right))
converge_example = converge left right left-IsSteady right-IsSteady left-right (text "api")

left-keys : (k : Text) (e : Entry) → Has {A = Claim} (k, e) left → (k ≡ b) ⊎ (k ≡ a)
left-keys k e (here p) = inl (ap (λ (c : Claim). c.0) p)
left-keys k e (there (here p)) = inr (ap (λ (c : Claim). c.0) p)
left-keys k e (there (there h)) = elim h [ ]

a_least :
    (k : Text) (e : Entry) → Has {A = Claim} (k, e) left → e.host ≡ api.host → precedes k a ≡ false
unfolding precedes
a_least k e h _ = elim (left-keys k e h) [ inl p ↦ rw p refl | inr p ↦ rw p refl ]

get-replay_example :
    (get (text "api") (replay left) ≡ some api) × (owner (text "api") (replay left) ≡ some a)
get-replay_example = get-replay left a api left-IsSteady (there (here refl)) a_least

-- A fifth of a duration, for the one duration that the tests use.
abbrev fifth : ℤ → ℤ
fifth (pos zero) = pos zero
fifth (pos (suc n)) = pos 1
fifth (negsuc n) = negsuc n

fifth-IsFraction : IsFraction fifth
fifth-IsFraction = record { nonneg = nonneg; above = above }
  where
    nonneg : (l : ℤ) → pos 0 ≤ℤ l → pos 0 ≤ℤ fifth l
    nonneg (pos zero) h = omega arith
    nonneg (pos (suc n)) h = omega arith
    nonneg (negsuc n) h = omega arith

    above : (l : ℤ) → l <ℤ pos 0 → l ≤ℤ fifth l
    above (pos zero) h = omega arith
    above (pos (suc n)) h = omega arith
    above (negsuc n) h = omega arith

some-injective : (c d : CachedToken) → some c ≡ some d → c ≡ d
some-injective c d h = cc

abbrev t0 : CachedToken
t0 = record { token = text "jwt"; expires_at = pos 100; lifetime = pos 10 }

abbrev cached : Cache
cached = (token_key [] [] (pos 600), t0) ∷ []

fresh_at_90 : needs_refresh fifth t0 (pos 90) ≡ false
unfolding needs_refresh
fresh_at_90 = refl

t0-IsMintedBy : IsMintedBy (pos 90) t0
unfolding ◌-ℤ◌
t0-IsMintedBy = omega arith

fresh-unexpired_example : pos 90 <ℤ t0.expires_at
fresh-unexpired_example =
    fresh-unexpired fifth t0 (pos 90) fifth-IsFraction t0-IsMintedBy fresh_at_90

abbrev reading : Call
reading = record { read_at = pos 90; minted_at = pos 91; create = λ _ _ _. err (text "no API") }

cached-IsTimely : IsTimely (pos 90) cached
unfolding find_token
cached-IsTimely = record { at = λ k c h. only (same_key (token_key [] [] (pos 600)) k) c h }
  where
    only :
        (t : Bool) (c : CachedToken)
        → (if t then some t0 else none) ≡ some c
        → IsMintedBy (pos 90) c
    only true c h = subst (IsMintedBy (pos 90)) (some-injective t0 c h) t0-IsMintedBy
    only false c h = absurd (ground (arith, h))

handed : token fifth (text "ns") reading [] [] (pos 600) cached ≡ (ok (text "jwt"), cached)
unfolding token good_token find_token token_key needs_refresh
handed = refl

found : find_token (token_key [] [] (pos 600)) cached ≡ some t0
unfolding find_token token_key
found = refl

token_sound_example :
    let k = token_key [] [] (pos 600) in
    (c : CachedToken) × (c.token ≡ text "jwt")
    × (find_token k cached ≡ some c)
    × (((pos 90 <ℤ c.expires_at) × (cached ≡ cached)) ⊎ Minted (text "ns") reading k c)
token_sound_example =
    token_sound fifth (text "ns") reading [] [] (pos 600) cached cached (text "jwt")
      fifth-IsFraction cached-IsTimely handed

abbrev stale : Call
stale = record { read_at = pos 99; minted_at = pos 99; create = λ _ _ _. err (text "down") }

refused :
    token fifth (text "ns") stale [] [] (pos 600) cached
    ≡ (err (minting (text "ns") (text "holos-authenticator-impersonator") (text "down")), cached)
unfolding token good_token find_token token_key needs_refresh mint
refused = refl

token-error_example :
    let k = token_key [] [] (pos 600) in
    (cached ≡ cached)
    × (mint (text "ns") stale k
        ≡ err (minting (text "ns") (text "holos-authenticator-impersonator") (text "down")))
    × ((c : CachedToken) → find_token k cached ≡ some c → needs_refresh fifth c (pos 99) ≡ true)
token-error_example =
    token-error fifth (text "ns") stale [] [] (pos 600) cached cached
      (minting (text "ns") (text "holos-authenticator-impersonator") (text "down")) refused

token-steady_example :
    token fifth (text "ns") reading [] [] (pos 600) cached ≡ (ok (text "jwt"), cached)
token-steady_example =
    token-steady fifth (text "ns") reading reading [] [] (pos 600) cached cached (text "jwt") t0
      handed found fresh_at_90

clock : pos 90 ≤ℤ pos 91
clock = omega arith

token-IsTimely_example :
    IsTimely (pos 91) (token fifth (text "ns") reading [] [] (pos 600) cached).1
token-IsTimely_example =
    token-IsTimely fifth (text "ns") reading [] [] (pos 600) cached clock cached-IsTimely

abbrev trusting : ReferenceGrant
trusting = record {
  from = record { group = text "g"; kind = text "k"; namespace = text "n" } ∷ [];
  to = record { group = []; kind = text "Secret"; name = none } ∷ [];
}

abbrev grants : Text → Result Text (List ReferenceGrant)
grants _ = ok (trusting ∷ [])

abbrev referrer : FromRef
referrer = record { group = text "g"; kind = text "k"; namespace = text "n" }

abbrev target : ToRef
target = record { group = []; kind = text "Secret"; namespace = text "m"; name = text "s" }

allowed_iff_example : (allowed grants referrer target ≡ ok true) ↔ (
    (text "n" ≢ [])
    × (text "m" ≢ [])
    × ((items : List ReferenceGrant) × (grants (text "m") ≡ ok items)
        × SomeGrant items referrer target))
allowed_iff_example = allowed_iff grants referrer target

abbrev nowhere : ToRef
nowhere = record { group = []; kind = text "Secret"; namespace = []; name = text "s" }

-- A target without a namespace is refused, whatever the grants are.
test_unnamed : allowed grants referrer nowhere ≡ ok false
unfolding allowed
test_unnamed = refl
