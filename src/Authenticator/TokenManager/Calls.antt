-- ===== src/Authenticator/TokenManager/Calls.antt =====
-- What a call of `token` hands out, and what it leaves in the cache.
use holos_substrate.Base.{
  ◌≡◌, ◌≢◌, ◌⊎◌, inl, inr, ap, subst, ◌∙◌, true, false, Option, none, some, [], arith, Result, ok,
  err, Bool-cases, Option-cases, Result-cases,
}
use holos_substrate.Base.Text.{Text, ==_iff}
use holos_substrate.Base.Int.{ℤ, pos_part, neg_part, ◌-ℤ◌, ◌≤ℤ◌, ◌<ℤ◌, -ℤ_parts}
use holos_substrate.Authenticator.TokenManager.{
  CachedToken, needs_refresh, TokenKey, same_key, Cache, find_token, put_token, TokenRequestStatus,
  Call, MintError, mint, token_key, good_token, token, token_request,
}
use holos_substrate.Authenticator.TokenManager.Rotation.{
  IsFraction, IsMintedBy, fresh-unexpired, same_key_iff, find_token-put_token,
}

-- Every cached token was minted no later than at this time.
pub record IsTimely (t : ℤ) (cache : Cache) : Type 0 where
  pub at : (k : TokenKey) (c : CachedToken) → find_token k cache ≡ some c → IsMintedBy t c

-- What a successful mint stands for: the API's answer to this request.
pub record Minted (namespace : Text) (w : Call) (key : TokenKey) (c : CachedToken) : Type 0 where
  pub status : TokenRequestStatus
  pub answered : w.create namespace key.name (token_request key) ≡ ok status
  pub nonempty : c.token ≢ []
  pub same_token : c.token ≡ status.token
  pub expiry : c.expires_at ≡ status.expiration_timestamp
  pub lifetime : c.lifetime ≡ status.expiration_timestamp -ℤ w.minted_at

mint-Minted :
    (namespace : Text) (w : Call) (key : TokenKey) (c : CachedToken)
    → mint namespace w key ≡ ok c
    → Minted namespace w key c
unfolding mint
mint-Minted namespace w key c h =
    elim (Result-cases (w.create namespace key.name (token_request key))) [
      | inl (status, e) ↦ record {
        status = status;
        answered = e;
        nonempty = ground (arith, e, ==_iff status.token []);
        same_token = ground (arith, e);
        expiry = ground (arith, e);
        lifetime = ground (arith, e);
      }
      | inr (x, e) ↦ absurd (ground (arith, e))
    ]

good_token-some :
    (fraction : ℤ → ℤ) (t : ℤ) (o : Option CachedToken) (c : CachedToken)
    → good_token fraction t o ≡ some c
    → (o ≡ some c) × (needs_refresh fraction c t ≡ false)
unfolding good_token
good_token-some fraction t none c h = cc
good_token-some fraction t (some d) c h = ground arith

-- The two ways in which a call ends.
module _ (fraction : ℤ → ℤ) (namespace : Text) (w : Call) (key : TokenKey) (cache : Cache) where
  data Ending (out : Result MintError Text × Cache) : Type 0 where
    reused :
        (c : CachedToken)
        → find_token key cache ≡ some c
        → needs_refresh fraction c w.read_at ≡ false
        → out ≡ (ok c.token, cache)
        → Ending out
    minted :
        (c : CachedToken)
        → Minted namespace w key c
        → out ≡ (ok c.token, put_token key c cache)
        → Ending out
    failed :
        (e : MintError)
        → good_token fraction w.read_at (find_token key cache) ≡ none
        → mint namespace w key ≡ err e
        → out ≡ (err e, cache)
        → Ending out

token-Ending :
    (fraction : ℤ → ℤ) (namespace : Text) (w : Call) (name audience : Text) (expiration : ℤ)
    (cache : Cache)
    → Ending fraction namespace w
        (token_key name audience expiration)
        cache
        (token fraction namespace w name audience expiration cache)
unfolding token
token-Ending fraction namespace w name audience expiration cache =
    let key = token_key name audience expiration in
    elim (Option-cases (good_token fraction w.read_at (find_token key cache))) [
      | inr (c, g) ↦
          let (found, fresh) = good_token-some fraction w.read_at (find_token key cache) c g in
          reused c found fresh (rw (g, token))
      | inl g ↦ elim (Result-cases (mint namespace w key)) [
        | inl (c, m) ↦ minted c (mint-Minted namespace w key c m) (rw (g, token) (rw m))
        | inr (e, m) ↦ failed e g m (rw (g, token) (rw m))
      ]
    ]

token-again :
    (fraction : ℤ → ℤ) (namespace : Text) (w : Call) (name audience : Text) (expiration : ℤ)
    (cache : Cache) (c : CachedToken)
    → find_token (token_key name audience expiration) cache ≡ some c
    → needs_refresh fraction c w.read_at ≡ false
    → token fraction namespace w name audience expiration cache ≡ (ok c.token, cache)
unfolding token good_token
token-again fraction namespace w name audience expiration cache c found fresh =
    rw (found, token) (rw (fresh, good_token))

-- The token that a successful call hands out is either the cached one, which is then unexpired and
-- costs no request, or one that the API just issued for exactly this ServiceAccount, audience and
-- lifetime, which is then the cached one.
pub token_sound :
    (fraction : ℤ → ℤ) (namespace : Text) (w : Call) (name audience : Text) (expiration : ℤ)
    (cache cache' : Cache) (t : Text)
    → IsFraction fraction
    → IsTimely w.read_at cache
    → token fraction namespace w name audience expiration cache ≡ (ok t, cache')
    → let k = token_key name audience expiration in
      (c : CachedToken) × (c.token ≡ t)
      × (find_token k cache' ≡ some c)
      × (((w.read_at <ℤ c.expires_at) × (cache' ≡ cache)) ⊎ Minted namespace w k c)
token_sound fraction namespace w name audience expiration cache cache' t f timely h =
    let k = token_key name audience expiration in
    elim (token-Ending fraction namespace w name audience expiration cache) [
      | reused c found fresh q ↦ (
        c,
        cc,
        ground (arith, found, q, h),
        inl (fresh-unexpired fraction c w.read_at f (timely.at k c found) fresh, cc),
      )
      | minted c m q ↦
          (c, cc, ground (arith, q, h, find_token-put_token k k c cache, same_key_iff k k), inr m)
      | failed e _ _ q ↦ absurd (ground (arith, q, h))
    ]

-- A failed call leaves the cache as it was, and hands out nothing although an older token may be
-- cached: that one needed a refresh.
pub token-error :
    (fraction : ℤ → ℤ) (namespace : Text) (w : Call) (name audience : Text) (expiration : ℤ)
    (cache cache' : Cache) (e : MintError)
    → token fraction namespace w name audience expiration cache ≡ (err e, cache')
    → let k = token_key name audience expiration in
      (cache' ≡ cache)
      × (mint namespace w k ≡ err e)
      × ((c : CachedToken)
          → find_token k cache ≡ some c
          → needs_refresh fraction c w.read_at ≡ true)
unfolding good_token
token-error fraction namespace w name audience expiration cache cache' e h =
    elim (token-Ending fraction namespace w name audience expiration cache) [
      | reused c found fresh q ↦ absurd (ground (arith, q, h))
      | minted c m q ↦ absurd (ground (arith, q, h))
      | failed x g m q ↦ (cc, cc, λ c found. ground (arith, g, found))
    ]

handed_out :
    (fraction : ℤ → ℤ) (namespace : Text) (w : Call) (name audience : Text) (expiration : ℤ)
    (cache cache' : Cache) (t : Text) (c : CachedToken)
    → token fraction namespace w name audience expiration cache ≡ (ok t, cache')
    → find_token (token_key name audience expiration) cache' ≡ some c
    → c.token ≡ t
handed_out fraction namespace w name audience expiration cache cache' t c h found =
    let k = token_key name audience expiration in
    elim (token-Ending fraction namespace w name audience expiration cache) [
      | reused d at _ q ↦ ground (arith, at, q, h, found)
      | minted d _ q ↦
          ground (arith, q, h, found, find_token-put_token k k d cache, same_key_iff k k)
      | failed e _ _ q ↦ absurd (ground (arith, q, h))
    ]

-- While the token of a successful call needs no refresh, the same call hands it out again, whatever
-- the API would now answer, and leaves the cache alone.
pub token-steady :
    (fraction : ℤ → ℤ) (namespace : Text) (w later : Call) (name audience : Text) (expiration : ℤ)
    (cache cache' : Cache) (t : Text) (c : CachedToken)
    → token fraction namespace w name audience expiration cache ≡ (ok t, cache')
    → find_token (token_key name audience expiration) cache' ≡ some c
    → needs_refresh fraction c later.read_at ≡ false
    → token fraction namespace later name audience expiration cache' ≡ (ok t, cache')
token-steady fraction namespace w later name audience expiration cache cache' t c h found fresh =
    token-again fraction namespace later name audience expiration cache' c found fresh
    ∙ ap (λ (z : Text). (ok z, cache'))
        (handed_out fraction namespace w name audience expiration cache cache' t c h found)

later : (cache : Cache) (s t : ℤ) → s ≤ℤ t → IsTimely s cache → IsTimely t cache
later cache s t le timely = record { at = λ k c found. omega (arith, timely.at k c found) }

minted_by :
    (namespace : Text) (w : Call) (key : TokenKey) (c : CachedToken)
    → Minted namespace w key c
    → IsMintedBy w.minted_at c
minted_by namespace w key c m = omega (
  arith,
  ap pos_part m.expiry,
  ap neg_part m.expiry,
  ap pos_part m.lifetime,
  ap neg_part m.lifetime,
  -ℤ_parts c.expires_at c.lifetime,
  -ℤ_parts m.status.expiration_timestamp w.minted_at,
)

found_put :
    (j k : TokenKey) (c d : CachedToken) (cache : Cache)
    → find_token j (put_token k d cache) ≡ some c
    → (d ≡ c) ⊎ (find_token j cache ≡ some c)
found_put j k c d cache h = elim (Bool-cases (same_key k j)) [
  | inl e ↦ inl (ground (arith, e, h, find_token-put_token j k d cache))
  | inr e ↦ inr (ground (arith, e, h, find_token-put_token j k d cache))
]

-- The cache stays timely as the clock goes on.
pub token-IsTimely :
    (fraction : ℤ → ℤ) (namespace : Text) (w : Call) (name audience : Text) (expiration : ℤ)
    (cache : Cache)
    → w.read_at ≤ℤ w.minted_at
    → IsTimely w.read_at cache
    → IsTimely w.minted_at (token fraction namespace w name audience expiration cache).1
token-IsTimely fraction namespace w name audience expiration cache clock timely =
    let k = token_key name audience expiration in
    elim (token-Ending fraction namespace w name audience expiration cache) [
      | reused d _ _ q ↦ rw q (later cache w.read_at w.minted_at clock timely)
      | failed _ _ _ q ↦ rw q (later cache w.read_at w.minted_at clock timely)
      | minted d m q ↦ rw q (record {
        at = λ j c found. elim (found_put j k c d cache found) [
          | inl e ↦ subst (IsMintedBy w.minted_at) e (minted_by namespace w k d m)
          | inr e ↦ (later cache w.read_at w.minted_at clock timely).at j c e
        ];
      })
    ]
