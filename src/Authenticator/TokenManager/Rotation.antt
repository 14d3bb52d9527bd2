-- ===== src/Authenticator/TokenManager/Rotation.antt =====
-- What a caller of `token` is handed, and when the API is asked.
use holos_substrate.Base.{
  ◌≡◌, ◌↔◌, ◌⊎◌, inl, inr, refl, true, false, some, [], ◌∷◌, arith, if◌then◌else◌, Bool-cases,
}
use holos_substrate.Base.Text.{==_iff}
use holos_substrate.Base.Int.{int_eq, ℤ, pos, negsuc, ◌-ℤ◌, ◌≤ℤ◌, ◌<ℤ◌, ltb_ℤ, -ℤ_parts, ltb_ℤ→lt}
use holos_substrate.Authenticator.TokenManager.{
  token_rotation_margin, CachedToken, rotation_margin, needs_refresh, TokenKey, same_key, Cache,
  find_token, put_token,
}

-- What the product with 0.2 keeps of a duration: its sign, and no more than its size.
pub record IsFraction (fraction : ℤ → ℤ) : Type 0 where
  pub nonneg : (l : ℤ) → pos 0 ≤ℤ l → pos 0 ≤ℤ fraction l
  pub above : (l : ℤ) → l <ℤ pos 0 → l ≤ℤ fraction l

-- The token was minted no later than at this time.
abbrev pub IsMintedBy : ℤ → CachedToken → Type 0
IsMintedBy t c = c.expires_at -ℤ c.lifetime ≤ℤ t

module _ (fraction : ℤ → ℤ) (f : IsFraction fraction) (l : ℤ) where
  margin_nonneg : pos 0 ≤ℤ l → pos 0 ≤ℤ rotation_margin fraction l
  unfolding rotation_margin
  margin_nonneg h = elim (Bool-cases (ltb_ℤ (fraction l) token_rotation_margin)) [
    | inl e ↦ rw e (f.nonneg l h)
    | inr e ↦ rw e (omega arith)
  ]

  margin_above : l <ℤ pos 0 → l ≤ℤ rotation_margin fraction l
  unfolding rotation_margin
  margin_above h = elim (Bool-cases (ltb_ℤ (fraction l) token_rotation_margin)) [
    | inl e ↦ rw e (f.above l h)
    | inr e ↦ rw e (omega arith)
  ]

window-of-fresh :
    (fraction : ℤ → ℤ) (c : CachedToken) (t : ℤ)
    → needs_refresh fraction c t ≡ false
    → t <ℤ (c.expires_at -ℤ rotation_margin fraction c.lifetime)
unfolding needs_refresh
window-of-fresh fraction c t h =
    ltb_ℤ→lt t (c.expires_at -ℤ rotation_margin fraction c.lifetime) (ground arith)

nonneg_or_neg : (l : ℤ) → (pos 0 ≤ℤ l) ⊎ (l <ℤ pos 0)
nonneg_or_neg l = omega arith

-- A token that needs no refresh has not expired, also if the issuer's clock is behind so far that
-- the token was minted already expired.
pub fresh-unexpired :
    (fraction : ℤ → ℤ) (c : CachedToken) (t : ℤ)
    → IsFraction fraction
    → IsMintedBy t c
    → needs_refresh fraction c t ≡ false
    → t <ℤ c.expires_at
fresh-unexpired fraction c t f m h =
    let window = window-of-fresh fraction c t h in
    elim (nonneg_or_neg c.lifetime) [
      | inl p ↦ omega (
        arith,
        margin_nonneg fraction f c.lifetime p,
        -ℤ_parts c.expires_at (rotation_margin fraction c.lifetime),
      )
      | inr n ↦ omega (
        arith,
        margin_above fraction f c.lifetime n,
        -ℤ_parts c.expires_at (rotation_margin fraction c.lifetime),
        -ℤ_parts c.expires_at c.lifetime,
      )
    ]

int_eq_iff : (a b : ℤ) → (int_eq a b ≡ true) ↔ (a ≡ b)
int_eq_iff (pos a) (pos b) = ground arith
int_eq_iff (negsuc a) (negsuc b) = ground arith
int_eq_iff (pos a) (negsuc b) = (λ h. cc, λ h. cc)
int_eq_iff (negsuc a) (pos b) = (λ h. cc, λ h. cc)

pub same_key_iff : (a b : TokenKey) → (same_key a b ≡ true) ↔ (a ≡ b)
unfolding same_key
same_key_iff a b = ground (
  arith,
  ==_iff a.name b.name,
  ==_iff a.audience b.audience,
  int_eq_iff a.expiration_seconds b.expiration_seconds,
)

pub find_token-put_token :
    (j k : TokenKey) (c : CachedToken) (cache : Cache)
    → find_token j (put_token k c cache) ≡ (if same_key k j then some c else find_token j cache)
unfolding find_token put_token
find_token-put_token j k c [] = refl
find_token-put_token j k c ((i, d) ∷ cache) =
    ground (
      arith,
      find_token-put_token j k c cache,
      same_key_iff i k,
      same_key_iff i j,
      same_key_iff k j,
    )
