-- ===== src/Authenticator/Server/Values.antt =====
-- The values that a list of header options gives to one header, part by part of a response.
use holos_substrate.Base.{◌≡◌, refl, ap, true, false, List, [], ◌∷◌, ◌++◌, arith, ok, if◌then◌else◌}
use holos_substrate.Base.Text.{Text, ◌==◌, ==_iff, to_lower, equal_fold, has_prefix}
use holos_substrate.Base.Dict.{Dict}
use holos_substrate.Authenticator.Headers.{
  header_authorization, header_impersonate_user, header_impersonate_extra_prefix,
  impersonate_prefix, sorted_extra_keys, validate_groups_header,
}
use holos_substrate.Authenticator.Server.{
  HeaderValueOption, extra_headers, append_extra_headers, nonempty_header, joined_groups,
  authorization, forwarded,
}

-- The values that the options give to the header of this name.
unfoldable pub values_named : Text → List HeaderValueOption → List Text
unfolding equal_fold
values_named name [] = []
values_named name ((n, v) ∷ options) =
    let rest = values_named name options in if equal_fold n name then v ∷ rest else rest

pub values_named-++ :
    (name : Text) (xs ys : List HeaderValueOption)
    → values_named name (xs ++ ys) ≡ values_named name xs ++ values_named name ys
unfolding values_named
values_named-++ name [] ys = refl
values_named-++ name ((n, v) ∷ xs) ys = ground (arith, values_named-++ name xs ys)

module _ (name : Text) where
  pub values_named-extra_headers :
      ((key : Text) → equal_fold (header_impersonate_extra_prefix ++ key) name ≡ false)
      → (extra : Dict Text) (keys : List Text) → values_named name (extra_headers extra keys) ≡ []
  unfolding values_named extra_headers
  values_named-extra_headers other extra [] = refl
  values_named-extra_headers other extra (k ∷ keys) =
      ground (arith, other k, values_named-extra_headers other extra keys)

  pub values_named-joined_groups :
      (other : Text) (groups : List Text) (sep : Text)
      → equal_fold other name ≡ false
      → values_named name (joined_groups other groups sep) ≡ []
  unfolding values_named joined_groups
  values_named-joined_groups other [] sep h = refl
  values_named-joined_groups other (g ∷ groups) sep h = ground arith

  pub values_named-nonempty_header :
      (other value : Text)
      → equal_fold other name ≡ false
      → values_named name (nonempty_header other value) ≡ []
  unfolding values_named nonempty_header
  values_named-nonempty_header other value h = ground arith

  pub values_named-forwarded :
      (other : Text) (headers : Dict Text)
      → equal_fold other name ≡ false
      → values_named name (forwarded other headers) ≡ []
  unfolding values_named forwarded
  values_named-forwarded other headers h = ground arith

pub extra_not_authorization :
    (key : Text) → equal_fold (header_impersonate_extra_prefix ++ key) header_authorization ≡ false
unfolding equal_fold to_lower ◌==◌
extra_not_authorization key = refl

pub extra_not_user :
    (key : Text)
    → equal_fold (header_impersonate_extra_prefix ++ key) header_impersonate_user ≡ false
unfolding equal_fold to_lower ◌==◌
extra_not_user key = refl

pub groups_not_authorization :
    (name lower : Text)
    → validate_groups_header name ≡ ok lower
    → equal_fold name header_authorization ≡ false
unfolding validate_groups_header equal_fold
groups_not_authorization name lower h = ground arith

pub groups_not_impersonation :
    (name lower : Text)
    → validate_groups_header name ≡ ok lower
    → has_prefix (to_lower name) impersonate_prefix ≡ false
unfolding validate_groups_header
groups_not_impersonation name lower h = ground arith

pub user_is_impersonation : has_prefix (to_lower header_impersonate_user) impersonate_prefix ≡ true
unfolding has_prefix to_lower
user_is_impersonation = refl

pub groups_not_user :
    (name lower : Text)
    → validate_groups_header name ≡ ok lower
    → equal_fold name header_impersonate_user ≡ false
unfolding equal_fold
groups_not_user name lower h = ground (
  arith,
  groups_not_impersonation name lower h,
  ==_iff (to_lower name) (to_lower header_impersonate_user),
  user_is_impersonation,
)

++-nil : (xs : List Text) → xs ++ [] ≡ xs
++-nil [] = refl
++-nil (x ∷ xs) = ap (λ ys. x ∷ ys) (++-nil xs)

-- What the options before the extras and the credential leave to these.
pub values_named-stamped :
    (name : Text) (out : List HeaderValueOption) (extra : Dict Text) (credential : Text)
    → ((key : Text) → equal_fold (header_impersonate_extra_prefix ++ key) name ≡ false)
    → values_named name (append_extra_headers out extra ++ (authorization credential ∷ []))
      ≡ values_named name out ++ values_named name (authorization credential ∷ [])
unfolding append_extra_headers
values_named-stamped name out extra credential other =
    let keys = sorted_extra_keys extra in
    ground (
      arith,
      values_named-++ name (out ++ extra_headers extra keys) (authorization credential ∷ []),
      values_named-++ name out (extra_headers extra keys),
      values_named-extra_headers name other extra keys,
      ++-nil (values_named name out),
    )
