-- ===== src/Authenticator/Claims.antt =====
-- The claims of a validated token and the claim readers of internal/authenticator/authenticator.go.
pub mod Reading
pub mod Extra
use holos_substrate.Base.{ℕ, Bool, true, false, Option, none, some, List, [], ◌∷◌}
use holos_substrate.Base.{Result, ok, err, if◌then◌else◌}
use holos_substrate.Base.Text.{Text, ◌==◌}
use holos_substrate.Base.Dict.{Dict, lookup, insert}

-- What `json.Unmarshal` stores in an `any`. A number keeps its literal.
mutual
  pub data Value : Type 0 where
    null : Value
    boolean : Bool → Value
    number : Text → Value
    str : Text → Value
    array : Values → Value
    object : Fields → Value

  pub data Values : Type 0 where
    end : Values
    item : Value → Values → Values

  pub data Fields : Type 0 where
    stop : Fields
    field : Text → Value → Fields → Fields

abbrev pub Claims : Type 0
Claims = Dict Value

pub data ClaimError : Type 0 where
  missing_claim : Text → ClaimError
  not_a_string : Text → ClaimError
  empty_claim : Text → ClaimError

-- The type assertion `raw.(string)` on a value that is present.
required : Text → Value → Result ClaimError Text
required claim null = err (missing_claim claim)
required claim (str s) = if s == [] then err (empty_claim claim) else ok s
required claim _ = err (not_a_string claim)

unfoldable pub string_claim : Claims → Text → Result ClaimError Text
unfolding required ◌==◌
string_claim claims claim = elim (lookup claim claims) [
  | none ↦ err (missing_claim claim)
  | some raw ↦ required claim raw
]

optional : Text → Value → Result ClaimError (Option Text)
optional claim null = ok none
optional claim (str s) = ok (some s)
optional claim _ = err (not_a_string claim)

-- `none` stands for `("", false, nil)`.
unfoldable pub optional_string_claim : Claims → Text → Result ClaimError (Option Text)
unfolding optional
optional_string_claim claims claim = elim (lookup claim claims) [
  | none ↦ ok none
  | some raw ↦ optional claim raw
]

-- An entry of `spec.oidc.extra` or `spec.impersonation.extra`.
pub record ExtraMapping : Type 0 where
  pub key : Text
  pub value_claim : Text

-- The error that names the mapping group, the key and what was wrong with its claim.
pub record ExtraError : Type 0 where
  pub label : Text
  pub key : Text
  pub cause : ClaimError

-- The loop, with the map built so far. A nil map reads like the empty one.
pub resolve_from : Text → Claims → List ExtraMapping → Dict Text → Result ExtraError (Dict Text)
resolve_from label claims [] out = ok out
resolve_from label claims (m ∷ ms) out = elim (optional_string_claim claims m.value_claim) [
  | err e ↦ err (record { label = label; key = m.key; cause = e })
  | ok none ↦ resolve_from label claims ms out
  | ok (some value) ↦ resolve_from label claims ms (insert m.key value out)
]

unfoldable pub resolve_extra : Claims → List ExtraMapping → Text → Result ExtraError (Dict Text)
unfolding resolve_from optional_string_claim
resolve_extra claims mappings label = resolve_from label claims mappings []
