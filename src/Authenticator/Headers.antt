-- ===== src/Authenticator/Headers.antt =====
-- internal/authenticator/server.go: the helpers of `Check` that read request headers and groups,
-- and the validators of header names. A header map is the list of its pairs.
pub mod Groups
pub mod Extras
pub mod Names
use holos_substrate.Base.{
  ℕ, Bool, true, false, not, ◌&&◌, ◌||◌, Option, none, some, List, [], ◌∷◌, Result, ok, err, leb,
  num_eq, if◌then◌else◌, some_of, length, suc, zero,
}
use holos_substrate.Base.Text.{
  Text, text, ◌==◌, has_prefix, contains, to_lower, equal_fold, trim_space,
}
use holos_substrate.Base.Dict.{Dict, lookup, keys}
use holos_substrate.Base.Order.{sort_strings}
use holos_substrate.Base.Split.{split}

abbrev pub header_authorization : Text
header_authorization = text "Authorization"

abbrev pub header_impersonate_user : Text
header_impersonate_user = text "Impersonate-User"

abbrev pub header_impersonate_uid : Text
header_impersonate_uid = text "Impersonate-Uid"

abbrev pub header_impersonate_group : Text
header_impersonate_group = text "Impersonate-Group"

abbrev pub header_impersonate_extra_prefix : Text
header_impersonate_extra_prefix = text "Impersonate-Extra-"

abbrev pub impersonate_prefix : Text
impersonate_prefix = text "impersonate-"

abbrev pub bearer_prefix : Text
bearer_prefix = text "bearer "

-- The first key that passes the test, in the map's order.
unfoldable pub first_key : (Text → Bool) → Dict Text → Option Text
first_key p [] = none
first_key p ((name, _) ∷ headers) =
    let rest = first_key p headers in if p name then some name else rest

unfoldable pub is_extra_header : Text → Bool
unfolding has_prefix to_lower
is_extra_header name = has_prefix (to_lower name) (to_lower header_impersonate_extra_prefix)

unfoldable pub first_inbound_impersonation_extra_header : Dict Text → Option Text
unfolding first_key is_extra_header
first_inbound_impersonation_extra_header = first_key is_extra_header

unfoldable pub is_impersonation_header : Text → Bool
unfolding has_prefix to_lower
is_impersonation_header name = has_prefix (to_lower name) impersonate_prefix

unfoldable pub first_impersonation_header : Dict Text → Option Text
unfolding first_key is_impersonation_header
first_impersonation_header = first_key is_impersonation_header

unfoldable pub is_recognized : Text → Bool
unfolding ◌==◌ to_lower
is_recognized lower =
    lower == to_lower header_impersonate_user
    || lower == to_lower header_impersonate_uid
    || lower == to_lower header_impersonate_group

unfoldable pub is_unrecognized_header : Text → Bool
unfolding is_impersonation_header is_recognized
is_unrecognized_header name = is_impersonation_header name && not (is_recognized (to_lower name))

unfoldable pub first_unrecognized_impersonation_header : Dict Text → Option Text
unfolding first_key is_unrecognized_header
first_unrecognized_impersonation_header = first_key is_unrecognized_header

unfoldable pub nonempty_parts : List Text → List Text
unfolding ◌==◌
nonempty_parts [] = []
nonempty_parts (p ∷ parts) = let rest = nonempty_parts parts in if p == [] then rest else p ∷ rest

unfoldable pub split_inbound_groups : Dict Text → List Text
unfolding lookup to_lower ◌==◌ nonempty_parts split
split_inbound_groups headers = elim (lookup (to_lower header_impersonate_group) headers) [
  | none ↦ []
  | some raw ↦ if raw == [] then [] else nonempty_parts (split raw b',')
]

-- The allowlist is the list of the set's members.
unfoldable pub groups_intersect : List Text → List Text → Bool
unfolding some_of ◌==◌
groups_intersect groups allow = some_of (λ g. some_of (λ a. g == a) allow) groups

unfoldable pub is_unsafe : Text → Text → Bool
unfolding contains trim_space ◌==◌
is_unsafe sep group = contains group sep || not (trim_space group == group)

unfoldable pub first_unsafe_group : List Text → Text → Option Text
unfolding is_unsafe
first_unsafe_group [] sep = none
first_unsafe_group (group ∷ groups) sep =
    let rest = first_unsafe_group groups sep in if is_unsafe sep group then some group else rest

unfoldable pub take : ℕ → Text → Text
take zero s = []
take (suc n) [] = []
take (suc n) (c ∷ s) = c ∷ take n s

unfoldable pub drop : ℕ → Text → Text
drop zero s = s
drop (suc n) [] = []
drop (suc n) (c ∷ s) = drop n s

unfoldable pub credential_of : Text → Option Text
unfolding equal_fold take drop trim_space ◌==◌
credential_of raw =
    if not (equal_fold (take 7 raw) bearer_prefix)
    then none
    else (let t = trim_space (drop 7 raw) in if t == [] then none else some t)

unfoldable pub bearer_token : Dict Text → Option Text
unfolding lookup to_lower credential_of
bearer_token headers = elim (lookup (to_lower header_authorization) headers) [
  | none ↦ none
  | some raw ↦ credential_of raw
]

unfoldable pub sorted_extra_keys : Dict Text → List Text
unfolding sort_strings keys
sorted_extra_keys extra = sort_strings (keys extra)

abbrev pub token_punctuation : Text
token_punctuation = text "!#$&'*+-.^_`|~"

unfoldable pub is_extra_key_char : ℕ → Bool
unfolding some_of
is_extra_key_char r =
    (leb b'a' r && leb r b'z') || (leb b'0' r && leb r b'9') || some_of (num_eq r) token_punctuation

unfoldable pub is_header_token_char : ℕ → Bool
unfolding is_extra_key_char
is_header_token_char r = is_extra_key_char r || (leb b'A' r && leb r b'Z') || num_eq r b'%'

pub data HeaderError : Type 0 where
  empty : HeaderError
  invalid_character : Text → HeaderError
  is_authorization : HeaderError
  is_impersonation : Text → HeaderError
  invalid_separator : Text → HeaderError

unfoldable pub validate_groups_header : Text → Result HeaderError Text
unfolding is_header_token_char some_of to_lower has_prefix ◌==◌
validate_groups_header name =
    let lower = to_lower name in
    if name == []
    then err empty
    else if some_of (λ r. not (is_header_token_char r)) name
    then err (invalid_character name)
    else if lower == to_lower header_authorization
    then err is_authorization
    else if has_prefix lower impersonate_prefix
    then err (is_impersonation name)
    else ok lower

-- One byte from '!' to '~' is one character of that range.
unfoldable pub validate_groups_separator : Text → Option HeaderError
validate_groups_separator [] = some empty
validate_groups_separator (c ∷ []) =
    if leb b'!' c && leb c b'~' then none else some (invalid_separator (c ∷ []))
validate_groups_separator (c ∷ d ∷ s) = some (invalid_separator (c ∷ d ∷ s))

unfoldable pub validate_extra_key : Text → Option HeaderError
unfolding is_extra_key_char some_of ◌==◌
validate_extra_key key =
    if key == []
    then some empty
    else if some_of (λ r. not (is_extra_key_char r)) key
    then some (invalid_character key)
    else none
