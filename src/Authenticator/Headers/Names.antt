-- ===== src/Authenticator/Headers/Names.antt =====
-- The names that `ValidateGroupsHeader` accepts.
use holos_substrate.Base.{
  ◌≡◌, ◌≢◌, ◌↔◌, refl, sym, subst, Bool-cases, ℕ, true, false, not, [], ◌∷◌, arith, ok, some_of,
  some_of-of-Has, Has-of-some_of, Has, All, num_eq, leb, ◌&&◌, inl, inr, clash, ◌++◌, ap, ◌∙◌,
}
use holos_substrate.Base.Text.{
  Text, text, ◌==◌, ==_iff, to_lower, to_lower_idem, has_prefix, has_prefix-append,
  append-of-has_prefix, lower_char, equal_fold,
}
use holos_substrate.Authenticator.Headers.{
  header_authorization, impersonate_prefix, is_extra_key_char, is_header_token_char,
  validate_groups_header,
}

-- RFC 7230: a token character is a letter, a digit or one of these marks.
abbrev token_marks : Text
token_marks = text "!#$%&'*+-.^_`|~"

pub data IsTokenChar (c : ℕ) : Type 0 where
  small_letter : leb b'a' c ≡ true → leb c b'z' ≡ true → IsTokenChar c
  capital_letter : leb b'A' c ≡ true → leb c b'Z' ≡ true → IsTokenChar c
  digit : leb b'0' c ≡ true → leb c b'9' ≡ true → IsTokenChar c
  mark : Has c token_marks → IsTokenChar c

-- What the accepted name promises to the filters that read and remove the header.
pub record IsGroupsHeader (name : Text) : Type 0 where
  pub nonempty : name ≢ []
  pub token : All IsTokenChar name
  pub not_authorization : to_lower name ≢ text "authorization"
  pub not_impersonation : (rest : Text) → to_lower name ≢ text "impersonate-" ++ rest

num_eq_self : (c : ℕ) → num_eq c c ≡ true
num_eq_self c = ground arith

mark-of-test : (c : ℕ) → some_of (num_eq c) token_marks ≡ true → IsTokenChar c
mark-of-test c h =
    let (x, m, e) = Has-of-some_of (num_eq c) token_marks h in
    let same : x ≡ c = ground arith in mark (subst (λ (y : ℕ). Has y token_marks) same m)

IsTokenChar-of-test : (c : ℕ) → is_header_token_char c ≡ true → IsTokenChar c
unfolding is_header_token_char is_extra_key_char some_of
IsTokenChar-of-test c h = elim (Bool-cases (leb b'a' c && leb c b'z')) [
  | inl e ↦ small_letter (ground arith) (ground arith)
  | inr e ↦ elim (Bool-cases (leb b'A' c && leb c b'Z')) [
    | inl f ↦ capital_letter (ground arith) (ground arith)
    | inr f ↦ elim (Bool-cases (leb b'0' c && leb c b'9')) [
      | inl g ↦ digit (ground arith) (ground arith)
      | inr g ↦ mark-of-test c (ground arith)
    ]
  ]
]

test-of-mark : (c : ℕ) → some_of (num_eq c) token_marks ≡ true → is_header_token_char c ≡ true
unfolding is_header_token_char is_extra_key_char some_of
test-of-mark c h = ground arith

test-of-IsTokenChar : (c : ℕ) → IsTokenChar c → is_header_token_char c ≡ true
unfolding is_header_token_char is_extra_key_char
test-of-IsTokenChar c (small_letter a b) = ground arith
test-of-IsTokenChar c (capital_letter a b) = ground arith
test-of-IsTokenChar c (digit a b) = ground arith
test-of-IsTokenChar c (mark m) =
    test-of-mark c (some_of-of-Has (num_eq c) token_marks m (num_eq_self c))

All-of-loop :
    (name : Text) → some_of (λ r. not (is_header_token_char r)) name ≡ false → All IsTokenChar name
unfolding some_of
All-of-loop [] h = tt
All-of-loop (c ∷ name) h = (IsTokenChar-of-test c (ground arith), All-of-loop name (ground arith))

loop-of-All :
    (name : Text) → All IsTokenChar name → some_of (λ r. not (is_header_token_char r)) name ≡ false
unfolding some_of
loop-of-All [] h = refl
loop-of-All (c ∷ name) (h, hs) = ground (arith, test-of-IsTokenChar c h, loop-of-All name hs)

IsGroupsHeader-of-accepted :
    (name lower : Text) → validate_groups_header name ≡ ok lower → IsGroupsHeader name
unfolding validate_groups_header to_lower
IsGroupsHeader-of-accepted name lower h = record {
  nonempty = ground (arith, h, ==_iff name []);
  token = All-of-loop name (ground (arith, h));
  not_authorization = ground (arith, h, ==_iff (to_lower name) (text "authorization"));
  not_impersonation = λ rest e.
      let free : has_prefix (to_lower name) impersonate_prefix ≡ false = ground (arith, h) in
      let taken = has_prefix-append impersonate_prefix rest in
      clash (has_prefix (to_lower name) impersonate_prefix)
        (subst (λ (l : Text). has_prefix l impersonate_prefix ≡ true) (sym e) taken) free;
}

lower-of-accepted :
    (name lower : Text) → validate_groups_header name ≡ ok lower → lower ≡ to_lower name
unfolding validate_groups_header
lower-of-accepted name lower h = ground (arith, h)

authorization_folded : to_lower header_authorization ≡ text "authorization"
unfolding to_lower lower_char
authorization_folded = refl

accepted-of-IsGroupsHeader :
    (name : Text) → IsGroupsHeader name → validate_groups_header name ≡ ok (to_lower name)
unfolding validate_groups_header
accepted-of-IsGroupsHeader name n =
    let free : has_prefix (to_lower name) impersonate_prefix ≡ false =
      elim (Bool-cases (has_prefix (to_lower name) impersonate_prefix)) [
        | inr e ↦ e
        | inl e ↦
            let (rest, q) = append-of-has_prefix (to_lower name) impersonate_prefix e in
            absurd (n.not_impersonation rest q)
      ] in
    let plain : (to_lower name == to_lower header_authorization) ≡ false =
      elim (Bool-cases (to_lower name == to_lower header_authorization)) [
        | inr e ↦ e
        | inl e ↦ absurd (
            n.not_authorization
              ((==_iff (to_lower name) (to_lower header_authorization)).0 e ∙ authorization_folded))
      ] in
    ground (arith, n.nonempty, ==_iff name [], loop-of-All name n.token)

-- A name is accepted exactly if it is non-empty, has only the token characters of RFC 7230, and is
-- neither Authorization nor a name that begins with Impersonate-, in any letter case, and it is then
-- returned in lower case.
pub validate_groups_header_iff :
    (name lower : Text)
    → (validate_groups_header name ≡ ok lower) ↔ (IsGroupsHeader name × (lower ≡ to_lower name))
validate_groups_header_iff name lower = (
  λ h. (IsGroupsHeader-of-accepted name lower h, lower-of-accepted name lower h),
  λ (n, e). accepted-of-IsGroupsHeader name n ∙ ap ok (sym e),
)

lower_char-test : (c : ℕ) → is_header_token_char (lower_char c) ≡ is_header_token_char c
unfolding is_header_token_char is_extra_key_char lower_char some_of
lower_char-test c = ground arith

loop-to_lower :
    (name : Text)
    → some_of (λ r. not (is_header_token_char r)) (to_lower name)
      ≡ some_of (λ r. not (is_header_token_char r)) name
unfolding some_of to_lower
loop-to_lower [] = refl
loop-to_lower (c ∷ name) = ground (arith, lower_char-test c, loop-to_lower name)

nonempty-folded : (a b : Text) → to_lower a ≡ to_lower b → a ≢ [] → b ≢ []
unfolding to_lower
nonempty-folded [] b e n h = n refl
nonempty-folded (c ∷ a) b e n h = ground (arith, e, h)

IsGroupsHeader-folded : (a b : Text) → to_lower a ≡ to_lower b → IsGroupsHeader a → IsGroupsHeader b
IsGroupsHeader-folded a b e n = record {
  nonempty = nonempty-folded a b e n.nonempty;
  token = All-of-loop b (
      sym (loop-to_lower b)
      ∙ ap (some_of (λ r. not (is_header_token_char r))) (sym e)
      ∙ loop-to_lower a
      ∙ loop-of-All a n.token);
  not_authorization = λ q. n.not_authorization (e ∙ q);
  not_impersonation = λ rest q. n.not_impersonation rest (e ∙ q);
}

-- Names that differ in the case of ASCII letters only are accepted alike, and as the same name,
-- which is in lower case.
pub validate_groups_header-folded :
    (a b lower : Text)
    → equal_fold a b ≡ true
    → validate_groups_header a ≡ ok lower
    → (validate_groups_header b ≡ ok lower) × (to_lower lower ≡ lower)
unfolding equal_fold
validate_groups_header-folded a b lower e h =
    let same = (==_iff (to_lower a) (to_lower b)).0 e in
    let q = lower-of-accepted a lower h in
    let n = IsGroupsHeader-folded a b same (IsGroupsHeader-of-accepted a lower h) in
    (accepted-of-IsGroupsHeader b n ∙ ap ok (sym (q ∙ same)), rw q (to_lower_idem a))
