-- ===== src/Authenticator/Mapping.antt =====
-- internal/authenticator/mapping.go: the group mapping of a Backend. The CEL library is the
-- parameter `Cel`.
pub mod Strings
use holos_substrate.Base.{
  ℕ, zero, suc, Bool, true, false, ◌||◌, Option, none, some, List, [], ◌∷◌, ◌++◌, Result, ok, err,
  ◌>>=◌, map_err, if◌then◌else◌,
}
use holos_substrate.Base.Text.{Text, text, ◌==◌, contains}
use holos_substrate.Authenticator.Claims.{Claims}

-- A CEL value by what its `Value()` returns: `nil_val` is a nil element, `slice` a `[]ref.Val`,
-- `lister` a `traits.Lister` with its size, if that is an integer, and its `Get`.
mutual
  pub data RefVal : Type 0 where
    nil_val : RefVal
    string_val : Text → RefVal
    slice : RefVals → RefVal
    lister : Option ℕ → (ℕ → RefVal) → RefVal
    other_val : RefVal

  pub data RefVals : Type 0 where
    end : RefVals
    elem : RefVal → RefVals → RefVals

-- `types.Kind`, as far as it is told apart.
pub data Kind : Type 0 where
  dyn_kind list_kind string_kind : Kind
  other_kind : Text → Kind

-- `cel.Type`: its kind, and the kinds of its parameters.
pub record CelType : Type 0 where
  pub kind : Kind
  pub parameters : List Kind

abbrev pub Program : Type 0
Program = Claims → Result Text RefVal

-- The calls of the CEL library. An error is its message.
pub record Cel : Type 1 where
  pub Ast : Type 0
  pub new_env : Result Text (Unit {0})
  pub compile : Text → Result Text Ast
  pub output_type : Ast → Option CelType
  pub program : Ast → Result Text Program

pub record GroupMapper : Type 0 where
  pub expression : Text
  pub program : Program

pub data MapperError : Type 0 where
  empty_expression : MapperError
  environment : Text → MapperError
  compiling : Text → Text → MapperError
  not_a_string_list : Text → MapperError
  building : Text → Text → MapperError

abbrev string_or_dyn : Kind → Bool
string_or_dyn string_kind = true
string_or_dyn dyn_kind = true
string_or_dyn _ = false

abbrev list_of : List Kind → Bool
list_of [] = true
list_of (k ∷ ks) = string_or_dyn k

abbrev listable : Kind → List Kind → Bool
listable dyn_kind ps = true
listable list_kind ps = list_of ps
listable _ ps = false

unfoldable pub is_string_list_type : Option CelType → Bool
is_string_list_type none = false
is_string_list_type (some t) = listable t.kind t.parameters

module _ (cel : Cel) where
  build : Text → cel.Ast → Result MapperError GroupMapper
  unfolding map_err
  build expr ast = do
    program ← map_err (building expr) (cel.program ast)
    ok (record { expression = expr; program = program })

  unfoldable pub new_group_mapper : Text → Result MapperError GroupMapper
  unfolding is_string_list_type build map_err ◌==◌
  new_group_mapper expr = if expr == [] then err empty_expression else do
    env ← map_err environment cel.new_env
    ast ← map_err (compiling expr) (cel.compile expr)
    if is_string_list_type (cel.output_type ast)
        then build expr ast
        else err (not_a_string_list expr)

pub data GroupsError : Type 0 where
  evaluating : Text → Text → GroupsError
  not_a_list : GroupsError
  no_size : GroupsError
  nil_element : GroupsError
  not_a_string_element : GroupsError

unfoldable pub element_to_string : RefVal → Result GroupsError Text
element_to_string nil_val = err nil_element
element_to_string (string_val s) = ok s
element_to_string _ = err not_a_string_element

slice_strings : RefVals → Result GroupsError (List Text)
unfolding element_to_string
slice_strings end = ok []
slice_strings (elem v vs) = do s ← element_to_string v; rest ← slice_strings vs; ok (s ∷ rest)

-- The elements from index `i` on, of which `n` are left.
lister_strings : ℕ → ℕ → (ℕ → RefVal) → Result GroupsError (List Text)
unfolding element_to_string
lister_strings zero i get = ok []
lister_strings (suc n) i get = do
  s ← element_to_string (get i)
  rest ← lister_strings n (suc i) get
  ok (s ∷ rest)

unfoldable pub lister_to_string_slice : RefVal → Result GroupsError (List Text)
unfolding lister_strings
lister_to_string_slice (lister (some size) get) = lister_strings size 0 get
lister_to_string_slice (lister none get) = err no_size
lister_to_string_slice _ = err not_a_list

unfoldable pub ref_val_to_string_slice : RefVal → Result GroupsError (List Text)
unfolding slice_strings lister_to_string_slice
ref_val_to_string_slice (slice vs) = slice_strings vs
ref_val_to_string_slice v = lister_to_string_slice v

unfoldable pub is_missing_key_err : Text → Bool
unfolding contains
is_missing_key_err msg =
    contains msg (text "no such key")
    || (contains msg (text "no such field") || contains msg (text "no such attribute"))

unfoldable pub groups : GroupMapper → Claims → Result GroupsError (List Text)
unfolding ref_val_to_string_slice is_missing_key_err
groups m claims = elim (m.program claims) [
  | err e ↦ if is_missing_key_err e then ok [] else err (evaluating m.expression e)
  | ok out ↦ ref_val_to_string_slice out
]

-- `quote` is the verb `%q` of `fmt`.
unfoldable pub default_group_expression : (Text → Text) → Text → Text → Text
unfolding ◌==◌
default_group_expression quote groups_claim groups_prefix =
    let claim = if groups_claim == [] then text "groups" else groups_claim in
    let index = text "claims[" ++ (quote claim ++ text "]") in
    if groups_prefix == []
    then index
    else index ++ (text ".map(g, " ++ (quote groups_prefix ++ text " + g)"))
