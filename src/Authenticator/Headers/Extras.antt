-- ===== src/Authenticator/Headers/Extras.antt =====
-- The order in which the extra headers are emitted does not depend on the map's iteration order.
use holos_substrate.Base.{◌≡◌, refl, ap, ◌∙◌, false, List, [], ◌∷◌, arith}
use holos_substrate.Base.Text.{Text, ◌==◌, ==_iff}
use holos_substrate.Base.Dict.{Dict, lookup, keys}
use holos_substrate.Base.Order.{
  insert_string, sort_strings, precedes_irrefl, precedes_trans, precedes_total,
}
use holos_substrate.Authenticator.Headers.{sorted_extra_keys}

-- The same pairs in another order. The keys of a map are distinct.
pub data Reordered : Dict Text → Dict Text → Type 0 where
  same : {d : Dict Text} → Reordered d d
  keep : (k v : Text) {d e : Dict Text} → Reordered d e → Reordered ((k, v) ∷ d) ((k, v) ∷ e)
  exchange :
      (j v k w : Text) {d : Dict Text}
      → (j == k) ≡ false
      → Reordered ((j, v) ∷ (k, w) ∷ d) ((k, w) ∷ (j, v) ∷ d)
  chain : {d e f : Dict Text} → Reordered d e → Reordered e f → Reordered d f

insert_string-insert_string :
    (j k : Text) (ks : List Text)
    → insert_string j (insert_string k ks) ≡ insert_string k (insert_string j ks)
unfolding insert_string
insert_string-insert_string j k [] =
    ground (arith, precedes_total j k, precedes_trans j k j, precedes_irrefl j)
insert_string-insert_string j k (i ∷ ks) = ground (
  arith,
  insert_string-insert_string j k ks,
  precedes_total j k,
  precedes_total i j,
  precedes_total i k,
  precedes_trans j k j,
  precedes_trans i j k,
  precedes_trans i k j,
  precedes_irrefl j,
  precedes_irrefl k,
)

sort_strings-Reordered :
    (d e : Dict Text) → Reordered d e → sort_strings (keys d) ≡ sort_strings (keys e)
unfolding sort_strings keys
sort_strings-Reordered d _ same = refl
sort_strings-Reordered _ _ (keep k v {d = d} {e = e} r) =
    ap (insert_string k) (sort_strings-Reordered d e r)
sort_strings-Reordered _ _ (exchange j v k w {d = d} _) =
    insert_string-insert_string j k (sort_strings (keys d))
sort_strings-Reordered d f (chain {e = e} r q) =
    sort_strings-Reordered d e r ∙ sort_strings-Reordered e f q

pub sorted_extra_keys-Reordered :
    (d e : Dict Text) → Reordered d e → sorted_extra_keys d ≡ sorted_extra_keys e
unfolding sorted_extra_keys
sorted_extra_keys-Reordered = sort_strings-Reordered

pub lookup-Reordered : (i : Text) (d e : Dict Text) → Reordered d e → lookup i d ≡ lookup i e
unfolding lookup
lookup-Reordered i d _ same = refl
lookup-Reordered i _ _ (keep k v {d = d} {e = e} r) = ground (arith, lookup-Reordered i d e r)
lookup-Reordered i _ _ (exchange j v k w {d = d} n) =
    ground (arith, n, ==_iff j i, ==_iff k i, ==_iff j k)
lookup-Reordered i d f (chain {e = e} r q) = lookup-Reordered i d e r ∙ lookup-Reordered i e f q
