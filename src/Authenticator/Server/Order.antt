-- ===== src/Authenticator/Server/Order.antt =====
-- Go iterates over a map in any order; the response does not show it.
use holos_substrate.Base.{◌≡◌, refl, ap, ◌∙◌, List, [], ◌∷◌, ◌++◌, arith}
use holos_substrate.Base.Text.{Text}
use holos_substrate.Base.Dict.{Dict}
use holos_substrate.Authenticator.Headers.{sorted_extra_keys}
use holos_substrate.Authenticator.Headers.Extras.{
  Reordered, lookup-Reordered, sorted_extra_keys-Reordered,
}
use holos_substrate.Authenticator.Server.{HeaderValueOption, extra_headers, append_extra_headers}

extra_headers-Reordered :
    (d e : Dict Text) (ks : List Text) → Reordered d e → extra_headers d ks ≡ extra_headers e ks
unfolding extra_headers
extra_headers-Reordered d e [] r = refl
extra_headers-Reordered d e (k ∷ ks) r =
    ground (arith, lookup-Reordered k d e r, extra_headers-Reordered d e ks r)

-- The extra headers and their order are the same for every order in which the map of extras may be
-- walked.
pub append_extra_headers-Reordered :
    (out : List HeaderValueOption) (d e : Dict Text)
    → Reordered d e
    → append_extra_headers out d ≡ append_extra_headers out e
unfolding append_extra_headers
append_extra_headers-Reordered out d e r =
    ap (λ hs. out ++ hs)
      (extra_headers-Reordered d e (sorted_extra_keys d) r
        ∙ ap (extra_headers e) (sorted_extra_keys-Reordered d e r))
