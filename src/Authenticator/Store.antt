-- ===== src/Authenticator/Store.antt =====
-- internal/authenticator/store.go: the registry of ready Backends by host. A value of `Store` is
-- the state between two critical sections of its mutex, and each operation is one section.
mod Maps
pub mod Settled
pub mod Coherent
pub mod Ownership
pub mod Converge
use holos_substrate.Base.{
  ℕ, Bool, true, false, not, ◌&&◌, Option, none, some, List, [], ◌∷◌, length, if◌then◌else◌,
}
use holos_substrate.Base.Text.{Text, ◌==◌}
use holos_substrate.Base.Order.{precedes}
use holos_substrate.Base.Dict.{Dict, lookup, insert, erase}
use holos_substrate.Authenticator.Entry.{Entry}

pub record Store : Type 0 where
  pub entries : Dict Entry
  pub owner_by_host : Dict Text
  pub host_by_key : Dict Text

abbrev pub new_store : Store
new_store = record { entries = []; owner_by_host = []; host_by_key = [] }

-- `s.ownerByHost[host] == key`: a missing host reads as the empty key.
abbrev pub owns : Text → Option Text → Bool
owns key none = [] == key
owns key (some owner) = owner == key

drop_host : Text → Store → Store
drop_host host s = record s {
  entries = erase host s.entries;
  owner_by_host = erase host s.owner_by_host;
}

-- The host entry goes if the key still owns it, and the key's own row in any case.
unfoldable pub forget : Text → Text → Store → Store
unfolding drop_host
forget key host s =
    let kept = if owns key (lookup host s.owner_by_host) then drop_host host s else s in
    record kept { host_by_key = erase key s.host_by_key }

-- The first step of `Set`: the key leaves the host that it claimed before, if that is another.
unfoldable pub release : Text → Text → Store → Store
unfolding forget
release key host s = elim (lookup key s.host_by_key) [
  | none ↦ s
  | some prev ↦ if prev == host then s else forget key prev s
]

-- Another key that sorts before this one owns the host.
abbrev pub outranked : Text → Option Text → Bool
outranked key none = false
outranked key (some owner) = not (owner == key) && precedes owner key

pub take_over : Text → Entry → Store → Store
take_over key entry s = record {
  entries = insert entry.host entry s.entries;
  owner_by_host = insert entry.host key s.owner_by_host;
  host_by_key = insert key entry.host s.host_by_key;
}

-- The second step of `Set`: the host is taken unless a smaller key owns it.
unfoldable pub claim : Text → Entry → Store → Store × Bool
unfolding take_over
claim key entry s =
    if outranked key (lookup entry.host s.owner_by_host)
    then (s, false)
    else (take_over key entry s, true)

-- `Set`.
unfoldable pub set : Text → Entry → Store → Store × Bool
unfolding release claim
set key entry s = claim key entry (release key entry.host s)

unfoldable pub get : Text → Store → Option Entry
get host s = lookup host s.entries

unfoldable pub owner : Text → Store → Option Text
owner host s = lookup host s.owner_by_host

unfoldable pub delete_by_key : Text → Store → Store
unfolding forget
delete_by_key key s = elim (lookup key s.host_by_key) [ none ↦ s | some host ↦ forget key host s ]

unfoldable pub len : Store → ℕ
len s = length s.entries
