-- ===== src/Authenticator/Store/Coherent.antt =====
-- The three maps of a Store agree, whatever is done to it.
use holos_substrate.Base.{◌≡◌, ◌≢◌, refl, none, some, arith, Option-cases, Bool-cases, inl, inr}
use holos_substrate.Base.Text.{Text, ◌==◌, ==_iff, ==-self}
use holos_substrate.Base.Dict.{lookup}
use holos_substrate.Authenticator.Entry.{Entry}
use holos_substrate.Authenticator.Store.{
  Store, new_store, forget, take_over, outranked, claim, release, set, delete_by_key,
}
use holos_substrate.Authenticator.Store.Maps.{
  entries-forget, owner-forget, host-forget, entries-take_over, owner-take_over, host-take_over,
}

-- A host has an entry exactly if it has an owner; the entry is one for that host; and the owner's
-- own row names the host.
pub record IsCoherent (s : Store) : Type 0 where
  pub placed : (h : Text) (e : Entry) → lookup h s.entries ≡ some e → e.host ≡ h
  pub owned : (h : Text) → lookup h s.entries ≢ none → lookup h s.owner_by_host ≢ none
  pub entered : (h : Text) → lookup h s.owner_by_host ≢ none → lookup h s.entries ≢ none
  pub rows : (h k : Text) → lookup h s.owner_by_host ≡ some k → lookup k s.host_by_key ≡ some h

pub new_store-IsCoherent : IsCoherent new_store
unfolding lookup
new_store-IsCoherent = record {
  placed = λ h e q. cc;
  owned = λ h q. absurd (q refl);
  entered = λ h q. absurd (q refl);
  rows = λ h k q. cc;
}

module _ (key host : Text) (s : Store) where
  pub forget-IsCoherent :
      lookup key s.host_by_key ≡ some host → IsCoherent s → IsCoherent (forget key host s)
  forget-IsCoherent at c = record {
    placed = λ h e q. ground (arith, entries-forget key host s h, c.placed h e);
    owned =
        λ h q. ground (arith, entries-forget key host s h, owner-forget key host s h, c.owned h);
    entered =
        λ h q. ground (arith, entries-forget key host s h, owner-forget key host s h, c.entered h);
    rows = λ h k q. ground (
      arith,
      owner-forget key host s h,
      host-forget key host s k,
      c.rows h k,
      ==_iff key k,
      ==_iff host h,
      ==_iff k key,
    );
  }

module _ (key : Text) (entry : Entry) (s : Store) where
  -- The key's old row, if any, names the new host or a host that the key does not own.
  pub take_over-IsCoherent :
      ((h : Text) → lookup h s.owner_by_host ≡ some key → h ≡ entry.host)
      → IsCoherent s
      → IsCoherent (take_over key entry s)
  take_over-IsCoherent moved c = record {
    placed =
        λ h e q. ground (arith, entries-take_over key entry s h, c.placed h e, ==_iff entry.host h);
    owned = λ h q.
        ground (arith, entries-take_over key entry s h, owner-take_over key entry s h, c.owned h);
    entered = λ h q.
        ground (arith, entries-take_over key entry s h, owner-take_over key entry s h, c.entered h);
    rows = λ h k q. ground (
      arith,
      owner-take_over key entry s h,
      host-take_over key entry s k,
      c.rows h k,
      moved h,
      ==_iff entry.host h,
      ==_iff key k,
    );
  }

module _ (key host : Text) (s : Store) where
  pub release-IsCoherent : IsCoherent s → IsCoherent (release key host s)
  unfolding release
  release-IsCoherent c = elim (Option-cases (lookup key s.host_by_key)) [
    | inl none_yet ↦ rw (none_yet, release) c
    | inr (prev, at) ↦ elim (Bool-cases (prev == host)) [
      | inl same ↦ rw (at, release) (rw same c)
      | inr moved ↦ rw (at, release) (rw moved (forget-IsCoherent key prev s at c))
    ]
  ]

  -- After the first step the key owns no host but the new one.
  release-moved :
      IsCoherent s → (h : Text) → lookup h (release key host s).owner_by_host ≡ some key → h ≡ host
  unfolding release
  release-moved c h q = elim (Option-cases (lookup key s.host_by_key)) [
    | inl absent ↦ absurd (ground (arith, c.rows h key (rw (absent, release) at q), absent))
    | inr (prev, at) ↦ elim (Bool-cases (prev == host)) [
      | inl same ↦
          ground (arith, ==_iff prev host, at, c.rows h key (rw same at (rw (at, release) at q)))
      | inr moved ↦ absurd (
          ground (
            arith,
            host-forget key prev s key,
            ==-self key,
            (forget-IsCoherent key prev s at c).rows h key (rw moved at (rw (at, release) at q)),
          ))
    ]
  ]

claim-IsCoherent :
    (key : Text) (entry : Entry) (s : Store)
    → ((h : Text) → lookup h s.owner_by_host ≡ some key → h ≡ entry.host)
    → IsCoherent s
    → IsCoherent (claim key entry s).0
unfolding claim
claim-IsCoherent key entry s moved c =
    elim (Bool-cases (outranked key (lookup entry.host s.owner_by_host))) [
      | inl lost ↦ rw lost c
      | inr won ↦ rw won (take_over-IsCoherent key entry s moved c)
    ]

-- `Set` keeps the three maps in agreement, whether the key wins or loses the host.
pub set-IsCoherent :
    (key : Text) (entry : Entry) (s : Store) → IsCoherent s → IsCoherent (set key entry s).0
unfolding set
set-IsCoherent key entry s c =
    claim-IsCoherent key entry (release key entry.host s) (release-moved key entry.host s c)
      (release-IsCoherent key entry.host s c)

-- `DeleteByKey` keeps them in agreement, also for a key that is not registered.
pub delete_by_key-IsCoherent :
    (key : Text) (s : Store) → IsCoherent s → IsCoherent (delete_by_key key s)
unfolding delete_by_key
delete_by_key-IsCoherent key s c = elim (Option-cases (lookup key s.host_by_key)) [
  | inl absent ↦ rw (absent, delete_by_key) c
  | inr (host, at) ↦ rw (at, delete_by_key) (forget-IsCoherent key host s at c)
]
