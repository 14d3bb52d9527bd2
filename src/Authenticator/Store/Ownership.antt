-- ===== src/Authenticator/Store/Ownership.antt =====
-- The effect of `Set` and `DeleteByKey` on every host at once.
use holos_substrate.Base.{
  ◌≡◌, refl, Bool, true, false, not, ◌&&◌, Option, none, some, arith, if◌then◌else◌, Option-cases,
  Bool-cases, inl, inr,
}
use holos_substrate.Base.Text.{Text, ◌==◌, ==_iff, ==-self}
use holos_substrate.Base.Dict.{lookup}
use holos_substrate.Authenticator.Entry.{Entry}
use holos_substrate.Authenticator.Store.{
  Store, forget, outranked, claim, release, set, get, owner, delete_by_key,
}
use holos_substrate.Authenticator.Store.Maps.{
  entries-forget, owner-forget, entries-take_over, owner-take_over,
}
use holos_substrate.Authenticator.Store.Coherent.{IsCoherent}

-- The key is the registered owner.
abbrev pub held_by : Text → Option Text → Bool
held_by key none = false
held_by key (some k) = k == key

module _ (key host : Text) (s : Store) (c : IsCoherent s) (h : Text) where
  get-forget :
      lookup key s.host_by_key ≡ some host
      → get h (forget key host s) ≡ (if held_by key (owner h s) then none else get h s)
  unfolding get owner
  get-forget at = elim (Option-cases (lookup h s.owner_by_host)) [
    | inl free ↦
        ground (arith, entries-forget key host s h, c.owned h, Option-cases (lookup h s.entries))
    | inr (k, e) ↦
        ground (arith, entries-forget key host s h, c.rows h k, ==_iff k key, ==_iff host h, e)
  ]

  owner-forget_all :
      lookup key s.host_by_key ≡ some host
      → owner h (forget key host s) ≡ (if held_by key (owner h s) then none else owner h s)
  unfolding owner
  owner-forget_all at = elim (Option-cases (lookup h s.owner_by_host)) [
    | inl free ↦ ground (arith, owner-forget key host s h)
    | inr (k, e) ↦
        ground (arith, owner-forget key host s h, c.rows h k, ==_iff k key, ==_iff host h, e)
  ]

  -- A key with no row owns nothing.
  not_held : lookup key s.host_by_key ≡ none → held_by key (owner h s) ≡ false
  unfolding owner
  not_held absent = elim (Option-cases (lookup h s.owner_by_host)) [
    | inl free ↦ ground arith
    | inr (k, e) ↦ ground (arith, c.rows h k, ==_iff k key, e)
  ]

row-of-held :
    (key : Text) (s : Store)
    → IsCoherent s
    → (h host : Text) → lookup key s.host_by_key ≡ some host
    → held_by key (owner h s) ≡ true
    → h ≡ host
unfolding owner
row-of-held key s c h host at held = elim (Option-cases (lookup h s.owner_by_host)) [
  | inl free ↦ absurd (ground (arith, free))
  | inr (k, e) ↦ ground (arith, c.rows h k, ==_iff k key, e)
]

-- `DeleteByKey` stops serving exactly the hosts that the key owns: every other host keeps its
-- entry and its owner, and a key with no registration changes nothing that is served.
pub delete_by_key-effect :
    (key : Text) (s : Store)
    → IsCoherent s
    → (h : Text)
    → (get h (delete_by_key key s) ≡ (if held_by key (owner h s) then none else get h s))
      × (owner h (delete_by_key key s) ≡ (if held_by key (owner h s) then none else owner h s))
unfolding delete_by_key
delete_by_key-effect key s c h = elim (Option-cases (lookup key s.host_by_key)) [
  | inl absent ↦ rw (absent, delete_by_key) (rw (not_held key key s c h absent) (refl, refl))
  | inr (host, at) ↦
      rw (at, delete_by_key) (get-forget key host s c h at, owner-forget_all key host s c h at)
]

-- After the first step of `Set` the key owns no host but the new one, and nothing else moved.
module _ (key host : Text) (s : Store) (c : IsCoherent s) (h : Text) where
  leaves : Bool
  leaves = not (host == h) && held_by key (owner h s)

  release-effect :
      (get h (release key host s) ≡ (if leaves then none else get h s))
      × (owner h (release key host s) ≡ (if leaves then none else owner h s))
  unfolding release leaves
  release-effect = elim (Option-cases (lookup key s.host_by_key)) [
    | inl absent ↦ rw (absent, release) (ground (arith, not_held key key s c h absent))
    | inr (prev, at) ↦ elim (Bool-cases (prev == host)) [
      | inl same ↦
          rw (at, release)
            (rw same
              (ground (arith, row-of-held key s c h prev at, ==_iff prev host, ==_iff host h)))
      | inr moved ↦
          rw (at, release)
            (rw moved (
              ground (
                arith,
                get-forget key prev s c h at,
                owner-forget_all key prev s c h at,
                row-of-held key s c h prev at,
                ==_iff prev host,
                ==_iff host h,
              )))
    ]
  ]

module _ (key : Text) (entry : Entry) (s : Store) (h : Text) where
  claim-effect :
      ((claim key entry s).1 ≡ not (outranked key (owner entry.host s)))
      × (get h (claim key entry s).0 ≡ (
          if entry.host == h
          then (if outranked key (owner entry.host s) then get h s else some entry)
          else get h s))
      × (owner h (claim key entry s).0 ≡ (
          if entry.host == h
          then (if outranked key (owner entry.host s) then owner h s else some key)
          else owner h s))
  unfolding claim get owner
  claim-effect = ground (arith, entries-take_over key entry s h, owner-take_over key entry s h)

-- `Set` on every host at once. It reports success exactly unless another key that sorts before
-- this one owns the entry's host. The entry's host gets the entry and this owner on success and
-- keeps what it had otherwise. In both cases every other host that the key owned is released, and
-- no host of another key changes.
pub set-effect :
    (key : Text) (entry : Entry) (s : Store)
    → IsCoherent s
    → (h : Text)
    → let lost = outranked key (owner entry.host s) in
      ((set key entry s).1 ≡ not lost)
      × (get h (set key entry s).0 ≡ (
          if entry.host == h
          then (if lost then get h s else some entry)
          else if held_by key (owner h s)
          then none
          else get h s))
      × (owner h (set key entry s).0 ≡ (
          if entry.host == h
          then (if lost then owner h s else some key)
          else if held_by key (owner h s)
          then none
          else owner h s))
unfolding set leaves
set-effect key entry s c h =
    let released = release key entry.host s in
    let same = release-effect key entry.host s c entry.host in
    let there = release-effect key entry.host s c h in
    ground (arith, claim-effect key entry released h, same, there, ==-self entry.host)
