-- ===== src/Authenticator/Backend/Effect.antt =====
-- What a reconciliation does to the hosts that the store serves.
use holos_substrate.Base.{
  ◌≡◌, refl, sym, Bool, subst, true, false, none, some, Result, ok, err, if◌then◌else◌,
}
use holos_substrate.Base.Text.{Text, ◌==◌}
use holos_substrate.Authenticator.Entry.{Entry}
use holos_substrate.Authenticator.Store.{Store, get, owner, set, delete_by_key, outranked}
use holos_substrate.Authenticator.Store.Coherent.{
  IsCoherent, set-IsCoherent, delete_by_key-IsCoherent,
}
use holos_substrate.Authenticator.Store.Ownership.{held_by, set-effect, delete_by_key-effect}
use holos_substrate.Authenticator.Credentials.{ApiError}
use holos_substrate.Authenticator.Backend.{World, Backend, object_key, reconcile, reconcile_normal}
use holos_substrate.Authenticator.Backend.Registration.{
  IsEntryOf, dropped, claimed, reconcile_normal-Ending, start, store-reconcile,
}

-- A Backend that is not to be served: there is none, it is being deleted, or no entry can be built
-- from its spec.
pub data IsUnservable (world : World) : Result ApiError Backend → Type 0 where
  absent : IsUnservable world (err ApiError.not_found)
  deleted : (b : Backend) → b.deleting ≡ true → IsUnservable world (ok b)
  invalid : (b : Backend) → ((e : Entry) → ¬ IsEntryOf world b.spec e) → IsUnservable world (ok b)

-- The hosts of the key are served no more, and no other host changes.
pub record IsWithdrawn (key : Text) (s after : Store) (h : Text) : Type 0 where
  pub entry : get h after ≡ (if held_by key (owner h s) then none else get h s)
  pub owned : owner h after ≡ (if held_by key (owner h s) then none else owner h s)

-- The key serves the entry at its host, unless another key that sorts before it owns that host. Its
-- other hosts are served no more, and no other host changes.
pub record IsClaimed (key : Text) (e : Entry) (s after : Store) (h : Text) : Type 0 where
  pub entry : get h after ≡ (
      if e.host == h
      then (if outranked key (owner e.host s) then get h s else some e)
      else if held_by key (owner h s)
      then none
      else get h s)
  pub owned : owner h after ≡ (
      if e.host == h
      then (if outranked key (owner e.host s) then owner h s else some key)
      else if held_by key (owner h s)
      then none
      else owner h s)

-- What a reconciliation of this key has done, by what it found.
pub data Effect (world : World) (key : Text) (found : Result ApiError Backend) (s after : Store)
    : Type 0 where
  untouched :
      (e : Text) → found ≡ err (ApiError.transient e) → after ≡ s → Effect world key found s after
  withdrawn :
      IsUnservable world found
      → ((h : Text) → IsWithdrawn key s after h)
      → Effect world key found s after
  served :
      (b : Backend) (e : Entry)
      → found ≡ ok b
      → b.deleting ≡ false
      → IsEntryOf world b.spec e
      → ((h : Text) → IsClaimed key e s after h)
      → Effect world key found s after

delete_by_key-IsWithdrawn :
    (key : Text) (s : Store) → IsCoherent s → (h : Text) → IsWithdrawn key s (delete_by_key key s) h
delete_by_key-IsWithdrawn key s c h =
    let (a, b) = delete_by_key-effect key s c h in record { entry = a; owned = b }

set-IsClaimed :
    (key : Text) (e : Entry) (s : Store)
    → IsCoherent s
    → (h : Text) → IsClaimed key e s (set key e s).0 h
set-IsClaimed key e s c h =
    let (_, a, b) = set-effect key e s c h in record { entry = a; owned = b }

-- The effect, and that the indexes still agree.
abbrev Settled : (world : World) → Text → Result ApiError Backend → Store → Store → Type 0
Settled world key found s after = Effect world key found s after × IsCoherent after

Settled-withdrawn :
    (world : World) (key : Text) (found : Result ApiError Backend) (s : Store)
    → IsCoherent s
    → IsUnservable world found
    → Settled world key found s (delete_by_key key s)
Settled-withdrawn world key found s c u =
    (withdrawn u (delete_by_key-IsWithdrawn key s c), delete_by_key-IsCoherent key s c)

Settled-normal :
    (world : World) (b : Backend) (s : Store)
    → IsCoherent s
    → b.deleting ≡ false
    → Settled world
        (object_key b.namespace b.name)
        (ok b)
        s
        (reconcile_normal world (start b s)).1.store
Settled-normal world b s c live =
    let key = object_key b.namespace b.name in
    elim (reconcile_normal-Ending world (start b s)) [
      | dropped n q ↦
          subst (Settled world key (ok b) s) (sym q)
            (Settled-withdrawn world key (ok b) s c (invalid b n))
      | claimed e i q ↦
          subst (Settled world key (ok b) s) (sym q)
            (served b e refl live i (set-IsClaimed key e s c), set-IsCoherent key e s c)
    ]

either_branch :
    (P : Store → Type 0) (t : Bool) (x y : Store)
    → (t ≡ true → P x)
    → (t ≡ false → P y)
    → P (if t then x else y)
either_branch P true x y p q = p refl
either_branch P false x y p q = q refl

-- The reconciliation of a Backend, as a function of what the read of it found: after an error of
-- the read the store is as it was; if the Backend is gone, is being deleted or has a spec of which
-- no entry can be built, its hosts are served no more; else its entry is registered under its key,
-- by the rules of `Set`. No other host changes, and the store's indexes still agree. The Backend
-- that the read returns has the namespace and the name that were asked for.
pub reconcile-Effect :
    (world : World) (namespace name : Text) (found : Result ApiError Backend) (s : Store)
    → IsCoherent s
    → ((b : Backend) → found ≡ ok b → (b.namespace ≡ namespace) × (b.name ≡ name))
    → Effect world
        (object_key namespace name)
        found
        s
        (reconcile world namespace name found s).store
      × IsCoherent (reconcile world namespace name found s).store
unfolding reconcile
reconcile-Effect world namespace name (err ApiError.not_found) s c asked =
    Settled-withdrawn world (object_key namespace name) _ s c absent
reconcile-Effect world namespace name (err (ApiError.transient e)) s c asked =
    (untouched e refl refl, c)
reconcile-Effect world namespace name (ok b) s c asked =
    let key = object_key namespace name in
    let (n, m) = asked b refl in
    let here : object_key b.namespace b.name ≡ key = rw n (rw m refl) in
    subst (Settled world key (ok b) s) (sym (store-reconcile world namespace name b s)) (
      either_branch (Settled world key (ok b) s) b.deleting _ _
        (λ e. Settled-withdrawn world key (ok b) s c (deleted b e))
        (λ e.
          subst
            (λ (k : Text). Settled world k (ok b) s (reconcile_normal world (start b s)).1.store)
            here (Settled-normal world b s c e)))
