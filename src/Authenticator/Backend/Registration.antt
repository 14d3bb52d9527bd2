-- ===== src/Authenticator/Backend/Registration.antt =====
-- What a reconciliation leaves in the store, and when a Backend is reported as ready.
use holos_substrate.Base.{
  ◌≡◌, ◌≢◌, inl, inr, refl, sym, ap, subst, ◌∙◌, Bool, true, false, some, [], arith, Result, ok,
  err, if◌then◌else◌, Result-cases, Option-cases,
}
use holos_substrate.Base.Text.{Text, ==_iff}
use holos_substrate.Authenticator.Entry.{Entry}
use holos_substrate.Authenticator.Mapping.{GroupMapper}
use holos_substrate.Authenticator.Identity.{TokenVerifier}
use holos_substrate.Authenticator.Store.{Store, get, owner, set, delete_by_key, outranked}
use holos_substrate.Authenticator.Store.Coherent.{IsCoherent}
use holos_substrate.Authenticator.Store.Ownership.{set-effect, delete_by_key-effect}
use holos_substrate.Authenticator.Backend.{
  World, Run, Outcome, Reason, Backend, BackendSpec, object_key, entry_of, set_condition,
  mark_ready, mark_accepted, mark_not_ready, mark_rejected, update_status, settle, succeed, reject,
  after_not_ready, fail, drop, check_spec, verifier_of, invalid_jwks, no_discovery, reconciled,
  registered, register, program, reconcile_normal, reconcile, Reconciled, on_backend, on_store,
}

-- Same store, and the same object but for its status.
record Keeps (r r' : Run) : Type 0 where
  store : r'.store ≡ r.store
  spec : r'.backend.spec ≡ r.backend.spec
  namespace : r'.backend.namespace ≡ r.backend.namespace
  name : r'.backend.name ≡ r.backend.name

module _ (world : World) (reason : Reason) (message : Text) (r : Run) where
  mark_accepted-Keeps : Keeps r (mark_accepted world reason message r).1
  unfolding mark_accepted set_condition on_backend
  mark_accepted-Keeps = record { store = refl; spec = refl; namespace = refl; name = refl }

  reject-store : (reject world reason message r).1.store ≡ r.store
  unfolding reject settle mark_rejected set_condition on_backend update_status
  reject-store = ground arith

  fail-store : (fail world reason message r).1.store ≡ r.store
  unfolding fail after_not_ready mark_not_ready set_condition on_backend update_status
  fail-store = ground arith

succeed-store : (world : World) (r : Run) → (succeed world r).1.store ≡ r.store
unfolding succeed settle mark_ready set_condition on_backend update_status
succeed-store world r = ground arith

-- The entry that a valid spec stands for.
pub record IsEntryOf (world : World) (spec : BackendSpec) (e : Entry) : Type 0 where
  pub mapper : GroupMapper
  pub separator : Text
  pub verifier : TokenVerifier
  pub valid : check_spec world spec ≡ ok (mapper, separator)
  pub verified : verifier_of world spec.oidc ≡ ok verifier
  pub built : e ≡ entry_of spec verifier mapper separator

abbrev pub key_of : Run → Text
key_of r = object_key r.backend.namespace r.backend.name

-- The two ways in which a reconciliation of an existing Backend ends.
pub data Ending (world : World) (r : Run) (out : Outcome) : Type 0 where
  dropped :
      ((e : Entry) → ¬ IsEntryOf world r.backend.spec e)
      → out.1.store ≡ delete_by_key (key_of r) r.store
      → Ending world r out
  claimed :
      (e : Entry)
      → IsEntryOf world r.backend.spec e
      → out.1.store ≡ (set (key_of r) e r.store).0
      → Ending world r out

registered-store :
    (world : World) (won : Bool) (r : Run) → (registered world won r).1.store ≡ r.store
unfolding registered
registered-store world true r = succeed-store world r
registered-store world false r = fail-store world _ _ r

pub register-store :
    (world : World) (e : Entry) (r : Run)
    → (register world e r).1.store ≡ (set (key_of r) e r.store).0
unfolding register
register-store world e r = registered-store world _ _

reject-dropped :
    (world : World) (reason : Reason) (message : Text) (r : Run)
    → (reject world reason message (drop world r)).1.store ≡ delete_by_key (key_of r) r.store
unfolding drop on_store
reject-dropped world reason message r = reject-store world reason message (drop world r)

fail-dropped :
    (world : World) (reason : Reason) (message : Text) (r : Run)
    → (fail world reason message (drop world r)).1.store ≡ delete_by_key (key_of r) r.store
unfolding drop on_store
fail-dropped world reason message r = fail-store world reason message (drop world r)

unverified : {E A : Type 0} {x : Result E A} {e : E} {a : A} → x ≡ ok a → ¬ (x ≡ err e)
unverified p q = cc

program-Ending :
    (world : World) (mapper : GroupMapper) (separator : Text) (r : Run)
    → check_spec world r.backend.spec ≡ ok (mapper, separator)
    → Ending world r (program world mapper separator r)
unfolding program
program-Ending world mapper separator r valid =
    elim (Result-cases (verifier_of world r.backend.spec.oidc)) [
      | inl (verifier, e) ↦
          let entry = entry_of r.backend.spec verifier mapper separator in
          rw (e, program)
            (claimed entry
              (record {
                mapper = mapper;
                separator = separator;
                verifier = verifier;
                valid = valid;
                verified = e;
                built = refl;
              })
              (register-store world entry r))
      | inr (invalid_jwks x, e) ↦
          rw (e, program) (dropped (λ n i. unverified i.verified e) (reject-dropped world _ _ r))
      | inr (no_discovery x, e) ↦
          rw (e, program) (dropped (λ n i. unverified i.verified e) (fail-dropped world _ _ r))
    ]

accepted-Ending :
    (world : World) (mapper : GroupMapper) (separator message : Text) (r : Run)
    → check_spec world r.backend.spec ≡ ok (mapper, separator)
    → Ending world r (program world mapper separator (mark_accepted world reconciled message r).1)
unfolding mark_accepted set_condition on_backend
accepted-Ending world mapper separator message r valid =
    elim (program-Ending world mapper separator (mark_accepted world reconciled message r).1
      valid) [ dropped n q ↦ dropped n q | claimed e i q ↦ claimed e i q ]

pub reconcile_normal-Ending : (world : World) (r : Run) → Ending world r (reconcile_normal world r)
unfolding reconcile_normal
reconcile_normal-Ending world r = elim (Result-cases (check_spec world r.backend.spec)) [
  | inr (message, e) ↦
      rw (e, reconcile_normal)
        (dropped (λ n i. unverified i.valid e) (reject-dropped world _ message r))
  | inl ((mapper, separator), e) ↦
      rw (e, reconcile_normal) (accepted-Ending world mapper separator _ r e)
]

abbrev pub start : Backend → Store → Run
start b s = record { store = s; backend = b; events = []; writes = [] }

module _ (world : World) where
  store-if :
      (t : Bool) (x y : Reconciled world)
      → (if t then x else y).store ≡ (if t then x.store else y.store)
  store-if true x y = refl
  store-if false x y = refl

-- The store after the reconciliation of an existing Backend.
pub store-reconcile :
    (world : World) (namespace name : Text) (b : Backend) (s : Store)
    → (reconcile world namespace name (ok b) s).store ≡ (
        if b.deleting
        then delete_by_key (object_key namespace name) s
        else (reconcile_normal world (start b s)).1.store)
unfolding reconcile
store-reconcile world namespace name b s = store-if world b.deleting _ _

not_owner-delete_by_key :
    (key : Text) (s : Store) (h : Text) → IsCoherent s → owner h (delete_by_key key s) ≢ some key
not_owner-delete_by_key key s h c o =
    ground (arith, (delete_by_key-effect key s c h).1, o, ==_iff key key, Option-cases (owner h s))

owner-set :
    (key : Text) (e : Entry) (s : Store) (h : Text)
    → IsCoherent s
    → owner h (set key e s).0 ≡ some key
    → (h ≡ e.host) × (outranked key (owner e.host s) ≡ false)
owner-set key e s h c o =
    let (_, _, q) = set-effect key e s c h in
    ground (arith, q, o, ==_iff key key, ==_iff e.host h, Option-cases (owner h s))

pub host-entry_of :
    (spec : BackendSpec) (v : TokenVerifier) (m : GroupMapper) (separator : Text)
    → (entry_of spec v m separator).host ≡ spec.host
unfolding entry_of
host-entry_of spec v m separator = refl

IsServed : World → Backend → Store → Text → Type 0
IsServed world b s host =
    (host ≡ b.spec.host) × ((e : Entry) × IsEntryOf world b.spec e × (get host s ≡ some e))

served :
    (world : World) (b : Backend) (s : Store) (host : Text)
    → IsCoherent s
    → owner host (reconcile_normal world (start b s)).1.store ≡ some (object_key b.namespace b.name)
    → IsServed world b (reconcile_normal world (start b s)).1.store host
unfolding IsServed
served world b s host c h =
    let key = object_key b.namespace b.name in
    elim (reconcile_normal-Ending world (start b s)) [
      | dropped _ q ↦
          absurd (not_owner-delete_by_key key s host c (ap (λ t. owner host t) (sym q) ∙ h))
      | claimed e i q ↦
          let o = ap (λ t. owner host t) (sym q) ∙ h in
          let (at, wins) = owner-set key e s host c o in
          let (_, stored, _) = set-effect key e s c host in
          (
            at
                ∙ ap (λ (x : Entry). x.host) i.built
                ∙ host-entry_of b.spec i.verifier i.mapper i.separator,
            (e, i, ap (λ t. get host t) q ∙ ground (arith, stored, at, wins, ==_iff e.host host)),
          )
    ]

-- What a Backend owns after its reconciliation it owns by right: the spec passed every check, its
-- verifier was built, the host is the one of the spec, and the entry that is served there is the
-- one of this very spec. The Backend exists and is not being deleted.
pub reconciled-owner :
    (world : World) (b : Backend) (s : Store) (host : Text)
    → IsCoherent s
    → b.deleting ≡ false
    → let s' = (reconcile world b.namespace b.name (ok b) s).store in
      owner host s' ≡ some (object_key b.namespace b.name)
      → (host ≡ b.spec.host) × ((e : Entry) × IsEntryOf world b.spec e × (get host s' ≡ some e))
unfolding IsServed
reconciled-owner world b s host c live h =
    let same : (reconcile world b.namespace b.name (ok b) s).store
        ≡ (reconcile_normal world (start b s)).1.store =
      store-reconcile world b.namespace b.name b s
      ∙ ap
          (λ t.
            if t
            then delete_by_key (object_key b.namespace b.name) s
            else (reconcile_normal world (start b s)).1.store)
          live in
    subst (λ t. IsServed world b t host) (sym same)
      (served world b s host c (ap (λ t. owner host t) (sym same) ∙ h))
