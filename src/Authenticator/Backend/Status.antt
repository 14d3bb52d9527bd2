-- ===== src/Authenticator/Backend/Status.antt =====
-- What the Ready condition of a reconciled Backend promises.
use holos_substrate.Base.{
  ◌≡◌, inl, inr, ap, ◌∙◌, Bool, true, false, Option, none, some, List, [], ◌∷◌, ◌++◌, arith,
  if◌then◌else◌, Result-cases,
}
use holos_substrate.Base.Text.{Text, text, ==-self}
use holos_substrate.Authenticator.Entry.{Entry}
use holos_substrate.Authenticator.Mapping.{GroupMapper}
use holos_substrate.Authenticator.Store.{owner, set}
use holos_substrate.Authenticator.Store.Coherent.{IsCoherent}
use holos_substrate.Authenticator.Store.Ownership.{set-effect}
use holos_substrate.Authenticator.Backend.{
  EventType, normal, warning, reconciled, World, Run, Outcome, Reason, Condition, ConditionType,
  accepted, programmed, ready, object_key, set_condition, mark_ready, mark_accepted, mark_not_ready,
  mark_rejected, update_status, settle, succeed, reject, after_not_ready, fail, check_spec,
  verifier_of, invalid_jwks, no_discovery, registered, register, program, reconcile_normal,
  on_backend,
}
use holos_substrate.Authenticator.Backend.Registration.{key_of, host-entry_of, register-store}

abbrev same_type : ConditionType → ConditionType → Bool
same_type accepted accepted = true
same_type programmed programmed = true
same_type ready ready = true
same_type _ _ = false

unfoldable pub status_of : ConditionType → List Condition → Option Bool
status_of t [] = none
status_of t (c ∷ cs) = if same_type c.condition_type t then some c.status else status_of t cs

-- What `meta.SetStatusCondition` documents: the condition of that type gets that status.
pub record SetsStatus (f : List Condition → Condition → List Condition × Bool) : Type 0 where
  pub sets :
      (cs : List Condition) (c : Condition) → status_of c.condition_type (f cs c).0 ≡ some c.status

abbrev readiness : Run → Option Bool
readiness r = status_of ready r.backend.conditions

module _ (world : World) where
  readiness-settle :
      (t : EventType) (reason : Reason) (message : Text) (m : Bool × Run)
      → readiness (settle world t reason message m).1 ≡ readiness m.1
  unfolding settle update_status on_backend
  readiness-settle t reason message m = ground arith

  readiness-after_not_ready :
      (reason : Reason) (message : Text) (m : Bool × Run)
      → readiness (after_not_ready world reason message m) ≡ readiness m.1
  unfolding after_not_ready update_status on_backend
  readiness-after_not_ready reason message m = ground arith

module _ (world : World) (f : SetsStatus world.set_status_condition) where
  readiness-set_condition :
      (status : Bool) (reason : Reason) (message : Text) (r : Run)
      → readiness (set_condition world ready status reason message r).1 ≡ some status
  unfolding set_condition on_backend
  readiness-set_condition status reason message r = f.sets r.backend.conditions _

  readiness-mark_rejected :
      (reason : Reason) (message : Text) (r : Run)
      → readiness (mark_rejected world reason message r).1 ≡ some false
  unfolding mark_rejected
  readiness-mark_rejected reason message r =
      let r1 = (set_condition world accepted false reason message r).1 in
      readiness-set_condition false reason message
        (set_condition world programmed false reason message r1).1

  readiness-mark_not_ready :
      (reason : Reason) (message : Text) (r : Run)
      → readiness (mark_not_ready world reason message r).1 ≡ some false
  unfolding mark_not_ready
  readiness-mark_not_ready reason message r =
      readiness-set_condition false reason message
        (set_condition world programmed false reason message r).1

  readiness-mark_ready :
      (reason : Reason) (message : Text) (r : Run)
      → readiness (mark_ready world reason message r).1 ≡ some true
  unfolding mark_ready
  readiness-mark_ready reason message r =
      let r1 = (set_condition world accepted true reason message r).1 in
      readiness-set_condition true reason message
        (set_condition world programmed true reason message r1).1

  readiness-reject :
      (reason : Reason) (message : Text) (r : Run)
      → readiness (reject world reason message r).1 ≡ some false
  unfolding reject
  readiness-reject reason message r =
      readiness-settle world warning reason message (mark_rejected world reason message r)
      ∙ readiness-mark_rejected reason message r

  readiness-fail :
      (reason : Reason) (message : Text) (r : Run)
      → readiness (fail world reason message r).1 ≡ some false
  unfolding fail
  readiness-fail reason message r =
      readiness-after_not_ready world reason message (mark_not_ready world reason message r)
      ∙ readiness-mark_not_ready reason message r

  readiness-succeed : (r : Run) → readiness (succeed world r).1 ≡ some true
  unfolding succeed
  readiness-succeed r =
      let message =
        text "backend "
        ++ world.quote r.backend.spec.host
        ++ text " is ready (issuer "
        ++ world.quote r.backend.spec.oidc.issuer_url
        ++ text ")" in
      readiness-settle world normal reconciled message (mark_ready world reconciled message r)
      ∙ readiness-mark_ready reconciled message r

  readiness-registered : (won : Bool) (r : Run) → readiness (registered world won r).1 ≡ some won
  unfolding registered
  readiness-registered true r = readiness-succeed r
  readiness-registered false r = readiness-fail _ _ r

  -- Ready means registered.
  abbrev Promise : Run → Outcome → Type 0
  Promise r out =
      readiness out.1 ≡ some true
      → owner r.backend.spec.host out.1.store ≡ some (object_key r.backend.namespace r.backend.name)

  reject-Promise :
      (r : Run) (reason : Reason) (message : Text) (r' : Run)
      → Promise r (reject world reason message r')
  reject-Promise r reason message r' t =
      absurd (ground (arith, readiness-reject reason message r', t))

  fail-Promise :
      (r : Run) (reason : Reason) (message : Text) (r' : Run)
      → Promise r (fail world reason message r')
  fail-Promise r reason message r' t = absurd (ground (arith, readiness-fail reason message r', t))

  readiness-register :
      (e : Entry) (r : Run) → readiness (register world e r).1 ≡ some (set (key_of r) e r.store).1
  unfolding register
  readiness-register e r = readiness-registered (set (key_of r) e r.store).1 _

  register-Promise :
      (e : Entry) (r : Run)
      → IsCoherent r.store
      → e.host ≡ r.backend.spec.host
      → Promise r (register world e r)
  register-Promise e r c at h =
      let host = r.backend.spec.host in
      let (won, _, owned) = set-effect (key_of r) e r.store c host in
      let granted = readiness-register e r in
      ap (λ t. owner host t) (register-store world e r)
      ∙ ground (arith, won, owned, granted, h, at, ==-self host)

  program-Promise :
      (mapper : GroupMapper) (separator : Text) (r : Run)
      → IsCoherent r.store
      → Promise r (program world mapper separator r)
  unfolding program
  program-Promise mapper separator r c =
      elim (Result-cases (verifier_of world r.backend.spec.oidc)) [
        | inl (verifier, e) ↦
            rw (e, program)
              (register-Promise _ r c (host-entry_of r.backend.spec verifier mapper separator))
        | inr (invalid_jwks x, e) ↦ rw (e, program) (reject-Promise r _ _ _)
        | inr (no_discovery x, e) ↦ rw (e, program) (fail-Promise r _ _ _)
      ]

  accepted-Promise :
      (mapper : GroupMapper) (separator message : Text) (r : Run)
      → IsCoherent r.store
      → Promise r (program world mapper separator (mark_accepted world reconciled message r).1)
  unfolding mark_accepted set_condition on_backend
  accepted-Promise mapper separator message r c =
      program-Promise mapper separator (mark_accepted world reconciled message r).1 c

-- A Backend that a reconciliation leaves with Ready=True owns its host in the store.
pub ready-owner :
    (world : World) (r : Run)
    → SetsStatus world.set_status_condition
    → IsCoherent r.store
    → status_of ready (reconcile_normal world r).1.backend.conditions ≡ some true
    → owner r.backend.spec.host (reconcile_normal world r).1.store
      ≡ some (object_key r.backend.namespace r.backend.name)
unfolding reconcile_normal
ready-owner world r f c = elim (Result-cases (check_spec world r.backend.spec)) [
  | inr (message, e) ↦ rw (e, reconcile_normal) (reject-Promise world f r _ _ _)
  | inl ((mapper, separator), e) ↦
      rw (e, reconcile_normal) (accepted-Promise world f mapper separator _ r c)
]
