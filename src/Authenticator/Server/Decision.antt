-- ===== src/Authenticator/Server/Decision.antt =====
-- When `Check` allows a request, and what it then returns.
use holos_substrate.Base.{
  ◌≡◌, ◌≢◌, ◌↔◌, ◌⊎◌, inl, inr, refl, sym, subst, Bool, true, false, not, Option, none, some, List,
  [], arith, Result, ok, err, ◌>>=◌, map_err, Result-cases, Option-cases, ok-injective,
}
use holos_substrate.Base.Text.{Text, ◌==◌, ==_iff, to_lower}
use holos_substrate.Base.Dict.{Dict, lookup}
use holos_substrate.Authenticator.Entry.{Entry, groups_separator}
use holos_substrate.Authenticator.Identity.{Identity, authenticate, resolve_impersonation_extra}
use holos_substrate.Authenticator.Store.{get}
use holos_substrate.Authenticator.TokenManager.{Call}
use holos_substrate.Authenticator.Credentials.{resolve_credential}
use holos_substrate.Authenticator.Headers.{
  header_impersonate_user, first_inbound_impersonation_extra_header, first_impersonation_header,
  first_unrecognized_impersonation_header, split_inbound_groups, first_unsafe_group, bearer_token,
}
use holos_substrate.Authenticator.Server.{
  CheckServer, groups_header_name, Request, Denial, CheckResponse, HeaderValueOption, ok_response,
  denied_response, value_or_empty, ok_response_self, delegated_response, required, forbid,
  refuse_if, otherwise, admit, may_impersonate, with_actor_extra, delegate, respond, response_of,
  with_token_manager, act, check,
}

-- What every allowed request has, whatever its mode.
pub record IsAdmitted (s : CheckServer) (req : Request) (e : Entry) (i : Identity) : Type 0 where
  pub routed : get req.host s.store ≡ some e
  pub no_groups_header : lookup (to_lower (groups_header_name s)) req.headers ≡ none
  pub no_extra_header : first_inbound_impersonation_extra_header req.headers ≡ none
  pub bearer :
      (raw : Text) × (bearer_token req.headers ≡ some raw)
      × (authenticate e.authenticator raw ≡ ok i)
  pub safe_groups : first_unsafe_group i.groups (groups_separator e) ≡ none

-- What a delegated request has besides, and its response.
pub record IsDelegated (s : CheckServer) (headers : Dict Text) (e : Entry) (i : Identity)
    (credential : Text) (r : CheckResponse) : Type 0 where
  pub authorized : may_impersonate i.groups e.impersonation ≡ true
  pub recognized : first_unrecognized_impersonation_header headers ≡ none
  pub target : value_or_empty (lookup (to_lower header_impersonate_user) headers) ≢ []
  pub safe : first_unsafe_group (split_inbound_groups headers) (groups_separator e) ≡ none
  pub stamped :
      (extra : Dict Text) × (resolve_impersonation_extra e.authenticator (some i) ≡ ok extra)
      × (r
          ≡ delegated_response s
              (with_actor_extra i extra)
              headers
              (split_inbound_groups headers)
              (groups_separator e)
              credential)

module _ {ℓ} {A : Type ℓ} {B : Type 0} {b : B} where
  required-ok :
      (o : Option A) (r : Denial) (f : A → Result Denial B)
      → (required o r >>= f) ≡ ok b
      → (a : A) × (o ≡ some a) × (f a ≡ ok b)
  unfolding required
  required-ok none r f h = cc
  required-ok (some a) r f h = (a, refl, h)

  forbid-ok :
      (o : Option A) (r : Denial) (f : Bool → Result Denial B)
      → (forbid o r >>= f) ≡ ok b
      → (o ≡ none) × (f true ≡ ok b)
  unfolding forbid
  forbid-ok none r f h = (refl, h)
  forbid-ok (some a) r f h = cc

  otherwise-ok {κ} :
      {E : Type κ} (x : Result E A) (r : Denial) (f : A → Result Denial B)
      → (otherwise x r >>= f) ≡ ok b
      → (a : A) × (x ≡ ok a) × (f a ≡ ok b)
  unfolding otherwise map_err
  otherwise-ok (ok a) r f h = (a, refl, h)
  otherwise-ok (err e) r f h = cc

refuse_if-ok :
    {B : Type 0} {b : B} (t : Bool) (r : Denial) (f : Bool → Result Denial B)
    → (refuse_if t r >>= f) ≡ ok b
    → (t ≡ false) × (f true ≡ ok b)
unfolding refuse_if
refuse_if-ok true r f h = cc
refuse_if-ok false r f h = (refl, h)

module _ (s : CheckServer) (req : Request) (e : Entry) (i : Identity) where
  admit_sound : admit s req ≡ ok (e, i) → IsAdmitted s req e i
  unfolding admit
  admit_sound h =
      let (entry, e0, h0) = required-ok (get req.host s.store) _ _ h in
      let (e1, h1) = forbid-ok (lookup (to_lower (groups_header_name s)) req.headers) _ _ h0 in
      let (e2, h2) = forbid-ok (first_inbound_impersonation_extra_header req.headers) _ _ h1 in
      let (raw, e3, h3) = required-ok (bearer_token req.headers) _ _ h2 in
      let (identity, e4, h4) = otherwise-ok (authenticate entry.authenticator raw) _ _ h3 in
      let (e5, h5) =
        forbid-ok (first_unsafe_group identity.groups (groups_separator entry)) _ _ h4 in
      subst (λ (p : Entry × Identity). IsAdmitted s req p.0 p.1) (ok-injective h5)
        (record {
          routed = e0;
          no_groups_header = e1;
          no_extra_header = e2;
          bearer = (raw, e3, e4);
          safe_groups = e5;
        })

  admit_complete : IsAdmitted s req e i → admit s req ≡ ok (e, i)
  unfolding admit required forbid otherwise map_err
  admit_complete r =
      let (raw, e3, e4) = r.bearer in
      rw (r.routed, r.no_groups_header, r.no_extra_header, e3, e4, r.safe_groups) refl

-- The response and the server of an allowed request.
pub record IsAllowed (s : CheckServer) (w : Call) (req : Request) (r : CheckResponse)
    (s' : CheckServer) : Type 0 where
  pub entry : Entry
  pub identity : Identity
  pub admitted : IsAdmitted s req entry identity
  pub credential : Text
  pub resolved : (resolve_credential s.reader w s.token_manager s.namespace entry).0 ≡ ok credential
  pub server :
      s' ≡ with_token_manager (resolve_credential s.reader w s.token_manager s.namespace entry).1 s
  pub mode :
      ((first_impersonation_header req.headers ≡ none)
        × (r ≡ ok_response_self s identity (groups_separator entry) credential))
      ⊎ ((first_impersonation_header req.headers ≢ none)
          × IsDelegated s req.headers entry identity credential r)

module _ (s : CheckServer) (headers : Dict Text) (e : Entry) (i : Identity) (credential : Text)
    (r : CheckResponse) where
  delegate_sound : delegate s headers e i credential ≡ ok r → IsDelegated s headers e i credential r
  unfolding delegate
  delegate_sound h =
      let groups = split_inbound_groups headers in
      let target = value_or_empty (lookup (to_lower header_impersonate_user) headers) in
      let (e0, h0) = refuse_if-ok (not (may_impersonate i.groups e.impersonation)) _ _ h in
      let (e1, h1) = forbid-ok (first_unrecognized_impersonation_header headers) _ _ h0 in
      let (e2, h2) = refuse_if-ok (target == []) _ _ h1 in
      let (e3, h3) = forbid-ok (first_unsafe_group groups (groups_separator e)) _ _ h2 in
      let (extra, e4, h4) =
        otherwise-ok (resolve_impersonation_extra e.authenticator (some i)) _ _ h3 in
      record {
        authorized = ground arith;
        recognized = e1;
        target = ground (arith, ==_iff target []);
        safe = e3;
        stamped = (extra, e4, sym (ok-injective h4));
      }

  delegate_complete :
      IsDelegated s headers e i credential r → delegate s headers e i credential ≡ ok r
  unfolding delegate required forbid otherwise refuse_if map_err
  delegate_complete d =
      let (extra, e4, e5) = d.stamped in
      let target = value_or_empty (lookup (to_lower header_impersonate_user) headers) in
      let t : (target == []) ≡ false = ground (arith, d.target, ==_iff target []) in
      rw (d.authorized, d.recognized, t, d.safe, e4, e5) refl

module _ (s : CheckServer) (headers : Dict Text) (e : Entry) (i : Identity) (credential : Text)
    (r : CheckResponse) where
  respond_sound :
      respond s headers e i credential ≡ ok r
      → ((first_impersonation_header headers ≡ none)
          × (r ≡ ok_response_self s i (groups_separator e) credential))
        ⊎ ((first_impersonation_header headers ≢ none) × IsDelegated s headers e i credential r)
  unfolding respond
  respond_sound h = elim (Option-cases (first_impersonation_header headers)) [
    | inl none_there ↦ inl (none_there, ground (arith, none_there))
    | inr (name, there) ↦
        inr (ground arith, delegate_sound s headers e i credential r (ground (arith, there)))
  ]

  respond_complete :
      ((first_impersonation_header headers ≡ none)
          × (r ≡ ok_response_self s i (groups_separator e) credential))
        ⊎ ((first_impersonation_header headers ≢ none) × IsDelegated s headers e i credential r)
      → respond s headers e i credential ≡ ok r
  unfolding respond
  respond_complete (inl (none_there, same)) = ground (arith, none_there, same)
  respond_complete (inr (there, d)) = elim (Option-cases (first_impersonation_header headers)) [
    | inl none_there ↦ absurd (there none_there)
    | inr (name, found) ↦ ground (arith, found, delegate_complete s headers e i credential r d)
  ]

-- The response is OK.
abbrev pub IsOk : CheckResponse → Type 0
IsOk r =
    (headers : List HeaderValueOption) × (removed : List Text) × (r ≡ ok_response headers removed)

module _ (s s' : CheckServer) (w : Call) (req : Request) (r : CheckResponse) where
  act_sound :
      (e : Entry) (i : Identity)
      → IsAdmitted s req e i
      → IsOk r
      → act s w req.headers e i ≡ (r, s')
      → IsAllowed s w req r s'
  unfolding act response_of denied_response otherwise map_err
  act_sound e i a (hs, rm, is_ok) h =
      elim (Result-cases (resolve_credential s.reader w s.token_manager s.namespace e).0) [
        | inr (x, failed) ↦ absurd (ground (arith, failed))
        | inl (credential, got) ↦ elim (Result-cases (respond s req.headers e i credential)) [
          | inr (x, failed) ↦ absurd (ground (arith, got, failed))
          | inl (r', done) ↦ record {
            entry = e;
            identity = i;
            admitted = a;
            credential = credential;
            resolved = got;
            server = ground arith;
            mode = respond_sound s req.headers e i credential r (ground (arith, got, done));
          }
        ]
      ]

  check_sound : IsOk r → check s w req ≡ (r, s') → IsAllowed s w req r s'
  unfolding check denied_response
  check_sound (hs, rm, is_ok) h = elim (Result-cases (admit s req)) [
    | inr (d, failed) ↦ absurd (ground (arith, failed))
    | inl ((e, i), admitted) ↦
        act_sound e i (admit_sound s req e i admitted) (hs, rm, is_ok) (ground (arith, admitted))
  ]

  check_complete : IsAllowed s w req r s' → check s w req ≡ (r, s')
  unfolding check act response_of otherwise map_err
  check_complete a = ground (
    arith,
    admit_complete s req a.entry a.identity a.admitted,
    a.resolved,
    respond_complete s req.headers a.entry a.identity a.credential r a.mode,
    a.server,
  )

-- A request is answered with OK exactly if its host has an entry, it carries neither the groups
-- header nor an extra header, its bearer token is authenticated as an identity, the identity's
-- groups are safe to join, the impersonator credential resolves, and either it carries no
-- impersonation header, or the backend lets the actor's groups impersonate, every impersonation
-- header is recognized, the target user is named, its groups are safe and the actor's extras
-- resolve. The response is then the one of that mode, and only the token manager has changed.
pub check_iff :
    (s s' : CheckServer) (w : Call) (req : Request) (headers : List HeaderValueOption)
    (removed : List Text)
    → (check s w req ≡ (ok_response headers removed, s'))
      ↔ IsAllowed s w req (ok_response headers removed) s'
check_iff s s' w req headers removed =
    let r = ok_response headers removed in
    (check_sound s s' w req r (headers, removed, refl), check_complete s s' w req r)
