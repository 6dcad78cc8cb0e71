-- ===== src/Github/Permits.antt =====
-- What the tests of `GitHubBroker` in src/forge_controller/github_broker.py mean: the grant, the default
-- branch and the workspace.
use hermes_dev_team_vm.Prelude.{
  ◌≡◌, refl, sym, subst, String, true, List, [], ◌∷◌, Result, ok, err, checks, AllPass, Memᴰ, Text,
  text_eq_sound, Datetime, not-false_iff, is_empty, ok_unique, >>-eq-ok, ap, eq_iff, arith, ◌&&◌,
  not,
}
use hermes_dev_team_vm.Capability.{
  CapabilityGrant, CapabilityUse, authorize, CapabilityError, AuthorizedCapability, preauthorize,
}
use hermes_dev_team_vm.Capability.Permission.{IsPermitted, authorize_iff}
use hermes_dev_team_vm.Capability.Envelope.{
  CapabilityGrantEnvelope, Signing, EnvelopeError, open_grant,
}
use hermes_dev_team_vm.Capability.Envelope.Authenticity.{IsAuthentic, open_grant_iff}
use hermes_dev_team_vm.Github.{
  GithubError, GithubPushRequest, Event, FilePath, WorkspaceState, not, Session, Services,
}
use hermes_dev_team_vm.Github.Replies.{
  of_capability, of_envelope, path_eq, preliminary_use, requested_use, workspace_faults,
}
use hermes_dev_team_vm.Github.Broker.{GithubBroker, Action, opened, read_clock, default_branch}
use hermes_dev_team_vm.Github.Reads.{
  IsReportedDefault, read_clock-logged, default_branch-IsReportedDefault,
}
use hermes_dev_team_vm.Capability.Names.{is_repository, is_branch}
use hermes_dev_team_vm.Calls.{lift, ◌>>=◌, ◌>>◌}
use hermes_dev_team_vm.Calls.Keeps.{Keeps, Keeps-lift}
use hermes_dev_team_vm.Github.Writes.{
  IsQuiet, Quiet, quiet, quiet_step, read_clock-Quiet, default_branch-Quiet,
}

pub path_eq_sound : (p q : FilePath) → path_eq p q ≡ true → p ≡ q
path_eq_sound [] [] h = refl
path_eq_sound [] (b ∷ q) h = cc
path_eq_sound (a ∷ p) [] h = cc
path_eq_sound (a ∷ p) (b ∷ q) h = ground (arith, path_eq_sound p q, eq_iff a b)

-- The workspace is a clean checkout of the expected commit, at the place that is meant.
pub record IsClean (path common : FilePath) (state : WorkspaceState) (head : Text) : Type 0 where
  pub top_level : state.top_level ≡ path
  pub common_dir : state.git_common_dir ≡ common
  pub at_head : state.head_sha ≡ head
  pub clean : state.clean ≡ true
  pub safe_config : state.dangerous_config_keys ≡ []

is_empty-true : {A : Type 0} (xs : List A) → is_empty xs ≡ true → xs ≡ []
is_empty-true [] h = refl
is_empty-true (x ∷ xs) h = cc

pub workspace_faults-IsClean :
    (path common : FilePath) (state : WorkspaceState) (head : Text)
    → AllPass (workspace_faults path common state head)
    → IsClean path common state head
workspace_faults-IsClean path common state head p = record {
  top_level = path_eq_sound _ _ ((not-false_iff _).0 p.0);
  common_dir = path_eq_sound _ _ ((not-false_iff _).0 p.1.0);
  at_head = text_eq_sound _ _ ((not-false_iff _).0 p.1.1.0);
  clean = (not-false_iff _).0 p.1.1.1.0;
  safe_config = is_empty-true _ ((not-false_iff _).0 p.1.1.1.1.0);
}

pub of_capability-eq-ok :
    {A : Type 0} (r : Result CapabilityError A) {a : A} → of_capability r ≡ ok a → r ≡ ok a
of_capability-eq-ok (ok a) h = ap ok (ok_unique {E = GithubError} refl h)
of_capability-eq-ok (err e) h = cc

pub of_envelope-eq-ok :
    {A : Type 0} (r : Result EnvelopeError A) {a : A} → of_envelope r ≡ ok a → r ≡ ok a
of_envelope-eq-ok (ok a) h = ap ok (ok_unique {E = GithubError} refl h)
of_envelope-eq-ok (err e) h = cc

pub IsReportedDefault-kept :
    {resource branch : String} {log later : List Event}
    → ((e : Event) → Memᴰ e log → Memᴰ e later)
    → IsReportedDefault resource branch log
    → IsReportedDefault resource branch later
IsReportedDefault-kept kept r = record {
  token = r.token;
  reply = r.reply;
  payload = r.payload;
  read = kept _ r.read;
  parsed = r.parsed;
  named = r.named;
}

pub preliminary_use-eq-ok :
    (request : GithubPushRequest) (operation : String) {preliminary : CapabilityUse}
    → preliminary_use request operation ≡ ok preliminary
    → requested_use request operation ≡ preliminary
unfolding preliminary_use
preliminary_use-eq-ok request operation h =
    let (_, same) =
      >>-eq-ok
        (checks (
          (
            not (is_repository request.resource && is_branch request.branch),
            GithubError.validation_error,
          )
          ∷ []))
        _ h in
    ok_unique {E = GithubError} refl same

-- Both operations authorize the use of the request, completed by `with_default`, under the grant in
-- the envelope.
pub preliminary_use-IsPermitted :
    (signing : Signing) (broker : GithubBroker) (envelope : CapabilityGrantEnvelope signing.Mac)
    (request : GithubPushRequest) (operation : String)
    (with_default : CapabilityUse → CapabilityUse) (grant : CapabilityGrant)
    (preliminary : CapabilityUse) (now : Datetime) {cap : AuthorizedCapability}
    → of_envelope (open_grant signing envelope broker.capability_keyring broker.revoked_grant_ids)
      ≡ ok grant
    → preliminary_use request operation ≡ ok preliminary
    → of_capability (authorize broker.policy grant (with_default preliminary) now) ≡ ok cap
    → IsAuthentic signing envelope broker.capability_keyring broker.revoked_grant_ids
      × IsPermitted broker.policy envelope.grant
          (with_default (requested_use request operation))
          now
preliminary_use-IsPermitted signing broker envelope request operation with_default grant preliminary
      now found named granted =
    let (authentic, same) =
      (open_grant_iff signing envelope broker.capability_keyring broker.revoked_grant_ids grant).0
        (of_envelope-eq-ok _ found) in
    let (permitted, _) =
      (authorize_iff broker.policy grant (with_default preliminary) now _).0
        (of_capability-eq-ok _ granted) in
    (
      authentic,
      subst
          (λ (g : CapabilityGrant).
            IsPermitted broker.policy g (with_default (requested_use request operation)) now)
          (sym same)
          (subst
            (λ (use_of : CapabilityUse). IsPermitted broker.policy grant (with_default use_of) now)
            (sym (preliminary_use-eq-ok request operation named)) permitted),
    )

-- What the log of a call shows of the permission for its use, completed by the default branch that
-- GitHub named and judged at a time that the clock showed.
pub record HasPermission (signing : Signing) (broker : GithubBroker)
    (envelope : CapabilityGrantEnvelope signing.Mac) (request : GithubPushRequest)
    (operation : String) (complete : String → CapabilityUse → CapabilityUse) (default : String)
    (log : List Event) : Type 0 where
  pub authentic : IsAuthentic signing envelope broker.capability_keyring broker.revoked_grant_ids
  pub reported : IsReportedDefault request.resource default log
  pub now : Datetime
  pub read : Memᴰ (Event.clock_read now) log
  pub permitted :
      IsPermitted broker.policy envelope.grant
        (complete default (requested_use request operation))
        now

module _ (signing : Signing) (broker : GithubBroker)
    (envelope : CapabilityGrantEnvelope signing.Mac) (request : GithubPushRequest)
    (operation : String) (complete : String → CapabilityUse → CapabilityUse) where
  pub HasPermission-kept :
      {default : String} {log later : List Event}
      → ((e : Event) → Memᴰ e log → Memᴰ e later)
      → HasPermission signing broker envelope request operation complete default log
      → HasPermission signing broker envelope request operation complete default later
  HasPermission-kept kept h = record {
    authentic = h.authentic;
    reported = IsReportedDefault-kept kept h.reported;
    now = h.now;
    read = kept _ h.read;
    permitted = h.permitted;
  }

  -- The first half of both operations, up to `authorize`.
  abbrev pub authorizing :
      {World B : Type 0}
      → (services : Services World) → (String → Action services B)
      → Action services B
  authorizing services continue = do
    grant ← lift (opened services signing broker envelope)
    preliminary ← lift (preliminary_use request operation)
    early ← read_clock services
    lift (of_capability (preauthorize broker.policy grant preliminary early))
    branch ← default_branch services request.resource
    now ← read_clock services
    lift (of_capability (authorize broker.policy grant (complete branch preliminary) now))
    continue branch

  -- It writes nothing, and what follows it has the permission.
  pub authorizing_step :
      {World B : Type 0} (services : Services World)
      (Q : Result GithubError B × Session World → Type 0) (start : Session World)
      → ((e : GithubError) (s : Session World) → IsQuiet start.log s.log → Q (err e, s))
      → (continue : String → Action services B)
      → ((default : String) (s : Session World)
          → IsQuiet start.log s.log
          → HasPermission signing broker envelope request operation complete default s.log
          → Q (continue default s))
      → Q (authorizing services continue start)
  unfolding lift opened
  authorizing_step {World} {B} services Q start raised continue rest =
      step (lift (opened services signing broker envelope)) _ start (quiet.same true start)
        (Keeps-lift quiet _)
        λ grant found _ q₁.
          step (lift (preliminary_use request operation)) _ start q₁ (Keeps-lift quiet _)
            λ preliminary named _ q₂.
              step (read_clock services) _ start q₂ (read_clock-Quiet services) λ early _ _ q₃.
                step (lift (of_capability (preauthorize broker.policy grant preliminary early))) _ _
                  q₃ (Keeps-lift quiet _)
                  λ template _ _ q₄.
                    step (default_branch services request.resource) _ _ q₄
                      (default_branch-Quiet services request.resource)
                      λ default reported _ q₅.
                        step (read_clock services) _ _ q₅ (read_clock-Quiet services)
                          λ now ticked c q₆.
                            step
                              (lift (
                                of_capability (
                                  authorize broker.policy grant (complete default preliminary)
                                    now)))
                              _ _ q₆ (Keeps-lift quiet _)
                              λ cap granted _ q₇.
                                let (authentic, permitted) =
                                  preliminary_use-IsPermitted signing broker envelope request
                                    operation (complete default) grant preliminary now found named
                                    granted in
                                rest default _ q₇ (record {
                                  authentic = authentic;
                                  reported = IsReportedDefault-kept c.kept (
                                      default_branch-IsReportedDefault services request.resource _
                                        reported);
                                  now = now;
                                  read = read_clock-logged services _ ticked;
                                  permitted = permitted;
                                })
    where
      step :
          {A : Type 0} (m : Action services A) (f : A → Action services B) (s : Session World)
          → IsQuiet start.log s.log
          → Keeps Quiet m
          → ((value : A)
              → (m s).0 ≡ ok value
              → IsQuiet s.log (m s).1.log
              → IsQuiet start.log (m s).1.log
              → Q (f value (m s).1))
          → Q ((m >>= f) s)
      step = quiet_step Q start.log raised
