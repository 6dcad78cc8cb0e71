-- ===== src/Github/Requesting.antt =====
-- What a pull request by `create_pull_request` of src/forge_controller/github_broker.py takes.
use hermes_dev_team_vm.Prelude.{
  ◌≡◌, refl, sym, ap, subst, ◌⊎◌, inl, inr, String, false, not, List, [], ◌∷◌, some, Result, ok,
  err, checks, checks_iff, Memᴰ, Text, text_eq, text_eq_sound, not-false_iff,
}
use hermes_dev_team_vm.Json.{Json}
use hermes_dev_team_vm.Calls.{◌>>=◌, ◌>>◌, ensuring, lift}
use hermes_dev_team_vm.Calls.Keeps.{is_ok, Keeps, Keeps-lift, bind_cases, bind_lift}
use hermes_dev_team_vm.Capability.{CapabilityUse}
use hermes_dev_team_vm.Capability.Envelope.{CapabilityGrantEnvelope, Signing}
use hermes_dev_team_vm.Github.{
  GithubError, InstallationToken, GithubPullRequestRequest, GithubPullRequestResult, Event,
  HttpReply, PullRequestBody, Session, Services, payload_of, perform,
}
use hermes_dev_team_vm.Github.Replies.{parse_pull_request_result}
use hermes_dev_team_vm.Github.Replies.Acknowledgement.{
  IsAcknowledged, parse_pull_request_result-IsAcknowledged,
}
use hermes_dev_team_vm.Github.Broker.{
  GithubBroker, Action, mint_token, revoke_token, with_token, remote_branch_sha, post_request,
  request_body, create_pull_request,
}
use hermes_dev_team_vm.Github.Writes.{
  HasWritten, IsQuiet, IsQuiet-trans, HasWritten-IsQuiet, Quiet, quiet, quiet_step,
  remote_branch_sha-Quiet, mint_token-Quiet,
}
use hermes_dev_team_vm.Github.Reads.{IsReportedHead, remote_branch_sha-IsReportedHead}
use hermes_dev_team_vm.Github.Permits.{HasPermission, HasPermission-kept, authorizing_step}

-- preliminary.model_copy(update={"default_branch": default_branch, "base_branch": default_branch})
abbrev pub with_base : String → CapabilityUse → CapabilityUse
with_base default preliminary = record preliminary {
  default_branch = some default;
  base_branch = some default;
}

IsReportedHead-kept :
    {resource branch : String} {sha : Text} {log later : List Event}
    → ((e : Event) → Memᴰ e log → Memᴰ e later)
    → IsReportedHead resource branch sha log
    → IsReportedHead resource branch sha later
IsReportedHead-kept kept r = record {
  token = r.token;
  reply = r.reply;
  payload = r.payload;
  read = kept _ r.read;
  parsed = r.parsed;
  named = r.named;
}

module _ {World : Type 0} (services : Services World) (signing : Signing) (broker : GithubBroker)
    (envelope : CapabilityGrantEnvelope signing.Mac) (request : GithubPullRequestRequest) where
  abbrev pub IsOpeningOf : String → Event → Type 0
  IsOpeningOf default event =
      (token : InstallationToken) × (reply : Result GithubError HttpReply) × (event
        ≡ Event.request_opened request.resource (request_body request default) token reply)

  -- How a call that began with the log ended: it raised and sent nothing, or it opened one pull
  -- request, against the default branch that GitHub named, under a permission and with the head at
  -- the commit of the request; it returned only what matches that scope.
  pub data RequestOutcome (log : List Event) (r : Result GithubError GithubPullRequestResult)
      (later : List Event) : Type 0 where
    refused : is_ok r ≡ false → IsQuiet log later → RequestOutcome log r later
    sent :
        (default : String)
        → HasWritten (IsOpeningOf default) log later
        → HasPermission signing broker envelope request.push_request "pr.create" with_base default
            later
        → IsReportedHead request.resource request.branch request.expected_head later
        → ((value : GithubPullRequestResult) → r ≡ ok value → IsAcknowledged request default value)
        → RequestOutcome log r later

  abbrev Ends : Session World → Result GithubError GithubPullRequestResult × Session World → Type 0
  Ends start (r, t) = RequestOutcome start.log r t.log

  post_request-log :
      (resource : String) (body : PullRequestBody) (token : InstallationToken) (s : Session World)
      → (post_request services resource body token s).1.log
        ≡ Event.request_opened resource body token
            (services.post_pull resource body token s.world).0
          ∷ s.log
  unfolding post_request perform
  post_request-log resource body token s =
      ap (λ (u : Session World). u.log)
        (bind_lift payload_of
          (perform (services.post_pull resource body token)
            (λ r. Event.request_opened resource body token r ∷ []))
          s)

  -- The opening itself: no token, and nothing was sent, or one pull request was.
  opening :
      (default : String) (s : Session World)
      → let (r, t) =
          with_token services request.resource
            (("pull_requests", "write") ∷ [])
            (post_request services request.resource (request_body request default))
            s in
        ((is_ok r ≡ false) × IsQuiet s.log t.log) ⊎ HasWritten (IsOpeningOf default) s.log t.log
  unfolding with_token ensuring revoke_token perform
  opening default s =
      let minted = mint_token services request.resource (("pull_requests", "write") ∷ []) in
      let here =
        (mint_token-Quiet services request.resource (("pull_requests", "write") ∷ [])).holds s in
      let body = request_body request default in
      bind_cases
        (λ (o : Result GithubError Json × Session World).
          ((is_ok o.0 ≡ false) × IsQuiet s.log o.1.log)
          ⊎ HasWritten (IsOpeningOf default) s.log o.1.log)
        minted _ s (λ e h. inl (refl, here))
        (λ token h.
          let t = (minted s).1 in
          let same = post_request-log request.resource body token t in
          inr (
            HasWritten-IsQuiet here (record {
              event =
                  Event.request_opened request.resource body token
                    (services.post_pull request.resource body token t.world).0;
              kind = (token, (services.post_pull request.resource body token t.world).0, refl);
              kept = λ e m.
                  Memᴰ.tail (subst (λ (log : List Event). Memᴰ e log) (sym same) (Memᴰ.tail m));
              written = rw same refl;
            })))

  step :
      {A : Type 0} (start : Session World) (m : Action services A)
      (f : A → Action services GithubPullRequestResult) (s : Session World)
      → IsQuiet start.log s.log
      → Keeps Quiet m
      → ((value : A)
          → (m s).0 ≡ ok value
          → IsQuiet s.log (m s).1.log
          → IsQuiet start.log (m s).1.log
          → Ends start (f value (m s).1))
      → Ends start ((m >>= f) s)
  step start = quiet_step (Ends start) start.log (λ e s q. refused refl q)

  -- What follows the authorization.
  abbrev parsing : String → Json → Action services GithubPullRequestResult
  parsing default payload =
      lift (parse_pull_request_result payload request.resource request default)

  abbrev proposing : String → Action services GithubPullRequestResult
  proposing default = do
    head ← remote_branch_sha services request.resource request.branch
    lift (checks ((not (text_eq head request.expected_head), GithubError.wrong_request_head) ∷ []))
    payload ←
        with_token services request.resource (("pull_requests", "write") ∷ [])
          (post_request services request.resource (request_body request default))
    parsing default payload

  finish :
      (start : Session World) (default : String) (s : Session World)
      → IsQuiet start.log s.log
      → HasPermission signing broker envelope request.push_request "pr.create" with_base default
          s.log
      → IsReportedHead request.resource request.branch request.expected_head s.log
      → Ends start (
          (with_token services request.resource
                (("pull_requests", "write") ∷ [])
                (post_request services request.resource (request_body request default))
              >>= parsing default)
            s)
  unfolding lift
  finish start default s so_far permission head =
      bind_cases (Ends start) opening_call (parsing default) s
        (λ e h. elim (opening default s) [
          | inl (failed, nothing) ↦ refused refl (IsQuiet-trans so_far nothing)
          | inr once ↦ sending (err e) once (λ value h. cc)
        ])
        (λ payload h. elim (opening default s) [
          | inl (failed, nothing) ↦ cc (failed, ap is_ok h)
          | inr once ↦
              sending (parse_pull_request_result payload request.resource request default) once
                (parse_pull_request_result-IsAcknowledged payload request default)
        ])
    where
      opening_call : Action services Json
      opening_call =
          with_token services request.resource (("pull_requests", "write") ∷ [])
            (post_request services request.resource (request_body request default))

      sending :
          (r : Result GithubError GithubPullRequestResult)
          → HasWritten (IsOpeningOf default) s.log (opening_call s).1.log
          → ((value : GithubPullRequestResult)
              → r ≡ ok value
              → IsAcknowledged request default value)
          → RequestOutcome start.log r (opening_call s).1.log
      sending r once acknowledged =
          sent default (HasWritten-IsQuiet so_far once)
            (HasPermission-kept signing broker envelope request.push_request _ _ once.kept
              permission)
            (IsReportedHead-kept once.kept head) acknowledged

  proposing-RequestOutcome :
      (start : Session World) (default : String) (s : Session World)
      → IsQuiet start.log s.log
      → HasPermission signing broker envelope request.push_request "pr.create" with_base default
          s.log
      → Ends start (proposing default s)
  unfolding lift
  proposing-RequestOutcome start default s so_far permission =
      step start (remote_branch_sha services request.resource request.branch) _ s so_far
        (remote_branch_sha-Quiet services request.resource request.branch)
        λ sha read w q₁.
          let row =
            (not (text_eq sha request.expected_head), GithubError.wrong_request_head) ∷ [] in
          step start (lift (checks row)) _ _ q₁ (Keeps-lift quiet _) λ _ pass _ q₂.
            let head = text_eq_sound _ _ ((not-false_iff _).0 ((checks_iff row).0 pass).0) in
            finish start default _ q₂
              (HasPermission-kept signing broker envelope request.push_request _ _ w.kept
                permission)
              (subst
                (λ (x : Text).
                  IsReportedHead request.resource request.branch x
                    (remote_branch_sha services request.resource request.branch s).1.log)
                head
                (remote_branch_sha-IsReportedHead services request.resource request.branch s read))

  -- However `create_pull_request` ends, it raised and wrote nothing, or it sent exactly one pull
  -- request, from the branch of the request to the default branch that GitHub reported, under an
  -- authentic grant that permits it at a time of the clock, with the expected commit reported as
  -- the head; and it returns only a result of that repository, head, commit and base, with the
  -- number positive and an address of the repository. What was read stands in the log of the
  -- session.
  pub create_pull_request-RequestOutcome :
      (start : Session World)
      → let (r, later) = create_pull_request services signing broker envelope request start in
        RequestOutcome start.log r later.log
  unfolding create_pull_request
  create_pull_request-RequestOutcome start =
      authorizing_step signing broker envelope request.push_request "pr.create" with_base services
        (Ends start) start (λ e s q. refused refl q) proposing (proposing-RequestOutcome start)
