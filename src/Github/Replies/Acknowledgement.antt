-- ===== src/Github/Replies/Acknowledgement.antt =====
-- What `_parse_pull_request_result` of src/forge_controller/github_broker.py accepts.
use hermes_dev_team_vm.Prelude.{
  ◌≡◌, refl, ℕ, suc, ◌<◌, String, true, some, ok, checks, checks_iff, not-false_iff, ok_unique,
  codes, >>=-eq-ok, >>-eq-ok, ℤ, pos, negsuc, zero, arith, sym, subst, or_raise, eq_iff,
  text_eq_sound,
}
use hermes_dev_team_vm.Isolation.{starts_with}
use hermes_dev_team_vm.Json.{Json, as_object, as_int, as_text, get, get_if_object}
use hermes_dev_team_vm.Github.{GithubError, GithubPullRequestRequest, GithubPullRequestResult}
use hermes_dev_team_vm.Github.Replies.{
  parse_pull_request_result, request_prefix, positive_number, acknowledgement_faults, draft_of,
}

-- The pull request is the one that was asked for, under the address of the repository.
pub record IsAcknowledged (request : GithubPullRequestRequest) (default : String)
    (value : GithubPullRequestResult) : Type 0 where
  pub repository : value.repository ≡ request.resource
  pub head_branch : value.head_branch ≡ request.branch
  pub head_sha : value.head_sha ≡ request.expected_head
  pub base_branch : value.base_branch ≡ default
  pub numbered : 0 < value.number
  pub url : starts_with (request_prefix request.resource) (codes value.url) ≡ true

positive_number-pos : (n : ℤ) {m : ℕ} → positive_number n ≡ ok m → 0 < m
positive_number-pos (pos (suc n)) h =
    let e = ok_unique {E = GithubError} refl h in rw (sym e) (omega arith)
positive_number-pos (pos zero) h = cc
positive_number-pos (negsuc n) h = cc

pub parse_pull_request_result-IsAcknowledged :
    (payload : Json) (request : GithubPullRequestRequest) (default : String)
    (value : GithubPullRequestResult)
    → parse_pull_request_result payload request.resource request default ≡ ok value
    → IsAcknowledged request default value
unfolding parse_pull_request_result
parse_pull_request_result-IsAcknowledged payload request default value h =
    let (members, _, h₁) =
      >>=-eq-ok (or_raise (as_object (some payload)) GithubError.not_a_request_response) _ h in
    let (number, _, h₂) =
      >>=-eq-ok (or_raise (as_int (get "number" members)) GithubError.mismatched_request) _ h₁ in
    let (url, _, h₃) =
      >>=-eq-ok (or_raise (as_text (get "html_url" members)) GithubError.mismatched_request) _ h₂ in
    let (head_ref, _, h₃₁) =
      >>=-eq-ok
        (or_raise (as_text (get_if_object "ref" (get "head" members)))
          GithubError.mismatched_request)
        _ h₃ in
    let (head_sha, _, h₃₂) =
      >>=-eq-ok
        (or_raise (as_text (get_if_object "sha" (get "head" members)))
          GithubError.mismatched_request)
        _ h₃₁ in
    let (base_ref, _, h₃₃) =
      >>=-eq-ok
        (or_raise (as_text (get_if_object "ref" (get "base" members)))
          GithubError.mismatched_request)
        _ h₃₂ in
    let faults =
      acknowledgement_faults request.resource request default url head_ref head_sha base_ref in
    let (pass, h₄) = >>-eq-ok (checks faults) _ h₃₃ in
    let (draft, _, h₅) =
      >>=-eq-ok
        (or_raise (draft_of (get "draft" members) request.draft) GithubError.mismatched_request) _
        h₄ in
    let (positive, counted, h₆) = >>=-eq-ok (positive_number number) _ h₅ in
    let there : GithubPullRequestResult = record {
      repository = request.resource;
      number = positive;
      url = url;
      head_branch = head_ref;
      head_sha = codes head_sha;
      base_branch = base_ref;
      draft = draft;
    } in
    let same : there ≡ value = ok_unique {E = GithubError} refl h₆ in
    let row = (checks_iff faults).0 pass in
    subst (IsAcknowledged request default) same (record {
      repository = refl;
      head_branch = (eq_iff _ _).0 ((not-false_iff _).0 row.1.0);
      head_sha = text_eq_sound _ _ ((not-false_iff _).0 row.1.1.0);
      base_branch = (eq_iff _ _).0 ((not-false_iff _).0 row.1.1.1.0);
      numbered = positive_number-pos number counted;
      url = (not-false_iff _).0 row.0;
    })
