-- ===== src/Routing/Quota.antt =====
-- src/forge_controller/quota.py: what a provider's answer says of its availability. The delays of the
-- headers come parsed, in microseconds, and may be negative: `parse_delay` reads floats.
use hermes_dev_team_vm.Prelude.{
  ℕ, ◌+◌, String, Bool, false, not, ◌&&◌, ◌||◌, Option, none, some, List, [], ◌∷◌, any, eqb, leb,
  member, if◌then◌else◌, minutes, Datetime, option_eq, ℤ, pos, negsuc, ◌-◌, ◌==◌, Result, ok, ◌>>◌,
  checks, true,
}
use hermes_dev_team_vm.Routing.Placement.{InferenceDeploymentRow}
use hermes_dev_team_vm.Models.{
  ProviderState, available, throttled_short, quota_exhausted, credit_exhausted, provider_degraded,
  offline, auth_failed,
}

-- The observation, with the headers that are read, by the name in lower case. A delay is what
-- `parse_delay` makes of its header: `none` for a header that is missing or is no delay.
pub record QuotaObservation : Type 0 where
  pub status_code : Option ℕ
  pub error_code : Option String
  pub retry_after : Option ℤ
  pub reset_requests : Option ℤ
  pub reset_tokens : Option ℤ
  pub remaining_requests : Option String
  pub remaining_tokens : Option String

-- The reason of an `Availability`, by branch, which also fixes its confidence.
pub data Reason : Type 0 where
  http_status insufficient_credit model_removed provider_unavailable request_quota token_quota :
      Reason
  quota_code rate_limited no_limit : Reason

pub record Availability : Type 0 where
  pub state : ProviderState
  pub retry_at : Option Datetime
  pub reason : Reason

-- The truth value of a delay: zero is false.
unfoldable pub is_nonzero : ℤ → Bool
is_nonzero (pos n) = not (eqb n 0)
is_nonzero (negsuc n) = true

-- delay or other
unfoldable pub or_delay : Option ℤ → Option ℤ → Option ℤ
or_delay none other = other
or_delay (some delay) other = if is_nonzero delay then some delay else other

-- delay or default, where the delay is not zero
abbrev pub delay_or : Option ℤ → ℕ → ℤ
delay_or none default = pos default
delay_or (some delay) default = if is_nonzero delay then delay else pos default

abbrev pub is_delay : Option ℤ → Bool
is_delay none = false
is_delay (some delay) = is_nonzero delay

unfoldable pub status_in : Option ℕ → List ℕ → Bool
status_in none statuses = false
status_in (some status) statuses = any (λ s. eqb s status) statuses

unfoldable pub code_in : Option String → List String → Bool
code_in none codes = false
code_in (some code) codes = member code codes

unfoldable pub is_server_error : Option ℕ → Bool
is_server_error none = false
is_server_error (some status) = leb 500 status

abbrev pub long_quota_codes : List String
long_quota_codes = "insufficient_quota" ∷ "quota_exceeded" ∷ "daily_quota_exceeded" ∷ []

-- delay <= timedelta(hours=1)
unfoldable pub is_short : ℤ → Bool
is_short (pos n) = leb n (minutes 60)
is_short (negsuc n) = true

-- _rate_limit_state
unfoldable pub rate_limit_state : ℤ → ProviderState
rate_limit_state delay = if is_short delay then throttled_short else quota_exhausted

-- now + delay; no time is before the first instant.
unfoldable pub shifted : ℕ → ℤ → ℕ
shifted instant (pos n) = instant + n
shifted instant (negsuc n) = instant - (n + 1)

unfoldable pub after : Datetime → ℤ → Option Datetime
after now delay = some (record now { instant = shifted now.instant delay })

unfoldable pub limited : Datetime → ℤ → Reason → Availability
limited now delay why = record {
  state = rate_limit_state delay;
  retry_at = after now delay;
  reason = why;
}

unfoldable pub until_cleared : ProviderState → Reason → Availability
until_cleared state why = record { state = state; retry_at = none; reason = why }

-- A row of statements `if test: return value`, with what is returned behind them.
abbrev pub early_return : List (Bool × Availability) → Availability → Availability
early_return [] default = default
early_return ((test, value) ∷ rest) default = if test then value else early_return rest default

-- retry or request_reset or token_reset
abbrev pub waits : QuotaObservation → Option ℤ
waits obs = or_delay obs.retry_after (or_delay obs.reset_requests obs.reset_tokens)

-- The branch of status 429.
abbrev pub rate_limit_rows : QuotaObservation → Datetime → List (Bool × Availability)
rate_limit_rows obs now =
    (
      option_eq obs.remaining_requests (some "0") && is_delay obs.reset_requests,
      limited now (delay_or obs.reset_requests 0) request_quota,
    )
    ∷ (
      option_eq obs.remaining_tokens (some "0") && is_delay obs.reset_tokens,
      limited now (delay_or obs.reset_tokens 0) token_quota,
    )
    ∷ (
      code_in obs.error_code long_quota_codes && not (is_delay (waits obs)),
      until_cleared quota_exhausted quota_code,
    )
    ∷ []

unfoldable pub classify_rate_limit : QuotaObservation → Datetime → Availability
classify_rate_limit obs now =
    early_return (rate_limit_rows obs now)
      (limited now (delay_or (waits obs) (minutes 1)) rate_limited)

abbrev pub observation_rows : QuotaObservation → Datetime → List (Bool × Availability)
observation_rows obs now =
    (status_in obs.status_code (401 ∷ 403 ∷ []), until_cleared auth_failed http_status)
    ∷ (status_in obs.status_code (402 ∷ []), until_cleared credit_exhausted insufficient_credit)
    ∷ (
      status_in obs.status_code (410 ∷ []) || code_in obs.error_code ("model_deprecated" ∷ []),
      until_cleared offline model_removed,
    )
    ∷ (
      status_in obs.status_code (502 ∷ 503 ∷ 504 ∷ [])
          || code_in obs.error_code ("capacity_exceeded" ∷ "provider_unavailable" ∷ []),
      record {
        state = provider_degraded;
        retry_at = after now (delay_or obs.retry_after (minutes 2));
        reason = provider_unavailable;
      },
    )
    ∷ (status_in obs.status_code (429 ∷ []), classify_rate_limit obs now)
    ∷ (
      is_server_error obs.status_code,
      record {
        state = provider_degraded;
        retry_at = after now (pos (minutes 1));
        reason = http_status;
      },
    )
    ∷ []

unfoldable pub classify_observation : QuotaObservation → Datetime → Availability
classify_observation obs now =
    early_return (observation_rows obs now) (until_cleared available no_limit)

-- The row of a quota observation, without the confidence and the raw observation.
pub record QuotaObservationRow : Type 0 where
  pub deployment_id : String
  pub state : ProviderState
  pub retry_at : Option Datetime
  pub reason : Reason

-- The deployments, and what was observed of them, the last first: the event of an observation tells no
-- more than its row.
pub record Observatory (Score : Type 0) : Type 0 where
  pub deployments : List (InferenceDeploymentRow Score)
  pub observations : List QuotaObservationRow

-- KeyError
pub data UnknownDeployment : Type 0 where
  unknown_deployment : String → UnknownDeployment

module _ {Score : Type 0} where
  unfoldable pub has_deployment : String → List (InferenceDeploymentRow Score) → Bool
  has_deployment id rows = any (λ row. row.deployment_id == id) rows

  unfoldable pub set_availability :
      Availability → InferenceDeploymentRow Score → InferenceDeploymentRow Score
  set_availability availability row = record row {
    state = availability.state;
    retry_at = availability.retry_at;
  }

  unfoldable pub set_deployment :
      String
      → Availability
      → List (InferenceDeploymentRow Score)
      → List (InferenceDeploymentRow Score)
  set_deployment id availability [] = []
  set_deployment id availability (row ∷ rows) =
      let rest = set_deployment id availability rows in
      if row.deployment_id == id then set_availability availability row ∷ rows else row ∷ rest

  unfoldable pub record_availability :
      String → Availability → Observatory Score → Result UnknownDeployment (Observatory Score)
  record_availability id availability store = do
    checks ((not (has_deployment id store.deployments), unknown_deployment id) ∷ [])
    ok (record {
      deployments = set_deployment id availability store.deployments;
      observations =
          record {
            deployment_id = id;
            state = availability.state;
            retry_at = availability.retry_at;
            reason = availability.reason;
          }
          ∷ store.observations;
    })

  -- placement.observe
  unfoldable pub observe :
      String
      → QuotaObservation
      → Datetime
      → Observatory Score
      → Result UnknownDeployment (Observatory Score)
  observe id observation now store =
      record_availability id (classify_observation observation now) store
