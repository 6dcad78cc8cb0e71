-- ===== src/Github/Provider.antt =====
-- `GitHubAppTokenProvider` of src/forge_controller/github_broker.py: installation tokens for one repository
-- with reduced permissions. Files, PyJWT, HTTP, `datetime.fromisoformat` and the table of
-- `str.casefold` are the host's.
pub mod Scoping
use hermes_dev_team_vm.Prelude.{
  ℕ, ◌+◌, ◌-◌, ◌/◌, ◌%◌, String, Bool, true, false, not, ◌&&◌, ◌||◌, Option, none, some, List, [],
  ◌∷◌, leb, eqb, ◌==◌, if◌then◌else◌, any, is_empty, Text, codes, text_eq, Result, ok, err, Check,
  checks, or_raise, Datetime, minutes, then_run,
}
use hermes_dev_team_vm.Json.{Json, get_if_object, as_text}
use hermes_dev_team_vm.Calls.{Call, pure, raise, lift, ◌>>=◌, ◌>>◌}
use hermes_dev_team_vm.Github.{
  GithubError, InstallationToken, Permissions, HttpReply, payload_of, Services,
}

pub record GithubAppConfig : Type 0 where
  pub app_id : String
  pub installation_id : ℕ
  pub installation_owner : String
  pub require_root_owned_key : Bool

-- The fields of `os.stat_result` that are read.
pub record FileInfo : Type 0 where
  pub is_regular : Bool
  pub owner_uid : ℕ
  pub mode : ℕ

pub record AppHost (World : Type 0) : Type 0 where
  pub clock : Call GithubError World Datetime
  -- none: FileNotFoundError
  pub stat_key : Call GithubError World (Option FileInfo)
  -- the key is read, and the claims `iat`, `exp` and `iss` are signed
  pub encode_jwt : ℕ → ℕ → String → Call GithubError World String
  pub post_access_tokens : String → ℕ → Text → Permissions → Call GithubError World HttpReply
  pub delete_token : String → Call GithubError World ℕ
  pub fromisoformat : Text → Option Datetime
  pub casefold : Text → Text

abbrev pub with_first : ℕ → Option (Text × Text) → Option (Text × Text)
with_first c none = none
with_first c (some (before, after)) = some (c ∷ before, after)

-- text.split(separator, 1), if the separator stands in the text
abbrev pub split_once : ℕ → Text → Option (Text × Text)
split_once separator [] = none
split_once separator (c ∷ s) =
    let rest = split_once separator s in if eqb c separator then some ([], s) else with_first c rest

abbrev pub both_parts : Option (Text × Text) → Result GithubError (Text × Text)
both_parts none = err GithubError.not_owner_repository
both_parts (some (owner, repository)) =
    if is_empty owner || is_empty repository
    then err GithubError.not_owner_repository
    else ok (owner, repository)

-- _split_repository
unfoldable pub split_repository : String → Result GithubError (Text × Text)
split_repository resource = both_parts (split_once b'/' (codes resource))

-- value not in {"read", "write"}
abbrev pub is_unknown_access : String × String → Bool
is_unknown_access (_, value) = not (value == "read" || value == "write")

-- value[:-1] + "+00:00" if value.endswith("Z") else value
abbrev pub normalized : Text → Text
normalized [] = []
normalized (c ∷ []) = if eqb c b'Z' then codes "+00:00" else c ∷ []
normalized (c ∷ d ∷ s) = c ∷ normalized (d ∷ s)

-- _aware
unfoldable pub aware_time : Datetime → Check GithubError
aware_time value = checks ((not value.aware, GithubError.naive_time) ∷ [])

-- The tests of the key file, in order; the low six bits of the mode are those of group and others.
abbrev pub key_faults : GithubAppConfig → FileInfo → List (Bool × GithubError)
key_faults config info =
    (not info.is_regular, GithubError.key_not_regular)
    ∷ (config.require_root_owned_key && not (eqb info.owner_uid 0), GithubError.key_not_root_owned)
    ∷ (not (eqb (info.mode % 64) 0), GithubError.key_accessible)
    ∷ []

abbrev pub mint_faults :
    (Text → Text) → GithubAppConfig → Text → Permissions → List (Bool × GithubError)
mint_faults casefold config owner permissions =
    (
      not (text_eq (casefold owner) (casefold (codes config.installation_owner))),
      GithubError.outside_installation,
    )
    ∷ (is_empty permissions || any is_unknown_access permissions, GithubError.invalid_permissions)
    ∷ []

-- The tests of the expiry: it is aware, and later than now.
abbrev pub expiry_faults : Datetime → Datetime → List (Bool × GithubError)
expiry_faults expires_at now =
    (not expires_at.aware, GithubError.naive_time)
    ∷ (leb expires_at.instant now.instant, GithubError.token_expired)
    ∷ []

unfoldable pub live_token : String → Datetime → Datetime → Result GithubError InstallationToken
live_token value expires_at now =
    then_run (λ _. ok (record { value = value; expires_at = expires_at }))
      (checks (expiry_faults expires_at now))

abbrev pub dated_token : String → Datetime → Option Datetime → Result GithubError InstallationToken
dated_token value now none = err GithubError.invalid_expiry
dated_token value now (some expires_at) = live_token value expires_at now

-- The reading of the response: `_parse_datetime` and the test of the expiry included.
unfoldable pub token_of :
    (Text → Option Datetime)
    → Datetime
    → Option String
    → Option String
    → Result GithubError InstallationToken
token_of fromisoformat now (some value) (some expires) =
    if value == ""
    then err GithubError.invalid_token_response
    else dated_token value now (fromisoformat (normalized (codes expires)))
token_of fromisoformat now _ _ = err GithubError.invalid_token_response

module _ {World : Type 0} (config : GithubAppConfig) (host : AppHost World) where
  -- _app_jwt
  unfoldable pub app_jwt : Datetime → Call GithubError World String
  app_jwt now = do
    found ← host.stat_key
    info ← lift (or_raise found GithubError.key_missing)
    lift (checks (key_faults config info))
    host.encode_jwt ((now.instant - minutes 1) / 1_000_000) ((now.instant + minutes 9) / 1_000_000)
        config.app_id

  unfoldable pub mint : String → Permissions → Call GithubError World InstallationToken
  mint resource permissions = do
    parts ← lift (split_repository resource)
    lift (checks (mint_faults host.casefold config parts.0 permissions))
    now ← host.clock
    lift (aware_time now)
    encoded ← app_jwt now
    reply ← host.post_access_tokens encoded config.installation_id parts.1 permissions
    payload ← lift (payload_of reply)
    lift (
        token_of host.fromisoformat now (as_text (get_if_object "token" (some payload)))
          (as_text (get_if_object "expires_at" (some payload))))

  unfoldable pub revoke : InstallationToken → Call GithubError World (Unit {0})
  revoke token = do
    status ← host.delete_token token.value
    lift (checks ((not (eqb status 204), GithubError.revocation_failed status) ∷ []))

-- The broker with this provider.
abbrev pub with_provider :
    {World : Type 0} → Services World → GithubAppConfig → AppHost World → Services World
with_provider services config host = record services {
  mint = mint config host;
  revoke = revoke config host;
}
