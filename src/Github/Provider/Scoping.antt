-- ===== src/Github/Provider/Scoping.antt =====
-- What a token of `GitHubAppTokenProvider.mint` in src/forge_controller/github_broker.py covers.
use hermes_dev_team_vm.Prelude.{
  ℕ, ◌<◌, ◌≡◌, ◌≢◌, refl, String, false, ◌⊎◌, inl, inr, [], ◌∷◌, ◌++◌, Text, codes, Datetime, ok,
  checks, checks_iff, All, AllPass, arith, eqb, Option, none, some, ok_unique, text_eq_sound,
  not-false_iff, or-false_iff, Bool-cases, any, is_empty, ◌||◌, ◌==◌, eq_iff, leb-false_iff,
  some_unique, ap, ◌∙◌, text_eq-false_iff, or_raise, subst, >>-eq-ok, true, ◌+◌, ◌-◌, ◌/◌, ◌%◌,
  minutes, or_raise-eq-ok, not,
}
use hermes_dev_team_vm.Calls.{lift, Call}
use hermes_dev_team_vm.Calls.Keeps.{bind_returned}
use hermes_dev_team_vm.Json.{get_if_object, as_text, Json}
use hermes_dev_team_vm.Github.{GithubError, InstallationToken, Permissions, HttpReply, payload_of}
use hermes_dev_team_vm.Github.Provider.{
  GithubAppConfig, FileInfo, AppHost, split_once, split_repository, is_unknown_access, key_faults,
  mint_faults, live_token, token_of, app_jwt, mint, aware_time, with_first, both_parts, dated_token,
  expiry_faults, normalized,
}

with_first-some :
    (separator c : ℕ) (s before after : Text) (rest : Option (Text × Text))
    → ((x y : Text) → rest ≡ some (x, y) → s ≡ x ++ (separator ∷ y))
    → with_first c rest ≡ some (before, after)
    → c ∷ s ≡ before ++ (separator ∷ after)
with_first-some separator c s before after none ih h = cc
with_first-some separator c s before after (some (x, y)) ih h =
    let p = some_unique refl h in
    let e : ◌≡◌ {A = Text × Text} (c ∷ x, y) (before, after) = p in
    rw (ih x y refl) (ap (λ (q : Text × Text). q.0 ++ (separator ∷ q.1)) e)

pub split_once-append :
    (separator : ℕ) (s before after : Text)
    → split_once separator s ≡ some (before, after)
    → s ≡ before ++ (separator ∷ after)
split_once-append separator [] before after h = cc
split_once-append separator (c ∷ s) before after h = elim (Bool-cases (eqb c separator)) [
  | inl same ↦
      let e : ◌≡◌ {A = Text × Text} ([], s) (before, after) = some_unique refl (rw same at h) in
      let first : c ≡ separator = ground arith in
      rw first (ap (λ (q : Text × Text). q.0 ++ (separator ∷ q.1)) e)
  | inr other ↦
      with_first-some separator c s before after (split_once separator s)
        (split_once-append separator s) (rw other at h)
]

-- "read" or "write"
abbrev pub IsAccess : String × String → Type 0
IsAccess (_, value) = (value ≡ "read") ⊎ (value ≡ "write")

-- What the answer of GitHub says of the token, read at a time: it has a value, and an expiry with an
-- offset, later than that time.
pub record IsReported (fromisoformat : Text → Option Datetime) (now : Datetime)
    (value expires : Option String) (token : InstallationToken) : Type 0 where
  pub text : String
  pub value_of : value ≡ some token.value
  pub expires_of : expires ≡ some text
  pub parsed : fromisoformat (normalized (codes text)) ≡ some token.expires_at
  pub some_value : token.value ≢ ""
  pub aware : token.expires_at.aware ≡ true
  pub live : now.instant < token.expires_at.instant

-- The file is a regular one, root's if that is asked for, and closed to group and others.
pub record IsPrivate (config : GithubAppConfig) (info : FileInfo) : Type 0 where
  pub regular : info.is_regular ≡ true
  pub root_owned : config.require_root_owned_key ≡ true → info.owner_uid ≡ 0
  pub closed : info.mode % 64 ≡ 0

module _ {World : Type 0} (config : GithubAppConfig) (host : AppHost World) (now : Datetime)
    (s : World) where
  -- The worlds in which the key file was looked at, and the claims were signed.
  abbrev pub after_clock : World
  after_clock = (host.clock s).1

  abbrev pub signing : Call GithubError World String
  signing =
      host.encode_jwt ((now.instant - minutes 1) / 1_000_000)
        ((now.instant + minutes 9) / 1_000_000) config.app_id

  abbrev pub after_stat : World
  after_stat = (host.stat_key after_clock).1

  -- The token is what GitHub answered to one request of the configured installation, for the
  -- repository that is named and with these permissions alone. The request was signed at the time
  -- of the clock, with a key file that was found to be private.
  pub record IsScoped (resource : String) (permissions : Permissions) (token : InstallationToken)
      : Type 0 where
    pub owner : Text
    pub repository : Text
    pub named : codes resource ≡ owner ++ (b'/' ∷ repository)
    pub of_installation : host.casefold owner ≡ host.casefold (codes config.installation_owner)
    pub reduced : permissions ≢ []
    pub accesses : All IsAccess permissions
    pub clock : (host.clock s).0 ≡ ok now
    pub aware : now.aware ≡ true
    pub info : FileInfo
    pub found : (host.stat_key after_clock).0 ≡ ok (some info)
    pub private_key : IsPrivate config info
    pub encoded : String
    pub signed : (signing after_stat).0 ≡ ok encoded
    pub reply : HttpReply
    pub asked :
        (host.post_access_tokens encoded config.installation_id repository permissions
          (signing after_stat).1).0
        ≡ ok reply
    pub payload : Json
    pub parsed : payload_of reply ≡ ok payload
    pub reported :
        IsReported host.fromisoformat now
          (as_text (get_if_object "token" (some payload)))
          (as_text (get_if_object "expires_at" (some payload)))
          token

both_parts-some :
    (parts : Option (Text × Text)) (owner repository : Text)
    → both_parts parts ≡ ok (owner, repository)
    → parts ≡ some (owner, repository)
both_parts-some none owner repository h = cc
both_parts-some (some (x, y)) owner repository h = elim (Bool-cases (is_empty x || is_empty y)) [
  | inl missing ↦ cc (rw missing at h)
  | inr both ↦ ap some (ok_unique {E = GithubError} refl (rw both at h))
]

split_repository-named :
    (resource : String) (owner repository : Text)
    → split_repository resource ≡ ok (owner, repository)
    → codes resource ≡ owner ++ (b'/' ∷ repository)
unfolding split_repository
split_repository-named resource owner repository h =
    split_once-append b'/' (codes resource) owner repository
      (both_parts-some (split_once b'/' (codes resource)) owner repository h)

accesses_of :
    (permissions : Permissions)
    → any is_unknown_access permissions ≡ false
    → All IsAccess permissions
accesses_of [] h = tt
accesses_of ((name, value) ∷ rest) h =
    let p = (or-false_iff (is_unknown_access (name, value)) _).0 h in
    (ground (arith, p.0, eq_iff value "read", eq_iff value "write"), accesses_of rest p.1)

live_token-live :
    (value : String) (expires_at now : Datetime) {token : InstallationToken}
    → live_token value expires_at now ≡ ok token
    → (value ≡ token.value)
      × (expires_at ≡ token.expires_at)
      × (token.expires_at.aware ≡ true)
      × (now.instant < token.expires_at.instant)
unfolding live_token
live_token-live value expires_at now {token} h =
    let (pass, made) = >>-eq-ok (checks (expiry_faults expires_at now)) _ h in
    let row = (checks_iff (expiry_faults expires_at now)).0 pass in
    let given : InstallationToken = record { value = value; expires_at = expires_at } in
    let same : given ≡ token = ok_unique {E = GithubError} refl made in
    subst
      (λ (t : InstallationToken).
        (value ≡ t.value)
        × (expires_at ≡ t.expires_at)
        × (t.expires_at.aware ≡ true)
        × (now.instant < t.expires_at.instant))
      same
      (
        refl,
        refl,
        (not-false_iff _).0 row.0,
        (leb-false_iff expires_at.instant now.instant).0 row.1.0,
      )

dated_token-live :
    (value : String) (now : Datetime) (parsed : Option Datetime) {token : InstallationToken}
    → dated_token value now parsed ≡ ok token
    → (value ≡ token.value)
      × (parsed ≡ some token.expires_at)
      × (token.expires_at.aware ≡ true)
      × (now.instant < token.expires_at.instant)
dated_token-live value now none h = cc
dated_token-live value now (some expires_at) h =
    let (same, date, aware, live) = live_token-live value expires_at now h in
    (same, ap some date, aware, live)

token_of-IsReported :
    (fromisoformat : Text → Option Datetime) (now : Datetime) (value expires : Option String)
    {token : InstallationToken}
    → token_of fromisoformat now value expires ≡ ok token
    → IsReported fromisoformat now value expires token
unfolding token_of
token_of-IsReported fromisoformat now none expires h = cc
token_of-IsReported fromisoformat now (some value) none h = cc
token_of-IsReported fromisoformat now (some value) (some expires) h =
    elim (Bool-cases (value == "")) [
      | inl missing ↦ cc (rw missing at h)
      | inr given ↦
          let (same, date, aware, live) = dated_token-live value now _ (rw given at h) in
          record {
            text = expires;
            value_of = ap some same;
            expires_of = refl;
            parsed = date;
            some_value = λ e. (text_eq-false_iff value "").0 given (same ∙ e);
            aware = aware;
            live = live;
          }
    ]

key_faults-IsPrivate :
    (config : GithubAppConfig) (info : FileInfo)
    → AllPass (key_faults config info)
    → IsPrivate config info
key_faults-IsPrivate config info p = record {
  regular = (not-false_iff _).0 p.0;
  root_owned = λ asked. let owned = p.1.0 in ground arith;
  closed = let shut = p.1.1.0 in ground arith;
}

module _ {World : Type 0} (config : GithubAppConfig) (host : AppHost World) where
  -- What the signing of the claims went through.
  app_jwt-returned :
      (now : Datetime) (w : World) {encoded : String}
      → (app_jwt config host now w).0 ≡ ok encoded
      → (info : FileInfo) × ((host.stat_key w).0 ≡ ok (some info))
        × IsPrivate config info
        × ((signing config host now w (host.stat_key w).1).0 ≡ ok encoded)
        × ((app_jwt config host now w).1 ≡ (signing config host now w (host.stat_key w).1).1)
  unfolding app_jwt lift
  app_jwt-returned now w h =
      let (found, looked, h₁, same₁) = bind_returned host.stat_key _ _ h in
      let (info, there, h₂, same₂) =
        bind_returned (lift (or_raise found GithubError.key_missing)) _ _ h₁ in
      let (_, pass, h₃, same₃) = bind_returned (lift (checks (key_faults config info))) _ _ h₂ in
      (
        info,
        looked ∙ ap ok (or_raise-eq-ok _ _ there),
        key_faults-IsPrivate config info ((checks_iff (key_faults config info)).0 pass),
        h₃,
        same₁ ∙ same₂ ∙ same₃,
      )

  -- Where `mint` returns a token, the resource is an owner of the installation and a repository,
  -- the permissions are not empty and each reads or writes; the key file that was looked at is a
  -- regular one, root-owned if that is asked for, and closed to group and others; the claims were
  -- signed for the time of the clock; the request under that signature names that repository and
  -- those permissions only; and the token is the one in the reply to it, with a value, and with
  -- the expiry in the reply, which is later than the time of the clock.
  pub mint-IsScoped :
      (resource : String) (permissions : Permissions) (s : World) (token : InstallationToken)
      → (mint config host resource permissions s).0 ≡ ok token
      → (now : Datetime) × IsScoped config host now s resource permissions token
  unfolding mint lift aware_time
  mint-IsScoped resource permissions s token h =
      let ((owner, repository), parts, h₁, _) = bind_returned _ _ s h in
      let (_, pass, h₂, _) =
        bind_returned (lift (checks (mint_faults host.casefold config owner permissions))) _ s h₁ in
      let (now, clock, h₃, _) = bind_returned host.clock _ s h₂ in
      let (_, aware, h₄, _) = bind_returned (lift (aware_time now)) _ _ h₃ in
      let (encoded, jwt, h₅, _) = bind_returned (app_jwt config host now) _ _ h₄ in
      let (reply, asked, h₆, _) =
        bind_returned
          (host.post_access_tokens encoded config.installation_id repository permissions) _ _ h₅ in
      let (payload, parsed, h₇, _) = bind_returned (lift (payload_of reply)) _ _ h₆ in
      let (info, found, private_key, signed, moved) = app_jwt-returned now (host.clock s).1 jwt in
      let row = (checks_iff (mint_faults host.casefold config owner permissions)).0 pass in
      let given = (or-false_iff (is_empty permissions) _).0 row.1.0 in
      (
        now,
        record {
          owner = owner;
          repository = repository;
          named = split_repository-named resource owner repository parts;
          of_installation = text_eq_sound _ _ ((not-false_iff _).0 row.0);
          reduced = λ e. cc (given.0, e);
          accesses = accesses_of permissions given.1;
          clock = clock;
          aware =
              (not-false_iff _).0
                ((checks_iff ((not now.aware, GithubError.naive_time) ∷ [])).0 aware).0;
          info = info;
          found = found;
          private_key = private_key;
          encoded = encoded;
          signed = signed;
          reply = reply;
          asked =
              subst
                (λ (w : World).
                  (host.post_access_tokens encoded config.installation_id repository permissions
                    w).0
                  ≡ ok reply)
                moved asked;
          payload = payload;
          parsed = parsed;
          reported = token_of-IsReported host.fromisoformat now _ _ h₇;
        },
      )
