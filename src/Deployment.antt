-- ===== src/Deployment.antt =====
-- src/forge_controller/deployment_policy.py, and the deployments of contracts.py and repository.py: how a
-- discovered model comes into use.
pub mod Promotion
pub mod Gates
mod Samples
use hermes_dev_team_vm.Prelude.{
  Floats, String, Bool, true, false, not, ◌&&◌, ◌||◌, Option, none, some, List, [], ◌∷◌, all,
  lookup, ◌==◌, if◌then◌else◌, Result, ok, err, ◌>>=◌, ◌>>◌, checks, Datetime,
}
use hermes_dev_team_vm.Models.{
  ProviderState, quarantined, available, CostClass, trial, promotional, Sensitivity, Capability,
}
use hermes_dev_team_vm.Routing.Placement.{InferenceDeploymentRow}

-- A value of the metadata: a Boolean, a qualification, or any other JSON.
pub data MetadataValue : Type 0 where
  flag : Bool → MetadataValue
  qualified_by : Bool → String → List String → MetadataValue
  other_json : String → MetadataValue

pub record InferenceDeployment (Score : Type 0) : Type 0 where
  pub deployment_id : String
  pub provider : String
  pub model : String
  pub account_ref : Option String
  pub tier : String
  pub endpoint : String
  pub credential_binding : Option String
  pub enabled : Bool
  pub state : ProviderState
  pub retry_at : Option Datetime
  pub cost_class : CostClass
  pub accepted_sensitivity : List Sensitivity
  pub capability_scores : List (Capability × Score)
  pub reliability : Score
  pub latency_score : Score
  pub development_only : Bool
  pub terms_evidence_ref : Option String
  pub metadata : List (String × MetadataValue)

pub record DeploymentQualification (Score : Type 0) : Type 0 where
  pub terms_evidence_ref : String
  pub smoke_test_passed : Bool
  pub accepted_sensitivity : List Sensitivity
  pub capability_scores : List (Capability × Score)
  pub cost_class : CostClass
  pub notes : List String

-- `DeploymentQualificationError`, by message.
pub data DeploymentQualificationError : Type 0 where
  not_quarantined inactive smoke_test_missing no_positive_score : DeploymentQualificationError

unfoldable pub is_quarantined : ProviderState → Bool
is_quarantined quarantined = true
is_quarantined _ = false

unfoldable pub is_for_development : CostClass → Bool
is_for_development trial = true
is_for_development promotional = true
is_for_development _ = false

-- metadata.get(...) is False
abbrev pub is_false : Option MetadataValue → Bool
is_false (some (flag false)) = true
is_false _ = false

-- {**metadata, key: value}: the key keeps its place, or comes last.
unfoldable pub set_item : {V : Type 0} → String → V → List (String × V) → List (String × V)
set_item key value [] = (key, value) ∷ []
set_item key value ((name, old) ∷ items) =
    let later = set_item key value items in
    if name == key then (key, value) ∷ items else (name, old) ∷ later

module _ {Score : Type 0} (floats : Floats Score) where
  abbrev pub qualification_faults :
      InferenceDeployment Score
      → DeploymentQualification Score
      → List (Bool × DeploymentQualificationError)
  qualification_faults deployment qualification =
      (not (is_quarantined deployment.state) || deployment.enabled, not_quarantined)
      ∷ (is_false (lookup "discovered_active" deployment.metadata), inactive)
      ∷ (not qualification.smoke_test_passed, smoke_test_missing)
      ∷ (
        not (
            all (λ (_, score). not (floats.at_most score (floats.hundredths 0)))
              qualification.capability_scores),
        no_positive_score,
      )
      ∷ []

  -- deployment.model_copy(update={...})
  unfoldable pub promoted :
      InferenceDeployment Score → DeploymentQualification Score → InferenceDeployment Score
  promoted deployment qualification = record deployment {
    enabled = true;
    state = available;
    retry_at = none;
    cost_class = qualification.cost_class;
    accepted_sensitivity = qualification.accepted_sensitivity;
    capability_scores = qualification.capability_scores;
    development_only = deployment.development_only || is_for_development qualification.cost_class;
    terms_evidence_ref = some qualification.terms_evidence_ref;
    metadata =
        set_item "qualification"
          (qualified_by true qualification.terms_evidence_ref qualification.notes)
          (set_item "probationary" (flag false) deployment.metadata);
  }

  unfoldable pub qualify_deployment :
      InferenceDeployment Score
      → DeploymentQualification Score
      → Result DeploymentQualificationError (InferenceDeployment Score)
  qualify_deployment deployment qualification = do
    checks (qualification_faults deployment qualification)
    ok (promoted deployment qualification)

-- upsert_deployment, with _deployment_values: the row of a deployment
unfoldable pub row_of : {Score : Type 0} → InferenceDeployment Score → InferenceDeploymentRow Score
row_of deployment = record {
  deployment_id = deployment.deployment_id;
  provider = deployment.provider;
  model = deployment.model;
  account_ref = deployment.account_ref;
  tier = deployment.tier;
  endpoint = deployment.endpoint;
  credential_binding = deployment.credential_binding;
  enabled = deployment.enabled;
  state = deployment.state;
  retry_at = deployment.retry_at;
  cost_class = deployment.cost_class;
  accepted_sensitivity = deployment.accepted_sensitivity;
  capability_scores = deployment.capability_scores;
  reliability = deployment.reliability;
  latency_score = deployment.latency_score;
  development_only = deployment.development_only;
  terms_evidence_ref = deployment.terms_evidence_ref;
}
