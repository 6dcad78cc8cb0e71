-- ===== src/Deployment/Promotion.antt =====
-- The copy of a deployment that `qualify_deployment` of src/forge_controller/deployment_policy.py makes:
-- its fields, and its metadata by key.
use hermes_dev_team_vm.Prelude.{
  Floats, ◌≡◌, inl, refl, Bool, true, false, List, [], ◌∷◌, lookup, arith, subst, eq_iff, ◌≢◌,
  String, none, some, ◌||◌, Bool-cases, inr, text_eq-false_iff, sym, ◌∙◌, ◌==◌,
}
use hermes_dev_team_vm.Models.{available, trial, promotional, CostClass}
use hermes_dev_team_vm.Deployment.{
  InferenceDeployment, DeploymentQualification, promoted, set_item, MetadataValue, flag,
  qualified_by, is_for_development,
}

lookup-set_item :
    {V : Type 0} (key : String) (value : V) (items : List (String × V))
    → lookup key (set_item key value items) ≡ some value
unfolding set_item
lookup-set_item key value [] = ground (arith, eq_iff key key)
lookup-set_item key value ((name, old) ∷ items) =
    ground (arith, eq_iff key key, lookup-set_item key value items)

lookup-set_item_other :
    {V : Type 0} (other key : String) (value : V) (items : List (String × V))
    → other ≢ key
    → lookup other (set_item key value items) ≡ lookup other items
unfolding set_item
lookup-set_item_other other key value [] ne =
    rw ((text_eq-false_iff key other).1 (λ e. ne (sym e))) refl
lookup-set_item_other other key value ((name, old) ∷ items) ne =
    let apart = (text_eq-false_iff key other).1 (λ e. ne (sym e)) in
    let later = lookup-set_item_other other key value items ne in
    elim (Bool-cases (name == key)) [
      | inl e ↦
          rw (e, apart, subst (λ x. (x == other) ≡ false) (sym ((eq_iff name key).0 e)) apart) refl
      | inr e ↦ rw (e, later) refl
    ]

-- A deployment at the cost of a trial or a promotion is for development only.
abbrev pub stays_for_development : Bool → CostClass → Bool
stays_for_development before trial = true
stays_for_development before promotional = true
stays_for_development before _ = before

-- The deployment in use, with what the qualification says of it, and the rest as it was.
abbrev pub in_use :
    {Score : Type 0}
    → InferenceDeployment Score
    → DeploymentQualification Score
    → List (String × MetadataValue)
    → InferenceDeployment Score
in_use deployment qualification metadata = record {
  deployment_id = deployment.deployment_id;
  provider = deployment.provider;
  model = deployment.model;
  account_ref = deployment.account_ref;
  tier = deployment.tier;
  endpoint = deployment.endpoint;
  credential_binding = deployment.credential_binding;
  enabled = true;
  state = available;
  retry_at = none;
  cost_class = qualification.cost_class;
  accepted_sensitivity = qualification.accepted_sensitivity;
  capability_scores = qualification.capability_scores;
  reliability = deployment.reliability;
  latency_score = deployment.latency_score;
  development_only = stays_for_development deployment.development_only qualification.cost_class;
  terms_evidence_ref = some qualification.terms_evidence_ref;
  metadata = metadata;
}

abbrev pub noted :
    {Score : Type 0}
    → List (String × MetadataValue)
    → DeploymentQualification Score
    → List (String × MetadataValue)
noted metadata qualification =
    set_item "qualification"
      (qualified_by true qualification.terms_evidence_ref qualification.notes)
      (set_item "probationary" (flag false) metadata)

-- Metadata that record the qualification and the end of the probation, and keep all else.
pub record IsNoted {Score : Type 0} (before : List (String × MetadataValue))
    (qualification : DeploymentQualification Score) (after : List (String × MetadataValue))
    : Type 0 where
  pub probation : lookup "probationary" after ≡ some (flag false)
  pub evidence :
      lookup "qualification" after
      ≡ some (qualified_by true qualification.terms_evidence_ref qualification.notes)
  pub others :
      (key : String)
      → key ≢ "probationary"
      → key ≢ "qualification"
      → lookup key after ≡ lookup key before

pub noted-IsNoted :
    {Score : Type 0} (metadata : List (String × MetadataValue))
    (qualification : DeploymentQualification Score)
    → IsNoted metadata qualification (noted metadata qualification)
noted-IsNoted metadata qualification =
    let begun = set_item "probationary" (flag false) metadata in
    record {
      probation =
          lookup-set_item_other "probationary" "qualification" _ begun
            ((text_eq-false_iff "probationary" "qualification").0 refl)
          ∙ lookup-set_item "probationary" (flag false) metadata;
      evidence = lookup-set_item "qualification" _ begun;
      others = λ key p q.
          lookup-set_item_other key "qualification" _ begun q
          ∙ lookup-set_item_other key "probationary" (flag false) metadata p;
    }

pub stays-for_development :
    (before : Bool) (cost : CostClass)
    → stays_for_development before cost ≡ (before || is_for_development cost)
unfolding is_for_development
stays-for_development before cost = ground arith

module _ {Score : Type 0} (floats : Floats Score) where
  pub in_use-promoted :
      (deployment : InferenceDeployment Score) (qualification : DeploymentQualification Score)
      → in_use deployment qualification (noted deployment.metadata qualification)
        ≡ promoted floats deployment qualification
  unfolding promoted
  in_use-promoted deployment qualification =
      rw (stays-for_development deployment.development_only qualification.cost_class) refl
