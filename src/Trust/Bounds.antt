-- ===== src/Trust/Bounds.antt =====
-- Lower bounds on the risk, the taint and the sensitivity that src/forge_controller/trust_gateway.py computes for an
-- envelope.
use hermes_dev_team_vm.Prelude.{
  ◌≤◌, ◌≡◌, refl, String, Bool, true, false, ◌&&◌, ◌||◌, Option, none, some, List, [], ◌∷◌, ltb,
  ◌==◌, is_empty, All, All-map, or-true, member, member-insert_sorted, member-union_sorted, ok,
  arith, if◌then◌else◌,
}
use hermes_dev_team_vm.Models.{Sensitivity}
use hermes_dev_team_vm.Trust.{
  TrustClass, untrusted_external, suspicious, trust_risk, sensitivity_risk, trust_value, trust_of,
  SourceDescriptor, is_external, default_source_trust, InjectionFinding, TrustEnvelope, worst_trust,
  max_sensitivity, parents_taint, parents_sensitivity, add_if, base_trust, suspect, floor_external,
  ingest_taint, effective_trust,
}

worst_trust-ge_best :
    (best : TrustClass) (values : List TrustClass)
    → trust_risk best ≤ trust_risk (worst_trust best values)
unfolding worst_trust
worst_trust-ge_best best [] = omega arith
worst_trust-ge_best best (v ∷ vs) =
    ground (arith, worst_trust-ge_best best vs, worst_trust-ge_best v vs)

pub worst_trust-ge :
    (best : TrustClass) (values : List TrustClass)
    → All (λ v. trust_risk v ≤ trust_risk (worst_trust best values)) values
unfolding worst_trust
worst_trust-ge best [] = tt
worst_trust-ge best (v ∷ vs) = (
  ground (arith, worst_trust-ge_best best vs, worst_trust-ge_best v vs),
  worst_trust-ge (if ltb (trust_risk best) (trust_risk v) then v else best) vs,
)

pub trust_of-trust_value : (t : TrustClass) → trust_of (trust_value t) ≡ ok t
unfolding trust_of
trust_of-trust_value TrustClass.trusted_owner = refl
trust_of-trust_value _ = refl

member-add_if :
    (x : String) (test : Bool) (tag : String) (set : List String)
    → member x (add_if test tag set) ≡ (test && tag == x || member x set)
unfolding add_if
member-add_if x true tag set = member-insert_sorted x tag set
member-add_if x false tag set = refl

parents_sensitivity-ge_start :
    (s : Sensitivity) (parents : List TrustEnvelope)
    → sensitivity_risk s ≤ sensitivity_risk (parents_sensitivity s parents)
unfolding parents_sensitivity max_sensitivity
parents_sensitivity-ge_start s [] = omega arith
parents_sensitivity-ge_start s (p ∷ ps) =
    ground (arith, parents_sensitivity-ge_start (max_sensitivity s p.data_sensitivity) ps)

pub parents_sensitivity-ge :
    (s : Sensitivity) (parents : List TrustEnvelope)
    → All
        (λ p.
          sensitivity_risk p.data_sensitivity ≤ sensitivity_risk (parents_sensitivity s parents))
        parents
unfolding parents_sensitivity max_sensitivity
parents_sensitivity-ge s [] = tt
parents_sensitivity-ge s (p ∷ ps) = (
  ground (arith, parents_sensitivity-ge_start (max_sensitivity s p.data_sensitivity) ps),
  parents_sensitivity-ge (max_sensitivity s p.data_sensitivity) ps,
)

-- A tag of a parent is a tag that the parents hand down.
pub parents_taint-member :
    (x : String) (parents : List TrustEnvelope)
    → All (λ p. member x p.taint ≡ true → member x (parents_taint parents) ≡ true) parents
unfolding parents_taint
parents_taint-member x [] = tt
parents_taint-member x (p ∷ ps) = (
  λ h. rw (member-union_sorted, h),
  All-map ps (λ q h m. ground (arith, member-union_sorted x p.taint (parents_taint ps), h m))
      (parents_taint-member x ps),
)

pub ingest_taint-keeps :
    (x : String) (source : SourceDescriptor) (parents : List TrustEnvelope)
    (findings : List InjectionFinding)
    → member x (parents_taint parents) ≡ true
    → member x (ingest_taint source parents findings) ≡ true
unfolding ingest_taint
ingest_taint-keeps x source parents findings h = simp (member-add_if, h, or-true)

pub ingest_taint-external :
    (source : SourceDescriptor) (parents : List TrustEnvelope) (findings : List InjectionFinding)
    → is_external source.kind ≡ true
    → member "external_content" (ingest_taint source parents findings) ≡ true
unfolding ingest_taint
ingest_taint-external source parents findings h = simp (member-add_if, h, or-true)

suspect-ge :
    (findings : List InjectionFinding) (t : TrustClass)
    → trust_risk t ≤ trust_risk (suspect findings t)
unfolding suspect
suspect-ge [] t = omega arith
suspect-ge (f ∷ fs) t = worst_trust-ge_best t (suspicious ∷ [])

floor_external-ge :
    (taint : List String) (t : TrustClass) → trust_risk t ≤ trust_risk (floor_external taint t)
unfolding floor_external
floor_external-ge taint t = ground arith

module _ (source : SourceDescriptor) (requested : Option TrustClass) (parents : List TrustClass)
    (findings : List InjectionFinding) (taint : List String) where
  pub effective-ge_base :
      trust_risk (base_trust source.kind requested parents)
      ≤ trust_risk (effective_trust source requested parents findings taint)
  unfolding effective_trust
  effective-ge_base =
      let t = base_trust source.kind requested parents in
      omega (arith, suspect-ge findings t, floor_external-ge taint (suspect findings t))

  pub effective-ge_default :
      trust_risk (default_source_trust source.kind)
      ≤ trust_risk (effective_trust source requested parents findings taint)
  unfolding base_trust
  effective-ge_default = omega (
    arith,
    effective-ge_base,
    worst_trust-ge_best (default_source_trust source.kind) (
        (elim requested as (λ _. TrustClass) [
          | none ↦ default_source_trust source.kind
          | some t ↦ t
        ])
        ∷ parents),
  )

  pub effective-ge_parents :
      All
        (λ p. trust_risk p ≤ trust_risk (effective_trust source requested parents findings taint))
        parents
  unfolding base_trust
  effective-ge_parents =
      All-map parents (λ p h. omega (arith, effective-ge_base))
        (worst_trust-ge (default_source_trust source.kind) (
          (elim requested as (λ _. TrustClass) [
            | none ↦ default_source_trust source.kind
            | some t ↦ t
          ])
          ∷ parents)).1

  pub effective-ge_external :
      member "external_content" taint ≡ true
      → trust_risk untrusted_external
        ≤ trust_risk (effective_trust source requested parents findings taint)
  unfolding effective_trust floor_external
  effective-ge_external h = ground arith

pub effective-ge_findings :
    (source : SourceDescriptor) (requested : Option TrustClass) (parents : List TrustClass)
    (findings : List InjectionFinding) (taint : List String)
    → is_empty findings ≡ false
    → trust_risk suspicious ≤ trust_risk (effective_trust source requested parents findings taint)
unfolding effective_trust suspect
effective-ge_findings source requested parents [] taint h = cc
effective-ge_findings source requested parents (f ∷ fs) taint h =
    let t = base_trust source.kind requested parents in
    omega (
      arith,
      (worst_trust-ge t (suspicious ∷ [])).0,
      floor_external-ge taint (worst_trust t (suspicious ∷ [])),
    )
