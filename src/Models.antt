-- ===== src/Models.antt =====
-- src/forge_controller/models.py: the enumerations that the components share.
use hermes_dev_team_vm.Prelude.{ℕ, eqb, Bool, true, ◌≡◌, ◌↔◌, arith}

pub data ProviderState : Type 0 where
  available throttled_short quota_exhausted credit_exhausted provider_degraded : ProviderState
  offline auth_failed policy_blocked quarantined : ProviderState

pub data CostClass : Type 0 where
  free_api free_credit local paid trial promotional unknown : CostClass

pub data Sensitivity : Type 0 where
  public internal confidential restricted : Sensitivity

pub data AuthorityLevel : Type 0 where
  l0 l1 l2 l3 : AuthorityLevel

pub data DecisionAction : Type 0 where
  yes_action no_action defer more_info : DecisionAction

pub data Capability : Type 0 where
  fast reasoning coding review research documentation tool_use : Capability

-- The place of a level in the enumeration decides equality.
abbrev pub rank : AuthorityLevel → ℕ
rank l0 = 0
rank l1 = 1
rank l2 = 2
rank l3 = 3

abbrev pub same_level : AuthorityLevel → AuthorityLevel → Bool
same_level a b = eqb (rank a) (rank b)

pub same_level_iff : (a b : AuthorityLevel) → (same_level a b ≡ true) ↔ (a ≡ b)
same_level_iff a b = ground arith

pub record DecisionClassification (Score : Type 0) : Type 0 where
  pub authority : AuthorityLevel
  pub autonomous : Bool
  pub defer_allowed : Bool
  pub score : Score

-- The place of a capability, and of a sensitivity, in its enumeration.
abbrev pub capability_place : Capability → ℕ
capability_place fast = 0
capability_place reasoning = 1
capability_place coding = 2
capability_place review = 3
capability_place research = 4
capability_place documentation = 5
capability_place tool_use = 6

abbrev pub sensitivity_place : Sensitivity → ℕ
sensitivity_place public = 0
sensitivity_place internal = 1
sensitivity_place confidential = 2
sensitivity_place restricted = 3
