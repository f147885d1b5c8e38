-- ===== src/Risk.antt =====
-- backend/app/core/risk_policy.py: `RiskPolicy.assess`. `search pattern command` is whether
-- `re.search` with `re.IGNORECASE` finds the pattern in the command. The fresh `assessment_id` and
-- the reading of `utc_now()` are arguments.
pub mod Rules
pub mod Policy
pub mod Strongest
use mama_ai.Prelude.{ℕ, String, Bool, true, false, List, not}
use mama_ai.Task.{RiskLevel}
use Rules.{PermissionDecision, allow, require_approval, deny}

pub record RiskAssessment : Type 0 where
  pub command : String
  pub risk_level : RiskLevel
  pub decision : PermissionDecision
  pub category : String
  pub reasons : List String
  pub matched_rules : List String
  pub assessment_id : String
  pub created_at : ℕ

-- `RiskAssessment.requires_approval`
abbrev pub needs_approval : PermissionDecision → Bool
needs_approval require_approval = true
needs_approval _ = false

-- `decision == PermissionDecision.DENY`
abbrev pub is_deny : PermissionDecision → Bool
is_deny deny = true
is_deny _ = false

-- `RiskAssessment.allowed`
unfoldable pub allowed : RiskAssessment → Bool
allowed a = not (is_deny a.decision)
