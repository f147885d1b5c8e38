-- ===== src/Risk/Policy.antt =====
-- backend/app/core/risk_policy.py: the choice of the rule.
use mama_ai.Prelude.{ℕ, String, Bool, Option, none, some, List, [], ◌∷◌, if◌then◌else◌}
use mama_ai.Text.{strip, is_empty}
use mama_ai.Text.Words.{words, join_words}
use mama_ai.Result.{value_error, Result, ok, err}
use mama_ai.Task.{low}
use mama_ai.Risk.{RiskAssessment}
use mama_ai.Risk.Rules.{allow, RiskRule, build_rules}

-- `" ".join(command.strip().split())`
unfoldable pub normalize_command : String → String
normalize_command command = join_words (words (strip command))

module _ (search : String → String → Bool) where
  -- `RiskRule.matches`
  unfoldable pub matches : RiskRule → String → Bool
  matches rule command = search rule.pattern command

  -- the loop `for rule in self._rules`
  unfoldable pub first_match : String → List RiskRule → Option RiskRule
  first_match command [] = none
  first_match command (rule ∷ rules) =
      if matches rule command then some rule else first_match command rules

  -- the assessment that is returned for a match, or for none
  unfoldable pub assess_match : String → String → ℕ → Option RiskRule → RiskAssessment
  assess_match command assessment_id now (some rule) = record {
    command = command;
    risk_level = rule.risk_level;
    decision = rule.decision;
    category = rule.category;
    reasons = rule.reason ∷ [];
    matched_rules = rule.pattern ∷ [];
    assessment_id = assessment_id;
    created_at = now;
  }
  assess_match command assessment_id now none = record {
    command = command;
    risk_level = low;
    decision = allow;
    category = "normal_operation";
    reasons = "No sensitive or destructive operation was detected." ∷ [];
    matched_rules = [];
    assessment_id = assessment_id;
    created_at = now;
  }

  -- `RiskPolicy.assess`
  unfoldable pub assess : String → String → ℕ → Result RiskAssessment
  assess command assessment_id now =
      let text = normalize_command command in
      if is_empty text
      then err (value_error ("Risk assessment command cannot be empty." ∷ []))
      else ok (assess_match text assessment_id now (first_match text build_rules))
