-- ===== src/Examples/Risks.antt =====
-- Assessments with a search that knows two commands.
use mathlib.Core.List.{Mem, mem-cons_self}
use mama_ai.Prelude.{String, ◌≡◌, ◌≢◌, ◌≤◌, refl, arith, Bool, true, ◌==◌, ◌&&◌, ◌||◌, [], ◌∷◌}
use mama_ai.Result.{ok}
use mama_ai.Risk.{RiskAssessment}
use mama_ai.Task.{critical}
use mama_ai.Risk.Rules.{allow, deny, RiskRule, build_rules, credential_theft, file_deletion}
use mama_ai.Risk.Policy.{normalize_command, matches, assess}
use mama_ai.Risk.Strongest.{strictness, severity, assess_strongest, assess-Mem}

abbrev pub finds : String → String → Bool
finds pattern command =
    ((command == "steal passwords") && (pattern == credential_theft.pattern))
    || ((command == "delete the report") && (pattern == file_deletion.pattern))

abbrev pub theft : RiskAssessment
theft = record {
  command = "steal passwords";
  risk_level = critical;
  decision = deny;
  category = "credential_theft";
  reasons = "Requests to steal or extract private credentials are prohibited." ∷ [];
  matched_rules = credential_theft.pattern ∷ [];
  assessment_id = "x";
  created_at = 5;
}

pub theft_assessed : assess finds "steal passwords" "x" 5 ≡ ok theft
unfolding assess mama_ai.Text.is_empty normalize_command mama_ai.Text.Words.join_words
    mama_ai.Text.Words.words mama_ai.Text.strip mama_ai.Risk.Policy.assess_match
    mama_ai.Risk.Policy.first_match build_rules matches
theft_assessed = refl

theft_found : matches finds credential_theft (normalize_command "steal passwords") ≡ true
unfolding matches normalize_command mama_ai.Text.Words.join_words mama_ai.Text.Words.words
    mama_ai.Text.strip
theft_found = refl

theft_rule : Mem credential_theft build_rules
unfolding build_rules
theft_rule = mem-cons_self

theft_not_allowed : theft.decision ≢ allow
theft_not_allowed h = absurd (ground arith)

assess_strongest_example :
    (strictness credential_theft.decision ≤ strictness theft.decision)
    × (severity credential_theft.risk_level ≤ severity theft.risk_level)
assess_strongest_example =
    assess_strongest finds "steal passwords" "x" 5 {a = theft} credential_theft theft_assessed
      theft_rule theft_found

assess-Mem_example :
    (r : RiskRule) × Mem r build_rules
    × (matches finds r (normalize_command "steal passwords") ≡ true)
    × (theft.decision ≡ r.decision)
    × (theft.risk_level ≡ r.risk_level)
    × (theft.category ≡ r.category)
assess-Mem_example =
    assess-Mem finds "steal passwords" "x" 5 {a = theft} theft_assessed theft_not_allowed
