-- ===== src/Risk/Strongest.antt =====
-- backend/app/core/risk_policy.py: `RiskPolicy.assess` and the order of the rules.
use native.Mathlib.Bridge.{le_prop}
use mathlib.Core.HLevel.{×_prop}
use mathlib.Core.Logic.Or
use mathlib.Core.List.{Mem, mem-cons_self, mem-cons_of_mem, not-mem-nil, eq-or-mem_of_mem-cons}
use mama_ai.Prelude.{
  ℕ, String, ◌≤◌, ◌≡◌, ◌≢◌, refl, arith, Bool, true, false, Option, none, some, List, [], ◌∷◌, All,
  Bool-cases, inl, inr, subst, sym, Option-cases,
}
use mama_ai.Result.{ok}
use mama_ai.Task.{RiskLevel, low, medium, high, critical}
use mama_ai.Risk.{RiskAssessment}
use mama_ai.Risk.Rules.{PermissionDecision, allow, require_approval, deny, RiskRule, build_rules}
use mama_ai.Risk.Policy.{normalize_command, matches, first_match, assess_match, assess}

abbrev pub strictness : PermissionDecision → ℕ
strictness allow = 0
strictness require_approval = 1
strictness deny = 2

abbrev pub severity : RiskLevel → ℕ
severity low = 0
severity medium = 1
severity high = 2
severity critical = 3

-- A rule is no stronger than these bounds.
abbrev pub Within : ℕ → ℕ → RiskRule → Type 0
Within d l r = (strictness r.decision ≤ d) × (severity r.risk_level ≤ l)

-- No rule is stronger than one before it.
abbrev IsRanked : List RiskRule → Type 0
IsRanked [] = Unit
IsRanked (r ∷ rs) = All (Within (strictness r.decision) (severity r.risk_level)) rs × IsRanked rs

build_rules-IsRanked : IsRanked build_rules
unfolding build_rules
build_rules-IsRanked = omega arith

module _ (search : String → String → Bool) where
  -- Every rule that matches is within the bounds.
  abbrev pub Bounds : String → ℕ → ℕ → List RiskRule → Type 0
  Bounds text d l rules = All (λ r. matches search r text ≡ true → Within d l r) rules

  Bounds-All :
      (text : String) (d l : ℕ) (rules : List RiskRule)
      → All (Within d l) rules
      → Bounds text d l rules
  Bounds-All text d l [] h = tt
  Bounds-All text d l (r ∷ rs) h = (λ e. h.0, Bounds-All text d l rs h.1)

  strictness_of : Option RiskRule → ℕ
  strictness_of none = 0
  strictness_of (some r) = strictness r.decision

  severity_of : Option RiskRule → ℕ
  severity_of none = 0
  severity_of (some r) = severity r.risk_level

  first_match-Bounds :
      (text : String) (rules : List RiskRule)
      → IsRanked rules
      → let o = first_match search text rules in Bounds text (strictness_of o) (severity_of o) rules
  unfolding first_match strictness_of severity_of
  first_match-Bounds text [] h = tt
  first_match-Bounds text (r ∷ rs) h = elim (Bool-cases (matches search r text)) [
    | inl e ↦
        subst (λ o. Bounds text (strictness_of o) (severity_of o) (r ∷ rs)) (hit e)
          ((λ q. (omega arith, omega arith)), Bounds-All text _ _ rs h.0)
    | inr e ↦
        subst (λ o. Bounds text (strictness_of o) (severity_of o) (r ∷ rs)) (miss e)
          ((λ q. cc), first_match-Bounds text rs h.1)
  ]
    where
      hit : matches search r text ≡ true → some r ≡ first_match search text (r ∷ rs)
      hit e = rw e

      miss :
          matches search r text ≡ false
          → first_match search text rs ≡ first_match search text (r ∷ rs)
      miss e = rw e

  -- An assessment that is returned is that of the first match.
  assess-first_match :
      (command id : String) (now : ℕ) {a : RiskAssessment}
      → assess search command id now ≡ ok a
      → assess_match search
          (normalize_command command)
          id
          now
          (first_match search (normalize_command command) build_rules)
        ≡ a
  unfolding assess
  assess-first_match command id now h = ground arith

  assess_match-strictness :
      (text id : String) (now : ℕ) (o : Option RiskRule)
      → (strictness (assess_match search text id now o).decision ≡ strictness_of o)
        × (severity (assess_match search text id now o).risk_level ≡ severity_of o)
  unfolding assess_match strictness_of severity_of
  assess_match-strictness text id now none = (refl, refl)
  assess_match-strictness text id now (some r) = (refl, refl)

  assess-Bounds :
      (command id : String) (now : ℕ) {a : RiskAssessment}
      → assess search command id now ≡ ok a
      → Bounds
          (normalize_command command)
          (strictness a.decision)
          (severity a.risk_level)
          build_rules
  assess-Bounds command id now {a} h =
      let text = normalize_command command in
      let o = first_match search text build_rules in
      let (p, q) = assess_match-strictness text id now o in
      let e = assess-first_match command id now h in
      subst
        (λ (x : RiskAssessment).
          Bounds text (strictness x.decision) (severity x.risk_level) build_rules)
        e (rw (p, q) (first_match-Bounds text build_rules build_rules-IsRanked))

  Bounds-Mem :
      (text : String) (d l : ℕ) (rules : List RiskRule) (rule : RiskRule)
      → Mem rule rules
      → Bounds text d l rules
      → matches search rule text ≡ true
      → Within d l rule
  Bounds-Mem text d l [] rule m h e = absurd (not-mem-nil m)
  Bounds-Mem text d l (r ∷ rs) rule m h e =
      Or.elim (×_prop le_prop le_prop) (eq-or-mem_of_mem-cons m)
        (λ p. subst (Within d l) (sym p) (h.0 (subst (λ x. matches search x text ≡ true) p e)))
        (λ k. Bounds-Mem text d l rs rule k h.1 e)

  -- The assessment of a command that is not blank is at least as strict as the decision, and at
  -- least as severe as the risk level, of every rule of the policy whose pattern is found in the
  -- normalised command, although the policy stops at the first such rule.
  pub assess_strongest :
      (command id : String) (now : ℕ) {a : RiskAssessment} (rule : RiskRule)
      → assess search command id now ≡ ok a
      → Mem rule build_rules
      → matches search rule (normalize_command command) ≡ true
      → (strictness rule.decision ≤ strictness a.decision)
        × (severity rule.risk_level ≤ severity a.risk_level)
  assess_strongest command id now rule h m e =
      Bounds-Mem (normalize_command command) _ _ build_rules rule m (assess-Bounds command id now h)
        e

  first_match-Mem :
      (text : String) (rules : List RiskRule) {r : RiskRule}
      → first_match search text rules ≡ some r
      → Mem r rules × (matches search r text ≡ true)
  unfolding first_match
  first_match-Mem text [] h = absurd (ground arith)
  first_match-Mem text (x ∷ xs) {r} h = elim (Bool-cases (matches search x text)) [
    | inl e ↦
        let p : x ≡ r = ground arith in
        subst (λ y. Mem y (x ∷ xs) × (matches search y text ≡ true)) p (mem-cons_self, e)
    | inr e ↦
        let (m, q) = first_match-Mem text xs {r = r} (ground arith) in (mem-cons_of_mem x m, q)
  ]

  -- An assessment that does not simply allow its command has the decision, risk level and category
  -- of a rule of the policy whose pattern is found in the normalised command.
  pub assess-Mem :
      (command id : String) (now : ℕ) {a : RiskAssessment}
      → assess search command id now ≡ ok a
      → a.decision ≢ allow
      → (r : RiskRule) × Mem r build_rules
        × (matches search r (normalize_command command) ≡ true)
        × (a.decision ≡ r.decision)
        × (a.risk_level ≡ r.risk_level)
        × (a.category ≡ r.category)
  unfolding assess_match
  assess-Mem command id now {a} h n =
      elim (Option-cases (first_match search (normalize_command command) build_rules)) [
        | inl e ↦ absurd (ground (arith, assess-first_match command id now h))
        | inr (r, e) ↦
            let (m, q) = first_match-Mem (normalize_command command) build_rules e in
            let p = assess-first_match command id now h in
            (r, m, q, ground (arith, p), ground (arith, p), ground (arith, p))
      ]
