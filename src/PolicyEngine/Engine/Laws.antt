-- ===== src/PolicyEngine/Engine/Laws.antt =====
-- PolicyEngine.decide and validatePolicySet of packages/policy-engine/src/engine.ts.
use prime_system.Base.{
  String, ◌≡◌, refl, ap, ◌∙◌, ◌⊎◌, ◌↔◌, sym, Bool, true, false, not, ◌&&◌, ◌||◌, List, [], ◌∷◌,
  ◌++◌, none, some, if◌then◌else◌, includes, every, any, find, map, arith, Bool-cases, inl, inr,
}
use prime_system.PolicyEngine.Engine.{
  ActionDefinition, PolicyRequestContext, PolicyRule, PolicySet, PolicyRuleEvaluation, Evidence,
  evaluation, denies, decisive, decide_by, is_mismatch, explain, PolicyExplanation, decide,
  ReferenceProblem, dangling_action_ref, dangling_capability_ref, missing_names, names_or_empty,
  validate_rules, capabilities_of, validate_policy_set,
}

-- A rule that matches the request.
abbrev pub matches : ActionDefinition → PolicyRequestContext → PolicyRule → Bool
matches action context rule = (evaluation action context rule).matched

abbrev allows_by : Bool → List PolicyRuleEvaluation → Bool
allows_by fallback evaluations =
    not (any (λ (e : PolicyRuleEvaluation). e.matched && denies e.rule.effect) evaluations)
    && (any (λ (e : PolicyRuleEvaluation). e.matched) evaluations || fallback)

find-any :
    (p : PolicyRuleEvaluation → Bool) (es : List PolicyRuleEvaluation)
    → ((find p es ≡ none) × (any p es ≡ false))
      ⊎ ((e : PolicyRuleEvaluation) × (find p es ≡ some e) × (p e ≡ true) × (any p es ≡ true))
find-any p [] = inl (refl, refl)
find-any p (e ∷ es) = elim (Bool-cases (p e)) [
  | inl h ↦ inr (e, rw h refl, h, rw h refl)
  | inr h ↦ rw h (find-any p es)
]

-- The first match does not deny where no match does.
first-allows :
    (es : List PolicyRuleEvaluation) (e : PolicyRuleEvaluation)
    → any (λ (x : PolicyRuleEvaluation). x.matched && denies x.rule.effect) es ≡ false
    → find (λ (x : PolicyRuleEvaluation). x.matched) es ≡ some e
    → denies e.rule.effect ≡ false
first-allows [] e h k = ground arith
first-allows (x ∷ es) e h k = ground (arith, first-allows es e)

decide_by-decisive :
    (set : PolicySet) (action : ActionDefinition) (evidence : List Evidence)
    (all es : List PolicyRuleEvaluation)
    → (decide_by set action evidence all (decisive es)).allowed
      ≡ allows_by (not (denies set.default_effect)) es
unfolding decide_by decisive
decide_by-decisive set action evidence all es =
    elim (find-any (λ (x : PolicyRuleEvaluation). x.matched && denies x.rule.effect) es) [
      | inr (e, found, holds, some_deny) ↦ rw (found, some_deny) (ground (arith, holds))
      | inl (none_found, no_deny) ↦
          rw (none_found, no_deny)
            (elim (find-any (λ (x : PolicyRuleEvaluation). x.matched) es) [
              | inl (nothing, no_match) ↦ rw (nothing, no_match) refl
              | inr (e, found, holds, some_match) ↦
                  rw (found, some_match) (ground (arith, first-allows es e no_deny found))
            ])
    ]

any-map :
    (action : ActionDefinition) (context : PolicyRequestContext) (p : PolicyRuleEvaluation → Bool)
    (rules : List PolicyRule)
    → any p (map (evaluation action context) rules)
      ≡ any (λ rule. p (evaluation action context rule)) rules
any-map action context p [] = refl
any-map action context p (rule ∷ rules) =
    ap (λ b. p (evaluation action context rule) || b) (any-map action context p rules)

evaluation-rule :
    (action : ActionDefinition) (context : PolicyRequestContext) (rule : PolicyRule)
    → (evaluation action context rule).rule ≡ rule
unfolding evaluation
evaluation-rule action context rule = refl

allowed-if :
    (b : Bool) (x y : PolicyExplanation)
    → (if b then x else y).decision.allowed
      ≡ (not b && (b || y.decision.allowed) || b && x.decision.allowed)
allowed-if true x y = refl
allowed-if false x y = ground arith

-- A request is allowed exactly where it claims no other policy set, no matching rule denies it,
-- and some rule matches it or the set allows by default.
pub decide-deny_wins :
    (set : PolicySet) (action : ActionDefinition) (context : PolicyRequestContext)
    → (decide set action context).allowed ≡ (
        not (is_mismatch set context)
        && (not (
              any
                (λ (rule : PolicyRule). matches action context rule && denies rule.effect)
                set.rules)
            && (any (matches action context) set.rules || not (denies set.default_effect))))
unfolding decide explain evaluation
decide-deny_wins set action context =
    allowed-if (is_mismatch set context) _ _
    ∙ rw
        (
          decide_by-decisive set action _ (map (evaluation action context) set.rules)
              (map (evaluation action context) set.rules),
          any-map action context (λ (e : PolicyRuleEvaluation). e.matched && denies e.rule.effect)
              set.rules,
          any-map action context (λ (e : PolicyRuleEvaluation). e.matched) set.rules,
        )
        (ground arith)

is_nil : List ReferenceProblem → Bool
is_nil [] = true
is_nil (x ∷ xs) = false

is_nil-append : (xs ys : List ReferenceProblem) → is_nil (xs ++ ys) ≡ (is_nil xs && is_nil ys)
unfolding is_nil
is_nil-append [] ys = refl
is_nil-append (x ∷ xs) ys = refl

is_nil-missing_names :
    (problem : String → ReferenceProblem) (known names : List String)
    → is_nil (missing_names problem known names) ≡ every (includes known) names
unfolding is_nil
is_nil-missing_names problem known [] = refl
is_nil-missing_names problem known (name ∷ names) =
    ground (arith, is_nil-missing_names problem known names)

-- The names of a rule that the model has.
abbrev pub names_known : List String → List String → PolicyRule → Bool
names_known actions capabilities rule =
    every (includes actions) (names_or_empty rule.matching.actions)
    && every (includes capabilities) (
        names_or_empty rule.matching.any_capability
        ++ names_or_empty rule.matching.all_capabilities)

is_nil-validate_rules :
    (actions capabilities : List String) (rules : List PolicyRule)
    → is_nil (validate_rules actions capabilities rules)
      ≡ every (names_known actions capabilities) rules
unfolding validate_rules is_nil
is_nil-validate_rules actions capabilities [] = refl
is_nil-validate_rules actions capabilities (rule ∷ rules) =
    rw
      (
        is_nil-append
            (missing_names (dangling_action_ref rule.id) actions
              (names_or_empty rule.matching.actions))
            _,
        is_nil-append
            (missing_names (dangling_capability_ref rule.id) capabilities (
              names_or_empty rule.matching.any_capability
              ++ names_or_empty rule.matching.all_capabilities))
            _,
        is_nil-missing_names (dangling_action_ref rule.id) actions
            (names_or_empty rule.matching.actions),
        is_nil-missing_names (dangling_capability_ref rule.id) capabilities (
            names_or_empty rule.matching.any_capability
            ++ names_or_empty rule.matching.all_capabilities),
        is_nil-validate_rules actions capabilities rules,
      )
      (ground arith)

is_nil_iff : (xs : List ReferenceProblem) → (is_nil xs ≡ true) ↔ (xs ≡ [])
unfolding is_nil
is_nil_iff [] = ground arith
is_nil_iff (x ∷ xs) = ground arith

-- The check of a policy set reports nothing exactly where every action that a rule names is an
-- action of the model and every capability that it names is required by some action of the model.
pub validate_policy_set-clean :
    (set : PolicySet) (actions : List ActionDefinition)
    → (validate_policy_set set actions ≡ []) ↔ (
        every
          (names_known (map (λ (a : ActionDefinition). a.name) actions) (capabilities_of actions))
          set.rules
        ≡ true)
unfolding validate_policy_set
validate_policy_set-clean set actions =
    rw
      (sym (
        is_nil-validate_rules (map (λ (a : ActionDefinition). a.name) actions)
          (capabilities_of actions) set.rules))
      (let (there, back) = is_nil_iff (validate_policy_set set actions) in (back, there))
