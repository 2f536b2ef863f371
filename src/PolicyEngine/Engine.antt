-- ===== src/PolicyEngine/Engine.antt =====
-- packages/policy-engine/src/engine.ts, with the records of packages/policy-engine/src/schema.ts
-- that it reads. The values of the closed sets (side effects, idempotency, approval) are texts.
pub mod Laws
use prime_system.Base.{
  ℕ, String, Bool, true, false, ◌&&◌, ◌||◌, List, [], ◌∷◌, ◌++◌, Option, none, some, if◌then◌else◌,
  ◌==◌, includes, every, any, find, map, not, length, ◌⧺◌,
}

pub record ActionDefinition : Type 0 where
  pub name : String
  pub side_effects : String
  pub idempotency : String
  pub approval : String
  pub capabilities : List String

pub record PolicyRequestContext : Type 0 where
  pub principal : String
  pub roles : List String
  pub allowed_capabilities : List String
  pub tenant : Option String
  pub workspace : Option String
  pub policy_ref : Option String

pub record PolicyMatch : Type 0 where
  pub actions : Option (List String)
  pub side_effects : Option (List String)
  pub idempotency : Option (List String)
  pub approval : Option (List String)
  pub principals : Option (List String)
  pub any_role : Option (List String)
  pub all_roles : Option (List String)
  pub any_capability : Option (List String)
  pub all_capabilities : Option (List String)
  pub requires_declared_capabilities : Bool
  pub tenants : Option (List String)
  pub workspaces : Option (List String)

pub data Effect : Type 0 where
  allow deny : Effect

-- `match` is `{}` where the document has none.
pub record PolicyRule : Type 0 where
  pub id : String
  pub effect : Effect
  pub description : Option String
  pub matching : PolicyMatch

pub record PolicySet : Type 0 where
  pub name : String
  pub version : String
  pub default_effect : Effect
  pub rules : List PolicyRule

-- A value of evidence is a text, or a number that is printed.
pub data EvidenceValue : Type 0 where
  text : String → EvidenceValue
  count : ℕ → EvidenceValue

pub record Evidence : Type 0 where
  pub kind : String
  pub value : EvidenceValue

pub record PolicyDecision : Type 0 where
  pub allowed : Bool
  pub reason : String
  pub evidence : List Evidence

pub record AxisOutcome : Type 0 where
  pub axis : String
  pub matched : Bool
  pub value : String

pub record PolicyRuleEvaluation : Type 0 where
  pub rule : PolicyRule
  pub matched : Bool
  pub axes : List AxisOutcome

pub record PolicyExplanation : Type 0 where
  pub set : String
  pub version : String
  pub evaluations : List PolicyRuleEvaluation
  pub decision : PolicyDecision

unfoldable pub holds_all : List String → List String → Bool
holds_all held required = every (λ one. includes held one) required

unfoldable pub holds_any : List String → List String → Bool
holds_any held required = any (λ one. includes held one) required

-- `values.join(",")`
abbrev join_from : String → List String → String
join_from s [] = s
join_from s (x ∷ xs) = join_from (s ⧺ "," ⧺ x) xs

abbrev pub join : List String → String
join [] = ""
join (x ∷ xs) = join_from x xs

-- `value ?? ""`
abbrev pub or_empty : Option String → String
or_empty none = ""
or_empty (some s) = s

-- One line of `axes`: nothing for an axis that the rule does not constrain.
unfoldable pub add :
    String → String → Option (List String) → (List String → Bool) → List AxisOutcome
add axis value none test = []
add axis value (some names) test = record { axis = axis; matched = test names; value = value } ∷ []

unfoldable pub axes : PolicyMatch → ActionDefinition → PolicyRequestContext → List AxisOutcome
axes m action context =
    let held = context.allowed_capabilities in
    let tenant = or_empty context.tenant in
    let workspace = or_empty context.workspace in
    add "actions" action.name m.actions (λ names. includes names action.name)
    ++ (add "sideEffects" action.side_effects m.side_effects
          (λ names. includes names action.side_effects)
        ++ (add "idempotency" action.idempotency m.idempotency
              (λ names. includes names action.idempotency)
            ++ (add "approval" action.approval m.approval (λ names. includes names action.approval)
                ++ (add "principals" context.principal m.principals
                      (λ names. includes names context.principal)
                    ++ (add "anyRole" (join context.roles) m.any_role (holds_any context.roles)
                        ++ (add "allRoles" (join context.roles) m.all_roles
                              (holds_all context.roles)
                            ++ (add "anyCapability" (join held) m.any_capability (holds_any held)
                                ++ (add "allCapabilities" (join held) m.all_capabilities
                                      (holds_all held)
                                    ++ (add "requiresDeclaredCapabilities"
                                          (join action.capabilities)
                                          (if m.requires_declared_capabilities
                                            then some action.capabilities
                                            else none)
                                          (holds_all held)
                                        ++ (add "tenants" tenant m.tenants
                                              (λ names. includes names tenant)
                                            ++ add "workspaces" workspace m.workspaces
                                                (λ names. includes names workspace)))))))))))

unfoldable pub evaluation :
    ActionDefinition → PolicyRequestContext → PolicyRule → PolicyRuleEvaluation
evaluation action context rule =
    let outcomes = axes rule.matching action context in
    record {
      rule = rule;
      matched = every (λ (one : AxisOutcome). one.matched) outcomes;
      axes = outcomes;
    }

abbrev pub denies : Effect → Bool
denies deny = true
denies allow = false

abbrev or_else {ℓ} : {A : Type ℓ} → Option A → Option A → Option A
or_else (some a) b = some a
or_else none b = b

-- A matching rule that denies, else the first matching rule.
unfoldable pub decisive : List PolicyRuleEvaluation → Option PolicyRuleEvaluation
decisive evaluations =
    or_else
      (find (λ (one : PolicyRuleEvaluation). one.matched && denies one.rule.effect) evaluations)
      (find (λ (one : PolicyRuleEvaluation). one.matched) evaluations)

abbrev effect_text : Effect → String
effect_text allow = "allow"
effect_text deny = "deny"

abbrev verb : Effect → String
verb allow = "allows"
verb deny = "denies"

abbrev described : String → String
described s = if s == "" then "" else ": " ⧺ s

abbrev said : String → EvidenceValue → Evidence
said kind value = record { kind = kind; value = value }

unfoldable pub decide_by :
    PolicySet
    → ActionDefinition
    → List Evidence
    → List PolicyRuleEvaluation
    → Option PolicyRuleEvaluation
    → PolicyDecision
decide_by set action evidence evaluations (some one) = record {
  allowed = not (denies one.rule.effect);
  reason =
      "Policy rule "
      ⧺ one.rule.id
      ⧺ " "
      ⧺ verb one.rule.effect
      ⧺ " "
      ⧺ action.name
      ⧺ described (or_empty one.rule.description);
  evidence =
      evidence
      ++ said "policy-rule" (text one.rule.id)
        ∷ said "policy-effect" (text (effect_text one.rule.effect))
        ∷ map (λ (o : AxisOutcome). said ("policy-match:" ⧺ o.axis) (text o.value)) one.axes;
}
decide_by set action evidence evaluations none = record {
  allowed = not (denies set.default_effect);
  reason =
      "No policy rule in "
      ⧺ set.name
      ⧺ " matches "
      ⧺ action.name
      ⧺ "; the set's declared default is "
      ⧺ effect_text set.default_effect;
  evidence =
      evidence
      ++ said "policy-default" (text (effect_text set.default_effect))
        ∷ said "policy-rules-evaluated" (count (length evaluations))
        ∷ [];
}

-- A request that claims another policy set.
unfoldable pub is_mismatch : PolicySet → PolicyRequestContext → Bool
is_mismatch set context =
    let claimed = or_empty context.policy_ref in not (claimed == "") && not (claimed == set.name)

unfoldable pub explain : PolicySet → ActionDefinition → PolicyRequestContext → PolicyExplanation
explain set action context =
    let set_evidence = said "policy-set" (text (set.name ⧺ "@" ⧺ set.version)) in
    let claimed = or_empty context.policy_ref in
    let unbound = if claimed == "" then said "policy-ref-unbound" (text set.name) ∷ [] else [] in
    let evaluations = map (evaluation action context) set.rules in
    if is_mismatch set context
    then record {
      set = set.name;
      version = set.version;
      evaluations = [];
      decision = record {
        allowed = false;
        reason = "Policy set mismatch: request claims " ⧺ claimed ⧺ ", engine holds " ⧺ set.name;
        evidence = set_evidence ∷ said "policy-ref-claimed" (text claimed) ∷ [];
      };
    }
    else record {
      set = set.name;
      version = set.version;
      evaluations = evaluations;
      decision = decide_by set action (set_evidence ∷ unbound) evaluations (decisive evaluations);
    }

unfoldable pub decide : PolicySet → ActionDefinition → PolicyRequestContext → PolicyDecision
unfolding explain
decide set action context = (explain set action context).decision

pub data ReferenceProblem : Type 0 where
  dangling_action_ref : (rule_id : String) → (name : String) → ReferenceProblem
  dangling_capability_ref : (rule_id : String) → (name : String) → ReferenceProblem

abbrev pub names_or_empty : Option (List String) → List String
names_or_empty none = []
names_or_empty (some names) = names

abbrev pub missing_names :
    (String → ReferenceProblem) → List String → List String → List ReferenceProblem
missing_names problem known [] = []
missing_names problem known (name ∷ names) =
    let rest = missing_names problem known names in
    if not (includes known name) then problem name ∷ rest else rest

unfoldable pub validate_rules : List String → List String → List PolicyRule → List ReferenceProblem
validate_rules actions capabilities [] = []
validate_rules actions capabilities (rule ∷ rules) =
    missing_names (dangling_action_ref rule.id) actions (names_or_empty rule.matching.actions)
    ++ (missing_names (dangling_capability_ref rule.id) capabilities (
          names_or_empty rule.matching.any_capability
          ++ names_or_empty rule.matching.all_capabilities)
        ++ validate_rules actions capabilities rules)

abbrev pub capabilities_of : List ActionDefinition → List String
capabilities_of [] = []
capabilities_of (a ∷ defs) = a.capabilities ++ capabilities_of defs

-- `definitions` are the actions of the model.
unfoldable pub validate_policy_set : PolicySet → List ActionDefinition → List ReferenceProblem
unfolding validate_rules
validate_policy_set set definitions =
    validate_rules (map (λ (a : ActionDefinition). a.name) definitions)
      (capabilities_of definitions) set.rules
