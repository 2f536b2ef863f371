-- ===== src/PolicyEngine/Examples.antt =====
-- Concrete inputs of the policy engine.
use prime_system.Base.{◌≡◌, ◌↔◌, true, false, not, ◌&&◌, ◌||◌, [], ◌∷◌, none, some, any, every}
use prime_system.PolicyEngine.Engine.{
  ActionDefinition, PolicyRequestContext, PolicyMatch, PolicyRule, PolicySet, allow, deny, denies,
  is_mismatch, decide, validate_policy_set,
}
use prime_system.PolicyEngine.Engine.Laws.{
  matches, names_known, decide-deny_wins, validate_policy_set-clean,
}

abbrev delete_run : ActionDefinition
delete_run = record {
  name = "delete-run";
  side_effects = "external-write";
  idempotency = "required";
  approval = "none";
  capabilities = "write:runs" ∷ [];
}

abbrev anything : PolicyMatch
anything = record {
  actions = none;
  side_effects = none;
  idempotency = none;
  approval = none;
  principals = none;
  any_role = none;
  all_roles = none;
  any_capability = none;
  all_capabilities = none;
  requires_declared_capabilities = true;
  tenants = none;
  workspaces = none;
}

-- Anyone with the capability may, but no guest may.
abbrev rules : PolicySet
rules = record {
  name = "runs";
  version = "1.0.0";
  default_effect = deny;
  rules =
      record { id = "capable"; effect = allow; description = none; matching = anything }
      ∷ record {
        id = "guests";
        effect = deny;
        description = some "guests may not";
        matching = record anything { any_role = some ("guest" ∷ []) };
      }
      ∷ [];
}

abbrev guest : PolicyRequestContext
guest = record {
  principal = "p";
  roles = "guest" ∷ [];
  allowed_capabilities = "write:runs" ∷ [];
  tenant = none;
  workspace = none;
  policy_ref = some "runs";
}

decide-deny_wins_example : (decide rules delete_run guest).allowed ≡ (
    not (is_mismatch rules guest)
    && (not (
          any
            (λ (rule : PolicyRule). matches delete_run guest rule && denies rule.effect)
            rules.rules)
        && (any (matches delete_run guest) rules.rules || false)))
decide-deny_wins_example = decide-deny_wins rules delete_run guest

validate_policy_set-clean_example :
    (validate_policy_set rules (delete_run ∷ []) ≡ [])
    ↔ (every (names_known ("delete-run" ∷ []) ("write:runs" ∷ [])) rules.rules ≡ true)
validate_policy_set-clean_example = validate_policy_set-clean rules (delete_run ∷ [])
