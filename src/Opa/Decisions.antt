-- ===== src/Opa/Decisions.antt =====
-- What an evaluation writes to the decision log, and what its limits do not reach.
use authpilot.Common.{
  ℕ, String, ◌≡◌, ◌⊎◌, ◌∷◌, refl, sym, ap, ◌∙◌, Option, none, some, List, [], arith, Option-cases,
  inl, inr, eq_iff,
}
use authpilot.Common.GoMap.{GoMap, lookup, insert, values}
use authpilot.Domain.{User}
use authpilot.Personality.{Personality, registry}
use authpilot.Opa.{TenantBudget, TenantDecisionLog, OpaConfig, budget_for, Rego, eval}
use authpilot.Opa.Log.{DecisionEntry, effective_redact_fields, effective_scrub}
use authpilot.Opa.Input.{UserLookup, Resolved, resolved, unresolved, resolve_user}
use authpilot.Opa.Evaluate.{
  provider_results, provider_evaluation, handle_multi_provider, evaluate_policy, with_policy,
  evaluate,
}
use authpilot.Opa.Requests.{
  EvaluateRequest, PolicyLookup, named, tampered, not_named, no_store, lookup_failed, comparison,
  answered, compared,
}

-- no tenant's settings of the log reach its budget
budget_for-decision_log :
    (cfg : OpaConfig) (tenant_id : String) → (budget_for cfg tenant_id).decision_log ≡ none
unfolding budget_for
budget_for-decision_log cfg tenant_id = elim (Option-cases (lookup tenant_id cfg.tenant_budgets)) [
  | inl (ov, e) ↦ rw (e, budget_for) refl
  | inr e ↦ rw (e, budget_for) refl
]

abbrev overrides_of : Option DecisionEntry → Option TenantDecisionLog
overrides_of none = none
overrides_of (some entry) = entry.tenant_overrides

pub Resolved-cases :
    {A : Type 0} (r : Resolved A)
    → ((a : A) × (r ≡ resolved a)) ⊎ ((text : String) × (r ≡ unresolved text))
Resolved-cases (resolved a) = inl (a, refl)
Resolved-cases (unresolved text) = inr (text, refl)

module _ (cfg : OpaConfig) (rego : Rego) (users : UserLookup) where
  logged_overrides :
      (now : ℕ) (tenant_id : String) (req : EvaluateRequest) (version hash : String)
      → overrides_of (evaluate_policy cfg rego users now tenant_id req version hash).1 ≡ none
  unfolding evaluate_policy
  logged_overrides now tenant_id req version hash =
      ground (arith, budget_for-decision_log cfg tenant_id)

  stored_overrides :
      (now : ℕ) (tenant_id : String) (req : EvaluateRequest) (l : PolicyLookup)
      → overrides_of (with_policy cfg rego users now tenant_id req l).1 ≡ none
  unfolding with_policy
  stored_overrides now tenant_id req (named p) = logged_overrides now tenant_id _ _ _
  stored_overrides now tenant_id req tampered = refl
  stored_overrides now tenant_id req not_named = refl
  stored_overrides now tenant_id req no_store = refl
  stored_overrides now tenant_id req (lookup_failed text) = refl

  evaluate_overrides :
      (by_name : String → PolicyLookup) (now : ℕ) (tenant_id : String) (req : EvaluateRequest)
      → overrides_of (evaluate cfg rego users by_name now tenant_id req).1 ≡ none
  unfolding evaluate
  evaluate_overrides by_name now tenant_id req = ground (
    arith,
    logged_overrides now tenant_id req "inline" "",
    stored_overrides now tenant_id req (by_name req.policy_name),
  )

  -- The entry that an evaluation logs is redacted by the paths of the server and scrubbed by the setting of
  -- the server, whatever the tenant is: the paths and the setting of its own budget have no effect.
  pub evaluate-ignores_tenant_log :
      (by_name : String → PolicyLookup) (now : ℕ) (tenant_id : String) (req : EvaluateRequest)
      (entry : DecisionEntry)
      → (evaluate cfg rego users by_name now tenant_id req).1 ≡ some entry
      → (effective_redact_fields cfg.decision_log entry.tenant_overrides
          ≡ cfg.decision_log.redact_fields)
        × (effective_scrub cfg.decision_log entry.tenant_overrides
            ≡ cfg.decision_log.scrub_policy_credentials)
  unfolding effective_redact_fields effective_scrub
  evaluate-ignores_tenant_log by_name now tenant_id req entry logged =
      let nothing : entry.tenant_overrides ≡ none =
        sym (ap overrides_of logged) ∙ evaluate_overrides by_name now tenant_id req in
      rw nothing (refl, refl)

-- the settings of a server with other limits on the bytes and other budgets of tenants
abbrev pub with_limits : ℕ → ℕ → GoMap TenantBudget → OpaConfig → OpaConfig
with_limits policy_bytes data_bytes budgets cfg = record cfg {
  max_policy_bytes = policy_bytes;
  max_data_bytes = data_bytes;
  tenant_budgets = budgets;
}

module _ (cfg : OpaConfig) (rego : Rego) (users : UserLookup) (policy_bytes data_bytes : ℕ)
    (budgets : GoMap TenantBudget) where
  other_results :
      (req : EvaluateRequest) (user : User) (ps : List Personality)
      → provider_results (with_limits policy_bytes data_bytes budgets cfg) rego users req user ps
        ≡ provider_results cfg rego users req user ps
  unfolding provider_results provider_evaluation eval
  other_results req user [] = refl
  other_results req user (p ∷ ps) = ap (insert p.id _) (other_results req user ps)

  other_handled :
      (now : ℕ) (req : EvaluateRequest)
      → handle_multi_provider (with_limits policy_bytes data_bytes budgets cfg) rego users now req
        ≡ handle_multi_provider cfg rego users now req
  unfolding handle_multi_provider
  other_handled now req = elim (Resolved-cases (resolve_user users req.user_id)) [
    | inl (user, e) ↦
        rw (e, handle_multi_provider)
          (ap (λ r. answered 200 (compared (comparison now r)))
            (other_results req user (values registry)))
    | inr (text, e) ↦ rw (e, handle_multi_provider) refl
  ]

  other_policy :
      (now : ℕ) (tenant_id : String) (req : EvaluateRequest) (version hash : String)
      → req.provider ≡ "all"
      → evaluate_policy
          (with_limits policy_bytes data_bytes budgets cfg)
          rego
          users
          now
          tenant_id
          req
          version
          hash
        ≡ evaluate_policy cfg rego users now tenant_id req version hash
  unfolding evaluate_policy
  other_policy now tenant_id req version hash all =
      rw ((eq_iff req.provider "all").1 all, evaluate_policy)
        (ap (λ x. (x, none)) (other_handled now req))

  other_stored :
      (now : ℕ) (tenant_id : String) (req : EvaluateRequest) (l : PolicyLookup)
      → req.provider ≡ "all"
      → with_policy (with_limits policy_bytes data_bytes budgets cfg) rego users now tenant_id req l
        ≡ with_policy cfg rego users now tenant_id req l
  unfolding with_policy
  other_stored now tenant_id req (named p) all =
      other_policy now tenant_id (record req { policy = p.content }) _ _ all
  other_stored now tenant_id req tampered all = refl
  other_stored now tenant_id req not_named all = refl
  other_stored now tenant_id req no_store all = refl
  other_stored now tenant_id req (lookup_failed text) all = refl

  -- A request for every provider is answered in the same way whatever the limits on the bytes of the policy
  -- and the data and the budgets of the tenants are: it is never refused for its size, and no tenant's
  -- deadlines apply.
  pub evaluate_all-unlimited :
      (by_name : String → PolicyLookup) (now : ℕ) (tenant_id : String) (req : EvaluateRequest)
      → req.provider ≡ "all"
      → evaluate
          (with_limits policy_bytes data_bytes budgets cfg)
          rego
          users
          by_name
          now
          tenant_id
          req
        ≡ evaluate cfg rego users by_name now tenant_id req
  unfolding evaluate
  evaluate_all-unlimited by_name now tenant_id req all = ground (
    arith,
    other_policy now tenant_id req "inline" "" all,
    other_stored now tenant_id req (by_name req.policy_name) all,
  )
