-- ===== src/Opa/Evaluate.antt =====
-- The handlers that evaluate a policy: one check, every provider, a batch.
use Prim.Native.String
use authpilot.Common.{
  ℕ, String, false, not, ◌&&◌, Option, none, some, List, [], ◌∷◌, ◌==◌, if◌then◌else◌,
}
use authpilot.Common.GoMap.{GoMap, insert, values}
use authpilot.Domain.{Value, User}
use authpilot.Domain.Json.{fields_of}
use authpilot.Personality.{Personality, registry}
use authpilot.Opa.{OpaConfig, budget_for, EvalOptions, result, failed, Rego, eval, query_or_default}
use authpilot.Opa.Log.{DecisionEntry}
use authpilot.Opa.Input.{build_input, UserLookup, resolved, unresolved, resolve_user, user_document}
use authpilot.Opa.Requests.{
  EvaluateAnswer, EvaluateRequest, EvaluateResponse, OpaAnswer, PolicyLookup, ProviderResult,
  answered, apply_timeout_override, build_evaluate_response, build_input_for_request, compared,
  comparison, data_bytes, is_empty, is_over, limit_text, lookup_failed, named, no_store, not_named,
  opa_error, provider_result, single, tampered, validate_evaluate_req, write_eval_error,
}

module _ (cfg : OpaConfig) (rego : Rego) (users : UserLookup) where
  unfoldable pub provider_input : EvaluateRequest → User → Personality → GoMap Value
  provider_input req user p =
      build_input (("user", user_document p user) ∷ []) req.action req.resource req.context

  -- one of the concurrent evaluations of `handleMultiProvider`, with no timeouts of its own
  unfoldable pub provider_evaluation : EvaluateRequest → User → Personality → ProviderResult
  unfolding provider_input
  provider_evaluation req user p = provider_result (
      eval cfg rego (record {
        policy_text = req.policy;
        data_map = req.data_map;
        input = provider_input req user p;
        query = query_or_default req.query;
        with_trace = false;
        compile_timeout = 0;
        eval_timeout = 0;
      }))

  -- the results by the IDs of the personalities, in the order in which they end
  unfoldable pub provider_results : EvaluateRequest → User → List Personality → GoMap ProviderResult
  provider_results req user [] = []
  provider_results req user (p ∷ ps) =
      insert p.id (provider_evaluation req user p) (provider_results req user ps)

  unfoldable pub handle_multi_provider : ℕ → EvaluateRequest → OpaAnswer EvaluateAnswer
  unfolding provider_results comparison
  handle_multi_provider now req = elim (resolve_user users req.user_id) [
    | unresolved text ↦ opa_error 400 "validation_error" (String.◌++◌ "user_id: " text)
    | resolved user ↦
        answered 200 (compared (comparison now (provider_results req user (values registry))))
  ]

  -- `evaluateHandler` from the choice of the policy on: the answer, and the entry of the decision log
  unfoldable pub evaluate_policy :
      ℕ
      → String
      → EvaluateRequest
      → (policy_version content_hash : String) → OpaAnswer EvaluateAnswer × Option DecisionEntry
  unfolding handle_multi_provider build_input_for_request apply_timeout_override
      build_evaluate_response
  evaluate_policy now tenant_id req policy_version content_hash =
      let budget = budget_for cfg tenant_id in
      if req.provider == "all"
      then (handle_multi_provider now req, none)
      else if is_over budget.max_policy_bytes (String.len req.policy)
      then (
        opa_error 413 "payload_too_large"
            (limit_text "policy exceeds limit of " budget.max_policy_bytes " bytes"),
        none,
      )
      else if not (is_empty req.data_map) && is_over budget.max_data_bytes (data_bytes req.data_map)
      then (
        opa_error 413 "payload_too_large"
            (limit_text "data exceeds limit of " budget.max_data_bytes " bytes"),
        none,
      )
      else elim (build_input_for_request users req) [
        | unresolved text ↦ (opa_error 400 "validation_error" text, none)
        | resolved input ↦
            let opts : EvalOptions = record {
              policy_text = req.policy;
              data_map = req.data_map;
              input = input;
              query = query_or_default req.query;
              with_trace = req.trace;
              compile_timeout = 0;
              eval_timeout = 0;
            } in
            elim (eval cfg rego (apply_timeout_override opts req.timeouts budget)) [
              | failed e ↦ (write_eval_error e, none)
              | result r ↦
                  let resp : EvaluateResponse =
                    record (build_evaluate_response now r (query_or_default req.query) input
                      req.trace) { policy_version = policy_version } in
                  (
                    answered 200 (single resp),
                    some (record {
                      timestamp = now;
                      request_id = "";
                      tenant_id = tenant_id;
                      user_id = req.user_id;
                      action = req.action;
                      resource = req.resource;
                      allow = resp.allow;
                      decision = resp.decision;
                      policy_version = policy_version;
                      content_hash = content_hash;
                      eval_ms = r.eval_ms;
                      input = some (fields_of input);
                      policy = req.policy;
                      tenant_overrides = budget.decision_log;
                    }),
                  )
            ]
      ]

  -- the part of `evaluateHandler` on a request that names a stored policy
  unfoldable pub with_policy :
      ℕ → String → EvaluateRequest → PolicyLookup → OpaAnswer EvaluateAnswer × Option DecisionEntry
  unfolding evaluate_policy
  with_policy now tenant_id req no_store =
      (opa_error 400 "validation_error" "policy store not configured; supply 'policy' field", none)
  with_policy now tenant_id req tampered = (
    opa_error 422 "policy_tampered" (
        String.◌++◌ "active policy \""
          (String.◌++◌ req.policy_name "\" failed integrity check; re-activate to re-sign")),
    none,
  )
  with_policy now tenant_id req not_named = (
    opa_error 404 "not_found"
        (String.◌++◌ "no active policy named \"" (String.◌++◌ req.policy_name "\"")),
    none,
  )
  with_policy now tenant_id req (lookup_failed text) = (opa_error 500 "server_error" text, none)
  with_policy now tenant_id req (named p) =
      evaluate_policy now tenant_id (record req { policy = p.content })
        (String.◌++◌ p.name (String.◌++◌ "@" p.version)) p.content_hash

  -- `evaluateHandler`; `by_name` is the store of policies
  unfoldable pub evaluate :
      (by_name : String → PolicyLookup)
      → ℕ
      → String
      → EvaluateRequest
      → OpaAnswer EvaluateAnswer × Option DecisionEntry
  unfolding validate_evaluate_req evaluate_policy with_policy
  evaluate by_name now tenant_id req = elim (validate_evaluate_req req) [
    | some text ↦ (opa_error 400 "validation_error" text, none)
    | none ↦
        if not (req.policy == "")
        then evaluate_policy now tenant_id req "inline" ""
        else with_policy now tenant_id req (by_name req.policy_name)
  ]
