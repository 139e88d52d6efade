-- ===== src/Opa/Batch.antt =====
-- The handlers that evaluate a policy for many checks, and for the claims of two tokens.
use Prim.Native.String
use authpilot.Common.{
  ℕ, String, suc, Bool, false, Option, none, some, List, [], ◌∷◌, ◌==◌, if◌then◌else◌, length,
}
use authpilot.Common.GoMap.{GoMap, insert}
use authpilot.Domain.{Value}
use authpilot.Opa.{
  OpaConfig, TenantBudget, budget_for, EvalOptions, Evaluation, result, failed, error_text, Rego,
  eval, query_or_default,
}
use authpilot.Opa.Input.{UserLookup, Resolved, resolved, unresolved, resolve_user, user_document}
use authpilot.Opa.Requests.{
  TimeoutOverride, apply_timeout_override, OpaAnswer, answered, opa_error, decision_of,
  personality_of, is_over, is_empty, limit_text,
}

pub record BatchCheck : Type 0 where
  pub action : String
  pub resource : String

pub record BatchRequest : Type 0 where
  pub policy : String
  pub policy_name : String
  pub data_map : GoMap Value
  pub user_id : String
  pub context : GoMap Value
  pub provider : String
  pub query : String
  pub checks : List BatchCheck
  pub timeouts : Option TimeoutOverride

pub record BatchResult : Type 0 where
  pub action : String
  pub resource : String
  pub allow : Bool
  pub decision : String
  pub error : String

pub record BatchResponse : Type 0 where
  pub user_id : String
  pub context : GoMap Value
  pub total_checks : ℕ
  pub grant : ℕ
  pub deny : ℕ
  pub results : List BatchResult
  pub evaluation_timestamp : ℕ

unfoldable pub build_batch_base_input : UserLookup → BatchRequest → Resolved (GoMap Value)
build_batch_base_input users req =
    if req.user_id == "" then resolved [] else elim (resolve_user users req.user_id) [
      | unresolved text ↦ unresolved text
      | resolved user ↦ resolved (("user", user_document (personality_of req.provider) user) ∷ [])
    ]

abbrev failed_check : BatchCheck → String → BatchResult
failed_check c text = record {
  action = c.action;
  resource = c.resource;
  allow = false;
  decision = "error";
  error = text;
}

abbrev pub batch_result : BatchCheck → Evaluation → BatchResult
batch_result c (failed e) = failed_check c (error_text e)
batch_result c (result r) = record {
  action = c.action;
  resource = c.resource;
  allow = r.allow;
  decision = decision_of r;
  error = "";
}

-- the loop that counts the results
unfoldable pub count_grants : List BatchResult → ℕ × ℕ
count_grants [] = (0, 0)
count_grants (r ∷ results) =
    let (grant, deny) = count_grants results in
    if r.allow then (suc grant, deny) else (grant, suc deny)

unfoldable pub batch_response : ℕ → BatchRequest → List BatchResult → BatchResponse
unfolding count_grants
batch_response now req results = record {
  user_id = req.user_id;
  context = req.context;
  total_checks = length req.checks;
  grant = (count_grants results).0;
  deny = (count_grants results).1;
  results = results;
  evaluation_timestamp = now;
}

module _ (cfg : OpaConfig) (rego : Rego) (users : UserLookup) where
  -- the work on one check, in its slot of the semaphore, or with the error of the wait for it
  unfoldable pub run_check :
      TenantBudget → BatchRequest → GoMap Value → Option String → BatchCheck → BatchResult
  run_check budget req base refusal c = elim refusal [
    | some text ↦ failed_check c (String.◌++◌ "semaphore: " text)
    | none ↦
        let opts : EvalOptions = record {
          policy_text = req.policy;
          data_map = req.data_map;
          input =
              insert "resource" (Value.str c.resource) (insert "action" (Value.str c.action) base);
          query = query_or_default req.query;
          with_trace = false;
          compile_timeout = 0;
          eval_timeout = 0;
        } in
        batch_result c (eval cfg rego (apply_timeout_override opts req.timeouts budget))
  ]

  -- the checks run at the same time, and each writes the result at its own index; `acquire` is the error of
  -- the wait of the check at an index, if there is one
  unfoldable pub run_checks :
      TenantBudget
      → BatchRequest
      → GoMap Value
      → (acquire : ℕ → Option String) → ℕ
      → List BatchCheck
      → List BatchResult
  unfolding run_check
  run_checks budget req base acquire i [] = []
  run_checks budget req base acquire i (c ∷ checks) =
      run_check budget req base (acquire i) c ∷ run_checks budget req base acquire (suc i) checks

  unfoldable pub batch :
      (acquire : ℕ → Option String) → ℕ → String → BatchRequest → OpaAnswer BatchResponse
  unfolding run_checks batch_response build_batch_base_input
  batch acquire now tenant_id req =
      let budget = budget_for cfg tenant_id in
      if req.policy == ""
      then opa_error 400 "validation_error" "supply 'policy' field"
      else if is_empty req.checks
      then opa_error 400 "validation_error" "'checks' must be non-empty"
      else if is_over budget.max_policy_bytes (String.len req.policy)
      then opa_error 413 "payload_too_large"
          (limit_text "policy exceeds limit of " budget.max_policy_bytes " bytes")
      else if is_over budget.max_batch_checks (length req.checks)
      then opa_error 413 "payload_too_large"
          (limit_text "checks exceeds maximum of " budget.max_batch_checks "")
      else elim (build_batch_base_input users req) [
        | unresolved text ↦ opa_error 400 "validation_error" text
        | resolved base ↦
            answered 200 (batch_response now req (run_checks budget req base acquire 0 req.checks))
      ]
