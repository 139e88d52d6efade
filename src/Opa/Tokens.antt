-- ===== src/Opa/Tokens.antt =====
-- The handler that evaluates a policy for the claims of two tokens.
use Prim.Native.String
use authpilot.Common.{
  ℕ, String, Bool, false, not, ◌&&◌, ◌||◌, Option, none, some, List, [], ◌∷◌, ◌==◌, if◌then◌else◌,
}
use authpilot.Common.Case.{cut}
use authpilot.Common.GoMap.{GoMap, lookup}
use authpilot.Domain.{Value, obj}
use authpilot.Domain.Json.{fields_of, sprint}
use authpilot.Opa.{
  OpaConfig, TenantBudget, budget_for, EvalOptions, Evaluation, result, failed, error_text, Rego,
  eval, query_or_default,
}
use authpilot.Opa.Input.{build_input}
use authpilot.Opa.Requests.{
  TimeoutOverride, apply_timeout_override, OpaAnswer, answered, opa_error, decision_of, is_over,
  limit_text,
}

pub record TokenPipelineRequest : Type 0 where
  pub policy : String
  pub policy_name : String
  pub data_map : GoMap Value
  pub furnace_token : String
  pub provider_token : String
  pub action : String
  pub resource : String
  pub context : GoMap Value
  pub query : String
  pub timeouts : Option TimeoutOverride

pub record ClaimDiff : Type 0 where
  pub path : String
  pub furnace_value : Value
  pub provider_value : Value

pub record TokenPipelineResult : Type 0 where
  pub allow : Bool
  pub decision : String
  pub claims_used : GoMap Value
  pub error : String

pub record TokenPipelineResponse : Type 0 where
  pub furnace_result : Option TokenPipelineResult
  pub provider_result : Option TokenPipelineResult
  pub decision_matches : Bool
  pub claim_differences : List ClaimDiff
  pub query : String
  pub evaluation_timestamp : ℕ

-- claims, or the text of an error
pub data Parsed : Type 0 where
  claims_of : GoMap Value → Parsed
  unparsed : String → Parsed

-- the part between the dots, of a text with two
unfoldable pub payload_part : String → Option String
payload_part token = elim (cut b'.' token) [
  | none ↦ none
  | some (header, rest) ↦ elim (cut b'.' rest) [
    | none ↦ none
    | some (payload, signature) ↦ elim (cut b'.' signature) [
      | none ↦ some payload
      | some more ↦ none
    ]
  ]
]

-- `ParseJWTClaims`; `decode` is the base64 of addresses, and `unmarshal` reads an object, or either has the
-- text of its error
unfoldable pub parse_jwt_claims :
    (decode : String → Option String)
    → (unmarshal : String → Option (GoMap Value)) → String
    → Parsed
unfolding payload_part
parse_jwt_claims decode unmarshal token = elim (payload_part token) [
  | none ↦ unparsed "not a compact JWT"
  | some payload ↦ elim (decode payload) [
    | none ↦ unparsed "decode payload"
    | some text ↦ elim (unmarshal text) [
      | none ↦ unparsed "unmarshal claims"
      | some claims ↦ claims_of claims
    ]
  ]
]

-- the claims that both tokens have, with different values
unfoldable pub diff_claims : GoMap Value → GoMap Value → List ClaimDiff
diff_claims [] b = []
diff_claims ((k, av) ∷ a) b =
    let rest = diff_claims a b in
    elim (lookup k b) [
      | none ↦ rest
      | some bv ↦
          if not (sprint av == sprint bv)
          then (record { path = k; furnace_value = av; provider_value = bv }) ∷ rest
          else rest
    ]

abbrev failed_token : String → TokenPipelineResult
failed_token text = record { allow = false; decision = "error"; claims_used = []; error = text }

abbrev token_result : GoMap Value → Evaluation → TokenPipelineResult
token_result claims (failed e) = failed_token (error_text e)
token_result claims (result r) = record {
  allow = r.allow;
  decision = decision_of r;
  claims_used = claims;
  error = "";
}

abbrev same : Bool → Bool → Bool
same a b = (a && b) || (not a && not b)

-- what the response says of two results
abbrev matched :
    Option TokenPipelineResult
    → Option TokenPipelineResult
    → TokenPipelineResponse
    → TokenPipelineResponse
matched (some f) (some p) resp = record resp {
  decision_matches = same f.allow p.allow;
  claim_differences = diff_claims f.claims_used p.claims_used;
}
matched _ _ resp = resp

module _ (cfg : OpaConfig) (rego : Rego) (parse : String → Parsed) where
  -- `evalToken`
  unfoldable pub eval_token : TenantBudget → TokenPipelineRequest → String → TokenPipelineResult
  eval_token budget req token = elim (parse token) [
    | unparsed text ↦ failed_token (String.◌++◌ "invalid JWT: " text)
    | claims_of claims ↦
        let user : GoMap Value = ("claims", obj (fields_of claims)) ∷ [] in
        let opts : EvalOptions = record {
          policy_text = req.policy;
          data_map = req.data_map;
          input =
              build_input (("user", obj (fields_of user)) ∷ []) req.action req.resource req.context;
          query = query_or_default req.query;
          with_trace = false;
          compile_timeout = 0;
          eval_timeout = 0;
        } in
        token_result claims (eval cfg rego (apply_timeout_override opts req.timeouts budget))
  ]

  abbrev if_given : TenantBudget → TokenPipelineRequest → String → Option TokenPipelineResult
  if_given budget req token = if token == "" then none else some (eval_token budget req token)

  unfoldable pub token_pipeline :
      ℕ → String → TokenPipelineRequest → OpaAnswer TokenPipelineResponse
  unfolding eval_token diff_claims
  token_pipeline now tenant_id req =
      let budget = budget_for cfg tenant_id in
      if req.policy == ""
      then opa_error 400 "validation_error" "supply 'policy' field"
      else if (req.furnace_token == "") && (req.provider_token == "")
      then opa_error 400 "validation_error"
          "supply at least one of 'furnace_token' or 'provider_token'"
      else if is_over budget.max_policy_bytes (String.len req.policy)
      then opa_error 413 "payload_too_large"
          (limit_text "policy exceeds limit of " budget.max_policy_bytes " bytes")
      else let furnace = if_given budget req req.furnace_token in
        let provider = if_given budget req req.provider_token in
        answered 200 (
          matched furnace provider (record {
            furnace_result = furnace;
            provider_result = provider;
            decision_matches = false;
            claim_differences = [];
            query = query_or_default req.query;
            evaluation_timestamp = now;
          }))
