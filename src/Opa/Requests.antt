-- ===== src/Opa/Requests.antt =====
-- server/internal/opa/handlers.go and types.go: the requests and the answers of the evaluation of policies, and the
-- checks and the conversions that its handlers share.
use Prim.Native.String
use authpilot.Common.{
  ℕ, String, Bool, true, false, not, ◌&&◌, Option, none, some, List, [], ◌∷◌, ◌==◌, if◌then◌else◌,
  sort_by,
}
use authpilot.Common.Decimal.{decimal}
use authpilot.Common.GoMap.{GoMap}
use authpilot.Common.Int64.{is_positive, is_less, times}
use authpilot.Domain.{Value, Fields, str, obj, Policy}
use authpilot.Domain.Json.{fields_of, marshal}
use authpilot.Personality.{Personality, default_personality, get}
use authpilot.Opa.{
  TenantBudget, EvalOptions, EvalResult, EvalError, compile_error, compile_timed_out,
  eval_timed_out, eval_failed, error_text, Evaluation, result, failed, TraceEvent,
}
use authpilot.Opa.Input.{
  build_input, UserLookup, Resolved, resolved, unresolved, resolve_user, user_document,
}

pub record TimeoutOverride : Type 0 where
  pub compile_ms : ℕ
  pub eval_ms : ℕ

pub record EvaluateRequest : Type 0 where
  pub policy : String
  pub policy_name : String
  pub data_map : GoMap Value
  pub input : Option (GoMap Value)
  pub user_id : String
  pub action : String
  pub resource : String
  pub context : GoMap Value
  pub provider : String
  pub query : String
  pub trace : Bool
  pub timeouts : Option TimeoutOverride

pub record EvaluateResponse : Type 0 where
  pub allow : Bool
  pub decision : String
  pub query : String
  pub permission_state : String
  pub denial_reason : String
  pub input_used : GoMap Value
  pub bindings : Option Fields
  pub policy_version : String
  pub evaluation_timestamp : ℕ
  pub trace : List TraceEvent

-- a JSON answer, or an error with its status, its code and its text
pub data OpaAnswer (A : Type 0) : Type 0 where
  answered : ℕ → A → OpaAnswer A
  opa_error : ℕ → (code text : String) → OpaAnswer A

-- the decision on a result
abbrev pub decision_of : EvalResult → String
decision_of r = if not r.defined then "undefined" else if r.allow then "grant" else "deny"

unfoldable pub text_field : String → Fields → Option String
text_field key Fields.end = none
text_field key (Fields.field k v fs) =
    let rest = text_field key fs in
    if k == key then (elim v [ str s ↦ some s | _ ↦ none ]) else rest

abbrev pub or_empty : Option String → String
or_empty none = ""
or_empty (some s) = s

unfoldable pub build_evaluate_response :
    ℕ → EvalResult → String → GoMap Value → Bool → EvaluateResponse
unfolding text_field
build_evaluate_response now r query input with_trace = record {
  allow = r.allow;
  decision = decision_of r;
  query = query;
  permission_state = elim r.bindings [ none ↦ "" | some fs ↦ or_empty (text_field "state" fs) ];
  denial_reason = elim r.bindings [ none ↦ "" | some fs ↦ or_empty (text_field "reason" fs) ];
  input_used = input;
  bindings = r.bindings;
  policy_version = "inline";
  evaluation_timestamp = now;
  trace = if with_trace then r.trace else [];
}

-- a timeout of the request, in milliseconds, over that of the budget
abbrev pub overridden : ℕ → ℕ → ℕ
overridden limit ms =
    let requested = times ms 1000000 in
    if is_positive ms && is_less requested limit then requested else limit

unfoldable pub apply_timeout_override :
    EvalOptions → Option TimeoutOverride → TenantBudget → EvalOptions
apply_timeout_override opts ov budget = elim ov [
  | none ↦ record opts {
    compile_timeout = budget.compile_timeout;
    eval_timeout = budget.eval_timeout;
  }
  | some t ↦ record opts {
    compile_timeout = overridden budget.compile_timeout t.compile_ms;
    eval_timeout = overridden budget.eval_timeout t.eval_ms;
  }
]

abbrev pub is_given {ℓ} : {A : Type ℓ} → Option A → Bool
is_given none = false
is_given (some a) = true

-- `validateEvaluateReq`: the text of the error
unfoldable pub validate_evaluate_req : EvaluateRequest → Option String
validate_evaluate_req req =
    if not (req.policy == "") && not (req.policy_name == "")
    then some "supply exactly one of 'policy' or 'policy_name', not both"
    else if (req.policy == "") && (req.policy_name == "")
    then some "supply exactly one of 'policy' or 'policy_name'"
    else if is_given req.input && not (req.user_id == "")
    then some "supply exactly one of 'input' or 'user_id', not both"
    else none

unfoldable pub write_eval_error : {A : Type 0} → EvalError → OpaAnswer A
write_eval_error (compile_error text) = opa_error 400 "compile_error" text
write_eval_error compile_timed_out = opa_error 408 "compile_timeout" "compilation exceeded deadline"
write_eval_error eval_timed_out = opa_error 408 "eval_timeout" "evaluation exceeded deadline"
write_eval_error (eval_failed text) = opa_error 500 "server_error" text

-- the personality that a provider names, if it names one
abbrev pub personality_of : String → Personality
personality_of provider = if provider == "" then default_personality else get provider

abbrev pub given_map : Option (GoMap Value) → GoMap Value
given_map none = []
given_map (some m) = m

unfoldable pub build_input_for_request : UserLookup → EvaluateRequest → Resolved (GoMap Value)
build_input_for_request users req =
    if req.user_id == ""
    then resolved (build_input (given_map req.input) req.action req.resource req.context)
    else elim (resolve_user users req.user_id) [
      | unresolved text ↦ unresolved text
      | resolved user ↦
          let p =
            if req.provider == "all" then default_personality else personality_of req.provider in
          resolved
            (build_input (("user", user_document p user) ∷ []) req.action req.resource req.context)
    ]

-- the bytes of the policy or of the data are over the limit
abbrev pub is_over : ℕ → ℕ → Bool
is_over limit bytes = is_less limit bytes

abbrev pub data_bytes : GoMap Value → ℕ
data_bytes m = String.len (marshal (obj (fields_of m)))

abbrev pub is_empty {ℓ} : {A : Type ℓ} → List A → Bool
is_empty [] = true
is_empty (x ∷ xs) = false

abbrev pub limit_text : String → ℕ → String → String
limit_text front limit back = String.◌++◌ front (String.◌++◌ (decimal limit) back)

pub record ProviderResult : Type 0 where
  pub allow : Bool
  pub decision : String
  pub error : String

pub record Comparison : Type 0 where
  pub results_by_provider : GoMap ProviderResult
  pub providers_pass : List String
  pub providers_fail : List String
  pub evaluation_timestamp : ℕ

pub data EvaluateAnswer : Type 0 where
  single : EvaluateResponse → EvaluateAnswer
  compared : Comparison → EvaluateAnswer

abbrev pub provider_result : Evaluation → ProviderResult
provider_result (failed e) = record { allow = false; decision = "error"; error = error_text e }
provider_result (result r) = record {
  allow = r.defined && r.allow;
  decision = decision_of r;
  error = "";
}

-- the names of the providers whose result is this one, in order
unfoldable pub names_with : Bool → GoMap ProviderResult → List String
names_with allow [] = []
names_with allow ((name, pr) ∷ results) =
    let rest = names_with allow results in
    if pr.allow then (if allow then name ∷ rest else rest) else if allow then rest else name ∷ rest

unfoldable pub comparison : ℕ → GoMap ProviderResult → Comparison
unfolding names_with
comparison now results = record {
  results_by_provider = results;
  providers_pass = sort_by (λ x. x) (names_with true results);
  providers_fail = sort_by (λ x. x) (names_with false results);
  evaluation_timestamp = now;
}

-- the active policy of a name, or why there is none; `no_store` is a server without a store of policies
pub data PolicyLookup : Type 0 where
  named : Policy → PolicyLookup
  tampered not_named no_store : PolicyLookup
  lookup_failed : String → PolicyLookup
