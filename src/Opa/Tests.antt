-- ===== src/Opa/Tests.antt =====
-- The theorems about the policy engine, at small requests.
use authpilot.Common.{
  ==-false→ne, ◌*◌, String, ◌≡◌, refl, true, false, not, ◌&&◌, Option, none, some, [], ◌∷◌, ◌==◌,
  if◌then◌else◌, contains, inl, arith,
}
use authpilot.Common.Case.{cut}
use authpilot.Common.GoMap.{GoMap, lookup}
use authpilot.Domain.{Value, Fields, bool, str, obj, end, field, User, zero_user}
use authpilot.Store.{ok, err, not_found}
use authpilot.Opa.{
  TenantBudget, DecisionLogConfig, OpaConfig, budget_for, EvalOptions, Rego, evaluated,
}
use authpilot.Opa.Log.{
  DecisionEntry, written, redact_all, effective_redact_fields, effective_scrub, kept_lines,
}
use authpilot.Opa.Input.{UserLookup}
use authpilot.Opa.Evaluate.{evaluate}
use authpilot.Opa.Requests.{TimeoutOverride, EvaluateRequest, PolicyLookup, not_named}
use authpilot.Opa.Diff.{compute_diff, string_keys, map_field, is_nil}
use authpilot.Opa.Validate.{validate}
use authpilot.Opa.Limits.{AtMost, AtMostGiven, IsNaturalBudget, global_budget, budget_for-AtMost}
use authpilot.Opa.Deadlines.{bound, clipped, evaluate-clipped}
use authpilot.Opa.Decisions.{evaluate-ignores_tenant_log}
use authpilot.Opa.Redaction.{value_at, split_path}
use authpilot.Opa.Hidden.{IsHidden, written-IsHidden}
use authpilot.Opa.DiffLaws.{compute_diff-major}

abbrev logging : DecisionLogConfig
logging = record {
  enabled = true;
  include_input = true;
  include_policy = false;
  destination = "";
  redact_fields = "user.claims.email" ∷ "token" ∷ [];
  scrub_policy_credentials = false;
  retention_days = 30;
}

-- a tenant with a tighter deadline, which wants one more path redacted
abbrev acme_budget : TenantBudget
acme_budget = record {
  eval_timeout = 1000000000;
  compile_timeout = 1000000000;
  max_policy_bytes = 0;
  max_data_bytes = 0;
  max_batch_checks = 10;
  decision_log = some (record {
    additional_redact_fields = "user.claims.ssn" ∷ [];
    scrub_policy_credentials = true;
    retention_days = 7;
  });
}

abbrev settings : OpaConfig
settings = record {
  compile_timeout = 2000000000;
  eval_timeout = 5000000000;
  max_policy_bytes = 65536;
  max_data_bytes = 5242880;
  max_batch_checks = 100;
  max_concurrent = 4;
  decision_log = logging;
  tenant_budgets = ("acme", acme_budget) ∷ [];
}

budget_for-AtMost_example :
    AtMost (budget_for settings "acme") (global_budget settings)
    × ((ov : TenantBudget)
        → lookup "acme" settings.tenant_budgets ≡ some ov
        → IsNaturalBudget ov
        → AtMostGiven (budget_for settings "acme") ov)
budget_for-AtMost_example = budget_for-AtMost settings "acme" (omega arith)

abbrev no_options : EvalOptions
no_options = record {
  policy_text = "package authz";
  data_map = [];
  input = [];
  query = "";
  with_trace = false;
  compile_timeout = 0;
  eval_timeout = 0;
}

abbrev half_a_second : TimeoutOverride
half_a_second = record { compile_ms = 500; eval_ms = 500 }

-- a policy engine that grants all, in three milliseconds
abbrev grants : Rego
grants compile_dl eval_dl query opts = evaluated ((bool true ∷ []) ∷ []) [] 3

abbrev ada : User
ada = record zero_user {
  id = "u1";
  email = "ada@x.org";
  groups = "admins" ∷ [];
  claims = ("ssn", str "123") ∷ [];
}

abbrev only_ada : UserLookup
only_ada = some (λ id. if id == "u1" then ok ada else err not_found)

abbrev no_policies : String → PolicyLookup
no_policies name = not_named

abbrev ask : EvaluateRequest
ask = record {
  policy = "package authz";
  policy_name = "";
  data_map = [];
  input = none;
  user_id = "u1";
  action = "read";
  resource = "";
  context = [];
  provider = "";
  query = "";
  trace = false;
  timeouts = none;
}

abbrev logged_entry : Option DecisionEntry → DecisionEntry
logged_entry (some entry) = entry
logged_entry none = record {
  timestamp = 0;
  request_id = "";
  tenant_id = "";
  user_id = "";
  action = "";
  resource = "";
  allow = false;
  decision = "";
  policy_version = "";
  content_hash = "";
  eval_ms = 0;
  input = none;
  policy = "";
  tenant_overrides = none;
}

abbrev entry : DecisionEntry
entry = logged_entry (evaluate settings grants only_ada no_policies 9 "acme" ask).1

-- the tenant wants its path redacted, and is not heard
evaluate-ignores_tenant_log_example :
    (effective_redact_fields logging entry.tenant_overrides ≡ logging.redact_fields)
    × (effective_scrub logging entry.tenant_overrides ≡ false)
unfolding evaluate budget_for lookup authpilot.Opa.Input.resolve_user authpilot.Opa.eval
evaluate-ignores_tenant_log_example =
    evaluate-ignores_tenant_log settings grants only_ada no_policies 9 "acme" ask entry refl

abbrev ask_all : EvaluateRequest
ask_all = record ask { provider = "all" }

abbrev secret_input : Fields
secret_input =
    field "user" (obj (field "claims" (obj (field "email" (str "ada@x.org") end)) end))
      (field "token" (str "t") end)

abbrev secret : DecisionEntry
secret = record (logged_entry none) { input = some secret_input }

abbrev redacted_input : Fields
redacted_input = redact_all secret_input logging.redact_fields

redacts :
    redacted_input
    ≡ field "user"
        (obj (field "claims" (obj (field "email" (str "[REDACTED]") end)) end))
        (field "token" (str "[REDACTED]") end)
unfolding redact_all cut
redacts = refl

-- a policy engine that takes the whole of its deadline
abbrev slow : Rego
slow compile_dl eval_dl query opts = evaluated ((bool true ∷ []) ∷ []) [] eval_dl

abbrev ask_in_half_a_second : EvaluateRequest
ask_in_half_a_second = record ask { timeouts = some half_a_second }

evaluate-clipped_example :
    let budget = budget_for settings "acme" in
    evaluate settings
      (clipped (bound budget.compile_timeout 500) (bound budget.eval_timeout 500) slow)
      only_ada
      no_policies
      9
      "acme"
      ask_in_half_a_second
    ≡ evaluate settings slow only_ada no_policies 9 "acme" ask_in_half_a_second
unfolding budget_for lookup
evaluate-clipped_example =
    evaluate-clipped settings slow only_ada no_policies 9 "acme" ask_in_half_a_second (omega arith)
      (omega arith) (omega arith) (==-false→ne "" "all" refl) (omega arith) (omega arith)

written-IsHidden_example : IsHidden (value_at (obj redacted_input) (split_path "user.claims.email"))
unfolding written
written-IsHidden_example =
    written-IsHidden logging (λ s. s) secret (logged_entry (written logging (λ s. s) secret))
      redacted_input "user.claims.email" refl refl (inl refl)

abbrev one_role : GoMap Value
one_role = ("roles", obj (field "admin" (obj end) end)) ∷ []

compute_diff-major_example :
    let r = compute_diff one_role [] in
    ((r.recommended_bump == "major") ≡ not (is_nil r.added_roles && is_nil r.removed_roles))
    × ((role : String)
        → contains r.added_roles role ≡ (
            contains (string_keys (map_field [] "roles")) role
            && not (contains (string_keys (map_field one_role "roles")) role)))
    × ((role : String)
        → contains r.removed_roles role ≡ (
            contains (string_keys (map_field one_role "roles")) role
            && not (contains (string_keys (map_field [] "roles")) role)))
compute_diff-major_example = compute_diff-major one_role []

-- a line of the tenant that is eight days old goes, one that cannot be read stays
prunes :
    kept_lines
      (λ line. if line == "old" then some (86400000000000, "acme") else none)
      (9 * 86400000000000)
      30
      settings.tenant_budgets
      ("old" ∷ "" ∷ "junk" ∷ [])
    ≡ ("junk" ∷ [])
unfolding kept_lines lookup
prunes = refl

rejects_state :
    (validate (record {
      data_map =
          (
            "permissions",
            obj (field "doc" (obj (field "admin" (obj (field "read" (str "maybe") end)) end)) end),
          )
          ∷ [];
      schema = "";
    })).valid
    ≡ false
unfolding validate lookup authpilot.Domain.Json.map_of
rejects_state = refl
