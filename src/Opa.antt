-- ===== src/Opa.antt =====
-- server/internal/opa: the policy engine. The limits of a tenant, and one evaluation. What the Rego library
-- does with a policy is the argument `rego`. Limits and durations are 64-bit words.
pub mod Log
pub mod Input
pub mod Requests
pub mod Evaluate
pub mod Batch
pub mod Tokens
pub mod Diff
pub mod Validate
pub mod Policies
pub mod Limits
pub mod Deadlines
pub mod Decisions
pub mod Redaction
pub mod Hidden
pub mod Counts
pub mod Shaping
pub mod DiffLaws
mod Tests
use Prim.Native.String
use authpilot.Common.{
  ℕ, String, Bool, true, false, ◌&&◌, Option, none, some, List, [], ◌∷◌, ◌==◌, if◌then◌else◌,
}
use authpilot.Common.GoMap.{GoMap, lookup}
use authpilot.Common.Int64.{is_positive, is_less}
use authpilot.Domain.{Value, Fields, bool, obj, end, field}

pub record TenantDecisionLog : Type 0 where
  pub additional_redact_fields : List String
  pub scrub_policy_credentials : Bool
  pub retention_days : ℕ

pub record TenantBudget : Type 0 where
  pub eval_timeout : ℕ
  pub compile_timeout : ℕ
  pub max_policy_bytes : ℕ
  pub max_data_bytes : ℕ
  pub max_batch_checks : ℕ
  pub decision_log : Option TenantDecisionLog

pub record DecisionLogConfig : Type 0 where
  pub enabled : Bool
  pub include_input : Bool
  pub include_policy : Bool
  pub destination : String
  pub redact_fields : List String
  pub scrub_policy_credentials : Bool
  pub retention_days : ℕ

pub record OpaConfig : Type 0 where
  pub compile_timeout : ℕ
  pub eval_timeout : ℕ
  pub max_policy_bytes : ℕ
  pub max_data_bytes : ℕ
  pub max_batch_checks : ℕ
  pub max_concurrent : ℕ
  pub decision_log : DecisionLogConfig
  pub tenant_budgets : GoMap TenantBudget

-- `if ov > 0 && ov < limit { limit = ov }`
abbrev pub tighten : ℕ → ℕ → ℕ
tighten limit ov = if is_positive ov && is_less ov limit then ov else limit

-- `BudgetFor`
unfoldable pub budget_for : OpaConfig → String → TenantBudget
budget_for cfg tenant_id =
    let budget : TenantBudget = record {
      eval_timeout = cfg.eval_timeout;
      compile_timeout = cfg.compile_timeout;
      max_policy_bytes = cfg.max_policy_bytes;
      max_data_bytes = cfg.max_data_bytes;
      max_batch_checks = cfg.max_batch_checks;
      decision_log = none;
    } in
    elim (lookup tenant_id cfg.tenant_budgets) [
      | none ↦ budget
      | some ov ↦ record {
        eval_timeout = tighten budget.eval_timeout ov.eval_timeout;
        compile_timeout = tighten budget.compile_timeout ov.compile_timeout;
        max_policy_bytes = tighten budget.max_policy_bytes ov.max_policy_bytes;
        max_data_bytes = tighten budget.max_data_bytes ov.max_data_bytes;
        max_batch_checks = tighten budget.max_batch_checks ov.max_batch_checks;
        decision_log = budget.decision_log;
      }
    ]

pub record TraceEvent : Type 0 where
  pub op : String
  pub node : String

pub record EvalResult : Type 0 where
  pub allow : Bool
  pub defined : Bool
  pub bindings : Option Fields
  pub trace : List TraceEvent
  pub eval_ms : ℕ

pub record EvalOptions : Type 0 where
  pub policy_text : String
  pub data_map : GoMap Value
  pub input : GoMap Value
  pub query : String
  pub with_trace : Bool
  pub compile_timeout : ℕ
  pub eval_timeout : ℕ

pub data EvalError : Type 0 where
  compile_error : String → EvalError
  compile_timed_out : EvalError
  eval_timed_out : EvalError
  eval_failed : String → EvalError

-- `err.Error()`
abbrev pub error_text : EvalError → String
error_text (compile_error text) = String.◌++◌ "compile error: " text
error_text compile_timed_out = "compile timeout"
error_text eval_timed_out = "eval timeout"
error_text (eval_failed text) = text

-- what the library answers: it failed to compile or to evaluate, after its deadline or before it, or it
-- has results, each with the values of its expressions, the events and the milliseconds it took
pub data RegoOutcome : Type 0 where
  not_compiled : (late : Bool) (text : String) → RegoOutcome
  not_evaluated : (late : Bool) (text : String) → RegoOutcome
  evaluated : List (List Value) → List TraceEvent → ℕ → RegoOutcome

-- `PrepareForEval` within the first deadline and `Eval` within the second
abbrev pub Rego : Type 0
Rego = (compile_deadline eval_deadline : ℕ) → (query : String) → EvalOptions → RegoOutcome

abbrev pub query_or_default : String → String
query_or_default query = if query == "" then "data.authz.allow" else query

-- `a, ok := v["allow"].(bool)`
unfoldable pub allow_field : Fields → Bool
allow_field end = false
allow_field (field k v fs) =
    let rest = allow_field fs in if k == "allow" then (elim v [ bool b ↦ b | _ ↦ false ]) else rest

-- the switch over the value of the query
unfoldable pub decided : EvalResult → Value → EvalResult
unfolding allow_field
decided result (bool b) = record result { allow = b }
decided result (obj fs) = record result { bindings = some fs; allow = allow_field fs }
decided result _ = result

-- the value of `rs[0].Expressions[0]`
abbrev pub first_expression : List (List Value) → Option Value
first_expression [] = none
first_expression ([] ∷ results) = none
first_expression ((v ∷ vs) ∷ results) = some v

abbrev pub compile_deadline : OpaConfig → EvalOptions → ℕ
compile_deadline cfg opts = tighten cfg.compile_timeout opts.compile_timeout

abbrev pub eval_deadline : OpaConfig → EvalOptions → ℕ
eval_deadline cfg opts = tighten cfg.eval_timeout opts.eval_timeout

pub data Evaluation : Type 0 where
  result : EvalResult → Evaluation
  failed : EvalError → Evaluation

-- `Eval`
unfoldable pub eval : OpaConfig → Rego → EvalOptions → Evaluation
unfolding decided
eval cfg rego opts =
    elim (rego (compile_deadline cfg opts) (eval_deadline cfg opts) (query_or_default opts.query)
      opts) [
        | not_compiled late text ↦ failed (if late then compile_timed_out else compile_error text)
        | not_evaluated late text ↦
            failed (if late then eval_timed_out else eval_failed (String.◌++◌ "opa eval: " text))
        | evaluated results events elapsed ↦
            let found_none : EvalResult = record {
              allow = false;
              defined = false;
              bindings = none;
              trace = if opts.with_trace then events else [];
              eval_ms = elapsed;
            } in
            elim (first_expression results) [
              | none ↦ result found_none
              | some v ↦ result (decided (record found_none { defined = true }) v)
            ]
      ]
