-- ===== src/Opa/Log.antt =====
-- The decision log: what is written of an entry, and which lines of an old log are kept.
use Prim.Native.String.{String}
use authpilot.Common.{
  ℕ, ◌+◌, ◌*◌, Bool, true, false, not, ◌&&◌, ◌||◌, Option, none, some, List, [], ◌∷◌, ◌++◌, ◌==◌,
  if◌then◌else◌, ltb, eqb, any,
}
use authpilot.Common.Case.{cut}
use authpilot.Common.GoMap.{GoMap, lookup, values}
use authpilot.Common.Int64.{is_positive, is_less}
use authpilot.Domain.{Value, Fields, str, obj, end, field}
use authpilot.Opa.{TenantDecisionLog, TenantBudget, DecisionLogConfig}

pub record DecisionEntry : Type 0 where
  pub timestamp : ℕ
  pub request_id : String
  pub tenant_id : String
  pub user_id : String
  pub action : String
  pub resource : String
  pub allow : Bool
  pub decision : String
  pub policy_version : String
  pub content_hash : String
  pub eval_ms : ℕ
  pub input : Option Fields
  pub policy : String
  pub tenant_overrides : Option TenantDecisionLog

-- `redactPath`: a map has each key once, so that the first entry of the key is the only one
unfoldable mutual
  pub redact_path : Fields → String → Fields
  redact_path end path = end
  redact_path (field k v fs) path = elim (cut b'.' path) [
    | none ↦
        let rest = redact_path fs path in
        if k == path then field k (str "[REDACTED]") fs else field k v rest
    | some (key, below) ↦
        let rest = redact_path fs path in
        let inside = redact_nested v below in if k == key then field k inside fs else field k v rest
  ]

  -- the value of the key, where it is a map
  pub redact_nested : Value → String → Value
  redact_nested (obj fs) path = obj (redact_path fs path)
  redact_nested v path = v

unfoldable pub redact_all : Fields → List String → Fields
unfolding redact_path
redact_all fs [] = fs
redact_all fs (path ∷ paths) = redact_all (redact_path fs path) paths

-- the global paths, and those that the tenant adds
unfoldable pub effective_redact_fields : DecisionLogConfig → Option TenantDecisionLog → List String
effective_redact_fields cfg none = cfg.redact_fields
effective_redact_fields cfg (some ov) = cfg.redact_fields ++ ov.additional_redact_fields

unfoldable pub effective_scrub : DecisionLogConfig → Option TenantDecisionLog → Bool
effective_scrub cfg none = cfg.scrub_policy_credentials
effective_scrub cfg (some ov) = ov.scrub_policy_credentials || cfg.scrub_policy_credentials

abbrev pub logged_input : Bool → List String → Option Fields → Option Fields
logged_input false paths input = none
logged_input true paths none = none
logged_input true paths (some fs) = some (redact_all fs paths)

-- what `write` encodes of an entry, if it writes one; `scrub` is `scrubCredentials`
unfoldable pub written :
    DecisionLogConfig → (scrub : String → String) → DecisionEntry → Option DecisionEntry
unfolding redact_all effective_redact_fields effective_scrub
written cfg scrub entry =
    if not cfg.enabled
    then none
    else some (record entry {
      input =
          logged_input cfg.include_input (effective_redact_fields cfg entry.tenant_overrides)
            entry.input;
      policy =
          if not cfg.include_policy
          then ""
          else if effective_scrub cfg entry.tenant_overrides && not (entry.policy == "")
          then scrub entry.policy
          else entry.policy;
    })

-- the days for which the lines of a tenant are kept
unfoldable pub effective_days : ℕ → GoMap TenantBudget → String → ℕ
effective_days global budgets tenant_id =
    if tenant_id == "" then global else elim (lookup tenant_id budgets) [
      | none ↦ global
      | some budget ↦ elim budget.decision_log [
        | none ↦ global
        | some log ↦
            if is_positive log.retention_days && (eqb global 0 || is_less log.retention_days global)
            then log.retention_days
            else global
      ]
    ]

abbrev day : ℕ
day = 86400000000000

-- the test on one line: `parse` reads the time and the tenant, unless the line is not an entry with a time
unfoldable pub is_kept :
    (parse : String → Option (ℕ × String)) → ℕ → ℕ → GoMap TenantBudget → String → Bool
unfolding effective_days
is_kept parse now global budgets line = elim (parse line) [
  | none ↦ true
  | some (timestamp, tenant_id) ↦
      let days = effective_days global budgets tenant_id in
      not (is_positive days) || ltb now (timestamp + days * day)
]

-- the loop of `pruneDecisionLog` over the lines of the file
unfoldable pub kept_lines :
    (parse : String → Option (ℕ × String)) → ℕ → ℕ → GoMap TenantBudget → List String → List String
unfolding is_kept
kept_lines parse now global budgets [] = []
kept_lines parse now global budgets (line ∷ lines) =
    let rest = kept_lines parse now global budgets lines in
    if not (line == "") && is_kept parse now global budgets line then line ∷ rest else rest

abbrev has_retention : TenantBudget → Bool
has_retention budget = elim budget.decision_log [
  | none ↦ false
  | some log ↦ is_positive log.retention_days
]

-- `hasAnyTenantRetention`
unfoldable pub has_any_tenant_retention : GoMap TenantBudget → Bool
has_any_tenant_retention budgets = any has_retention (values budgets)
