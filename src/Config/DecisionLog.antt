-- ===== src/Config/DecisionLog.antt =====
-- What the file says of the decision log.
use authpilot.Common.{
  ◌≡◌, refl, sym, ap, ◌∙◌, String, Bool, true, false, not, ◌||◌, List, [], ◌∷◌, ◌++◌, ◌==◌,
  if◌then◌else◌, All, Bool-cases, inl, inr, ℕ, arith,
}
use authpilot.Common.Int64.{is_positive}
use authpilot.Store.{Result, ok, Result-cases, value_or}
use authpilot.Opa.{OpaConfig, DecisionLogConfig}
use authpilot.Config.{Config, Step, run, when}
use authpilot.Config.Merge.{
  YamlConfig, YamlOidc, merge_yaml, merge_server, merge_oidc, merge_tenants, merge_opa,
  merge_limits, merge_log, set_log, set_budgets, gives_log, is_given,
}

-- a statement that leaves a part of the settings as it was
module _ {X : Type 0} (part : Config → X) where
  abbrev Keeps : Step → Type 0
  Keeps step = (c d : Config) → step c ≡ ok d → part d ≡ part c

  when-Keeps :
      (test : Bool) (change : Config → Config)
      → ((c : Config) → part (change c) ≡ part c)
      → Keeps (when test change)
  when-Keeps true change h c d e = ap part (sym (ap (value_or c) e)) ∙ h c
  when-Keeps false change h c d e = ap part (sym (ap (value_or c) e))

  run-Keeps :
      (steps : List Step) (c d : Config) → All Keeps steps → run steps c ≡ ok d → part d ≡ part c
  unfolding run
  run-Keeps [] c d h e = ap part (sym (ap (value_or c) e))
  run-Keeps (step ∷ steps) c d h e = elim (Result-cases (step c)) [
    | inr (x, failed) ↦ cc (rw failed at e)
    | inl (m, next) ↦ run-Keeps steps m d h.1 (rw next at e) ∙ h.0 c m next
  ]

run_cons :
    (step : Step) (steps : List Step) (c d : Config)
    → run (step ∷ steps) c ≡ ok d
    → (m : Config) × (step c ≡ ok m) × (run steps m ≡ ok d)
unfolding run
run_cons step steps c d e = elim (Result-cases (step c)) [
  | inr (x, failed) ↦ cc (rw failed at e)
  | inl (m, next) ↦ (m, next, rw next at e)
]

run_append :
    (xs ys : List Step) (c d : Config)
    → run (xs ++ ys) c ≡ ok d
    → (m : Config) × (run xs c ≡ ok m) × (run ys m ≡ ok d)
unfolding run
run_append [] ys c d e = (c, refl, e)
run_append (step ∷ xs) ys c d e =
    let (m, next, later) = run_cons step (xs ++ ys) c d e in
    let (n, first, rest) = run_append xs ys m d later in (n, rw next first, rest)

abbrev log_part : Config → DecisionLogConfig
log_part cfg = cfg.opa.decision_log

-- a run of statements that keep a part, before others
run_append-Keeps :
    (xs ys : List Step) (c d : Config)
    → All (Keeps log_part) xs
    → run (xs ++ ys) c ≡ ok d
    → (m : Config) × (log_part m ≡ log_part c) × (run ys m ≡ ok d)
run_append-Keeps xs ys c d kept e =
    let (m, first, later) = run_append xs ys c d e in
    (m, run-Keeps log_part xs c m kept first, later)

merge_limits-Keeps : (from : OpaConfig) → All (Keeps log_part) (merge_limits from)
unfolding merge_limits
merge_limits-Keeps from = ground arith

merge_server-Keeps :
    (parse : String → Result ℕ) (from : YamlConfig) → All (Keeps log_part) (merge_server parse from)
unfolding merge_server
merge_server-Keeps parse from = ground arith

merge_oidc-Keeps :
    (parse : String → Result ℕ) (from : YamlOidc) → All (Keeps log_part) (merge_oidc parse from)
unfolding merge_oidc
merge_oidc-Keeps parse from = ground arith

merge_tenants-Keeps :
    (parse : String → Result ℕ) (from : YamlConfig)
    → All (Keeps log_part) (merge_tenants parse from)
unfolding merge_tenants
merge_tenants-Keeps parse from = ground arith

log_set :
    (from : OpaConfig) (c d : Config)
    → when (gives_log from.decision_log) (set_log from) c ≡ ok d
    → log_part d ≡ (if gives_log from.decision_log then from.decision_log else log_part c)
log_set from c d e = elim (Bool-cases (gives_log from.decision_log)) [
  | inl given ↦ rw given (ap log_part (sym (ap (value_or c) (rw given at e))))
  | inr none_given ↦ rw none_given (ap log_part (sym (ap (value_or c) (rw none_given at e))))
]

merge_log_lem :
    (from : OpaConfig) (c d : Config)
    → run (merge_log from) c ≡ ok d
    → log_part d ≡ (if gives_log from.decision_log then from.decision_log else log_part c)
unfolding merge_log
merge_log_lem from c d e =
    let budgets = when (is_given from.tenant_budgets) (set_budgets from) in
    let (n, first, rest) =
      run_cons (when (gives_log from.decision_log) (set_log from)) (budgets ∷ []) c d e in
    run-Keeps log_part (budgets ∷ []) n d
      (when-Keeps log_part (is_given from.tenant_budgets) (set_budgets from) (λ c. refl), tt) rest
    ∙ log_set from c n first

-- A file that is merged sets the decision log to the whole of its own block where that gives a destination, a
-- positive retention, a redacted path or the scrubbing, so that a log whose `enabled` is left out is turned off;
-- where it gives none of the four the log stays as it was, so that `enabled: false` alone is not heeded.
pub merge_yaml-decision_log :
    (parse : String → Result ℕ) (from : YamlConfig) (cfg after : Config)
    → run (merge_yaml parse from) cfg ≡ ok after
    → let log = from.opa.decision_log in
      after.opa.decision_log ≡ (
        if not (log.destination == "")
          || is_positive log.retention_days
          || is_given log.redact_fields
          || log.scrub_policy_credentials
        then log
        else cfg.opa.decision_log)
unfolding merge_yaml merge_opa gives_log
merge_yaml-decision_log parse from cfg after h =
    let (a, same₁, h₁) =
      run_append-Keeps (merge_server parse from) _ cfg after (merge_server-Keeps parse from) h in
    let (b, same₂, h₂) =
      run_append-Keeps (merge_oidc parse from.oidc) _ a after (merge_oidc-Keeps parse from.oidc)
        h₁ in
    let (c, same₃, h₃) =
      run_append-Keeps (merge_tenants parse from) _ b after (merge_tenants-Keeps parse from) h₂ in
    let (d, same₄, h₄) =
      run_append-Keeps (merge_limits from.opa) _ c after (merge_limits-Keeps from.opa) h₃ in
    merge_log_lem from.opa d after h₄
    ∙ ap (λ log. if gives_log from.opa.decision_log then from.opa.decision_log else log)
        (same₄ ∙ same₃ ∙ same₂ ∙ same₁)
