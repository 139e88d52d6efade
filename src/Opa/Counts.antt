-- ===== src/Opa/Counts.antt =====
-- What a batch answers.
use Prim.Native.String
use mathlib.Core.Path.{subst}
use authpilot.Common.{
  ℕ, suc, ◌+◌, String, ◌≡◌, refl, sym, ap, ◌∙◌, Option, none, some, List, [], ◌∷◌, ◌==◌, length,
  count_if, map, arith, Bool-cases, inl, inr,
}
use authpilot.Common.GoMap.{GoMap}
use authpilot.Domain.{Value}
use authpilot.Opa.{OpaConfig, Rego, TenantBudget, Evaluation, result, failed, budget_for}
use authpilot.Opa.Input.{UserLookup}
use authpilot.Opa.Requests.{OpaAnswer, answered, is_empty, is_over}
use authpilot.Opa.Decisions.{Resolved-cases}
use authpilot.Opa.Batch.{
  BatchCheck, BatchRequest, BatchResult, BatchResponse, count_grants, run_check, run_checks, batch,
  build_batch_base_input, batch_response, batch_result,
}

count_grants_lem :
    (results : List BatchResult)
    → ((count_grants results).0 ≡ count_if (λ r. r.allow) results)
      × ((count_grants results).0 + (count_grants results).1 ≡ length results)
unfolding count_grants
count_grants_lem [] = ground arith
count_grants_lem (r ∷ results) = ground (arith, count_grants_lem results)

-- the check that a result is about
abbrev pub check_of : BatchResult → BatchCheck
check_of r = record { action = r.action; resource = r.resource }

batch_result-check_of : (c : BatchCheck) (o : Evaluation) → check_of (batch_result c o) ≡ c
batch_result-check_of c (failed e) = refl
batch_result-check_of c (result r) = refl

length-map : (results : List BatchResult) → length (map check_of results) ≡ length results
length-map [] = refl
length-map (r ∷ results) = ap suc (length-map results)

abbrev response_or : BatchResponse → OpaAnswer BatchResponse → BatchResponse
response_or default (answered status resp) = resp
response_or default _ = default

module _ (cfg : OpaConfig) (rego : Rego) (users : UserLookup) where
  run_check-check_of :
      (budget : TenantBudget) (req : BatchRequest) (base : GoMap Value) (refusal : Option String)
      (c : BatchCheck)
      → check_of (run_check cfg rego users budget req base refusal c) ≡ c
  unfolding run_check
  run_check-check_of budget req base none c = batch_result-check_of c _
  run_check-check_of budget req base (some text) c = refl

  run_checks_lem :
      (budget : TenantBudget) (req : BatchRequest) (base : GoMap Value)
      (acquire : ℕ → Option String) (i : ℕ) (checks : List BatchCheck)
      → map check_of (run_checks cfg rego users budget req base acquire i checks) ≡ checks
  unfolding run_checks
  run_checks_lem budget req base acquire i [] = refl
  run_checks_lem budget req base acquire i (c ∷ checks) = λ i'.
      run_check-check_of budget req base (acquire i) c i'
      ∷ run_checks_lem budget req base acquire (suc i) checks i'

  -- The context of a batch reaches no evaluation: the results are the same whatever it is.
  pub run_checks-context :
      (budget : TenantBudget) (req : BatchRequest) (context base : GoMap Value)
      (acquire : ℕ → Option String) (i : ℕ) (checks : List BatchCheck)
      → run_checks cfg rego users budget (record req { context = context }) base acquire i checks
        ≡ run_checks cfg rego users budget req base acquire i checks
  unfolding run_checks run_check
  run_checks-context budget req context base acquire i [] = refl
  run_checks-context budget req context base acquire i (c ∷ checks) =
      ap (λ rest. run_check cfg rego users budget req base (acquire i) c ∷ rest)
        (run_checks-context budget req context base acquire (suc i) checks)

  abbrev IsCounted : BatchRequest → BatchResponse → Type 0
  IsCounted req resp =
      (map check_of resp.results ≡ req.checks)
      × (resp.grant ≡ count_if (λ r. r.allow) resp.results)
      × (resp.grant + resp.deny ≡ resp.total_checks)

  batch_response-IsCounted :
      (budget : TenantBudget) (now : ℕ) (req : BatchRequest) (base : GoMap Value)
      (acquire : ℕ → Option String)
      → IsCounted req
          (batch_response now req (run_checks cfg rego users budget req base acquire 0 req.checks))
  unfolding batch_response
  batch_response-IsCounted budget now req base acquire =
      let results = run_checks cfg rego users budget req base acquire 0 req.checks in
      let same = run_checks_lem budget req base acquire 0 req.checks in
      let (grants, all) = count_grants_lem results in
      (same, grants, all ∙ sym (length-map results) ∙ ap length same)

  -- An answer to a batch has a result for each check, in the order of the checks, and counts as granted the
  -- results that allow and as denied all others, those with an error or no decision too.
  pub batch_lem :
      (acquire : ℕ → Option String) (now : ℕ) (tenant_id : String) (req : BatchRequest) (status : ℕ)
      (resp : BatchResponse)
      → batch cfg rego users acquire now tenant_id req ≡ answered status resp
      → (map check_of resp.results ≡ req.checks)
        × (resp.grant ≡ count_if (λ r. r.allow) resp.results)
        × (resp.grant + resp.deny ≡ resp.total_checks)
  unfolding batch
  batch_lem acquire now tenant_id req status resp = elim (Bool-cases (req.policy == "")) [
    | inl b ↦ rw (b, batch) (λ e. cc)
    | inr named ↦ elim (Bool-cases (is_empty req.checks)) [
      | inl b ↦ rw (named, b, batch) (λ e. cc)
      | inr some_checks ↦
          elim (Bool-cases
            (is_over (budget_for cfg tenant_id).max_policy_bytes (String.len req.policy))) [
              | inl b ↦ rw (named, some_checks, b, batch) (λ e. cc)
              | inr small ↦
                  elim (Bool-cases
                    (is_over (budget_for cfg tenant_id).max_batch_checks (length req.checks))) [
                      | inl b ↦ rw (named, some_checks, small, b, batch) (λ e. cc)
                      | inr few ↦ elim (Resolved-cases (build_batch_base_input users req)) [
                        | inr (text, b) ↦
                            rw (named, some_checks, small, few, batch) (rw b (λ e. cc))
                        | inl (base, b) ↦
                            rw (named, some_checks, small, few, batch)
                              (rw b (λ e. subst (IsCounted req) (ap (response_or resp) e) (
                                batch_response-IsCounted (budget_for cfg tenant_id) now req base
                                  acquire)))
                      ]
                    ]
            ]
    ]
  ]
