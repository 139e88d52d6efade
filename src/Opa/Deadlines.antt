-- ===== src/Opa/Deadlines.antt =====
-- The deadlines that the evaluation of one policy is given.
use authpilot.Common.{
  ℕ, ◌≤◌, ◌<◌, ◌*◌, String, ◌≡◌, ◌≢◌, refl, ap, ◌∙◌, ◌&&◌, Option, none, some, arith, if◌then◌else◌,
  ltb, inl, inr, ne→==-false,
}
use authpilot.Opa.{
  OpaConfig, budget_for, tighten, EvalOptions, compile_deadline, eval_deadline, Rego, eval,
  query_or_default,
}
use authpilot.Opa.Input.{UserLookup}
use authpilot.Opa.Limits.{
  IsNaturalBudget, global_budget, budget_for-AtMost, Fits, IsNatural, deadline_le,
}
use authpilot.Opa.Requests.{
  EvaluateRequest, TimeoutOverride, PolicyLookup, named, tampered, not_named, no_store,
  lookup_failed, apply_timeout_override, overridden, build_input_for_request,
}
use authpilot.Opa.Evaluate.{evaluate_policy, with_policy, evaluate}
use authpilot.Opa.Decisions.{Resolved-cases}

-- a limit of a tenant, and below it the milliseconds that a request asks for, if it asks for any
abbrev pub bound : ℕ → ℕ → ℕ
bound limit ms = if ltb 0 ms && ltb (ms * 1000000) limit then ms * 1000000 else limit

abbrev pub compile_ms_of : Option TimeoutOverride → ℕ
compile_ms_of none = 0
compile_ms_of (some t) = t.compile_ms

abbrev pub eval_ms_of : Option TimeoutOverride → ℕ
eval_ms_of none = 0
eval_ms_of (some t) = t.eval_ms

abbrev least : ℕ → ℕ → ℕ
least a b = if ltb a b then a else b

-- the Rego library under deadlines that are cut to `c` for the compilation and to `e` for the evaluation
abbrev pub clipped : ℕ → ℕ → Rego → Rego
clipped c e rego compile_dl eval_dl query opts =
    rego (least c compile_dl) (least e eval_dl) query opts

eval-clipped :
    (cfg : OpaConfig) (rego : Rego) (c e : ℕ) (opts : EvalOptions)
    → compile_deadline cfg opts ≤ c
    → eval_deadline cfg opts ≤ e
    → eval cfg (clipped c e rego) opts ≡ eval cfg rego opts
unfolding eval
eval-clipped cfg rego c e opts lc le =
    let kept_c : least c (compile_deadline cfg opts) ≡ compile_deadline cfg opts = ground arith in
    let kept_e : least e (eval_deadline cfg opts) ≡ eval_deadline cfg opts = ground arith in
    ap (λ x. eval cfg (λ a b q o. rego x (least e (eval_deadline cfg opts)) q o) opts) kept_c
    ∙ ap (λ x. eval cfg (λ a b q o. rego (compile_deadline cfg opts) x q o) opts) kept_e

deadline_bound :
    (global limit ms : ℕ)
    → 0 < limit
    → limit ≤ global
    → IsNatural global
    → Fits ms
    → tighten global (overridden limit ms) ≤ bound limit ms
deadline_bound global limit ms p le h f = ground (arith, deadline_le global limit ms p le h f)

module _ (cfg : OpaConfig) (tenant_id : String) (sane : IsNaturalBudget (global_budget cfg))
    (compiles : 0 < (budget_for cfg tenant_id).compile_timeout)
    (evaluates : 0 < (budget_for cfg tenant_id).eval_timeout) where
  abbrev compile_bound : Option TimeoutOverride → ℕ
  compile_bound t = bound (budget_for cfg tenant_id).compile_timeout (compile_ms_of t)

  abbrev eval_bound : Option TimeoutOverride → ℕ
  eval_bound t = bound (budget_for cfg tenant_id).eval_timeout (eval_ms_of t)

  limited_le :
      (opts : EvalOptions) (t : Option TimeoutOverride)
      → Fits (compile_ms_of t)
      → Fits (eval_ms_of t)
      → let limited = apply_timeout_override opts t (budget_for cfg tenant_id) in
        (compile_deadline cfg limited ≤ compile_bound t)
        × (eval_deadline cfg limited ≤ eval_bound t)
  unfolding apply_timeout_override
  limited_le opts none fc fe =
      let le = (budget_for-AtMost cfg tenant_id sane).0 in
      (
        deadline_bound cfg.compile_timeout _ 0 compiles le.1 sane.1 fc,
        deadline_bound cfg.eval_timeout _ 0 evaluates le.0 sane.0 fe,
      )
  limited_le opts (some t) fc fe =
      let le = (budget_for-AtMost cfg tenant_id sane).0 in
      (
        deadline_bound cfg.compile_timeout _ t.compile_ms compiles le.1 sane.1 fc,
        deadline_bound cfg.eval_timeout _ t.eval_ms evaluates le.0 sane.0 fe,
      )

  module _ (rego : Rego) (users : UserLookup) where
    abbrev within : Option TimeoutOverride → Rego
    within t = clipped (compile_bound t) (eval_bound t) rego

    evaluate_policy-within :
        (now : ℕ) (req : EvaluateRequest) (version hash : String)
        → req.provider ≢ "all"
        → Fits (compile_ms_of req.timeouts)
        → Fits (eval_ms_of req.timeouts)
        → evaluate_policy cfg (within req.timeouts) users now tenant_id req version hash
          ≡ evaluate_policy cfg rego users now tenant_id req version hash
    unfolding evaluate_policy
    evaluate_policy-within now req version hash one fc fe =
        let other = ne→==-false req.provider "all" one in
        elim (Resolved-cases (build_input_for_request users req)) [
          | inr (text, unread) ↦ rw (other, evaluate_policy, unread) refl
          | inl (input, read) ↦
              let opts : EvalOptions = record {
                policy_text = req.policy;
                data_map = req.data_map;
                input = input;
                query = query_or_default req.query;
                with_trace = req.trace;
                compile_timeout = 0;
                eval_timeout = 0;
              } in
              let (lc, le) = limited_le opts req.timeouts fc fe in
              let same =
                eval-clipped cfg rego (compile_bound req.timeouts) (eval_bound req.timeouts)
                  (apply_timeout_override opts req.timeouts (budget_for cfg tenant_id)) lc le in
              rw (other, evaluate_policy, read, same) refl
        ]

    with_policy-within :
        (now : ℕ) (req : EvaluateRequest) (l : PolicyLookup)
        → req.provider ≢ "all"
        → Fits (compile_ms_of req.timeouts)
        → Fits (eval_ms_of req.timeouts)
        → with_policy cfg (within req.timeouts) users now tenant_id req l
          ≡ with_policy cfg rego users now tenant_id req l
    unfolding with_policy
    with_policy-within now req (named p) one fc fe =
        evaluate_policy-within now (record req { policy = p.content }) _ _ one fc fe
    with_policy-within now req tampered one fc fe = refl
    with_policy-within now req not_named one fc fe = refl
    with_policy-within now req no_store one fc fe = refl
    with_policy-within now req (lookup_failed text) one fc fe = refl

-- A request to evaluate a policy for one provider is answered and logged in the same way as if the Rego library
-- were never given a longer deadline, for the compilation and for the evaluation, than the limit of the tenant or,
-- where that is less, the milliseconds that the request asks for, if the limits of the server are not negative,
-- those of the tenant are positive, and what the request asks for fits in 63 bits of nanoseconds.
pub evaluate-clipped :
    (cfg : OpaConfig) (rego : Rego) (users : UserLookup) (by_name : String → PolicyLookup) (now : ℕ)
    (tenant_id : String) (req : EvaluateRequest)
    → IsNaturalBudget (global_budget cfg)
    → 0 < (budget_for cfg tenant_id).compile_timeout
    → 0 < (budget_for cfg tenant_id).eval_timeout
    → req.provider ≢ "all"
    → Fits (compile_ms_of req.timeouts)
    → Fits (eval_ms_of req.timeouts)
    → let budget = budget_for cfg tenant_id in
      let cut =
        clipped
          (bound budget.compile_timeout (compile_ms_of req.timeouts))
          (bound budget.eval_timeout (eval_ms_of req.timeouts))
          rego in
      evaluate cfg cut users by_name now tenant_id req
      ≡ evaluate cfg rego users by_name now tenant_id req
unfolding evaluate
evaluate-clipped cfg rego users by_name now tenant_id req sane compiles evaluates one fc fe =
    ground (
      arith,
      evaluate_policy-within cfg tenant_id sane compiles evaluates rego users now req "inline" ""
          one fc fe,
      with_policy-within cfg tenant_id sane compiles evaluates rego users now req
          (by_name req.policy_name) one fc fe,
    )
