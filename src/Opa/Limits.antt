-- ===== src/Opa/Limits.antt =====
-- The limits that apply to a request.
use mathlib.Core.Path.{subst}
use authpilot.Common.{
  ℕ, ◌≤◌, ◌<◌, ◌*◌, String, ◌≡◌, ap, Option, none, some, arith, Option-cases, inl, inr,
}
use authpilot.Common.GoMap.{lookup}
use authpilot.Common.Int64.{times}
use authpilot.Opa.{TenantBudget, OpaConfig, budget_for, tighten, EvalOptions, compile_deadline}
use authpilot.Opa.Requests.{TimeoutOverride, apply_timeout_override, overridden}

-- the words of numbers that are not negative
abbrev pub IsNatural : ℕ → Type 0
IsNatural n = n < 0x8000000000000000

abbrev pub AtMost : TenantBudget → TenantBudget → Type 0
AtMost a b =
    (a.eval_timeout ≤ b.eval_timeout)
    × (a.compile_timeout ≤ b.compile_timeout)
    × (a.max_policy_bytes ≤ b.max_policy_bytes)
    × (a.max_data_bytes ≤ b.max_data_bytes)
    × (a.max_batch_checks ≤ b.max_batch_checks)

abbrev pub IsNaturalBudget : TenantBudget → Type 0
IsNaturalBudget b =
    IsNatural b.eval_timeout
    × IsNatural b.compile_timeout
    × IsNatural b.max_policy_bytes
    × IsNatural b.max_data_bytes
    × IsNatural b.max_batch_checks

-- the limits that are the same for every tenant
abbrev pub global_budget : OpaConfig → TenantBudget
global_budget cfg = record {
  eval_timeout = cfg.eval_timeout;
  compile_timeout = cfg.compile_timeout;
  max_policy_bytes = cfg.max_policy_bytes;
  max_data_bytes = cfg.max_data_bytes;
  max_batch_checks = cfg.max_batch_checks;
  decision_log = none;
}

-- a limit of a tenant that is zero is not one
abbrev pub IsGiven : ℕ → ℕ → Type 0
IsGiven limit ov = 0 < ov → limit ≤ ov

abbrev pub AtMostGiven : TenantBudget → TenantBudget → Type 0
AtMostGiven b ov =
    IsGiven b.eval_timeout ov.eval_timeout
    × IsGiven b.compile_timeout ov.compile_timeout
    × IsGiven b.max_policy_bytes ov.max_policy_bytes
    × IsGiven b.max_data_bytes ov.max_data_bytes
    × IsGiven b.max_batch_checks ov.max_batch_checks

tighten_le : (limit ov : ℕ) → IsNatural limit → tighten limit ov ≤ limit
tighten_le limit ov h = ground arith

tighten-IsGiven : (limit ov : ℕ) → IsNatural limit → IsNatural ov → IsGiven (tighten limit ov) ov
tighten-IsGiven limit ov h k positive = ground arith

tighten_positive : (limit ov : ℕ) → 0 < limit → IsNatural limit → 0 < tighten limit ov
tighten_positive limit ov p h = ground arith

abbrev budget_or : TenantBudget → Option TenantBudget → TenantBudget
budget_or default none = default
budget_or default (some b) = b

abbrev tightened : OpaConfig → TenantBudget → TenantBudget
tightened cfg ov = record {
  eval_timeout = tighten cfg.eval_timeout ov.eval_timeout;
  compile_timeout = tighten cfg.compile_timeout ov.compile_timeout;
  max_policy_bytes = tighten cfg.max_policy_bytes ov.max_policy_bytes;
  max_data_bytes = tighten cfg.max_data_bytes ov.max_data_bytes;
  max_batch_checks = tighten cfg.max_batch_checks ov.max_batch_checks;
  decision_log = none;
}

tightened-AtMostGiven :
    (cfg : OpaConfig) (ov : TenantBudget)
    → IsNaturalBudget (global_budget cfg)
    → IsNaturalBudget ov
    → AtMostGiven (tightened cfg ov) ov
tightened-AtMostGiven cfg ov (e, c, p, d, b) (e', c', p', d', b') = (
  tighten-IsGiven cfg.eval_timeout ov.eval_timeout e e',
  tighten-IsGiven cfg.compile_timeout ov.compile_timeout c c',
  tighten-IsGiven cfg.max_policy_bytes ov.max_policy_bytes p p',
  tighten-IsGiven cfg.max_data_bytes ov.max_data_bytes d d',
  tighten-IsGiven cfg.max_batch_checks ov.max_batch_checks b b',
)

-- The limits of a tenant are at most those of the server, and at most those that the tenant was given, if
-- neither has a negative one.
pub budget_for-AtMost :
    (cfg : OpaConfig) (tenant_id : String)
    → IsNaturalBudget (global_budget cfg)
    → AtMost (budget_for cfg tenant_id) (global_budget cfg)
      × ((ov : TenantBudget)
          → lookup tenant_id cfg.tenant_budgets ≡ some ov
          → IsNaturalBudget ov
          → AtMostGiven (budget_for cfg tenant_id) ov)
unfolding budget_for
budget_for-AtMost cfg tenant_id (e, c, p, d, b) =
    elim (Option-cases (lookup tenant_id cfg.tenant_budgets)) [
      | inr missing ↦ rw (missing, budget_for) (ground arith, λ ov stored. cc)
      | inl (ov, stored) ↦
          rw (stored, budget_for)
            (
              (
                tighten_le cfg.eval_timeout ov.eval_timeout e,
                tighten_le cfg.compile_timeout ov.compile_timeout c,
                tighten_le cfg.max_policy_bytes ov.max_policy_bytes p,
                tighten_le cfg.max_data_bytes ov.max_data_bytes d,
                tighten_le cfg.max_batch_checks ov.max_batch_checks b,
              ),
              λ other same.
                  subst (λ z. IsNaturalBudget z → AtMostGiven (tightened cfg ov) z)
                    (ap (budget_or ov) same) (tightened-AtMostGiven cfg ov (e, c, p, d, b)),
            )
    ]

-- the milliseconds are a number of nanoseconds that fits in a word
abbrev pub Fits : ℕ → Type 0
Fits ms = ms * 1000000 < 0x8000000000000000

overridden-Fits :
    (limit ms : ℕ)
    → 0 < limit
    → IsNatural limit
    → Fits ms
    → (0 < overridden limit ms)
      × (overridden limit ms ≤ limit)
      × (0 < ms → overridden limit ms ≤ ms * 1000000)
overridden-Fits limit ms p h f = ground arith

-- a limit of the server, that of the tenant below it, and the milliseconds of the request
pub deadline_le :
    (global limit ms : ℕ)
    → 0 < limit
    → limit ≤ global
    → IsNatural global
    → Fits ms
    → (tighten global (overridden limit ms) ≤ limit)
      × (0 < ms → tighten global (overridden limit ms) ≤ ms * 1000000)
deadline_le global limit ms p le h f =
    let natural : IsNatural limit = omega (arith, le, h) in
    let (positive, small, asked) = overridden-Fits limit ms p natural f in ground arith

-- Where the nanoseconds do not fit and the word is negative, the deadline for the compilation is that of the
-- server, whatever the limit of the tenant is.
pub deadline_overflows :
    (cfg : OpaConfig) (tenant_id : String) (opts : EvalOptions) (t : TimeoutOverride)
    → 0 < t.compile_ms
    → IsNatural t.compile_ms
    → IsNatural (budget_for cfg tenant_id).compile_timeout
    → 0x8000000000000000 ≤ times t.compile_ms 1000000
    → compile_deadline cfg (apply_timeout_override opts (some t) (budget_for cfg tenant_id))
      ≡ cfg.compile_timeout
unfolding apply_timeout_override
deadline_overflows cfg tenant_id opts t p h limit negative = ground arith
