-- ===== src/Config/Sane.antt =====
-- What holds of settings that were loaded.
use mathlib.Core.Path.{subst}
use authpilot.Common.{
  ℕ, suc, String, ◌≡◌, ◌≢◌, ◌⊎◌, ap, true, false, none, some, List, [], ◌∷◌, contains, arith,
  Option-cases, inl, inr, eq_iff,
}
use authpilot.Common.Int64.{is_positive}
use authpilot.Common.Text.{trim_space}
use authpilot.Store.{Result, ok, err, value_or}
use authpilot.Config.{Config, TenantConfig, RuntimeOverrides, run, defaults, valid_log_level}
use authpilot.Config.Env.{Parsers}
use authpilot.Config.Validate.{
  validate, validate_tenancy, validate_tenants, is_nil, checked, load, File, no_file, unreadable,
  read, statements,
}

-- the ID and the key of each tenant are given, and no ID is seen twice
abbrev pub AreTenants : List String → List TenantConfig → Type 0
AreTenants seen [] = Unit
AreTenants seen (t ∷ tenants) =
    (t.id ≢ "") × (t.api_key ≢ "") × (contains seen t.id ≡ false) × AreTenants (t.id ∷ seen) tenants

validate_tenants-AreTenants :
    (i : ℕ) (seen : List String) (tenants : List TenantConfig)
    → validate_tenants i seen tenants ≡ none
    → AreTenants seen tenants
unfolding validate_tenants
validate_tenants-AreTenants i seen [] e = tt
validate_tenants-AreTenants i seen (t ∷ tenants) e = ground (
  arith,
  validate_tenants-AreTenants (suc i) (t.id ∷ seen) tenants,
  eq_iff t.id "",
  eq_iff t.api_key "",
  e,
)

pub record IsSane (cfg : Config) : Type 0 where
  pub http_addr : cfg.http_addr ≢ ""
  pub protocol_addr : cfg.protocol_addr ≢ ""
  pub log_level : valid_log_level cfg.log_level ≡ true
  pub sqlite_path : cfg.persistence.enabled ≡ true → trim_space cfg.persistence.sqlite_path ≢ ""
  pub interval : is_positive cfg.cleanup.interval ≡ true
  pub flow_ttl : is_positive cfg.cleanup.flow_ttl ≡ true
  pub session_ttl : is_positive cfg.cleanup.session_ttl ≡ true
  pub tenancy : (cfg.tenancy ≡ "") ⊎ (cfg.tenancy ≡ "single") ⊎ (cfg.tenancy ≡ "multi")
  pub scim_target : cfg.scim_client_mode ≡ true → trim_space cfg.scim_target_url ≢ ""
  pub some_tenant : cfg.tenancy ≡ "multi" → is_nil cfg.tenants ≡ false
  pub tenants : cfg.tenancy ≡ "multi" → AreTenants [] cfg.tenants

tenancy_lem :
    (cfg : Config)
    → validate_tenancy cfg ≡ none
    → cfg.tenancy ≡ "multi"
    → (is_nil cfg.tenants ≡ false) × (validate_tenants 0 [] cfg.tenants ≡ none)
unfolding validate_tenancy
tenancy_lem cfg e multi = ground (arith, eq_iff cfg.tenancy "multi")

validated_tenancy : (cfg : Config) → validate cfg ≡ none → validate_tenancy cfg ≡ none
unfolding validate
validated_tenancy cfg e = ground (arith, e)

validate-IsSane : (cfg : Config) → validate cfg ≡ none → IsSane cfg
unfolding validate
validate-IsSane cfg e = record {
  http_addr = ground (arith, eq_iff cfg.http_addr "", e);
  protocol_addr = ground (arith, eq_iff cfg.protocol_addr "", e);
  log_level = ground (arith, e);
  sqlite_path = ground (arith, eq_iff (trim_space cfg.persistence.sqlite_path) "", e);
  interval = ground (arith, e);
  flow_ttl = ground (arith, e);
  session_ttl = ground (arith, e);
  tenancy =
      ground
        (arith, eq_iff cfg.tenancy "", eq_iff cfg.tenancy "single", eq_iff cfg.tenancy "multi", e);
  scim_target = ground (arith, eq_iff (trim_space cfg.scim_target_url) "", e);
  some_tenant = λ multi. (tenancy_lem cfg (validated_tenancy cfg e) multi).0;
  tenants = λ multi.
      validate_tenants-AreTenants 0 [] cfg.tenants
        (tenancy_lem cfg (validated_tenancy cfg e) multi).1;
}

checked_run :
    (r : Result Config) (cfg : Config)
    → elim r [ err e ↦ err e | ok c ↦ checked c (validate c) ] ≡ ok cfg
    → validate cfg ≡ none
checked_run (err e) cfg h = cc
checked_run (ok c) cfg h = elim (Option-cases (validate c)) [
  | inr fine ↦
      let is : c ≡ cfg = ap (value_or c) (rw fine at h) in subst (λ z. validate z ≡ none) is fine
  | inl (text, wrong) ↦ cc (rw wrong at h)
]

-- Settings that are loaded pass the checks: the addresses are given, and so is the path of the database where
-- it is used, the level of the log is known, the durations of the cleanup are positive, the mode of tenancy is
-- empty, single or multi, a SCIM client has a target, and in the mode multi there is at least one tenant, each
-- with an ID and a key and no ID twice.
pub load-IsSane :
    (p : Parsers) (getenv : String → String) (file : File) (runtime : RuntimeOverrides)
    (cfg : Config)
    → load p getenv file runtime ≡ ok cfg
    → IsSane cfg
unfolding load
load-IsSane p getenv no_file runtime cfg h =
    validate-IsSane cfg (checked_run (run (statements p getenv none runtime) defaults) cfg h)
load-IsSane p getenv (unreadable e) runtime cfg h = cc
load-IsSane p getenv (read from) runtime cfg h =
    validate-IsSane cfg (checked_run (run (statements p getenv (some from) runtime) defaults) cfg h)
