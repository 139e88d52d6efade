-- ===== src/Config/Merge.antt =====
-- `mergeYAML`: what the file sets.
use authpilot.Common.{
  ℕ, String, Bool, true, false, not, ◌||◌, Option, none, some, List, [], ◌∷◌, ◌++◌, ◌==◌,
  if◌then◌else◌,
}
use authpilot.Common.Int64.{is_positive}
use authpilot.Store.{Result, ok, err, failure}
use authpilot.Opa.{OpaConfig, DecisionLogConfig}
use authpilot.Config.{
  Config, TenantConfig, SeedUser, WebAuthnConfig, HeaderMappingConfig, TokensConfig, Step,
  text_step, when, parsed_step,
}

pub record YamlOidc : Type 0 where
  pub issuer_url : String
  pub access_token_ttl : String
  pub id_token_ttl : String
  pub refresh_token_ttl : String
  pub key_rotation_interval : String
  pub key_rotation_overlap : String

pub record YamlPersistence : Type 0 where
  pub enabled : Option Bool
  pub sqlite_path : String

pub record YamlCleanup : Type 0 where
  pub interval : String
  pub flow_ttl : String
  pub session_ttl : String

pub record YamlConfig : Type 0 where
  pub http_addr : String
  pub protocol_addr : String
  pub log_level : String
  pub persistence : YamlPersistence
  pub cleanup : YamlCleanup
  pub oidc : YamlOidc
  pub web_authn : WebAuthnConfig
  pub seed_users : List SeedUser
  pub tenancy : String
  pub tenants : List TenantConfig
  pub provider : String
  pub scim_client_mode : Bool
  pub scim_target_url : String
  pub tokens : TokensConfig
  pub header_mappings : List HeaderMappingConfig
  pub opa : OpaConfig

abbrev pub is_given {ℓ} : {A : Type ℓ} → List A → Bool
is_given [] = false
is_given (x ∷ xs) = true

abbrev pub set_opt : {A : Type 0} → Option A → (A → Config → Config) → Step
set_opt none set cfg = ok cfg
set_opt (some a) set cfg = ok (set a cfg)

-- the settings of the log are taken as a whole where one of four is given
unfoldable pub gives_log : DecisionLogConfig → Bool
gives_log log =
    not (log.destination == "")
    || is_positive log.retention_days
    || is_given log.redact_fields
    || log.scrub_policy_credentials

-- the part on the OPA settings up to those of the log
unfoldable pub merge_limits : OpaConfig → List Step
merge_limits from =
    when (is_positive from.compile_timeout)
      (λ cfg. record cfg { opa = record cfg.opa { compile_timeout = from.compile_timeout } })
    ∷ when (is_positive from.eval_timeout)
        (λ cfg. record cfg { opa = record cfg.opa { eval_timeout = from.eval_timeout } })
    ∷ when (is_positive from.max_policy_bytes)
        (λ cfg. record cfg { opa = record cfg.opa { max_policy_bytes = from.max_policy_bytes } })
    ∷ when (is_positive from.max_data_bytes)
        (λ cfg. record cfg { opa = record cfg.opa { max_data_bytes = from.max_data_bytes } })
    ∷ when (is_positive from.max_batch_checks)
        (λ cfg. record cfg { opa = record cfg.opa { max_batch_checks = from.max_batch_checks } })
    ∷ when (is_positive from.max_concurrent)
        (λ cfg. record cfg { opa = record cfg.opa { max_concurrent = from.max_concurrent } })
    ∷ []

abbrev pub set_log : OpaConfig → Config → Config
set_log from cfg = record cfg { opa = record cfg.opa { decision_log = from.decision_log } }

abbrev pub set_budgets : OpaConfig → Config → Config
set_budgets from cfg = record cfg { opa = record cfg.opa { tenant_budgets = from.tenant_budgets } }

-- the settings of the log and of the tenants
unfoldable pub merge_log : OpaConfig → List Step
unfolding gives_log
merge_log from =
    when (gives_log from.decision_log) (set_log from)
    ∷ when (is_given from.tenant_budgets) (set_budgets from)
    ∷ []

-- the part on the OPA settings
unfoldable pub merge_opa : OpaConfig → List Step
unfolding merge_limits merge_log
merge_opa from = merge_limits from ++ merge_log from

-- `d < 0`
abbrev non_negative : Result ℕ → Result ℕ
non_negative (err e) = err e
non_negative (ok d) =
    if is_positive d
    then ok d
    else if authpilot.Common.eqb d 0
    then ok d
    else err (failure "must be a valid non-negative duration")

module _ (parse_duration : String → Result ℕ) where
  -- a duration that must not be negative
  abbrev pub parse_non_negative : String → Result ℕ
  parse_non_negative v = non_negative (parse_duration v)

  -- the part on the OIDC settings
  unfoldable pub merge_oidc : YamlOidc → List Step
  merge_oidc from =
      text_step from.issuer_url (λ v cfg. record cfg { oidc = record cfg.oidc { issuer_url = v } })
      ∷ parsed_step parse_duration from.access_token_ttl
          (λ d cfg. record cfg { oidc = record cfg.oidc { access_token_ttl = d } })
      ∷ parsed_step parse_duration from.id_token_ttl
          (λ d cfg. record cfg { oidc = record cfg.oidc { id_token_ttl = d } })
      ∷ parsed_step parse_duration from.refresh_token_ttl
          (λ d cfg. record cfg { oidc = record cfg.oidc { refresh_token_ttl = d } })
      ∷ parsed_step parse_non_negative from.key_rotation_interval
          (λ d cfg. record cfg { oidc = record cfg.oidc { key_rotation_interval = d } })
      ∷ parsed_step parse_non_negative from.key_rotation_overlap
          (λ d cfg. record cfg { oidc = record cfg.oidc { key_rotation_overlap = d } })
      ∷ []

  -- the parts on the addresses, the database and the cleanup
  unfoldable pub merge_server : YamlConfig → List Step
  merge_server from =
      text_step from.http_addr (λ v cfg. record cfg { http_addr = v })
      ∷ text_step from.protocol_addr (λ v cfg. record cfg { protocol_addr = v })
      ∷ text_step from.log_level (λ v cfg. record cfg { log_level = v })
      ∷ set_opt from.persistence.enabled
          (λ b cfg. record cfg { persistence = record cfg.persistence { enabled = b } })
      ∷ text_step from.persistence.sqlite_path
          (λ v cfg. record cfg { persistence = record cfg.persistence { sqlite_path = v } })
      ∷ parsed_step parse_duration from.cleanup.interval
          (λ d cfg. record cfg { cleanup = record cfg.cleanup { interval = d } })
      ∷ parsed_step parse_duration from.cleanup.flow_ttl
          (λ d cfg. record cfg { cleanup = record cfg.cleanup { flow_ttl = d } })
      ∷ parsed_step parse_duration from.cleanup.session_ttl
          (λ d cfg. record cfg { cleanup = record cfg.cleanup { session_ttl = d } })
      ∷ []

  -- a flag of the tokens that the file turns on
  abbrev with_format :
      (authpilot.Config.TokenFormatConfig → authpilot.Config.TokenFormatConfig) → Config → Config
  with_format change cfg = record cfg {
    tokens = record cfg.tokens { format = change cfg.tokens.format };
  }

  -- the parts on users, tenants and tokens
  unfoldable pub merge_tenants : YamlConfig → List Step
  merge_tenants from =
      text_step from.web_authn.rp_id
        (λ v cfg. record cfg { web_authn = record cfg.web_authn { rp_id = v } })
      ∷ text_step from.web_authn.origin
          (λ v cfg. record cfg { web_authn = record cfg.web_authn { origin = v } })
      ∷ when (is_given from.seed_users)
          (λ cfg. record cfg { seed_users = cfg.seed_users ++ from.seed_users })
      ∷ text_step from.tenancy (λ v cfg. record cfg { tenancy = v })
      ∷ when (is_given from.tenants) (λ cfg. record cfg { tenants = from.tenants })
      ∷ text_step from.provider (λ v cfg. record cfg { provider = v })
      ∷ when from.scim_client_mode (λ cfg. record cfg { scim_client_mode = true })
      ∷ text_step from.scim_target_url (λ v cfg. record cfg { scim_target_url = v })
      ∷ when from.tokens.format.include_jti (with_format (λ f. record f { include_jti = true }))
      ∷ when from.tokens.format.aud_as_array (with_format (λ f. record f { aud_as_array = true }))
      ∷ when from.tokens.format.include_scope (with_format (λ f. record f { include_scope = true }))
      ∷ when from.tokens.hasura_claims.enabled (λ cfg. record cfg {
        tokens = record cfg.tokens { hasura_claims = from.tokens.hasura_claims };
      })
      ∷ when from.tokens.apollo_claims.enabled (λ cfg. record cfg {
        tokens = record cfg.tokens { apollo_claims = from.tokens.apollo_claims };
      })
      ∷ when (is_given from.header_mappings)
          (λ cfg. record cfg { header_mappings = from.header_mappings })
      ∷ []

  unfoldable pub merge_yaml : YamlConfig → List Step
  unfolding merge_server merge_oidc merge_tenants merge_opa
  merge_yaml from =
      merge_server from ++ merge_oidc from.oidc ++ merge_tenants from ++ merge_opa from.opa
