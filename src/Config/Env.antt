-- ===== src/Config/Env.antt =====
-- `applyEnv` and `applyRuntime`: what the environment and the command line set. The environment is a
-- function of the name of a variable.
use Prim.Native.String
use authpilot.Common.{ℕ, String, true, not, List, [], ◌∷◌, ◌++◌, ◌==◌, if◌then◌else◌, ltb}
use authpilot.Common.Case.{to_lower}
use authpilot.Common.Text.{trim_space, split_on}
use authpilot.Store.{Result, ok, err, failure}
use authpilot.Opa.{DecisionLogConfig}
use authpilot.Config.{
  Config, SeedUser, RuntimeOverrides, Step, text_step, when, parsed_step, parse_bool,
}
use authpilot.Config.Merge.{set_opt, parse_non_negative}

-- the parts that are not blank, trimmed
unfoldable pub trimmed_parts : List String → List String
trimmed_parts [] = []
trimmed_parts (part ∷ parts) =
    let rest = trimmed_parts parts in if trim_space part == "" then rest else trim_space part ∷ rest

-- a list of texts, which is appended to what is there
abbrev list_step : String → (List String → Config → Config) → Step
list_step v append = when (not (v == "")) (append (trimmed_parts (split_on b',' v)))

-- what the library does with the texts of the environment
pub record Parsers : Type 0 where
  pub parse_duration : String → Result ℕ
  pub atoi : String → Result ℕ
  pub decode_base64 : String → Result String
  pub unmarshal_users : String → Result (List SeedUser)

-- a key of at least 16 bytes
abbrev parse_key : Parsers → String → Result String
parse_key p v = elim (p.decode_base64 v) [
  | err e ↦ err e
  | ok decoded ↦
      if ltb (String.len decoded) 16
      then err (failure "FURNACE_SESSION_HASH_KEY: too short")
      else ok decoded
]

abbrev log_step : (DecisionLogConfig → DecisionLogConfig) → Config → Config
log_step change cfg = record cfg {
  opa = record cfg.opa { decision_log = change cfg.opa.decision_log };
}

module _ (p : Parsers) (getenv : String → String) where
  -- `strings.TrimSpace(os.Getenv(name))`
  abbrev pub env : String → String
  env name = trim_space (getenv name)

  unfoldable pub env_server : List Step
  env_server =
      text_step (env "FURNACE_HTTP_ADDR") (λ v cfg. record cfg { http_addr = v })
      ∷ text_step (env "FURNACE_PROTOCOL_ADDR") (λ v cfg. record cfg { protocol_addr = v })
      ∷ text_step (env "FURNACE_LOG_LEVEL") (λ v cfg. record cfg { log_level = v })
      ∷ parsed_step parse_bool (env "FURNACE_PERSISTENCE_ENABLED")
          (λ b cfg. record cfg { persistence = record cfg.persistence { enabled = b } })
      ∷ text_step (env "FURNACE_SQLITE_PATH")
          (λ v cfg. record cfg { persistence = record cfg.persistence { sqlite_path = v } })
      ∷ parsed_step p.parse_duration (env "FURNACE_CLEANUP_INTERVAL")
          (λ d cfg. record cfg { cleanup = record cfg.cleanup { interval = d } })
      ∷ parsed_step p.parse_duration (env "FURNACE_FLOW_TTL")
          (λ d cfg. record cfg { cleanup = record cfg.cleanup { flow_ttl = d } })
      ∷ parsed_step p.parse_duration (env "FURNACE_SESSION_TTL")
          (λ d cfg. record cfg { cleanup = record cfg.cleanup { session_ttl = d } })
      ∷ text_step (env "FURNACE_OIDC_ISSUER_URL")
          (λ v cfg. record cfg { oidc = record cfg.oidc { issuer_url = v } })
      ∷ parsed_step (parse_non_negative p.parse_duration) (env "FURNACE_KEY_ROTATION_INTERVAL")
          (λ d cfg. record cfg { oidc = record cfg.oidc { key_rotation_interval = d } })
      ∷ parsed_step (parse_non_negative p.parse_duration) (env "FURNACE_KEY_ROTATION_OVERLAP")
          (λ d cfg. record cfg { oidc = record cfg.oidc { key_rotation_overlap = d } })
      ∷ []

  unfoldable pub env_keys : List Step
  unfolding split_on trimmed_parts
  env_keys =
      text_step (env "FURNACE_API_KEY") (λ v cfg. record cfg { api_key = v })
      ∷ text_step (env "FURNACE_SCIM_KEY") (λ v cfg. record cfg { scim_key = v })
      ∷ text_step (env "FURNACE_AUTH_EVENT_LOG") (λ v cfg. record cfg { auth_event_log = v })
      ∷ parsed_step (parse_key p) (env "FURNACE_SESSION_HASH_KEY")
          (λ k cfg. record cfg { session_hash_key = k })
      ∷ list_step (env "FURNACE_CORS_ORIGINS")
          (λ l cfg. record cfg { cors_origins = cfg.cors_origins ++ l })
      ∷ list_step (env "FURNACE_TRUSTED_PROXY_CIDRS")
          (λ l cfg. record cfg { trusted_proxy_cidrs = cfg.trusted_proxy_cidrs ++ l })
      ∷ parsed_step p.atoi (env "FURNACE_RATE_LIMIT") (λ n cfg. record cfg { rate_limit = n })
      ∷ []

  unfoldable pub env_features : List Step
  unfolding split_on trimmed_parts
  env_features =
      text_step (env "FURNACE_SAML_ENTITY_ID")
        (λ v cfg. record cfg { saml = record cfg.saml { entity_id = v } })
      ∷ text_step (env "FURNACE_SAML_CERT_DIR")
          (λ v cfg. record cfg { saml = record cfg.saml { cert_dir = v } })
      ∷ text_step (env "FURNACE_WEBAUTHN_RP_ID")
          (λ v cfg. record cfg { web_authn = record cfg.web_authn { rp_id = v } })
      ∷ text_step (env "FURNACE_WEBAUTHN_ORIGIN")
          (λ v cfg. record cfg { web_authn = record cfg.web_authn { origin = v } })
      ∷ parsed_step parse_bool (env "FURNACE_HEADER_PROPAGATION")
          (λ b cfg. record cfg { header_propagation = b })
      ∷ text_step (env "FURNACE_TENANCY") (λ v cfg. record cfg { tenancy = v })
      ∷ text_step (env "FURNACE_PROVIDER") (λ v cfg. record cfg { provider = v })
      ∷ when (to_lower (env "FURNACE_SCIM_MODE") == "client")
          (λ cfg. record cfg { scim_client_mode = true })
      ∷ text_step (env "FURNACE_SCIM_TARGET") (λ v cfg. record cfg { scim_target_url = v })
      ∷ parsed_step p.unmarshal_users (env "FURNACE_SEED_USERS")
          (λ us cfg. record cfg { seed_users = cfg.seed_users ++ us })
      ∷ list_step (env "FURNACE_OPA_DECISION_LOG_REDACT_FIELDS")
          (λ l. log_step (λ log. record log { redact_fields = log.redact_fields ++ l }))
      ∷ parsed_step parse_bool (env "FURNACE_OPA_DECISION_LOG_SCRUB_CREDENTIALS")
          (λ b. log_step (λ log. record log { scrub_policy_credentials = b }))
      ∷ parsed_step (parse_non_negative p.atoi) (env "FURNACE_OPA_DECISION_LOG_RETENTION_DAYS")
          (λ n. log_step (λ log. record log { retention_days = n }))
      ∷ []

  unfoldable pub apply_env : List Step
  unfolding env_server env_keys env_features
  apply_env = env_server ++ env_keys ++ env_features

-- `applyRuntime`
unfoldable pub apply_runtime : RuntimeOverrides → List Step
apply_runtime runtime =
    text_step runtime.http_addr (λ v cfg. record cfg { http_addr = v })
    ∷ text_step runtime.protocol_addr (λ v cfg. record cfg { protocol_addr = v })
    ∷ text_step runtime.log_level (λ v cfg. record cfg { log_level = v })
    ∷ text_step runtime.sqlite_path
        (λ v cfg. record cfg { persistence = record cfg.persistence { sqlite_path = v } })
    ∷ set_opt runtime.persistence_enabled
        (λ b cfg. record cfg { persistence = record cfg.persistence { enabled = b } })
    ∷ set_opt runtime.cleanup_interval
        (λ d cfg. record cfg { cleanup = record cfg.cleanup { interval = d } })
    ∷ text_step runtime.provider (λ v cfg. record cfg { provider = v })
    ∷ []
