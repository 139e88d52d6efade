-- ===== src/Config.antt =====
-- server/internal/config/config.go: the settings of the server, from its defaults, a file, the environment
-- and the command line. Durations and numbers are 64-bit words.
pub mod Merge
pub mod Env
pub mod Validate
pub mod Sane
pub mod DecisionLog
mod Tests
use authpilot.Common.{ℕ, String, Bool, true, false, Option, List, [], ◌∷◌, ◌==◌, if◌then◌else◌}
use authpilot.Common.Case.{to_lower}
use authpilot.Common.GoMap.{GoMap}
use authpilot.Common.Text.{trim_space}
use authpilot.Domain.{Value}
use authpilot.Store.{Result, ok, err}
use authpilot.Opa.{OpaConfig}

pub record TenantConfig : Type 0 where
  pub id : String
  pub api_key : String
  pub scim_key : String
  pub oidc_issuer_url : String

pub record SeedUser : Type 0 where
  pub id : String
  pub email : String
  pub display_name : String
  pub groups : List String
  pub mfa_method : String
  pub next_flow : String
  pub active : Option Bool
  pub claims : GoMap Value
  pub phone_number : String

pub record WebAuthnConfig : Type 0 where
  pub rp_id : String
  pub origin : String

pub record SamlConfig : Type 0 where
  pub entity_id : String
  pub cert_dir : String

pub record OidcConfig : Type 0 where
  pub issuer_url : String
  pub access_token_ttl : ℕ
  pub id_token_ttl : ℕ
  pub refresh_token_ttl : ℕ
  pub key_rotation_interval : ℕ
  pub key_rotation_overlap : ℕ

pub record TokenFormatConfig : Type 0 where
  pub include_jti : Bool
  pub aud_as_array : Bool
  pub include_scope : Bool

pub record HasuraConfig : Type 0 where
  pub enabled : Bool
  pub namespace : String
  pub default_role : String
  pub allowed_roles : List String

pub record ApolloClaimsConfig : Type 0 where
  pub enabled : Bool
  pub user_id_claim : String
  pub roles_claim : String

pub record TokensConfig : Type 0 where
  pub format : TokenFormatConfig
  pub hasura_claims : HasuraConfig
  pub apollo_claims : ApolloClaimsConfig

pub record HeaderMappingConfig : Type 0 where
  pub name : String
  pub claim : String
  pub join : String

pub record PersistenceConfig : Type 0 where
  pub enabled : Bool
  pub sqlite_path : String

pub record CleanupConfig : Type 0 where
  pub interval : ℕ
  pub flow_ttl : ℕ
  pub session_ttl : ℕ

pub record Config : Type 0 where
  pub http_addr : String
  pub protocol_addr : String
  pub log_level : String
  pub persistence : PersistenceConfig
  pub cleanup : CleanupConfig
  pub oidc : OidcConfig
  pub saml : SamlConfig
  pub web_authn : WebAuthnConfig
  pub api_key : String
  pub scim_key : String
  pub session_hash_key : String
  pub auth_event_log : String
  pub rate_limit : ℕ
  pub cors_origins : List String
  pub trusted_proxy_cidrs : List String
  pub seed_users : List SeedUser
  pub header_propagation : Bool
  pub header_mappings : List HeaderMappingConfig
  pub tokens : TokensConfig
  pub opa : OpaConfig
  pub tenancy : String
  pub tenants : List TenantConfig
  pub provider : String
  pub scim_client_mode : Bool
  pub scim_target_url : String

pub record RuntimeOverrides : Type 0 where
  pub http_addr : String
  pub protocol_addr : String
  pub log_level : String
  pub sqlite_path : String
  pub provider : String
  pub persistence_enabled : Option Bool
  pub cleanup_interval : Option ℕ

abbrev pub second : ℕ
second = 1000000000

-- `Defaults`
abbrev pub defaults : Config
defaults = record {
  http_addr = ":8025";
  protocol_addr = ":8026";
  log_level = "info";
  persistence = record { enabled = true; sqlite_path = "./data/furnace.db" };
  cleanup = record {
    interval = 60000000000;
    flow_ttl = 1800000000000;
    session_ttl = 43200000000000;
  };
  oidc = record {
    issuer_url = "http://localhost:8026";
    access_token_ttl = 3600000000000;
    id_token_ttl = 3600000000000;
    refresh_token_ttl = 2592000000000000;
    key_rotation_interval = 0;
    key_rotation_overlap = 86400000000000;
  };
  saml = record { entity_id = "http://localhost:8026"; cert_dir = "" };
  web_authn = record { rp_id = ""; origin = "" };
  api_key = "";
  scim_key = "";
  session_hash_key = "";
  auth_event_log = "";
  rate_limit = 0;
  cors_origins = [];
  trusted_proxy_cidrs = [];
  seed_users = [];
  header_propagation = false;
  header_mappings = [];
  tokens = record {
    format = record { include_jti = false; aud_as_array = false; include_scope = false };
    hasura_claims = record {
      enabled = false;
      namespace = "";
      default_role = "";
      allowed_roles = [];
    };
    apollo_claims = record { enabled = false; user_id_claim = ""; roles_claim = "" };
  };
  opa = record {
    compile_timeout = 2000000000;
    eval_timeout = 5000000000;
    max_policy_bytes = 65536;
    max_data_bytes = 5242880;
    max_batch_checks = 100;
    max_concurrent = 0;
    decision_log = record {
      enabled = true;
      include_input = false;
      include_policy = false;
      destination = "stdout";
      redact_fields = [];
      scrub_policy_credentials = false;
      retention_days = 0;
    };
    tenant_budgets = [];
  };
  tenancy = "";
  tenants = [];
  provider = "";
  scim_client_mode = false;
  scim_target_url = "";
}

-- a statement that changes the settings or ends with an error
abbrev pub Step : Type 0
Step = Config → Result Config

-- the statements one after the other, up to the first error
unfoldable pub run : List Step → Config → Result Config
run [] cfg = ok cfg
run (step ∷ steps) cfg = elim (step cfg) [ err e ↦ err e | ok next ↦ run steps next ]

-- `if v != "" { cfg.X = v }`
abbrev pub text_step : String → (String → Config → Config) → Step
text_step v set cfg = if v == "" then ok cfg else ok (set v cfg)

-- `if test { cfg.X = v }`
abbrev pub when : Bool → (Config → Config) → Step
when test change cfg = if test then ok (change cfg) else ok cfg

-- a text that is parsed where it is given, and whose error ends the load
abbrev pub parsed_step : {A : Type 0} → (String → Result A) → String → (A → Config → Config) → Step
parsed_step parse v set cfg =
    if v == "" then ok cfg else elim (parse v) [ err e ↦ err e | ok a ↦ ok (set a cfg) ]

abbrev is_one_of : List String → String → Bool
is_one_of [] s = false
is_one_of (x ∷ xs) s = if x == s then true else is_one_of xs s

-- `validLogLevel`
unfoldable pub valid_log_level : String → Bool
valid_log_level v = is_one_of ("debug" ∷ "info" ∷ "warn" ∷ "error" ∷ []) (to_lower (trim_space v))

pub data Level : Type 0 where
  debug info warn error : Level

-- `ToSlogLevel`
unfoldable pub to_slog_level : String → Level
to_slog_level v =
    let level = to_lower (trim_space v) in
    if level == "debug"
    then debug
    else if level == "warn"
    then warn
    else if level == "error"
    then error
    else info

-- `ParseBool`, with the texts that `strconv.ParseBool` takes
unfoldable pub parse_bool : String → Result Bool
parse_bool value =
    let v = trim_space value in
    if is_one_of ("1" ∷ "t" ∷ "T" ∷ "true" ∷ "TRUE" ∷ "True" ∷ []) v
    then ok true
    else if is_one_of ("0" ∷ "f" ∷ "F" ∷ "false" ∷ "FALSE" ∷ "False" ∷ []) v
    then ok false
    else err (authpilot.Store.failure "expected boolean")
