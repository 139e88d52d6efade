-- ===== src/Config/Tests.antt =====
-- The theorems about the settings, at small files.
use authpilot.Common.{String, ◌≡◌, refl, false, none, [], ◌∷◌, if◌then◌else◌, ◌==◌}
use authpilot.Store.{err, failure}
use authpilot.Opa.{DecisionLogConfig}
use authpilot.Config.{Config, RuntimeOverrides, defaults, run, valid_log_level}
use authpilot.Config.Merge.{
  YamlConfig, merge_yaml, merge_server, merge_oidc, merge_tenants, merge_opa, merge_limits,
  merge_log,
}
use authpilot.Config.DecisionLog.{merge_yaml-decision_log}
use authpilot.Config.Env.{Parsers}
use authpilot.Config.Validate.{load, no_file}
use authpilot.Config.Sane.{IsSane, load-IsSane}

-- readers that know no text
abbrev no_parsers : Parsers
no_parsers = record {
  parse_duration = λ v. err (failure v);
  atoi = λ v. err (failure v);
  decode_base64 = λ v. err (failure v);
  unmarshal_users = λ v. err (failure v);
}

abbrev other_address : String → String
other_address name = if name == "FURNACE_HTTP_ADDR" then " :9000 " else ""

abbrev no_overrides : RuntimeOverrides
no_overrides = record {
  http_addr = "";
  protocol_addr = "";
  log_level = "";
  sqlite_path = "";
  provider = "okta";
  persistence_enabled = none;
  cleanup_interval = none;
}

abbrev loaded : Config
loaded = record defaults { http_addr = ":9000"; provider = "okta" }

load-IsSane_example : IsSane loaded
unfolding load authpilot.Config.Env.apply_env authpilot.Common.Text.trim_space
    authpilot.Common.Case.to_lower authpilot.Config.Env.apply_runtime valid_log_level
load-IsSane_example = load-IsSane no_parsers other_address no_file no_overrides loaded refl

-- a file that only gives a path to redact: `enabled` is left out, so it is false
abbrev redacting : DecisionLogConfig
redacting = record {
  enabled = false;
  include_input = false;
  include_policy = false;
  destination = "";
  redact_fields = "user.claims.email" ∷ [];
  scrub_policy_credentials = false;
  retention_days = 0;
}

abbrev only_redacting : YamlConfig
only_redacting = record {
  http_addr = "";
  protocol_addr = "";
  log_level = "";
  persistence = record { enabled = none; sqlite_path = "" };
  cleanup = record { interval = ""; flow_ttl = ""; session_ttl = "" };
  oidc = record {
    issuer_url = "";
    access_token_ttl = "";
    id_token_ttl = "";
    refresh_token_ttl = "";
    key_rotation_interval = "";
    key_rotation_overlap = "";
  };
  web_authn = record { rp_id = ""; origin = "" };
  seed_users = [];
  tenancy = "";
  tenants = [];
  provider = "";
  scim_client_mode = false;
  scim_target_url = "";
  tokens = defaults.tokens;
  header_mappings = [];
  opa = record {
    compile_timeout = 0;
    eval_timeout = 0;
    max_policy_bytes = 0;
    max_data_bytes = 0;
    max_batch_checks = 0;
    max_concurrent = 0;
    decision_log = redacting;
    tenant_budgets = [];
  };
}

abbrev merged : Config
merged = record defaults { opa = record defaults.opa { decision_log = redacting } }

merge_yaml-decision_log_example : merged.opa.decision_log ≡ redacting
unfolding run merge_yaml merge_server merge_oidc merge_tenants merge_opa merge_limits merge_log
merge_yaml-decision_log_example =
    merge_yaml-decision_log no_parsers.parse_duration only_redacting defaults merged refl
