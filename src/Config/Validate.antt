-- ===== src/Config/Validate.antt =====
-- `validate` and `Load`.
use Prim.Native.String
use authpilot.Common.{
  ℕ, suc, String, Bool, true, false, not, ◌&&◌, ◌||◌, Option, none, some, List, [], ◌∷◌, ◌++◌, ◌==◌,
  if◌then◌else◌, contains,
}
use authpilot.Common.Decimal.{decimal}
use authpilot.Common.Int64.{is_positive}
use authpilot.Common.Text.{trim_space}
use authpilot.Store.{Result, ok, err, Err, failure}
use authpilot.Config.{Config, TenantConfig, RuntimeOverrides, Step, run, defaults, valid_log_level}
use authpilot.Config.Merge.{YamlConfig, merge_yaml}
use authpilot.Config.Env.{Parsers, apply_env, apply_runtime}

abbrev tenant_error : ℕ → String → String
tenant_error i text = String.◌++◌ "tenants[" (String.◌++◌ (decimal i) text)

-- the loop over the tenants, with the IDs that were seen
unfoldable pub validate_tenants : ℕ → List String → List TenantConfig → Option String
validate_tenants i seen [] = none
validate_tenants i seen (t ∷ tenants) =
    let rest = validate_tenants (suc i) (t.id ∷ seen) tenants in
    if t.id == ""
    then some (tenant_error i "].id must not be empty")
    else if t.api_key == ""
    then some (tenant_error i "].api_key must not be empty")
    else if contains seen t.id
    then some (tenant_error i "].id is duplicated")
    else rest

abbrev pub is_nil {ℓ} : {A : Type ℓ} → List A → Bool
is_nil [] = true
is_nil (x ∷ xs) = false

-- the checks of the tenants in the mode for several
unfoldable pub validate_tenancy : Config → Option String
unfolding validate_tenants
validate_tenancy cfg =
    if not (cfg.tenancy == "multi")
    then none
    else if is_nil cfg.tenants
    then some "tenancy: multi requires at least one tenant defined in tenants[]"
    else validate_tenants 0 [] cfg.tenants

-- `validate`: the text of the error
unfoldable pub validate : Config → Option String
unfolding validate_tenancy
validate cfg =
    if cfg.http_addr == ""
    then some "http_addr must not be empty"
    else if cfg.protocol_addr == ""
    then some "protocol_addr must not be empty"
    else if not (valid_log_level cfg.log_level)
    then some "log_level must be one of debug|info|warn|error"
    else if cfg.persistence.enabled && (trim_space cfg.persistence.sqlite_path == "")
    then some "persistence.sqlite_path must not be empty when persistence is enabled"
    else if not (is_positive cfg.cleanup.interval)
    then some "cleanup.interval must be > 0"
    else if not (is_positive cfg.cleanup.flow_ttl)
    then some "cleanup.flow_ttl must be > 0"
    else if not (is_positive cfg.cleanup.session_ttl)
    then some "cleanup.session_ttl must be > 0"
    else if not ((cfg.tenancy == "") || (cfg.tenancy == "single") || (cfg.tenancy == "multi"))
    then some "tenancy must be \"single\" or \"multi\""
    else if cfg.scim_client_mode && (trim_space cfg.scim_target_url == "")
    then some "scim_target_url (FURNACE_SCIM_TARGET) is required when scim_client_mode is enabled"
    else validate_tenancy cfg

abbrev pub checked : Config → Option String → Result Config
checked cfg none = ok cfg
checked cfg (some text) = err (failure text)

abbrev merge_file : Parsers → Option YamlConfig → List Step
merge_file p none = []
merge_file p (some from) = merge_yaml p.parse_duration from

-- the statements of `Load`; `file` is the file, if there is one, and what its reader makes of it
unfoldable pub statements :
    Parsers → (getenv : String → String) → Option YamlConfig → RuntimeOverrides → List Step
statements p getenv from runtime = merge_file p from ++ apply_env p getenv ++ apply_runtime runtime

-- the file that is given, if any is, as the YAML library reads it
pub data File : Type 0 where
  no_file : File
  unreadable : Err → File
  read : YamlConfig → File

unfoldable pub load : Parsers → (getenv : String → String) → File → RuntimeOverrides → Result Config
unfolding validate statements run
load p getenv (unreadable e) runtime = err e
load p getenv no_file runtime = elim (run (statements p getenv none runtime) defaults) [
  | err e ↦ err e
  | ok cfg ↦ checked cfg (validate cfg)
]
load p getenv (read from) runtime = elim (run (statements p getenv (some from) runtime) defaults) [
  | err e ↦ err e
  | ok cfg ↦ checked cfg (validate cfg)
]
