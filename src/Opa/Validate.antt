-- ===== src/Opa/Validate.antt =====
-- The check of a policy document.
use Prim.Native.String
use authpilot.Common.{
  String, Bool, true, false, ◌&&◌, ◌||◌, Option, none, some, List, [], ◌∷◌, ◌++◌, ◌==◌,
  if◌then◌else◌, sort_by,
}
use authpilot.Common.Case.{cut}
use authpilot.Common.GoMap.{GoMap, lookup}
use authpilot.Domain.{Value, str, obj}
use authpilot.Opa.Diff.{as_map}

pub record ValidateRequest : Type 0 where
  pub data_map : GoMap Value
  pub schema : String

pub record ValidateResponse : Type 0 where
  pub valid : Bool
  pub errors : List String
  pub warnings : List String

abbrev join : String → String → String
join a b = String.◌++◌ a b

abbrev quote : String → String
quote s = join "\"" (join s "\"")

abbrev pub is_state : String → Bool
is_state s = (s == "allow") || (s == "deny") || (s == "conditional")

abbrev pub state_error : String → String → String → String
state_error resource action s = join "permissions." (
    join resource (
      join ": invalid state " (
        join (quote s)
          (join " for action " (join (quote action) " (must be allow|deny|conditional)")))))

-- the loop over the actions of a role
unfoldable pub state_errors : String → GoMap Value → List String
state_errors resource [] = []
state_errors resource ((action, v) ∷ actions) =
    let rest = state_errors resource actions in
    elim v [ str s ↦ if is_state s then rest else state_error resource action s ∷ rest | _ ↦ rest ]

-- the loop over the roles of a resource
unfoldable pub role_state_errors : String → GoMap Value → List String
unfolding state_errors
role_state_errors resource [] = []
role_state_errors resource ((role, actions) ∷ roles) =
    state_errors resource (as_map (some actions)) ++ role_state_errors resource roles

-- the checks that apply whatever the schema is
unfoldable pub universal_errors : GoMap Value → List String
unfolding role_state_errors
universal_errors [] = []
universal_errors ((resource, roles) ∷ perms) =
    role_state_errors resource (as_map (some roles)) ++ universal_errors perms

-- the roles of a resource that are not defined
unfoldable pub undefined_roles : GoMap Value → String → GoMap Value → List String
undefined_roles defined resource [] = []
undefined_roles defined resource ((role, v) ∷ roles) =
    let rest = undefined_roles defined resource roles in
    elim (lookup role defined) [
      | some _ ↦ rest
      | none ↦
          join "permissions."
            (join resource (join ": role " (join (quote role) " not defined in roles")))
          ∷ rest
    ]

unfoldable pub undefined_role_errors : GoMap Value → GoMap Value → List String
unfolding undefined_roles
undefined_role_errors defined [] = []
undefined_role_errors defined ((resource, roles) ∷ perms) =
    undefined_roles defined resource (as_map (some roles)) ++ undefined_role_errors defined perms

abbrev has_level : GoMap Value → Bool
has_level m = elim (lookup "level" m) [ none ↦ false | some _ ↦ true ]

unfoldable pub level_errors : GoMap Value → List String
level_errors [] = []
level_errors ((role, v) ∷ roles) =
    let rest = level_errors roles in
    let missing = join "roles." (join role ": missing required 'level' field") in
    elim v [
      | obj fs ↦ if has_level (as_map (some (obj fs))) then rest else missing ∷ rest
      | _ ↦ rest
    ]

-- what stands before the first dot
abbrev top_of : String → String
top_of resource = elim (cut b'.' resource) [ none ↦ resource | some (top, below) ↦ top ]

unfoldable pub system_warnings : GoMap Value → GoMap Value → List String
system_warnings systems [] = []
system_warnings systems ((resource, v) ∷ perms) =
    let rest = system_warnings systems perms in
    elim (lookup (top_of resource) systems) [
      | some _ ↦ rest
      | none ↦
          join "permissions resource " (join (quote resource) " has no matching entry in systems")
          ∷ rest
    ]

abbrev is_map : Option Value → Bool
is_map (some (obj fs)) = true
is_map _ = false

-- the checks of the schema `tristate`: errors, and warnings
unfoldable pub tristate_errors : GoMap Value → List String
unfolding undefined_role_errors level_errors
tristate_errors doc =
    let roles = lookup "roles" doc in
    let perms = lookup "permissions" doc in
    if is_map roles && is_map perms
    then undefined_role_errors (as_map roles) (as_map perms) ++ level_errors (as_map roles)
    else []

unfoldable pub tristate_warnings : GoMap Value → List String
unfolding system_warnings
tristate_warnings doc =
    let systems = lookup "systems" doc in
    if is_map systems
    then system_warnings (as_map systems) (as_map (lookup "permissions" doc))
    else []

unfoldable pub validate : ValidateRequest → ValidateResponse
unfolding universal_errors tristate_errors tristate_warnings
validate req =
    let is_tristate = req.schema == "tristate" in
    let errors =
      universal_errors (as_map (lookup "permissions" req.data_map))
      ++ (if is_tristate then tristate_errors req.data_map else []) in
    record {
      valid = elim errors [ [] ↦ true | _ ↦ false ];
      errors = sort_by (λ x. x) errors;
      warnings = sort_by (λ x. x) (if is_tristate then tristate_warnings req.data_map else []);
    }
