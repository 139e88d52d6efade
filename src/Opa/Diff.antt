-- ===== src/Opa/Diff.antt =====
-- The comparison of two policy documents: roles and permissions that were added, removed or changed, and
-- how far the version should go up.
use Prim.Native.String
use authpilot.Common.{
  ℕ, String, Bool, true, false, not, ◌&&◌, Option, none, some, List, [], ◌∷◌, ◌++◌, ◌==◌,
  if◌then◌else◌, ltb, contains, keep, sort_by,
}
use authpilot.Common.GoMap.{GoMap, lookup}
use authpilot.Domain.{Value, obj}
use authpilot.Domain.Json.{map_of, sprint}

pub record RolePermChanges : Type 0 where
  pub old : GoMap Value
  pub new : GoMap Value

pub record PermChange : Type 0 where
  pub resource : String
  pub changes : GoMap RolePermChanges

pub record DiffResponse : Type 0 where
  pub added_roles : List String
  pub removed_roles : List String
  pub added_systems : List String
  pub removed_systems : List String
  pub added_permissions : List String
  pub removed_permissions : List String
  pub changed_permissions : List PermChange
  pub recommended_bump : String
  pub summary : String

-- `m, _ := v.(map[string]any)`, of a value that may be missing
abbrev pub as_map : Option Value → GoMap Value
as_map (some (obj fs)) = map_of fs
as_map _ = []

-- `mapField`
unfoldable pub map_field : GoMap Value → String → GoMap Value
map_field m key = as_map (lookup key m)

unfoldable pub keys : GoMap Value → List String
keys [] = []
keys ((k, v) ∷ m) = k ∷ keys m

-- `stringKeys`
unfoldable pub string_keys : GoMap Value → List String
unfolding keys
string_keys m = sort_by (λ x. x) (keys m)

-- the keys of the first map, and those of the second that it lacks
unfoldable pub union_keys : GoMap Value → GoMap Value → List String
unfolding keys
union_keys a b = sort_by (λ x. x) (keys a ++ keep (λ k. not (contains (keys a) k)) (keys b))

-- `setDiff`
unfoldable pub added : List String → List String → List String
added after before = keep (λ v. not (contains before v)) after

unfoldable pub removed : List String → List String → List String
removed after before = keep (λ v. not (contains after v)) before

abbrev rank : String → ℕ
rank bump =
    if bump == "major" then 3 else if bump == "minor" then 2 else if bump == "patch" then 1 else 0

-- `bumpMax`
unfoldable pub bump_max : String → String → String
bump_max current candidate = if ltb (rank current) (rank candidate) then candidate else current

-- the actions that both sides have with different values
unfoldable pub changed_actions : GoMap Value → GoMap Value → List String → RolePermChanges
changed_actions before after [] = record { old = []; new = [] }
changed_actions before after (action ∷ actions) =
    let rest = changed_actions before after actions in
    elim (lookup action before) [
      | none ↦ rest
      | some b ↦ elim (lookup action after) [
        | none ↦ rest
        | some a ↦
            if not (sprint b == sprint a)
            then record { old = (action, b) ∷ rest.old; new = (action, a) ∷ rest.new }
            else rest
      ]
    ]

abbrev pub is_nil {ℓ} : {A : Type ℓ} → List A → Bool
is_nil [] = true
is_nil (x ∷ xs) = false

-- the loop over the roles of a resource
unfoldable pub changed_roles : GoMap Value → GoMap Value → List String → GoMap RolePermChanges
unfolding changed_actions
changed_roles before after [] = []
changed_roles before after (role ∷ roles) =
    let rest = changed_roles before after roles in
    let b = as_map (lookup role before) in
    let a = as_map (lookup role after) in
    let changes = changed_actions b a (union_keys b a) in
    if is_nil changes.old then rest else (role, changes) ∷ rest

-- the body of the loop over the resources, with the response so far
unfoldable pub diff_resource : GoMap Value → GoMap Value → DiffResponse → String → DiffResponse
unfolding changed_roles bump_max
diff_resource before after resp resource = elim (lookup resource before) [
  | none ↦ record resp {
    added_permissions = resp.added_permissions ++ (resource ∷ []);
    recommended_bump = bump_max resp.recommended_bump "minor";
  }
  | some b ↦ elim (lookup resource after) [
    | none ↦ record resp {
      removed_permissions = resp.removed_permissions ++ (resource ∷ []);
      recommended_bump = bump_max resp.recommended_bump "minor";
    }
    | some a ↦
        let b_roles = as_map (some b) in
        let a_roles = as_map (some a) in
        let changes = changed_roles b_roles a_roles (union_keys b_roles a_roles) in
        if is_nil changes then resp else record resp {
          changed_permissions =
              resp.changed_permissions
              ++ ((record { resource = resource; changes = changes }) ∷ []);
          recommended_bump = bump_max resp.recommended_bump "patch";
          summary =
              String.◌++◌
                (if resp.summary == ""
                  then "Changed permissions for: "
                  else String.◌++◌ resp.summary ", ")
                resource;
        }
  ]
]

unfoldable pub diff_resources :
    GoMap Value → GoMap Value → DiffResponse → List String → DiffResponse
unfolding diff_resource
diff_resources before after resp [] = resp
diff_resources before after resp (resource ∷ resources) =
    diff_resources before after (diff_resource before after resp resource) resources

-- the response before the loop
unfoldable pub diff_roles : GoMap Value → GoMap Value → DiffResponse
unfolding added removed
diff_roles before after =
    let before_roles = string_keys (map_field before "roles") in
    let after_roles = string_keys (map_field after "roles") in
    let new = added after_roles before_roles in
    let gone = removed after_roles before_roles in
    record {
      added_roles = new;
      removed_roles = gone;
      added_systems = [];
      removed_systems = [];
      added_permissions = [];
      removed_permissions = [];
      changed_permissions = [];
      recommended_bump = if is_nil new && is_nil gone then "none" else "major";
      summary = "";
    }

unfoldable pub compute_diff : GoMap Value → GoMap Value → DiffResponse
unfolding diff_resources diff_roles
compute_diff before after =
    let before_perms = map_field before "permissions" in
    let after_perms = map_field after "permissions" in
    diff_resources before_perms after_perms (diff_roles before after)
      (union_keys before_perms after_perms)
