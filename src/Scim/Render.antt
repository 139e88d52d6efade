-- ===== src/Scim/Render.antt =====
-- How users and groups are shown as SCIM resources: `userToSCIM` and `groupToSCIM`.
use authpilot.Common.{ℕ, String, ◌/◌, true, List, [], ◌∷◌, ◌==◌, if◌then◌else◌, contains}
use Prim.Native.String
use authpilot.Domain.{User, Group}
use authpilot.Scim.{ScimUser, ScimGroup, ScimAttr, ScimRef, schema_user, schema_group}

-- `t.UTC().Format(time.RFC3339)` shows whole seconds
abbrev whole_seconds : ℕ → ℕ
whole_seconds t = t / 1000000000

abbrev work : String → ScimAttr
work value = record { value = value; primary = true; type = "work" }

-- the references to the groups that list the user
unfoldable pub group_refs : String → List Group → List ScimRef
group_refs id [] = []
group_refs id (g ∷ groups) =
    let rest = group_refs id groups in
    if contains g.member_ids id
    then (record { value = g.id; display = g.display_name; ref = String.◌++◌ "../Groups/" g.id })
      ∷ rest
    else rest

unfoldable pub user_to_scim : User → List Group → ScimUser
unfolding group_refs
user_to_scim u groups = record {
  schemas = schema_user ∷ [];
  id = u.id;
  external_id = "";
  user_name = u.email;
  display_name = u.display_name;
  active = u.active;
  emails = work u.email ∷ [];
  phone_nums = if u.phone_number == "" then [] else work u.phone_number ∷ [];
  groups = group_refs u.id groups;
  meta = record {
    resource_type = "User";
    created = whole_seconds u.created_at;
    last_modified = whole_seconds u.created_at;
    location = String.◌++◌ "/scim/v2/Users/" u.id;
  };
}

-- the references to the users among the members
unfoldable pub member_refs : List String → List User → List ScimRef
member_refs member_ids [] = []
member_refs member_ids (u ∷ users) =
    let rest = member_refs member_ids users in
    if contains member_ids u.id
    then (record { value = u.id; display = u.display_name; ref = String.◌++◌ "../Users/" u.id })
      ∷ rest
    else rest

unfoldable pub group_to_scim : Group → List User → ScimGroup
unfolding member_refs
group_to_scim g users = record {
  schemas = schema_group ∷ [];
  id = g.id;
  display_name = g.display_name;
  members = member_refs g.member_ids users;
  meta = record {
    resource_type = "Group";
    created = whole_seconds g.created_at;
    last_modified = whole_seconds g.created_at;
    location = String.◌++◌ "/scim/v2/Groups/" g.id;
  };
}
