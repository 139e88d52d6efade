-- ===== src/Scim/Groups.antt =====
-- The handlers of SCIM groups, over any stores of groups and users.
use authpilot.Common.{ℕ, String, Option, none, some, List, [], ◌==◌, if◌then◌else◌, map}
use authpilot.Common.Decimal.{decimal}
use authpilot.Common.Case.{to_lower, dashed}
use Prim.Native.String
use authpilot.Domain.{User, Group}
use authpilot.Store.{ok, err, CrudStore, message, value_or}
use authpilot.Scim.{
  ScimGroup, ListResponse, PatchItem, GroupInput, Answer, resource, refused, list_response,
}
use authpilot.Scim.Render.{group_to_scim}
use authpilot.Scim.GroupPatch.{patch_group, renamed}
use authpilot.Scim.Users.{updated_answer, created_answer, deleted_answer, invalid}

-- `newGroupID`
unfoldable pub new_group_id : ℕ → String
new_group_id now = String.◌++◌ "grp_" (decimal now)

-- the group that `createGroupHandler` makes of the input
unfoldable pub new_group : ℕ → ℕ → GroupInput → Group
new_group id_now now input = record {
  id = new_group_id id_now;
  name = to_lower (dashed input.display_name);
  display_name = input.display_name;
  member_ids = map (λ m. m.value) input.members;
  created_at = now;
}

-- the changes of `replaceGroupHandler`
unfoldable pub replaced_group : Group → GroupInput → Group
replaced_group existing input =
    let named =
      if input.display_name == "" then existing else renamed existing input.display_name in
    record named { member_ids = map (λ m. m.value) input.members }

abbrev pub not_found_group : Answer ScimGroup
not_found_group = refused 404 "group not found" ""

module _ {G S : Type 0} (groups : CrudStore G Group) (users : CrudStore S User) where
  -- `userList, _ := users.List()`
  abbrev user_list : S → List User
  user_list s = value_or [] (users.list s)

  unfoldable pub list_groups : G → S → Answer (ListResponse ScimGroup)
  unfolding list_response
  list_groups g s = elim (groups.list g) [
    | err e ↦ refused 500 (message e) ""
    | ok all ↦ resource 200 (list_response (map (λ x. group_to_scim x (user_list s)) all))
  ]

  unfoldable pub create_group : G → ℕ → ℕ → Option GroupInput → G × Answer ScimGroup
  unfolding new_group
  create_group g id_now now none = (g, invalid)
  create_group g id_now now (some input) =
      if input.display_name == ""
      then (g, refused 400 "displayName is required" "invalidValue")
      else created_answer (λ x. group_to_scim x []) (groups.create g (new_group id_now now input))

  unfoldable pub get_group : G → S → String → Answer ScimGroup
  get_group g s id = elim (groups.get_by_id g id) [
    | err e ↦ not_found_group
    | ok group ↦ resource 200 (group_to_scim group (user_list s))
  ]

  unfoldable pub replace_group : G → S → String → Option GroupInput → G × Answer ScimGroup
  unfolding replaced_group
  replace_group g s id body = elim (groups.get_by_id g id) [
    | err e ↦ (g, not_found_group)
    | ok existing ↦ elim body [
      | none ↦ (g, invalid)
      | some input ↦
          updated_answer (λ x. group_to_scim x (user_list s))
            (groups.update g (replaced_group existing input))
    ]
  ]

  unfoldable pub patch_group_handler :
      G → S → String → Option (List PatchItem) → G × Answer ScimGroup
  patch_group_handler g s id body = elim (groups.get_by_id g id) [
    | err e ↦ (g, not_found_group)
    | ok group ↦ elim body [
      | none ↦ (g, invalid)
      | some operations ↦
          updated_answer (λ x. group_to_scim x (user_list s))
            (groups.update g (patch_group group operations))
    ]
  ]

  unfoldable pub delete_group : G → String → G × Answer ScimGroup
  delete_group g id = deleted_answer "group not found" (groups.delete g id)
