-- ===== src/Scim/GroupPatch.antt =====
-- The PATCH operations on groups: the members that are added, removed and replaced.
use authpilot.Common.{String, List, [], ◌∷◌, ◌++◌, ◌==◌, not, if◌then◌else◌, contains, keep}
use authpilot.Common.Case.{to_lower, dashed}
use authpilot.Domain.{Value, Fields, str, obj, end, field, Group}
use authpilot.Scim.{PatchItem}
use authpilot.Scim.Patch.{extract_member_ids}

-- the display name with its short form
unfoldable pub renamed : Group → String → Group
renamed g s = record g { display_name = s; name = to_lower (dashed s) }

-- the `displayname` case: only a text is taken
unfoldable pub set_display_name : Group → Value → Group
unfolding renamed
set_display_name g (str s) = renamed g s
set_display_name g _ = g

-- the cases of `applyGroupPatch` that set one field
unfoldable pub set_group_field : Group → String → Value → Group
unfolding set_display_name
set_group_field g lowered value =
    if lowered == "displayname"
    then set_display_name g value
    else if lowered == "members"
    then record g { member_ids = extract_member_ids value }
    else g

unfoldable mutual
  unfolding set_group_field

  pub apply_group_patch : Group → String → Value → Group
  apply_group_patch g path (obj fields) =
      let each = apply_group_fields g fields in
      if to_lower path == "" then each else set_group_field g (to_lower path) (obj fields)
  apply_group_patch g path value = set_group_field g (to_lower path) value

  -- the case of an empty path, with an object of paths and values
  pub apply_group_fields : Group → Fields → Group
  apply_group_fields g end = g
  apply_group_fields g (field path value fields) =
      apply_group_fields (apply_group_patch g path value) fields

-- the loop over the added IDs: `existing` holds the members at all times
unfoldable pub add_new : List String → List String → List String
add_new members [] = members
add_new members (id ∷ ids) =
    add_new (if contains members id then members else members ++ (id ∷ [])) ids

unfoldable pub apply_group_patch_add : Group → String → Value → Group
unfolding apply_group_patch add_new
apply_group_patch_add g path value =
    if not (to_lower path == "members")
    then apply_group_patch g path value
    else record g { member_ids = add_new g.member_ids (extract_member_ids value) }

-- the loop that keeps the members that are not removed
unfoldable pub without : List String → List String → List String
without ids members = keep (λ id. not (contains ids id)) members

unfoldable pub apply_group_patch_remove : Group → String → Value → Group
unfolding without
apply_group_patch_remove g path value =
    if not (to_lower path == "members")
    then g
    else record g { member_ids = without (extract_member_ids value) g.member_ids }

-- the switch of `patchGroupHandler`
unfoldable pub patch_group_item : Group → PatchItem → Group
unfolding apply_group_patch_add apply_group_patch_remove apply_group_patch
patch_group_item g item =
    if to_lower item.op == "add"
    then apply_group_patch_add g item.path item.value
    else if to_lower item.op == "remove"
    then apply_group_patch_remove g item.path item.value
    else if to_lower item.op == "replace"
    then apply_group_patch g item.path item.value
    else g

unfoldable pub patch_group : Group → List PatchItem → Group
unfolding patch_group_item
patch_group g [] = g
patch_group g (item ∷ items) = patch_group (patch_group_item g item) items
