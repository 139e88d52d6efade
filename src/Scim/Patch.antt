-- ===== src/Scim/Patch.antt =====
-- The PATCH operations on users and groups. The fields of an object stand in the order in which `range`
-- visits them.
use authpilot.Common.{String, Bool, Option, none, some, List, [], ◌∷◌, ◌==◌, if◌then◌else◌, ◌||◌}
use authpilot.Common.Case.{to_lower, equal_fold, trim}
use authpilot.Domain.{Value, Values, Fields, bool, str, arr, obj, nil, cons, end, field, User}
use authpilot.Domain.Json.{marshal}
use authpilot.Scim.{PatchItem}

-- `strVal`
unfoldable pub text_of : Value → String
text_of (str s) = s
text_of value = trim b'"' (marshal value)

-- the `active` case: a Boolean or a text
unfoldable pub active_of : Bool → Value → Bool
active_of before (bool b) = b
active_of before (str s) = equal_fold s "true"
active_of before _ = before

-- the cases of `applyUserPatch` that set one field
unfoldable pub set_user_field : User → String → Value → User
unfolding text_of active_of
set_user_field u lowered value =
    if lowered == "displayname"
    then record u { display_name = text_of value }
    else if (lowered == "username") || (lowered == "emails[type eq \"work\"].value")
    then record u { email = text_of value }
    else if (lowered == "phonenumbers[type eq \"work\"].value") || (lowered == "phonenumbers")
    then record u { phone_number = text_of value }
    else if lowered == "active"
    then record u { active = active_of u.active value }
    else u

unfoldable mutual
  unfolding set_user_field

  pub apply_user_patch : User → String → Value → User
  apply_user_patch u path (obj fields) =
      let each = apply_user_fields u fields in
      if to_lower path == "" then each else set_user_field u (to_lower path) (obj fields)
  apply_user_patch u path value = set_user_field u (to_lower path) value

  -- the case of an empty path, with an object of paths and values
  pub apply_user_fields : User → Fields → User
  apply_user_fields u end = u
  apply_user_fields u (field path value fields) =
      apply_user_fields (apply_user_patch u path value) fields

-- the switch of `patchUserHandler`: a removal does nothing
unfoldable pub patch_user_item : User → PatchItem → User
unfolding apply_user_patch
patch_user_item u item =
    if (to_lower item.op == "replace") || (to_lower item.op == "add")
    then apply_user_patch u item.path item.value
    else u

unfoldable pub patch_user : User → List PatchItem → User
unfolding patch_user_item
patch_user u [] = u
patch_user u (item ∷ items) = patch_user (patch_user_item u item) items

-- `s, ok := v.(string)`
abbrev pub as_text : Value → Option String
as_text (str s) = some s
as_text _ = none

-- `m["value"].(string)`
unfoldable pub value_field : Fields → Option String
value_field end = none
value_field (field k v fields) =
    let rest = value_field fields in if k == "value" then as_text v else rest

unfoldable pub item_ids : Values → List String
unfolding value_field
item_ids nil = []
item_ids (cons (str id) vs) = id ∷ item_ids vs
item_ids (cons (obj fields) vs) =
    let rest = item_ids vs in elim (value_field fields) [ none ↦ rest | some id ↦ id ∷ rest ]
item_ids (cons _ vs) = item_ids vs

unfoldable pub extract_member_ids : Value → List String
unfolding item_ids
extract_member_ids (arr items) = item_ids items
extract_member_ids (str id) = id ∷ []
extract_member_ids _ = []
