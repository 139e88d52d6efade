-- ===== src/Scim/Safety.antt =====
-- What a PATCH cannot change.
use authpilot.Common.{String, ◌≡◌, refl, ◌∙◌, false, List, [], ◌∷◌, arith}
use authpilot.Common.Case.{to_lower}
use authpilot.Domain.{Value, Fields, null, bool, num, str, arr, obj, end, field, User, Group}
use authpilot.Scim.{PatchItem}
use authpilot.Scim.Patch.{
  set_user_field, apply_user_patch, apply_user_fields, patch_user_item, patch_user,
}
use authpilot.Scim.GroupPatch.{
  set_group_field, set_display_name, renamed, apply_group_patch, apply_group_fields,
  apply_group_patch_add, apply_group_patch_remove, patch_group_item, patch_group,
}

-- a user without the four fields that SCIM may write
abbrev pub protected_user : User → User
protected_user u = record u { email = ""; display_name = ""; phone_number = ""; active = false }

set_user_field-protected :
    (u : User) (lowered : String) (value : Value)
    → protected_user (set_user_field u lowered value) ≡ protected_user u
unfolding set_user_field
set_user_field-protected u lowered value = ground arith

mutual
  unfolding apply_user_patch

  apply_user_patch-protected :
      (u : User) (path : String) (value : Value)
      → protected_user (apply_user_patch u path value) ≡ protected_user u
  apply_user_patch-protected u path (obj fields) = ground (
    arith,
    apply_user_fields-protected u fields,
    set_user_field-protected u (to_lower path) (obj fields),
  )
  apply_user_patch-protected u path null = set_user_field-protected u (to_lower path) null
  apply_user_patch-protected u path (bool b) = set_user_field-protected u (to_lower path) (bool b)
  apply_user_patch-protected u path (num n) = set_user_field-protected u (to_lower path) (num n)
  apply_user_patch-protected u path (str s) = set_user_field-protected u (to_lower path) (str s)
  apply_user_patch-protected u path (arr vs) = set_user_field-protected u (to_lower path) (arr vs)

  apply_user_fields-protected :
      (u : User) (fields : Fields) → protected_user (apply_user_fields u fields) ≡ protected_user u
  apply_user_fields-protected u end = refl
  apply_user_fields-protected u (field path value fields) =
      apply_user_fields-protected (apply_user_patch u path value) fields
      ∙ apply_user_patch-protected u path value

patch_user_item-protected :
    (u : User) (item : PatchItem) → protected_user (patch_user_item u item) ≡ protected_user u
unfolding patch_user_item
patch_user_item-protected u item = ground (arith, apply_user_patch-protected u item.path item.value)

-- Whatever the operations of a PATCH of a user are, they change the email address, the display name, the
-- phone number and the active flag at most: the ID, the password hash, the second factor, the
-- groups, the claims and the other fields stay as they were.
pub patch_user-protected :
    (u : User) (items : List PatchItem) → protected_user (patch_user u items) ≡ protected_user u
unfolding patch_user
patch_user-protected u [] = refl
patch_user-protected u (item ∷ items) =
    patch_user-protected (patch_user_item u item) items ∙ patch_user_item-protected u item

-- a group without the fields that SCIM may write
abbrev pub protected_group : Group → Group
protected_group g = record g { name = ""; display_name = ""; member_ids = [] }

set_group_field-protected :
    (g : Group) (lowered : String) (value : Value)
    → protected_group (set_group_field g lowered value) ≡ protected_group g
unfolding set_group_field set_display_name renamed
set_group_field-protected g lowered (str s) = ground arith
set_group_field-protected g lowered null = ground arith
set_group_field-protected g lowered (bool b) = ground arith
set_group_field-protected g lowered (num n) = ground arith
set_group_field-protected g lowered (arr vs) = ground arith
set_group_field-protected g lowered (obj fs) = ground arith

mutual
  unfolding apply_group_patch

  apply_group_patch-protected :
      (g : Group) (path : String) (value : Value)
      → protected_group (apply_group_patch g path value) ≡ protected_group g
  apply_group_patch-protected g path (obj fields) = ground (
    arith,
    apply_group_fields-protected g fields,
    set_group_field-protected g (to_lower path) (obj fields),
  )
  apply_group_patch-protected g path null = set_group_field-protected g (to_lower path) null
  apply_group_patch-protected g path (bool b) = set_group_field-protected g (to_lower path) (bool b)
  apply_group_patch-protected g path (num n) = set_group_field-protected g (to_lower path) (num n)
  apply_group_patch-protected g path (str s) = set_group_field-protected g (to_lower path) (str s)
  apply_group_patch-protected g path (arr vs) = set_group_field-protected g (to_lower path) (arr vs)

  apply_group_fields-protected :
      (g : Group) (fields : Fields)
      → protected_group (apply_group_fields g fields) ≡ protected_group g
  apply_group_fields-protected g end = refl
  apply_group_fields-protected g (field path value fields) =
      apply_group_fields-protected (apply_group_patch g path value) fields
      ∙ apply_group_patch-protected g path value

patch_group_item-protected :
    (g : Group) (item : PatchItem) → protected_group (patch_group_item g item) ≡ protected_group g
unfolding patch_group_item apply_group_patch_add apply_group_patch_remove
patch_group_item-protected g item =
    ground (arith, apply_group_patch-protected g item.path item.value)

-- Whatever the operations of a PATCH of a group are, its ID and its time of creation stay.
pub patch_group-protected :
    (g : Group) (items : List PatchItem) → protected_group (patch_group g items) ≡ protected_group g
unfolding patch_group
patch_group-protected g [] = refl
patch_group-protected g (item ∷ items) =
    patch_group-protected (patch_group_item g item) items ∙ patch_group_item-protected g item
