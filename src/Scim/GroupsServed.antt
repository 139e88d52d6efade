-- ===== src/Scim/GroupsServed.antt =====
-- The SCIM handlers of groups over stores that keep the promise of the interface.
use authpilot.Common.{
  String, ◌≡◌, refl, ◌∙◌, ap, ◌&&◌, ◌||◌, not, List, [], ◌∷◌, ◌==◌, Option, some, if◌then◌else◌,
  contains, eq_refl,
}
use authpilot.Common.Case.{to_lower}
use authpilot.Domain.{User, Group}
use authpilot.Store.{CrudStore, IsCrud, value_or}
use authpilot.Scim.{PatchItem}
use authpilot.Scim.Render.{group_to_scim}
use authpilot.Scim.Patch.{extract_member_ids}
use authpilot.Scim.GroupPatch.{
  patch_group, patch_group_item, apply_group_patch_add, apply_group_patch_remove, add_new, without,
}
use authpilot.Scim.Groups.{patch_group_handler, not_found_group}
use authpilot.Scim.Members.{contains-add_new, contains-without, HasNoRepeats, add_new-HasNoRepeats}
use authpilot.Scim.Safety.{patch_group-protected}
use authpilot.Scim.Served.{modify_lem, answer_of, patched}

module _ {G S : Type 0} {IsValid : G → Type 0} (groups : CrudStore G Group)
    (users : CrudStore S User) (view : G → String → Option Group)
    (law : IsCrud (λ (x : Group). x.id) groups view IsValid) where
  -- A PATCH of a group changes the entry of its ID by the operations, whatever they are, and no other, and
  -- is answered with the patched group and those of its members that are users; it is answered 404 where
  -- the ID is not stored, and then no entry changes.
  pub patch_group_handler_lem :
      (g : G) (s : S) (id : String) (items : List PatchItem)
      → IsValid g
      → let after = patch_group_handler groups users g s id (some items) in
        (after.1
          ≡ answer_of not_found_group
              (λ x. group_to_scim (patch_group x items) (value_or [] (users.list s)))
              (view g id))
        × ((k : String)
            → view after.0 k
              ≡ (if id == k then patched (λ x. patch_group x items) (view g id) else view g k))
        × IsValid after.0
  unfolding patch_group_handler
  patch_group_handler_lem g s id items valid =
      modify_lem groups view law not_found_group (λ x. group_to_scim x (value_or [] (users.list s)))
        (λ x. patch_group x items) g id (λ x. ap (λ y. y.id) (patch_group-protected x items)) valid

  patched_entry :
      (g : G) (s : S) (id : String) (group : Group) (item : PatchItem)
      → IsValid g
      → view g id ≡ some group
      → view (patch_group_handler groups users g s id (some (item ∷ []))).0 id
        ≡ some (patch_group_item group item)
  unfolding patch_group
  patched_entry g s id group item valid stored =
      let (answer, views, still) = patch_group_handler_lem g s id (item ∷ []) valid in
      views id ∙ rw (eq_refl id, stored) refl

  -- After a PATCH that adds members to a stored group, the members of the stored group are those before and
  -- those that were added, whatever forms the added ones are given in, and none is listed twice if none was.
  pub add_members :
      (g : G) (s : S) (id : String) (group : Group) (item : PatchItem)
      → IsValid g
      → view g id ≡ some group
      → to_lower item.op ≡ "add"
      → to_lower item.path ≡ "members"
      → let after = (patch_group_handler groups users g s id (some (item ∷ []))).0 in
        (changed : Group) × (view after id ≡ some changed)
        × ((x : String)
            → contains changed.member_ids x
              ≡ (contains group.member_ids x || contains (extract_member_ids item.value) x))
        × (HasNoRepeats group.member_ids → HasNoRepeats changed.member_ids)
  unfolding patch_group_item apply_group_patch_add
  add_members g s id group item valid stored op path = (
    record group { member_ids = add_new group.member_ids (extract_member_ids item.value) },
    patched_entry g s id group item valid stored ∙ rw (op, path) refl,
    contains-add_new group.member_ids (extract_member_ids item.value),
    add_new-HasNoRepeats group.member_ids (extract_member_ids item.value),
  )

  -- After a PATCH that removes members from a stored group, its members are those before that were not
  -- removed.
  pub remove_members :
      (g : G) (s : S) (id : String) (group : Group) (item : PatchItem)
      → IsValid g
      → view g id ≡ some group
      → to_lower item.op ≡ "remove"
      → to_lower item.path ≡ "members"
      → let after = (patch_group_handler groups users g s id (some (item ∷ []))).0 in
        (changed : Group) × (view after id ≡ some changed)
        × ((x : String)
            → contains changed.member_ids x
              ≡ (contains group.member_ids x && not (contains (extract_member_ids item.value) x)))
  unfolding patch_group_item apply_group_patch_remove
  remove_members g s id group item valid stored op path = (
    record group { member_ids = without (extract_member_ids item.value) group.member_ids },
    patched_entry g s id group item valid stored ∙ rw (op, path) refl,
    contains-without (extract_member_ids item.value) group.member_ids,
  )
