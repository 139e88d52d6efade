-- ===== src/Scim/Tests.antt =====
-- The theorems about the SCIM server, at in-memory stores of two users and a group.
use authpilot.Common.{
  String, ◌≡◌, ◌≢◌, refl, true, false, ◌||◌, none, some, [], ◌∷◌, ◌==◌, if◌then◌else◌, contains,
  ==-false→ne,
}
use authpilot.Common.GoMap.{lookup}
use authpilot.Common.Case.{to_lower, equal_fold}
use authpilot.Common.Decimal.{decimal}
use authpilot.Domain.{num, str, arr, obj, nil, cons, end, field, User, zero_user, Group, zero_group}
use authpilot.Store.Memory.Users as Users
use authpilot.Store.Memory.Groups as Groups
use authpilot.Store.Memory.Crud.{users-IsCrud, groups-IsCrud}
use authpilot.Store.Memory.Laws.{IsKeyed}
use authpilot.Scim.{ScimUser, PatchItem, UserInput, resource, matches_filter, filter_attribute}
use authpilot.Scim.Render.{user_to_scim}
use authpilot.Scim.Patch.{apply_user_patch, set_user_field, patch_user, extract_member_ids}
use authpilot.Scim.Users.{
  create_user, get_user, replace_user, patch_user_handler, new_user, new_user_id, not_found_user,
}
use authpilot.Scim.Groups.{patch_group_handler}
use authpilot.Scim.Members.{HasNoRepeats}
use authpilot.Scim.Safety.{protected_user, patch_user-protected}
use authpilot.Scim.Served.{
  answer_of, patched, patch_user_handler_lem, create_user-get, replace_user-shares,
}
use authpilot.Scim.GroupsServed.{add_members}

abbrev ada : User
ada = record zero_user {
  id = "u1";
  email = "ada@x.org";
  display_name = "Ada";
  password_hash = "hash";
  active = true;
}

abbrev bob : User
bob = record zero_user { id = "u2"; email = "bob@x.org" }

abbrev two_users : Users.UserStore
two_users = record { users = ("u1", ada) ∷ ("u2", bob) ∷ [] }

two_users-IsKeyed : IsKeyed (λ (x : User). x.id) Users.crud (λ s. s.users) two_users
unfolding lookup
two_users-IsKeyed = record { unique = (refl, (refl, tt)); own_key = (refl, (refl, tt)) }

abbrev team : Group
team = record zero_group { id = "g1"; member_ids = "u1" ∷ [] }

abbrev one_group : Groups.GroupStore
one_group = record { groups = ("g1", team) ∷ [] }

one_group-IsKeyed : IsKeyed (λ (x : Group). x.id) Groups.crud (λ s. s.groups) one_group
unfolding lookup
one_group-IsKeyed = record { unique = (refl, tt); own_key = (refl, tt) }

-- an operation without a path that sets two fields and tries the password
abbrev rename : PatchItem
rename = record {
  op = "Replace";
  path = "";
  value = obj (
      field "displayName" (str "A. L.")
        (field "active" (str "False") (field "passwordHash" (str "x") end)));
}

patch_renames :
    apply_user_patch ada "" rename.value ≡ record ada { display_name = "A. L."; active = false }
unfolding apply_user_patch set_user_field to_lower equal_fold
patch_renames = refl

patch_user-protected_example : protected_user (patch_user ada (rename ∷ [])) ≡ protected_user ada
patch_user-protected_example = patch_user-protected ada (rename ∷ [])

patch_user_handler_lem_example :
    let after = patch_user_handler Users.crud two_users "u1" (some (rename ∷ [])) in
    (after.1
      ≡ answer_of not_found_user
          (λ u. user_to_scim (patch_user u (rename ∷ [])) [])
          (lookup "u1" two_users.users))
    × ((k : String)
        → lookup k after.0.users ≡ (
            if "u1" == k
            then patched (λ u. patch_user u (rename ∷ [])) (lookup "u1" two_users.users)
            else lookup k two_users.users))
    × IsKeyed (λ (x : User). x.id) Users.crud (λ s. s.users) after.0
patch_user_handler_lem_example =
    patch_user_handler_lem Users.crud (λ s k. lookup k s.users) users-IsCrud two_users "u1"
      (rename ∷ []) two_users-IsKeyed

abbrev cleo : UserInput
cleo = record {
  user_name = "cleo@x.org";
  display_name = "Cleo";
  external_id = "";
  active = none;
  emails = [];
  phone_nums = [];
}

abbrev shown_cleo : ScimUser
shown_cleo = user_to_scim (new_user 7 8 cleo) []

abbrev two_users_created : Users.UserStore
two_users_created = (create_user Users.crud two_users 7 8 (some cleo)).0

create_user-get_example :
    ((k : String) (u : User) → lookup k two_users.users ≡ some u → u.email ≢ "cleo@x.org")
    × (get_user Users.crud two_users_created (new_user_id 7) ≡ resource 200 shown_cleo)
    × ((k : String)
        → lookup k two_users_created.users
          ≡ (if new_user_id 7 == k then some (new_user 7 8 cleo) else lookup k two_users.users))
    × IsKeyed (λ (x : User). x.id) Users.crud (λ s. s.users) two_users_created
unfolding create_user Users.create Users.list new_user new_user_id decimal
    authpilot.Common.Lists.sort_by authpilot.Common.GoMap.values Users.clone_user
    authpilot.Scim.primary_value
create_user-get_example =
    create_user-get Users.crud (λ s k. lookup k s.users) users-IsCrud two_users 7 8 cleo
      (ada ∷ bob ∷ []) shown_cleo two_users-IsKeyed refl refl

-- bob takes the address of ada
abbrev takeover : UserInput
takeover = record cleo {
  emails = (record { value = "ada@x.org"; primary = false; type = "work" }) ∷ [];
}

replace_user-shares_example :
    let after = (replace_user Users.crud two_users "u2" (some takeover)).0 in
    (changed : User) × (lookup "u2" after.users ≡ some changed)
    × (lookup "u1" after.users ≡ some ada)
    × (changed.email ≡ "ada@x.org")
unfolding lookup authpilot.Scim.primary_value
replace_user-shares_example =
    replace_user-shares Users.crud (λ s k. lookup k s.users) users-IsCrud two_users "u2" "u1" bob
      ada takeover two_users-IsKeyed (==-false→ne "u2" "u1" refl) refl refl refl
      (==-false→ne "ada@x.org" "" refl)

-- an addition in two forms, one of them a member already
abbrev join : PatchItem
join = record {
  op = "Add";
  path = "members";
  value = arr (cons (obj (field "value" (str "u2") end)) (cons (str "u1") (cons (num 3) nil)));
}

add_members_example :
    let after =
      (patch_group_handler Groups.crud Users.crud one_group two_users "g1" (some (join ∷ []))).0 in
    (changed : Group) × (lookup "g1" after.groups ≡ some changed)
    × ((x : String)
        → contains changed.member_ids x
          ≡ (contains team.member_ids x || contains (extract_member_ids join.value) x))
    × (HasNoRepeats team.member_ids → HasNoRepeats changed.member_ids)
unfolding lookup to_lower
add_members_example =
    add_members Groups.crud Users.crud (λ s k. lookup k s.groups) groups-IsCrud one_group two_users
      "g1" team join one_group-IsKeyed refl refl refl

-- a filter by name leaves cases aside
abbrev shown_ada : ScimUser
shown_ada = user_to_scim ada []

filter_hits : matches_filter shown_ada "userName EQ \"ADA@x.org\"" ≡ true
unfolding matches_filter filter_attribute user_to_scim to_lower equal_fold
    authpilot.Common.Text.trim_space authpilot.Common.Case.cut authpilot.Common.Case.trim
filter_hits = refl

filter_misses : matches_filter shown_ada " userName eq \"bob@x.org\" " ≡ false
unfolding matches_filter filter_attribute user_to_scim to_lower equal_fold
    authpilot.Common.Text.trim_space authpilot.Common.Case.cut authpilot.Common.Case.trim
filter_misses = refl
