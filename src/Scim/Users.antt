-- ===== src/Scim/Users.antt =====
-- The handlers of SCIM users, over any store of users.
use authpilot.Common.{
  ℕ, String, Bool, true, Option, none, some, List, [], ◌∷◌, ◌==◌, if◌then◌else◌, any,
}
use authpilot.Common.Decimal.{decimal}
use Prim.Native.String
use authpilot.Domain.{User, zero_user, Group}
use authpilot.Store.{Result, ok, err, CrudStore, message, value_or}
use authpilot.Scim.{
  ScimUser, ListResponse, PatchItem, UserInput, Answer, resource, refused, no_content,
  list_response, primary_value, matches_filter,
}
use authpilot.Scim.Render.{user_to_scim}
use authpilot.Scim.Patch.{patch_user}

-- `newUserID`
unfoldable pub new_user_id : ℕ → String
new_user_id now = String.◌++◌ "usr_" (decimal now)

-- the users that pass the filter
unfoldable pub matching : String → List Group → List User → List ScimUser
matching filter groups [] = []
matching filter groups (u ∷ users) =
    let rest = matching filter groups users in
    let shown = user_to_scim u groups in if matches_filter shown filter then shown ∷ rest else rest

abbrev or_else : String → String → String
or_else s other = if s == "" then other else s

abbrev given {ℓ} : {A : Type ℓ} → Option A → A → A
given none default = default
given (some a) default = a

abbrev pub not_found_user : Answer ScimUser
not_found_user = refused 404 "user not found" ""

abbrev pub invalid : {A : Type 0} → Answer A
invalid = refused 400 "invalid JSON body" "invalidValue"

-- the user that `createUserHandler` makes of the input, whose ID and time are read off the clock
unfoldable pub new_user : ℕ → ℕ → UserInput → User
new_user id_now now input = record zero_user {
  id = new_user_id id_now;
  email = or_else (primary_value input.emails) input.user_name;
  display_name = input.display_name;
  phone_number = primary_value input.phone_nums;
  active = given input.active true;
  created_at = now;
}

-- the changes of `replaceUserHandler`
unfoldable pub replaced_user : User → UserInput → User
replaced_user existing input = record existing {
  email = or_else (or_else (primary_value input.emails) input.user_name) existing.email;
  display_name = input.display_name;
  phone_number = primary_value input.phone_nums;
  active = given input.active existing.active;
}

-- the answer to the result of an update
abbrev pub updated_answer : {S A B : Type 0} → (A → B) → S × Result A → S × Answer B
updated_answer show (s, ok a) = (s, resource 200 (show a))
updated_answer show (s, err e) = (s, refused 500 (message e) "")

abbrev pub created_answer : {S A B : Type 0} → (A → B) → S × Result A → S × Answer B
created_answer show (s, ok a) = (s, resource 201 (show a))
created_answer show (s, err e) = (s, refused 409 (message e) "uniqueness")

abbrev pub deleted_answer : {S B E : Type 0} → String → S × Option E → S × Answer B
deleted_answer detail (s, none) = (s, no_content)
deleted_answer detail (s, some e) = (s, refused 404 detail "")

-- the groups, if there is a store of them
abbrev group_list : {G : Type 0} → Option (CrudStore G Group × G) → List Group
group_list none = []
group_list (some (groups, g)) = value_or [] (groups.list g)

module _ {S : Type 0} (users : CrudStore S User) where
  -- some stored user has the name as email address
  unfoldable pub name_taken : S → String → Bool
  name_taken s user_name = any (λ u. u.email == user_name) (value_or [] (users.list s))

  unfoldable pub list_users :
      {G : Type 0} → S → Option (CrudStore G Group × G) → String → Answer (ListResponse ScimUser)
  unfolding matching list_response
  list_users s groups filter = elim (users.list s) [
    | err e ↦ refused 500 (message e) ""
    | ok all ↦ resource 200 (list_response (matching filter (group_list groups) all))
  ]

  unfoldable pub create_user : S → ℕ → ℕ → Option UserInput → S × Answer ScimUser
  unfolding name_taken new_user
  create_user s id_now now none = (s, invalid)
  create_user s id_now now (some input) =
      if input.user_name == ""
      then (s, refused 400 "userName is required" "invalidValue")
      else if name_taken s input.user_name
      then (s, refused 409 "userName already in use" "uniqueness")
      else created_answer (λ u. user_to_scim u []) (users.create s (new_user id_now now input))

  unfoldable pub get_user : S → String → Answer ScimUser
  get_user s id = elim (users.get_by_id s id) [
    | err e ↦ not_found_user
    | ok u ↦ resource 200 (user_to_scim u [])
  ]

  unfoldable pub replace_user : S → String → Option UserInput → S × Answer ScimUser
  unfolding replaced_user
  replace_user s id body = elim (users.get_by_id s id) [
    | err e ↦ (s, not_found_user)
    | ok existing ↦ elim body [
      | none ↦ (s, invalid)
      | some input ↦
          updated_answer (λ u. user_to_scim u []) (users.update s (replaced_user existing input))
    ]
  ]

  unfoldable pub patch_user_handler : S → String → Option (List PatchItem) → S × Answer ScimUser
  patch_user_handler s id body = elim (users.get_by_id s id) [
    | err e ↦ (s, not_found_user)
    | ok u ↦ elim body [
      | none ↦ (s, invalid)
      | some operations ↦
          updated_answer (λ u. user_to_scim u []) (users.update s (patch_user u operations))
    ]
  ]

  unfoldable pub delete_user : S → String → S × Answer ScimUser
  delete_user s id = deleted_answer "user not found" (users.delete s id)
