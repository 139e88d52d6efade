-- ===== src/Store/Memory/Users.antt =====
-- server/internal/store/memory/users.go: users, with one user for each email address at creation.
use authpilot.Common.{
  String, Bool, Option, none, some, List, [], ◌==◌, if◌then◌else◌, any, sort_by, map,
}
use authpilot.Common.GoMap.{GoMap, lookup, insert, delete as delete_key, values}
use authpilot.Domain.{User}
use authpilot.Store.{Err, not_found, conflict, Result, ok, err, CrudStore}

pub record UserStore : Type 0 where
  pub users : GoMap User

-- `NewUserStore`
abbrev pub new : UserStore
new = record { users = [] }

-- `cloneUser` copies the slice and the map, so that callers share no memory with the store
unfoldable pub clone_user : User → User
clone_user user = record user {
  groups = map (λ x. x) user.groups;
  claims = map (λ x. x) user.claims;
}

-- the loop over the stored users in `Create`
unfoldable pub email_taken : String → List User → Bool
email_taken email = any (λ u. u.email == email)

unfoldable pub create : UserStore → User → UserStore × Result User
unfolding email_taken
create s user =
    if email_taken user.email (values s.users)
    then (s, err conflict)
    else (record s { users = insert user.id (clone_user user) s.users }, ok (clone_user user))

unfoldable pub get_by_id : UserStore → String → Result User
get_by_id s id = elim (lookup id s.users) [
  | none ↦ err not_found
  | some user ↦ ok (clone_user user)
]

unfoldable pub list : UserStore → Result (List User)
list s = ok (sort_by (λ x. x.id) (map clone_user (values s.users)))

unfoldable pub update : UserStore → User → UserStore × Result User
update s user = elim (lookup user.id s.users) [
  | none ↦ (s, err not_found)
  | some _ ↦ (record s { users = insert user.id (clone_user user) s.users }, ok (clone_user user))
]

unfoldable pub delete : UserStore → String → UserStore × Option Err
delete s id = elim (lookup id s.users) [
  | none ↦ (s, some not_found)
  | some _ ↦ (record s { users = delete_key id s.users }, none)
]

-- the methods, as the interface that clients use
abbrev pub crud : CrudStore UserStore User
crud = record {
  create = create;
  get_by_id = get_by_id;
  list = list;
  update = update;
  delete = delete;
}
