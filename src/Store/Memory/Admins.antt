-- ===== src/Store/Memory/Admins.antt =====
-- server/internal/store/memory/admins.go: the accounts of administrators.
use authpilot.Common.{
  ℕ, String, Option, none, some, List, [], ◌∷◌, ◌==◌, if◌then◌else◌, count_if, sort_by, count_if,
}
use authpilot.Common.GoMap.{GoMap, lookup, insert, delete as delete_key, values}
use authpilot.Domain.{Admin}
use authpilot.Store.{Err, not_found, Result, ok, err, CrudStore}

pub record AdminStore : Type 0 where
  pub admins : GoMap Admin

-- `NewAdminStore`
abbrev pub new : AdminStore
new = record { admins = [] }

unfoldable pub create : AdminStore → Admin → AdminStore × Result Admin
create s admin = (record s { admins = insert admin.id admin s.admins }, ok admin)

unfoldable pub get_by_id : AdminStore → String → Result Admin
get_by_id s id = elim (lookup id s.admins) [ none ↦ err not_found | some admin ↦ ok admin ]

unfoldable pub list : AdminStore → Result (List Admin)
list s = ok (sort_by (λ x. x.id) (values s.admins))

unfoldable pub update : AdminStore → Admin → AdminStore × Result Admin
update s admin = elim (lookup admin.id s.admins) [
  | none ↦ (s, err not_found)
  | some _ ↦ (record s { admins = insert admin.id admin s.admins }, ok admin)
]

unfoldable pub delete : AdminStore → String → AdminStore × Option Err
delete s id = elim (lookup id s.admins) [
  | none ↦ (s, some not_found)
  | some _ ↦ (record s { admins = delete_key id s.admins }, none)
]

-- the loop of `GetByUsername`
unfoldable pub first_with_name : String → List Admin → Result Admin
first_with_name username [] = err not_found
first_with_name username (admin ∷ rest) =
    if admin.username == username then ok admin else first_with_name username rest

unfoldable pub get_by_username : AdminStore → String → Result Admin
unfolding first_with_name
get_by_username s username = first_with_name username (values s.admins)

unfoldable pub count_active : AdminStore → Result ℕ
count_active s = ok (count_if (λ a. a.active) (values s.admins))

-- the methods, as the interface that clients use
abbrev pub crud : CrudStore AdminStore Admin
crud = record {
  create = create;
  get_by_id = get_by_id;
  list = list;
  update = update;
  delete = delete;
}
