-- ===== src/Store/Memory/Groups.antt =====
-- server/internal/store/memory/groups.go: groups.
use authpilot.Common.{String, Option, none, some, List, [], sort_by, map}
use authpilot.Common.GoMap.{GoMap, lookup, insert, delete as delete_key, values}
use authpilot.Domain.{Group}
use authpilot.Store.{Err, not_found, Result, ok, err, CrudStore}

pub record GroupStore : Type 0 where
  pub groups : GoMap Group

-- `NewGroupStore`
abbrev pub new : GroupStore
new = record { groups = [] }

-- `cloneGroup` copies the slice of members
unfoldable pub clone_group : Group → Group
clone_group group = record group { member_ids = map (λ x. x) group.member_ids }

unfoldable pub create : GroupStore → Group → GroupStore × Result Group
create s group =
    (record s { groups = insert group.id (clone_group group) s.groups }, ok (clone_group group))

unfoldable pub get_by_id : GroupStore → String → Result Group
get_by_id s id = elim (lookup id s.groups) [
  | none ↦ err not_found
  | some group ↦ ok (clone_group group)
]

unfoldable pub list : GroupStore → Result (List Group)
list s = ok (sort_by (λ x. x.id) (map clone_group (values s.groups)))

unfoldable pub update : GroupStore → Group → GroupStore × Result Group
update s group = elim (lookup group.id s.groups) [
  | none ↦ (s, err not_found)
  | some _ ↦
      (record s { groups = insert group.id (clone_group group) s.groups }, ok (clone_group group))
]

unfoldable pub delete : GroupStore → String → GroupStore × Option Err
delete s id = elim (lookup id s.groups) [
  | none ↦ (s, some not_found)
  | some _ ↦ (record s { groups = delete_key id s.groups }, none)
]

-- the methods, as the interface that clients use
abbrev pub crud : CrudStore GroupStore Group
crud = record {
  create = create;
  get_by_id = get_by_id;
  list = list;
  update = update;
  delete = delete;
}
