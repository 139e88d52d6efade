-- ===== src/Store/Memory/Crud.antt =====
-- The five in-memory stores keep the promise of the interface.
use mathlib.Core.List.{map-id}
use mathlib.Core.Path.{fun_ext}
use authpilot.Common.{◌≡◌, refl, ap, inl, inr, arith, Bool-cases, Option-cases}
use authpilot.Common.GoMap.{lookup, values}
use authpilot.Domain.{User, Group, Flow, Session, Admin}
use authpilot.Store.{conflict, ok, IsCrud}
use authpilot.Store.Memory.Laws.{IsMapBacked, IsKeyed, IsMapBacked-IsCrud}
use authpilot.Store.Memory.Users
use authpilot.Store.Memory.Groups
use authpilot.Store.Memory.Flows
use authpilot.Store.Memory.Sessions
use authpilot.Store.Memory.Admins

-- a clone is equal to what it copies
pub clone_user-eq : (u : User) → Users.clone_user u ≡ u
unfolding Users.clone_user
clone_user-eq u = rw (map-id u.groups, map-id u.claims) refl

pub clone_group-eq : (g : Group) → Groups.clone_group g ≡ g
unfolding Groups.clone_group
clone_group-eq g = rw (map-id g.member_ids) refl

users_backed : IsMapBacked (λ (x : User). x.id) Users.crud (λ s. s.users)
unfolding Users.create Users.get_by_id Users.list Users.update Users.delete
users_backed = record {
  reads = λ s k. elim (Option-cases (lookup k s.users)) [
    | inl (user, e) ↦ rw (e, Users.get_by_id) (ap ok (clone_user-eq user))
    | inr e ↦ rw (e, Users.get_by_id) refl
  ];
  lists = λ s. rw (fun_ext clone_user-eq, map-id) refl;
  creates = λ s a. elim (Bool-cases (Users.email_taken a.email (values s.users))) [
    | inl taken ↦ inl (conflict, rw taken refl)
    | inr free ↦ inr (rw (free, clone_user-eq) (refl, refl))
  ];
  updates = λ s a. ground (arith, clone_user-eq a);
  deletes = λ s k. ground arith;
}

-- The in-memory store of users is a partial map from keys to users.
pub users-IsCrud :
    IsCrud
      (λ (x : User). x.id)
      Users.crud
      (λ s k. lookup k s.users)
      (IsKeyed (λ (x : User). x.id) Users.crud (λ s. s.users))
users-IsCrud = IsMapBacked-IsCrud _ _ _ users_backed

groups_backed : IsMapBacked (λ (x : Group). x.id) Groups.crud (λ s. s.groups)
unfolding Groups.create Groups.get_by_id Groups.list Groups.update Groups.delete
groups_backed = record {
  reads = λ s k. elim (Option-cases (lookup k s.groups)) [
    | inl (group, e) ↦ rw (e, Groups.get_by_id) (ap ok (clone_group-eq group))
    | inr e ↦ rw (e, Groups.get_by_id) refl
  ];
  lists = λ s. rw (fun_ext clone_group-eq, map-id) refl;
  creates = λ s a. inr (rw clone_group-eq (refl, refl));
  updates = λ s a. ground (arith, clone_group-eq a);
  deletes = λ s k. ground arith;
}

-- The in-memory store of groups is a partial map from keys to groups.
pub groups-IsCrud :
    IsCrud
      (λ (x : Group). x.id)
      Groups.crud
      (λ s k. lookup k s.groups)
      (IsKeyed (λ (x : Group). x.id) Groups.crud (λ s. s.groups))
groups-IsCrud = IsMapBacked-IsCrud _ _ _ groups_backed

flows_backed : IsMapBacked (λ (x : Flow). x.id) Flows.crud (λ s. s.flows)
unfolding Flows.create Flows.get_by_id Flows.list Flows.update Flows.delete
flows_backed = record {
  reads = λ s k. ground arith;
  lists = λ s. refl;
  creates = λ s a. inr (refl, refl);
  updates = λ s a. ground (arith);
  deletes = λ s k. ground arith;
}

-- The in-memory store of flows is a partial map from keys to flows.
pub flows-IsCrud :
    IsCrud
      (λ (x : Flow). x.id)
      Flows.crud
      (λ s k. lookup k s.flows)
      (IsKeyed (λ (x : Flow). x.id) Flows.crud (λ s. s.flows))
flows-IsCrud = IsMapBacked-IsCrud _ _ _ flows_backed

sessions_backed : IsMapBacked (λ (x : Session). x.id) Sessions.crud (λ s. s.sessions)
unfolding Sessions.create Sessions.get_by_id Sessions.list Sessions.update Sessions.delete
sessions_backed = record {
  reads = λ s k. ground arith;
  lists = λ s. refl;
  creates = λ s a. inr (refl, refl);
  updates = λ s a. ground (arith);
  deletes = λ s k. ground arith;
}

-- The in-memory store of sessions is a partial map from keys to sessions.
pub sessions-IsCrud :
    IsCrud
      (λ (x : Session). x.id)
      Sessions.crud
      (λ s k. lookup k s.sessions)
      (IsKeyed (λ (x : Session). x.id) Sessions.crud (λ s. s.sessions))
sessions-IsCrud = IsMapBacked-IsCrud _ _ _ sessions_backed

admins_backed : IsMapBacked (λ (x : Admin). x.id) Admins.crud (λ s. s.admins)
unfolding Admins.create Admins.get_by_id Admins.list Admins.update Admins.delete
admins_backed = record {
  reads = λ s k. ground arith;
  lists = λ s. refl;
  creates = λ s a. inr (refl, refl);
  updates = λ s a. ground (arith);
  deletes = λ s k. ground arith;
}

-- The in-memory store of admins is a partial map from keys to admins.
pub admins-IsCrud :
    IsCrud
      (λ (x : Admin). x.id)
      Admins.crud
      (λ s k. lookup k s.admins)
      (IsKeyed (λ (x : Admin). x.id) Admins.crud (λ s. s.admins))
admins-IsCrud = IsMapBacked-IsCrud _ _ _ admins_backed
