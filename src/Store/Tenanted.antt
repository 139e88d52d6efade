-- ===== src/Store/Tenanted.antt =====
-- server/internal/store/tenanted: the stores of one tenant, kept in a store that the tenants share.
-- A tenant's keys carry its name and `::` in front; the caller sees them without.
pub mod Laws
pub mod Isolation
pub mod Audit
pub mod Codes
use Prim.Native.String
use text.Mathlib.Text.{starts_with}
use text.Mathlib.TextPositions.{starts_with-append}
use authpilot.Common.{
  String, ◌≡◌, refl, arith, ◌==◌, eq_iff, Bool, true, Option, List, [], ◌∷◌, if◌then◌else◌,
}
use authpilot.Common.Prefix.{trim_prefix, trim_prefix-append, append-trim_prefix}
use authpilot.Domain.{User, Group, Flow, Session}
use authpilot.Store.{
  Err, not_found, Result, ok, err, map_result, CrudStore, FlowStore, SessionStore,
}

abbrev pub sep : String
sep = "::"

unfoldable pub add_prefix : String → String → String
add_prefix tenant_id id = String.◌++◌ (String.◌++◌ tenant_id sep) id

unfoldable pub has_prefix : String → String → Bool
has_prefix tenant_id id = starts_with id (String.◌++◌ tenant_id sep)

unfoldable pub strip_prefix : String → String → String
strip_prefix tenant_id id = trim_prefix id (String.◌++◌ tenant_id sep)

-- a type of stored things with an `ID` field that can be written
pub record Entity (A : Type 0) : Type 0 where
  pub id : A → String
  pub with_id : A → String → A
  pub id-with_id : (a : A) (s : String) → id (with_id a s) ≡ s
  pub with_id-with_id : (a : A) (s t : String) → with_id (with_id a s) t ≡ with_id a t
  pub with_id-id : (a : A) → with_id a (id a) ≡ a

abbrev pub user_entity : Entity User
user_entity = record {
  id = λ u. u.id;
  with_id = λ u s. record u { id = s };
  id-with_id = λ u s. refl;
  with_id-with_id = λ u s t. refl;
  with_id-id = λ u. refl;
}

abbrev pub group_entity : Entity Group
group_entity = record {
  id = λ u. u.id;
  with_id = λ u s. record u { id = s };
  id-with_id = λ u s. refl;
  with_id-with_id = λ u s t. refl;
  with_id-id = λ u. refl;
}

abbrev pub flow_entity : Entity Flow
flow_entity = record {
  id = λ u. u.id;
  with_id = λ u s. record u { id = s };
  id-with_id = λ u s. refl;
  with_id-with_id = λ u s t. refl;
  with_id-id = λ u. refl;
}

abbrev pub session_entity : Entity Session
session_entity = record {
  id = λ u. u.id;
  with_id = λ u s. record u { id = s };
  id-with_id = λ u s. refl;
  with_id-with_id = λ u s t. refl;
  with_id-id = λ u. refl;
}

-- The four wrappers have the same five methods, word for word.
module _ {S A : Type 0} (entity : Entity A) (inner : CrudStore S A) (tenant_id : String) where
  -- the `ID` of a result without its prefix
  abbrev pub stripped : A → A
  stripped a = entity.with_id a (strip_prefix tenant_id (entity.id a))

  abbrev pub prefixed : A → A
  prefixed a = entity.with_id a (add_prefix tenant_id (entity.id a))

  unfoldable pub create : S → A → S × Result A
  create s a = let (s', created) = inner.create s (prefixed a) in (s', map_result stripped created)

  unfoldable pub get_by_id : S → String → Result A
  get_by_id s id = map_result stripped (inner.get_by_id s (add_prefix tenant_id id))

  -- the loop of `List`
  unfoldable pub own : List A → List A
  own [] = []
  own (a ∷ all) =
      let out = own all in if has_prefix tenant_id (entity.id a) then stripped a ∷ out else out

  unfoldable pub list : S → Result (List A)
  unfolding own
  list s = map_result own (inner.list s)

  unfoldable pub update : S → A → S × Result A
  update s a = let (s', updated) = inner.update s (prefixed a) in (s', map_result stripped updated)

  unfoldable pub delete : S → String → S × Option Err
  delete s id = inner.delete s (add_prefix tenant_id id)

  abbrev pub crud : CrudStore S A
  crud = record {
    create = create;
    get_by_id = get_by_id;
    list = list;
    update = update;
    delete = delete;
  }

-- a result of another tenant is treated as if it were not there
unfoldable pub checked : {A : Type 0} → Entity A → String → Result A → Result A
checked entity tenant_id (err e) = err e
checked entity tenant_id (ok a) =
    if has_prefix tenant_id (entity.id a)
    then ok (entity.with_id a (strip_prefix tenant_id (entity.id a)))
    else err not_found

-- `tenanted.FlowStore`
unfoldable pub flow_store : {S : Type 0} → FlowStore S → String → FlowStore S
unfolding checked
flow_store inner tenant_id = record {
  crud = crud flow_entity inner.crud tenant_id;
  delete_expired = inner.delete_expired;
  consume_auth_code = λ s code.
      let (s', consumed) = inner.consume_auth_code s code in
      (s', checked flow_entity tenant_id consumed);
}

-- `tenanted.SessionStore`
unfoldable pub session_store : {S : Type 0} → SessionStore S → String → SessionStore S
unfolding checked
session_store inner tenant_id = record {
  crud = crud session_entity inner.crud tenant_id;
  get_by_refresh_token =
      λ s token. checked session_entity tenant_id (inner.get_by_refresh_token s token);
  delete_expired = inner.delete_expired;
}

-- `tenanted.UserStore` and `tenanted.GroupStore`
unfoldable pub user_store : {S : Type 0} → CrudStore S User → String → CrudStore S User
user_store inner tenant_id = crud user_entity inner tenant_id

unfoldable pub group_store : {S : Type 0} → CrudStore S Group → String → CrudStore S Group
group_store inner tenant_id = crud group_entity inner tenant_id

-- The prefix round trips.
pub has_prefix-add_prefix : (t x : String) → has_prefix t (add_prefix t x) ≡ true
unfolding has_prefix add_prefix
has_prefix-add_prefix t x = starts_with-append (String.◌++◌ t sep) x

pub strip_prefix-add_prefix : (t x : String) → strip_prefix t (add_prefix t x) ≡ x
unfolding strip_prefix add_prefix
strip_prefix-add_prefix t x = trim_prefix-append (String.◌++◌ t sep) x

pub add_prefix-strip_prefix :
    (t id : String) → has_prefix t id ≡ true → add_prefix t (strip_prefix t id) ≡ id
unfolding strip_prefix add_prefix has_prefix
add_prefix-strip_prefix t id h = append-trim_prefix id (String.◌++◌ t sep) h

pub add_prefix-== : (t x y : String) → (add_prefix t x == add_prefix t y) ≡ (x == y)
add_prefix-== t x y = ground (
  arith,
  eq_iff x y,
  eq_iff (add_prefix t x) (add_prefix t y),
  strip_prefix-add_prefix t x,
  strip_prefix-add_prefix t y,
)
