-- ===== src/Store.antt =====
-- server/internal/store/interfaces.go: what a handler may ask of a store. The state `S` of a store
-- is passed on explicitly; a Go pair of a value and an error is a `Result`.
pub mod Memory
pub mod Tenanted
pub mod Sqlite
mod Tests
use authpilot.Common.{
  ℕ, String, ◌≡◌, refl, ◌⊎◌, inl, inr, Bool, true, false, ◌&&◌, Option, none, some, List, ◌==◌,
  if◌then◌else◌, All, Has,
}
use authpilot.Domain.{Flow, Session}

-- `ErrNotFound` and `ErrConflict`; `failure` is any other error of an implementation
pub data Err : Type 0 where
  not_found conflict : Err
  failure : String → Err

pub data Result {ℓ} (A : Type ℓ) : Type ℓ where
  ok : A → Result A
  err : Err → Result A

-- `err.Error()`
abbrev pub message : Err → String
message not_found = "not found"
message conflict = "already exists"
message (failure text) = text

-- `a, ok := m[k]; if !ok { return ErrNotFound }; return a`
abbrev pub found {ℓ} : {A : Type ℓ} → Option A → Result A
found none = err not_found
found (some a) = ok a

-- `a, _ := f()`: the value, or the zero value that comes with an error
abbrev pub value_or {ℓ} : {A : Type ℓ} → A → Result A → A
value_or zero_value (ok a) = a
value_or zero_value (err e) = zero_value

abbrev pub is_some {ℓ} : {A : Type ℓ} → Option A → Bool
is_some none = false
is_some (some a) = true

abbrev pub map_result {ℓ κ} : {A : Type ℓ} {B : Type κ} → (A → B) → Result A → Result B
map_result f (ok a) = ok (f a)
map_result f (err e) = err e

pub Result-cases {ℓ} :
    {A : Type ℓ} (r : Result A) → ((a : A) × (r ≡ ok a)) ⊎ ((e : Err) × (r ≡ err e))
Result-cases (ok a) = inl (a, refl)
Result-cases (err e) = inr (e, refl)

-- the methods that the interfaces of users, groups, flows and sessions share
pub record CrudStore (S A : Type 0) : Type 0 where
  pub create : S → A → S × Result A
  pub get_by_id : S → String → Result A
  pub list : S → Result (List A)
  pub update : S → A → S × Result A
  pub delete : S → String → S × Option Err

pub record FlowStore (S : Type 0) : Type 0 where
  pub crud : CrudStore S Flow
  pub delete_expired : S → ℕ → S × Result ℕ
  pub consume_auth_code : S → String → S × Result Flow

pub record SessionStore (S : Type 0) : Type 0 where
  pub crud : CrudStore S Session
  pub get_by_refresh_token : S → String → Result Session
  pub delete_expired : S → ℕ → S × Result ℕ

-- What a store promises: it is a partial map from keys to values, `view`, which the methods read
-- and write at one key only. `IsValid` is the store's own invariant.
pub record IsCrud {S A : Type 0} (key : A → String) (ops : CrudStore S A)
    (view : S → String → Option A) (IsValid : S → Type 0) : Type 0 where
  pub get_view : (s : S) (k : String) → ops.get_by_id s k ≡ found (view s k)
  pub create_ok :
      (s : S) (a b : A)
      → (ops.create s a).1 ≡ ok b
      → (b ≡ a)
        × ((k : String) → view (ops.create s a).0 k ≡ (if key a == k then some a else view s k))
  pub create_err : (s : S) (a : A) (e : Err) → (ops.create s a).1 ≡ err e → (ops.create s a).0 ≡ s
  pub update_result :
      (s : S) (a : A)
      → (ops.update s a).1 ≡ (if is_some (view s (key a)) then ok a else err not_found)
  pub update_view :
      (s : S) (a : A) (k : String)
      → view (ops.update s a).0 k
        ≡ (if is_some (view s (key a)) && (key a == k) then some a else view s k)
  pub delete_result :
      (s : S) (k : String)
      → (ops.delete s k).1 ≡ (if is_some (view s k) then none else some not_found)
  pub delete_view :
      (s : S) (k j : String) → view (ops.delete s k).0 j ≡ (if k == j then none else view s j)
  pub create-IsValid : (s : S) (a : A) → IsValid s → IsValid (ops.create s a).0
  pub update-IsValid : (s : S) (a : A) → IsValid s → IsValid (ops.update s a).0
  pub delete-IsValid : (s : S) (k : String) → IsValid s → IsValid (ops.delete s k).0
  pub view_key : (s : S) (k : String) (a : A) → IsValid s → view s k ≡ some a → key a ≡ k
  pub list_sound :
      (s : S) (l : List A) → IsValid s → ops.list s ≡ ok l → All (λ a. view s (key a) ≡ some a) l
  pub list_complete :
      (s : S) (l : List A) (k : String) (a : A)
      → IsValid s
      → view s k ≡ some a
      → ops.list s ≡ ok l
      → Has a l
