-- ===== src/Opa/Policies.antt =====
-- The handlers that administer stored policies, over any store of policies, and the evaluation by name.
use authpilot.Common.{ℕ, String, Bool, Option, none, some, List, [], ◌∷◌, ◌==◌, if◌then◌else◌}
use authpilot.Domain.{Policy, zero_policy}
use authpilot.Store.{Result, ok, err, message}
use authpilot.Store.Sqlite.Policies.{
  PolicyError, PolicyResult, policy, no_policy, not_found, tampered, refused,
}
use authpilot.Opa.{OpaConfig, EvalOptions, compile_error, Evaluation, failed, Rego, eval}
use authpilot.Opa.Requests.{
  OpaAnswer, answered, opa_error, PolicyLookup, named, not_named, lookup_failed,
}

-- the interface of the store
pub record PolicyStore (S : Type 0) : Type 0 where
  pub create : S → Policy → S × PolicyResult
  pub get_by_id : S → String → PolicyResult
  pub get_by_name : S → String → PolicyResult
  pub list : S → Result (List Policy)
  pub activate : S → String → ℕ → S × Option PolicyError
  pub delete : S → String → S × Option PolicyError

pub record PolicyCreateRequest : Type 0 where
  pub name : String
  pub version : String
  pub content : String

-- what is shown of a policy: all but the signature
pub record PolicyResponse : Type 0 where
  pub id : String
  pub name : String
  pub version : String
  pub content : String
  pub content_hash : String
  pub active : Bool
  pub created_at : ℕ
  pub activated_at : Option ℕ

pub record ActivateResponse : Type 0 where
  pub id : String
  pub name : String
  pub version : String
  pub active : Bool
  pub activated_at : ℕ

unfoldable pub policy_to_response : Policy → PolicyResponse
policy_to_response p = record {
  id = p.id;
  name = p.name;
  version = p.version;
  content = p.content;
  content_hash = p.content_hash;
  active = p.active;
  created_at = p.created_at;
  activated_at = p.activated_at;
}

-- `err.Error()`
abbrev pub policy_error_text : PolicyError → String
policy_error_text not_found = "not found"
policy_error_text tampered = "policy content integrity check failed"
policy_error_text refused = "insert policy: constraint failed"

abbrev pub policy_error : {A : Type 0} → PolicyError → OpaAnswer A
policy_error not_found = opa_error 404 "not_found" "policy not found"
policy_error e = opa_error 500 "server_error" (policy_error_text e)

abbrev shown : {A : Type 0} → (Policy → A) → PolicyResult → OpaAnswer A
shown show (policy p) = answered 200 (show p)
shown show (no_policy e) = policy_error e

-- the text of a policy that does not compile; a policy that is late or fails otherwise is let through
abbrev pub compile_failure : Evaluation → Option String
compile_failure (failed (compile_error text)) = some text
compile_failure _ = none

unfoldable pub show_each : List Policy → List PolicyResponse
unfolding policy_to_response
show_each [] = []
show_each (p ∷ ps) = policy_to_response p ∷ show_each ps

-- the policy that is stored for a request; `sha256_hex` is the hash of its content
unfoldable pub new_policy :
    (sha256_hex : String → String) → (id : String) → ℕ → PolicyCreateRequest → Policy
new_policy sha256_hex id now req = record zero_policy {
  id = id;
  name = req.name;
  version = req.version;
  content = req.content;
  content_hash = sha256_hex req.content;
  created_at = now;
}

-- the answer to a creation
abbrev pub created_policy : {S : Type 0} → S × PolicyResult → S × OpaAnswer PolicyResponse
created_policy (s, policy p) = (s, answered 201 (policy_to_response p))
created_policy (s, no_policy e) = (s, opa_error 500 "server_error" (policy_error_text e))

-- the answer to a deletion, with nothing to show
abbrev pub deleted_policy : {S : Type 0} → S × Option PolicyError → S × OpaAnswer Unit
deleted_policy (s, none) = (s, answered 204 tt)
deleted_policy (s, some e) = (s, policy_error e)

module _ {S : Type 0} (policies : PolicyStore S) where
  unfoldable pub list_policies : S → OpaAnswer (List PolicyResponse)
  unfolding show_each
  list_policies s = elim (policies.list s) [
    | err e ↦ opa_error 500 "server_error" (message e)
    | ok all ↦ answered 200 (show_each all)
  ]

  unfoldable pub create_policy :
      OpaConfig
      → Rego
      → (sha256_hex : String → String) → S
      → String
      → ℕ
      → PolicyCreateRequest
      → S × OpaAnswer PolicyResponse
  unfolding new_policy policy_to_response
  create_policy cfg rego sha256_hex s id now req =
      if req.name == ""
      then (s, opa_error 400 "validation_error" "'name' is required")
      else if req.version == ""
      then (s, opa_error 400 "validation_error" "'version' is required")
      else if req.content == ""
      then (s, opa_error 400 "validation_error" "'content' is required")
      else let trial : EvalOptions = record {
        policy_text = req.content;
        data_map = [];
        input = [];
        query = "data.authz.allow";
        with_trace = Bool.false;
        compile_timeout = 0;
        eval_timeout = 0;
      } in
        elim (compile_failure (eval cfg rego trial)) [
          | some text ↦ (s, opa_error 400 "compile_error" text)
          | none ↦ created_policy (policies.create s (new_policy sha256_hex id now req))
        ]

  unfoldable pub get_policy : S → String → OpaAnswer PolicyResponse
  unfolding policy_to_response
  get_policy s id = shown policy_to_response (policies.get_by_id s id)

  unfoldable pub delete_policy : S → String → S × OpaAnswer Unit
  delete_policy s id = deleted_policy (policies.delete s id)

  -- the policy is read again after the activation
  abbrev activated : S → String → ℕ → OpaAnswer ActivateResponse
  activated s id now = elim (policies.get_by_id s id) [
    | no_policy e ↦ opa_error 500 "server_error" (policy_error_text e)
    | policy p ↦ answered 200 (record {
      id = p.id;
      name = p.name;
      version = p.version;
      active = p.active;
      activated_at = now;
    })
  ]

  abbrev pub after_activation : String → ℕ → S × Option PolicyError → S × OpaAnswer ActivateResponse
  after_activation id now (s, some e) = (s, policy_error e)
  after_activation id now (s, none) = (s, activated s id now)

  unfoldable pub activate_policy : S → String → ℕ → S × OpaAnswer ActivateResponse
  activate_policy s id now = after_activation id now (policies.activate s id now)

  -- the lookup of `evaluateHandler`
  unfoldable pub by_name : S → String → PolicyLookup
  by_name s name = elim (policies.get_by_name s name) [
    | policy p ↦ named p
    | no_policy e ↦ elim e [
      | tampered ↦ PolicyLookup.tampered
      | not_found ↦ not_named
      | refused ↦ lookup_failed (policy_error_text refused)
    ]
  ]
