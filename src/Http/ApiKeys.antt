-- ===== src/Http/ApiKeys.antt =====
-- server/internal/httpapi/middleware.go: API keys, and the tenant that a key stands for; with
-- server/internal/tenant and the dispatcher of server/internal/store/tenanted, the stores of a request.
use mathlib.Core.Path.{subst}
use text.Mathlib.Text.{starts_with}
use authpilot.Common.{
  ℕ, String, ◌≡◌, ◌≢◌, refl, ap, ◌∙◌, Bool, true, false, not, ◌&&◌, Option, none, some, List, [],
  ◌∷◌, ◌==◌, eq_iff, eq_refl, if◌then◌else◌, Bool-cases, Option-cases, inl, inr, ne→==-false,
  ==-false→ne, All, Has,
}
use authpilot.Common.GoMap.{GoMap, lookup, insert, lookup-insert}
use authpilot.Common.Prefix.{trim_prefix}
use authpilot.Store.{Result, ok, err}

-- where a request may carry its key
pub record KeyRequest : Type 0 where
  pub api_key_header : String
  pub authorization : String
  pub api_key_query : String

unfoldable pub extract_api_key : KeyRequest → String
extract_api_key r =
    if not (r.api_key_header == "")
    then r.api_key_header
    else if starts_with r.authorization "Bearer "
    then trim_prefix r.authorization "Bearer "
    else r.api_key_query

-- `domain.APIKey`
pub record ApiKey : Type 0 where
  pub id : String
  pub label : String
  pub key_hash : String
  pub scopes : List String
  pub created_at : ℕ
  pub revoked_at : Option ℕ
  pub last_used_at : Option ℕ

-- what `apiKeyMiddleware` does with a request: it passes it on, with the scopes of a stored key or
-- without any, or it answers 401
pub data Verdict : Type 0 where
  unscoped : Verdict
  scoped : List String → Verdict
  unauthorized : Verdict

-- a stored key, if it is not revoked
unfoldable pub judge : Result ApiKey → Verdict
judge (err _) = unauthorized
judge (ok k) = elim k.revoked_at [ none ↦ scoped k.scopes | some _ ↦ unauthorized ]

-- the lookup in the store of keys, if there is one
unfoldable pub judge_stored : Option (String → Result ApiKey) → (String → String) → String → Verdict
judge_stored none hash incoming = unauthorized
judge_stored (some get_by_hash) hash incoming =
    if incoming == "" then unauthorized else judge (get_by_hash (hash incoming))

abbrev no_store : Option (String → Result ApiKey) → Bool
no_store none = true
no_store (some _) = false

-- `apiKeyMiddleware`
unfoldable pub admit :
    String → Option (String → Result ApiKey) → (String → String) → String → Verdict
unfolding judge_stored
admit api_key store hash incoming =
    if (api_key == "") && no_store store
    then unscoped
    else if not (api_key == "") && (incoming == api_key)
    then unscoped
    else judge_stored store hash incoming

-- the ways in
pub data IsAdmitted (api_key : String) (store : Option (String → Result ApiKey))
    (hash : String → String) (incoming : String) : Verdict → Type 0 where
  open_access : api_key ≡ "" → store ≡ none → IsAdmitted api_key store hash incoming unscoped
  static_key : api_key ≢ "" → incoming ≡ api_key → IsAdmitted api_key store hash incoming unscoped
  stored_key :
      (get_by_hash : String → Result ApiKey) (k : ApiKey)
      → store ≡ some get_by_hash
      → incoming ≢ ""
      → get_by_hash (hash incoming) ≡ ok k
      → k.revoked_at ≡ none
      → IsAdmitted api_key store hash incoming (scoped k.scopes)
  refused : IsAdmitted api_key store hash incoming unauthorized

judge-IsAdmitted :
    (api_key : String) (get_by_hash : String → Result ApiKey) (hash : String → String)
    (incoming : String)
    → incoming ≢ ""
    → (r : Result ApiKey) → get_by_hash (hash incoming) ≡ r
    → IsAdmitted api_key (some get_by_hash) hash incoming (judge r)
unfolding judge
judge-IsAdmitted api_key get_by_hash hash incoming given (err e) at = refused
judge-IsAdmitted api_key get_by_hash hash incoming given (ok k) at =
    elim (Option-cases k.revoked_at) [
      | inl (t, revoked) ↦ rw (revoked, judge) refused
      | inr active ↦ rw (active, judge) (stored_key get_by_hash k refl given at active)
    ]

judge_stored-IsAdmitted :
    (api_key : String) (store : Option (String → Result ApiKey)) (hash : String → String)
    (incoming : String)
    → IsAdmitted api_key store hash incoming (judge_stored store hash incoming)
unfolding judge_stored
judge_stored-IsAdmitted api_key none hash incoming = refused
judge_stored-IsAdmitted api_key (some get_by_hash) hash incoming =
    elim (Bool-cases (incoming == "")) [
      | inl blank ↦ rw blank refused
      | inr there ↦ rw there (
          judge-IsAdmitted api_key get_by_hash hash incoming (==-false→ne incoming "" there) _ refl)
    ]

admit_unset :
    (api_key : String) (store : Option (String → Result ApiKey)) (hash : String → String)
    (incoming : String)
    → api_key ≡ ""
    → IsAdmitted api_key store hash incoming
        (if no_store store then unscoped else judge_stored store hash incoming)
admit_unset api_key none hash incoming e = open_access e refl
admit_unset api_key (some get_by_hash) hash incoming e =
    judge_stored-IsAdmitted api_key (some get_by_hash) hash incoming

-- A request that is not refused has come in by one of three ways: no key is configured and there is no
-- store of keys; it holds the configured key, which is not empty; or it holds a key, not empty, whose
-- hash is that of a stored key which is not revoked, and is then given the scopes of that key.
pub admit-IsAdmitted :
    (api_key : String) (store : Option (String → Result ApiKey)) (hash : String → String)
    (incoming : String)
    → IsAdmitted api_key store hash incoming (admit api_key store hash incoming)
unfolding admit
admit-IsAdmitted api_key store hash incoming = elim (Bool-cases (api_key == "")) [
  | inl unset ↦ rw unset (admit_unset api_key store hash incoming ((eq_iff api_key "").0 unset))
  | inr configured ↦ elim (Bool-cases (incoming == api_key)) [
    | inl same ↦
        rw (configured, same)
          (static_key (==-false→ne api_key "" configured) ((eq_iff incoming api_key).0 same))
    | inr other ↦ rw (configured, other) (judge_stored-IsAdmitted api_key store hash incoming)
  ]
]

-- `TenantEntry`
pub record TenantEntry : Type 0 where
  pub tenant_id : String
  pub api_key : String
  pub scim_key : String

-- the loop that fills `byAPIKey`
unfoldable pub by_api_key : GoMap TenantEntry → List TenantEntry → GoMap TenantEntry
by_api_key m [] = m
by_api_key m (t ∷ tenants) = by_api_key (insert t.api_key t m) tenants

-- the loop that fills `bySCIMKey`
unfoldable pub by_scim_key : GoMap TenantEntry → List TenantEntry → GoMap TenantEntry
by_scim_key m [] = m
by_scim_key m (t ∷ tenants) =
    by_scim_key (if not (t.scim_key == "") then insert t.scim_key t m else m) tenants

abbrev tenant_of : Option TenantEntry → Option String
tenant_of none = none
tenant_of (some t) = some t.tenant_id

abbrev or_else : Option TenantEntry → Option TenantEntry → Option TenantEntry
or_else none o = o
or_else (some t) o = some t

-- the tenant that `tenantAPIKeyMiddleware` puts on the context; `none` is the answer 401
unfoldable pub resolve_tenant : List TenantEntry → String → Option String
unfolding by_api_key by_scim_key
resolve_tenant tenants key =
    tenant_of (or_else (lookup key (by_api_key [] tenants)) (lookup key (by_scim_key [] tenants)))

-- `tenant.FromContext`, of what the context holds
unfoldable pub from_context : Option String → String
from_context none = "default"
from_context (some id) = if id == "" then "default" else id

abbrev or_default : {A : Type 0} → Option A → Option A → Option A
or_default none def = def
or_default (some s) def = some s

-- `Dispatcher.ForContext`; `none` is the nil set
unfoldable pub for_context : {A : Type 0} → GoMap A → Option String → Option A
unfolding from_context
for_context sets context = or_default (lookup (from_context context) sets) (lookup "default" sets)

-- the keys of an entry and of the entries after it differ
abbrev pub HasUniqueApiKeys : List TenantEntry → Type 0
HasUniqueApiKeys [] = Unit
HasUniqueApiKeys (t ∷ ts) = All (λ u. u.api_key ≢ t.api_key) ts × HasUniqueApiKeys ts

by_api_key-other :
    (m : GoMap TenantEntry) (ts : List TenantEntry) (key : String)
    → All (λ u. u.api_key ≢ key) ts
    → lookup key (by_api_key m ts) ≡ lookup key m
unfolding by_api_key
by_api_key-other m [] key h = refl
by_api_key-other m (t ∷ ts) key h =
    by_api_key-other (insert t.api_key t m) ts key h.1
    ∙ lookup-insert t.api_key key t m
    ∙ rw (ne→==-false t.api_key key h.0) refl

by_api_key-own :
    (m : GoMap TenantEntry) (ts : List TenantEntry) (t : TenantEntry)
    → HasUniqueApiKeys ts
    → Has t ts
    → lookup t.api_key (by_api_key m ts) ≡ some t
unfolding by_api_key
by_api_key-own m [] t unique h = elim h [ ]
by_api_key-own m (u ∷ ts) t unique (inl e) =
    by_api_key-other (insert u.api_key u m) ts t.api_key
      (subst (λ x. All (λ w. w.api_key ≢ x.api_key) ts) e unique.0)
    ∙ lookup-insert u.api_key t.api_key u m
    ∙ rw (e, eq_refl t.api_key) refl
by_api_key-own m (u ∷ ts) t unique (inr h) = by_api_key-own (insert u.api_key u m) ts t unique.1 h

-- The API key of a tenant stands for that tenant, and the dispatcher gives its request the tenant's
-- own set of stores, if the API keys differ, the tenant's name is not empty and there is a set for it.
pub for_context-own :
    {A : Type 0} (tenants : List TenantEntry) (sets : GoMap A) (t : TenantEntry) (s : A)
    → HasUniqueApiKeys tenants
    → Has t tenants
    → t.tenant_id ≢ ""
    → lookup t.tenant_id sets ≡ some s
    → (resolve_tenant tenants t.api_key ≡ some t.tenant_id)
      × (for_context sets (resolve_tenant tenants t.api_key) ≡ some s)
unfolding resolve_tenant for_context from_context
for_context-own tenants sets t s unique h named stored =
    let found_one = by_api_key-own [] tenants t unique h in
    let own : resolve_tenant tenants t.api_key ≡ some t.tenant_id = rw found_one refl in
    (own, ap (for_context sets) own ∙ rw (ne→==-false t.tenant_id "" named, stored) refl)
