-- ===== src/Http/Tests.antt =====
-- The theorems about what stands before the API, at concrete requests.
use authpilot.Common.{==-false→ne, ℕ, ◌+◌, ◌≤◌, ◌≡◌, ◌≢◌, refl, String, some, List, [], ◌∷◌, arith}
use authpilot.Common.GoMap.{GoMap, lookup}
use authpilot.Common.Text.{trim_space}
use authpilot.Store.{Result, ok, err, not_found}
use authpilot.Http.Limiter.{RateLimiter, new_rate_limiter}
use authpilot.Http.LimiterBound.{passed, passed-bounded}
use authpilot.Http.Idempotency.{
  ApiRequest, Response, IdempotencyStore, new, get, replayed, idempotent, replays-once,
}
use authpilot.Http.ApiKeys.{
  ApiKey, IsAdmitted, admit, admit-IsAdmitted, TenantEntry, scoped, unauthorized,
}
use authpilot.Http.KeyHandlers.{KeyCreateRequest, KeyCreateResponse, create_api_key}
use authpilot.Http.Revoked.{use_call, serve_all, create_api_key-revoked}
use authpilot.Store.Sqlite.ApiKeys.{get_by_hash, revoke}

abbrev two_per_second : RateLimiter
two_per_second = record { buckets = []; limit = 2; refill = 500 }

abbrev arrivals : List (ℕ × String)
arrivals = (10, "a") ∷ (20, "a") ∷ (20, "b") ∷ (30, "a") ∷ (540, "a") ∷ []

passed-bounded_example : passed "a" two_per_second arrivals ≤ 3
unfolding new_rate_limiter
passed-bounded_example =
    passed-bounded 2 1000 10 540 "a" two_per_second arrivals refl (omega arith)
      (omega arith, (omega arith, (omega arith, (omega arith, (omega arith, omega arith)))))

abbrev post : String → ApiRequest
post tenant = record {
  method = "POST";
  path = "/api/v1/users";
  idempotency_key = "k1";
  tenant_id = tenant;
  body = "";
}

-- a handler that counts its calls
abbrev counting : ℕ → ApiRequest → ℕ × Response
counting n r = (n + 1, record { status = 201; headers = []; body = r.tenant_id })

k1-given : trim_space "k1" ≢ ""
unfolding trim_space
k1-given = ==-false→ne "k1" "" refl

replays-once_example :
    let (s₁, w₁, response) = idempotent counting 5 6 (new 300) 0 (post "acme") in
    (w₁ ≡ 1)
    × (response ≡ (counting 0 (post "acme")).1)
    × (idempotent counting 9 9 s₁ 1 (post "globex") ≡ (s₁, 1, replayed response))
unfolding get lookup
replays-once_example =
    replays-once counting 5 6 9 9 (new 300) 0 1 (post "acme") (post "globex") refl refl k1-given
      refl refl refl (omega arith)

abbrev one_entry : IdempotencyStore
one_entry = record {
  entries =
      ("x", record { response = record { status = 200; headers = []; body = "" }; created = 5 })
      ∷ [];
  ttl = 10;
}

abbrev no_keys : String → Result ApiKey
no_keys hash = err not_found

admit-IsAdmitted_example :
    IsAdmitted "k" (some no_keys) (λ s. s) "k" (admit "k" (some no_keys) (λ s. s) "k")
admit-IsAdmitted_example = admit-IsAdmitted "k" (some no_keys) (λ s. s) "k"

abbrev acme : TenantEntry
acme = record { tenant_id = "acme"; api_key = "k1"; scim_key = "" }

abbrev globex : TenantEntry
globex = record { tenant_id = "globex"; api_key = "k2"; scim_key = "s2" }

other_keys : globex.api_key ≢ acme.api_key
other_keys = ==-false→ne "k2" "k1" refl

globex-named : globex.tenant_id ≢ ""
globex-named = ==-false→ne "globex" "" refl

abbrev sets : GoMap ℕ
sets = ("default", 0) ∷ ("acme", 1) ∷ ("globex", 2) ∷ []

abbrev tool : KeyCreateRequest
tool = record { label = "tool"; scopes = "read" ∷ [] }

abbrev tool_key : KeyCreateResponse
tool_key = record {
  id = "ak_01";
  label = "tool";
  key = "furn_ab";
  scopes = "read" ∷ [];
  created_at = 7;
}

abbrev tool_rows : List ApiKey
tool_rows = (create_api_key (λ s. s) 7 (ok "ab") "01" [] tool).0

create_api_key-revoked_example :
    let gone = (revoke tool_rows "ak_01" 9).0 in
    (admit "static" (some (get_by_hash tool_rows)) (λ s. s) "furn_ab" ≡ scoped ("read" ∷ []))
    × (admit "static"
          (some (get_by_hash (serve_all gone (use_call "ak_01" 11 ∷ []))))
          (λ s. s)
          "furn_ab"
        ≡ unauthorized)
unfolding create_api_key authpilot.Store.Sqlite.ApiKeys.create
create_api_key-revoked_example =
    create_api_key-revoked (λ s. s) 7 (ok "ab") "01" "static" [] tool_rows tool tool_key 9
      (use_call "ak_01" 11 ∷ []) refl (==-false→ne "furn_ab" "" refl)
      (==-false→ne "furn_ab" "static" refl)
