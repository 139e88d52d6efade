-- ===== src/Flow/Tests.antt =====
-- The theorems about the login flows, over the in-memory stores.
use authpilot.Common.Text.{trim_space}
use authpilot.Common.{==-false→ne, ◌≡◌, ◌≢◌, refl, some, List, [], ◌∷◌}
use authpilot.Common.GoMap.{lookup}
use authpilot.Domain.{Flow, zero_flow, User, zero_user}
use authpilot.Store.Memory.Flows.{FlowStore, flow_store, get_by_id}
use authpilot.Store.Memory.Users
use authpilot.Store.Memory.Crud.{flows-IsCrud}
use authpilot.Store.Memory.Redeem.{IsValid}
use authpilot.Flow.{initiated, mfa_pending, complete, mfa_fail, slow_mfa}
use authpilot.Flow.Login.{apply_verify_mfa, login_mfa}
use authpilot.Flow.Login.Progress.{apply_verify_mfa-complete}
use authpilot.Store.{ok}
use authpilot.Flow.Login.Effects.{Reach}
use authpilot.Flow.Login.Safety.{
  Request, select_user, verify, login_page, serve_all, serve_all-Reach, serve_all-terminal,
}

abbrev fresh : Flow
fresh = record zero_flow { id = "f1"; state = initiated; created_at = 5 }

abbrev ended : Flow
ended = record zero_flow { id = "f2"; state = complete }

abbrev failing : Flow
failing = record zero_flow { id = "f3"; state = mfa_pending; scenario = mfa_fail }

abbrev slow : Flow
slow = record zero_flow { id = "f4"; state = mfa_pending; scenario = slow_mfa; created_at = 5 }

abbrev ada : User
ada = record zero_user { id = "ada"; mfa_method = "webauthn" }

abbrev flows : FlowStore
flows = record { flows = ("f1", fresh) ∷ ("f2", ended) ∷ ("f3", failing) ∷ ("f4", slow) ∷ [] }

abbrev users : Users.UserStore
users = record { users = ("ada", ada) ∷ [] }

flows-IsValid : IsValid flows
unfolding lookup
flows-IsValid = record {
  unique = (refl, (refl, (refl, (refl, tt))));
  own_key = (refl, (refl, (refl, (refl, tt))));
}

abbrev requests : List Request
requests = select_user 7 "f1" "ada" "" ∷ verify "f3" "123" "" ∷ login_page 9 9 "f2" ∷ []

serve_all-Reach_example :
    (g : Flow) × (lookup "f1" (serve_all flow_store Users.crud (flows, users) requests).0.flows
      ≡ some g)
    × Reach initiated g.state
unfolding lookup
serve_all-Reach_example =
    serve_all-Reach flow_store Users.crud _ _ flows-IsCrud flows users requests "f1" fresh
      flows-IsValid refl

serve_all-terminal_example :
    (g : Flow) × (lookup "f2" (serve_all flow_store Users.crud (flows, users) requests).0.flows
      ≡ some g)
    × (g.state ≡ complete)
unfolding lookup
serve_all-terminal_example =
    serve_all-terminal flow_store Users.crud _ _ flows-IsCrud flows users requests "f2" ended
      flows-IsValid refl refl

failing-named : failing.id ≢ ""
failing-named = ==-false→ne "f3" "" refl

code-given : trim_space "123" ≢ ""
unfolding trim_space
code-given = ==-false→ne "123" "" refl

apply_verify_mfa-complete_example :
    let (fs₁, us₁, out₁) = apply_verify_mfa flow_store Users.crud flows users "f3" "123" "" in
    let (fs₂, us₂, out₂) = apply_verify_mfa flow_store Users.crud fs₁ us₁ "f3" "123" "" in
    let (fs₃, shown) = login_mfa flow_store Users.crud 9 9 fs₂ "f3" in
    (done : Flow) × (done.state ≡ complete) × (get_by_id fs₃ "f3" ≡ ok done) × (shown ≡ ok done)
unfolding lookup get_by_id
apply_verify_mfa-complete_example =
    apply_verify_mfa-complete flow_store Users.crud _ _ flows-IsCrud flows users "f3" "123" failing
      9 9 flows-IsValid refl refl failing-named code-given
