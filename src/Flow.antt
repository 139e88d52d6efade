-- ===== src/Flow.antt =====
-- server/internal/flow/state_machine.go: the states of a login flow, the transitions between them,
-- and the tests on scenarios and MFA methods. States and scenarios are texts, as in the source.
pub mod Transitions
pub mod Login
mod Tests
use authpilot.Common.{
  String, Bool, false, Option, none, some, List, [], ◌∷◌, ◌||◌, ◌==◌, if◌then◌else◌, contains,
}
use authpilot.Common.GoMap.{GoMap, lookup}

abbrev pub initiated : String
initiated = "initiated"

abbrev pub user_picked : String
user_picked = "user_picked"

abbrev pub mfa_pending : String
mfa_pending = "mfa_pending"

abbrev pub web_authn_pending : String
web_authn_pending = "webauthn_pending"

abbrev pub mfa_approved : String
mfa_approved = "mfa_approved"

abbrev pub mfa_denied : String
mfa_denied = "mfa_denied"

abbrev pub complete : String
complete = "complete"

abbrev pub error_state : String
error_state = "error"

abbrev pub normal : String
normal = "normal"

abbrev pub mfa_fail : String
mfa_fail = "mfa_fail"

abbrev pub account_locked : String
account_locked = "account_locked"

abbrev pub slow_mfa : String
slow_mfa = "slow_mfa"

abbrev pub expired_token : String
expired_token = "expired_token"

-- the inner maps are sets, here lists of their keys
abbrev pub valid_transitions : GoMap (List String)
valid_transitions =
    (initiated, user_picked ∷ error_state ∷ [])
    ∷ (user_picked, mfa_pending ∷ web_authn_pending ∷ complete ∷ error_state ∷ [])
    ∷ (mfa_pending, mfa_approved ∷ mfa_denied ∷ error_state ∷ [])
    ∷ (web_authn_pending, mfa_approved ∷ mfa_denied ∷ error_state ∷ [])
    ∷ (mfa_approved, complete ∷ [])
    ∷ (complete, [])
    ∷ (mfa_denied, [])
    ∷ (error_state, [])
    ∷ []

-- the second lookup of `CanTransition`, in the set that the first one gave
abbrev pub allows : Option (List String) → String → Bool
allows none to = false
allows (some transitions) to = contains transitions to

unfoldable pub can_transition : String → String → Bool
unfolding lookup
can_transition from to = allows (lookup from valid_transitions) to

unfoldable pub normalize_scenario : String → String
normalize_scenario value =
    if (value == mfa_fail)
      || (value == account_locked)
      || (value == slow_mfa)
      || (value == expired_token)
    then value
    else normal

unfoldable pub requires_mfa : String → Bool
requires_mfa method =
    (method == "totp")
    || (method == "push")
    || (method == "sms")
    || (method == "magic_link")
    || (method == "webauthn")

unfoldable pub is_web_authn : String → Bool
is_web_authn method = method == "webauthn"
