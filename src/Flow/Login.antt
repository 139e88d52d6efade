-- ===== src/Flow/Login.antt =====
-- server/internal/httpapi/flow_login.go: what the login handlers do to the flows and the users, over
-- any stores of the interfaces. `now` is what the clock reads; a Go result of a flow, a status, a
-- code and a message is an `Outcome`.
pub mod Effects
pub mod Safety
pub mod Scenarios
pub mod Mfa
pub mod Progress
use authpilot.Common.{
  ℕ, ◌+◌, ◌-◌, ◌*◌, String, Bool, true, false, not, ◌&&◌, ◌||◌, Option, none, some, ◌==◌,
  if◌then◌else◌, ltb, leb, eqb,
}
use authpilot.Common.Text.{trim_space}
use authpilot.Domain.{User, Flow, zero_flow}
use authpilot.Store.{Result, ok, err, message, CrudStore, FlowStore}
use authpilot.Flow.{
  user_picked, mfa_pending, web_authn_pending, mfa_approved, mfa_denied, complete, error_state,
  normal, mfa_fail, account_locked, slow_mfa, can_transition, normalize_scenario, requires_mfa,
  is_web_authn,
}

pub record Outcome : Type 0 where
  pub flow : Flow
  pub status : ℕ
  pub code : String
  pub msg : String

-- `return updated, 0, "", ""`
abbrev pub accepted : Flow → Outcome
accepted flow = record { flow = flow; status = 0; code = ""; msg = "" }

-- `return domain.Flow{}, status, code, msg`
abbrev pub refused : ℕ → String → String → Outcome
refused status code msg = record { flow = zero_flow; status = status; code = code; msg = msg }

abbrev pub invalid_transition : Outcome
invalid_transition = refused 409 "STATE_TRANSITION_INVALID" "invalid flow transition"

abbrev pub unexpected_state : Outcome
unexpected_state =
    refused 409 "STATE_TRANSITION_INVALID" "current state does not match expected_state"

abbrev pub not_awaiting : Outcome
not_awaiting = refused 409 "STATE_TRANSITION_INVALID" "flow is not awaiting MFA"

abbrev pub flow_not_found : Outcome
flow_not_found = refused 404 "not_found" "flow not found"

-- 10 seconds, in nanoseconds
abbrev pub slow_delay : ℕ
slow_delay = 10 * 1000000000

-- `expectedState != "" && flow.State != expectedState`
abbrev pub differs : String → String → Bool
differs expected state = not (expected == "") && not (state == expected)

abbrev pub is_terminal : String → Bool
is_terminal state = (state == complete) || (state == mfa_denied) || (state == error_state)

abbrev stamp : ℕ → Option ℕ → Option ℕ
stamp now none = some now
stamp now (some t) = some t

-- `markTerminal`
unfoldable pub mark_terminal : ℕ → Flow → Flow
mark_terminal now flow =
    if is_terminal flow.state
    then record flow { completed_at = stamp now flow.completed_at }
    else flow

module _ {FS US : Type 0} (flows : FlowStore FS) (users : CrudStore US User) where
  -- `updated, err := flows.Update(flow); if err != nil { … }; return updated, 0, "", ""`
  unfoldable pub save : FS → Flow → FS × Outcome
  save fs flow =
      let (fs', updated) = flows.crud.update fs flow in
      elim updated [
        | ok u ↦ (fs', accepted u)
        | err e ↦ (fs', refused 500 "update_flow_failed" (message e))
      ]

  -- `if _, err := flows.Update(flow); err != nil { … }; return domain.Flow{}, …`
  unfoldable pub save_then : FS → Flow → Outcome → FS × Outcome
  save_then fs flow outcome =
      let (fs', updated) = flows.crud.update fs flow in
      elim updated [
        | ok u ↦ (fs', outcome)
        | err e ↦ (fs', refused 500 "update_flow_failed" (message e))
      ]

  -- `user.NextFlow = "normal"; _, _ = users.Update(user)`
  unfoldable pub reset_next_flow : US → User → US
  reset_next_flow us user = (users.update us (record user { next_flow = normal })).0

  -- `applySelectUser`, from where the flow and the user are known and the flow can take a user
  unfoldable pub select_known : ℕ → FS → US → Flow → User → String → FS × US × Outcome
  select_known now fs us flow₀ user user_id =
      let flow = record flow₀ {
        user_id = user_id;
        state = user_picked;
        scenario = normalize_scenario user.next_flow;
        error = "";
      } in
      let scenario = normalize_scenario flow.scenario in
      let locked =
        save fs
          (mark_terminal now (record flow { state = error_state; error = "account locked" })) in
      let next_state = if is_web_authn user.mfa_method then web_authn_pending else mfa_pending in
      let asked = save fs (record flow { state = next_state }) in
      let us' = if scenario == normal then us else reset_next_flow us user in
      let done = save fs (mark_terminal now (record flow { state = complete })) in
      if scenario == account_locked
      then (if can_transition flow.state error_state
          then (locked.0, us, locked.1)
          else (fs, us, invalid_transition))
      else if requires_mfa user.mfa_method
      then (if can_transition flow.state next_state
          then (asked.0, us, asked.1)
          else (fs, us, invalid_transition))
      else if can_transition flow.state complete
      then (done.0, us', done.1)
      else (fs, us, invalid_transition)

  -- `applySelectUser`
  unfoldable pub apply_select_user : ℕ → FS → US → String → String → String → FS × US × Outcome
  apply_select_user now fs us flow_id user_id expected_state =
      if (flow_id == "") || (user_id == "")
      then (fs, us, refused 400 "validation_error" "flow_id and user_id are required")
      else elim (flows.crud.get_by_id fs flow_id) [
        | err _ ↦ (fs, us, flow_not_found)
        | ok flow ↦
            if differs expected_state flow.state
            then (fs, us, unexpected_state)
            else if can_transition flow.state user_picked
            then elim (users.get_by_id us user_id) [
              | err _ ↦ (fs, us, refused 404 "not_found" "user not found")
              | ok user ↦ select_known now fs us flow user user_id
            ]
            else (fs, us, invalid_transition)
      ]

  -- the end of `applyVerifyMFA` and `approveOrDenyFlow`: after a flow was saved as approved, the
  -- user's scenario is used up
  unfoldable pub use_up : FS × Outcome → String → US → FS × US × Outcome
  use_up (fs, outcome) scenario us =
      let us' : US = elim (users.get_by_id us outcome.flow.user_id) [
        | err _ ↦ us
        | ok user ↦ if scenario == normal then us else reset_next_flow us user
      ] in
      (fs, if eqb outcome.status 0 then us' else us, outcome)

  -- `applyVerifyMFA`, from where the flow is known to wait for a code
  unfoldable pub verify_pending : FS → US → Flow → String → FS × US × Outcome
  verify_pending fs us flow₀ code =
      let flow = record flow₀ { attempts = flow₀.attempts + 1 } in
      let scenario = normalize_scenario flow.scenario in
      let failed = save_then fs flow (refused 401 "mfa_code_invalid" "invalid MFA code") in
      let empty = save_then fs flow (refused 400 "validation_error" "code is required") in
      if (scenario == mfa_fail) && eqb flow.attempts 1
      then (failed.0, us, failed.1)
      else if trim_space code == ""
      then (empty.0, us, empty.1)
      else if can_transition flow.state mfa_approved
      then use_up (save fs (record flow { state = mfa_approved })) scenario us
      else (fs, us, invalid_transition)

  -- `applyVerifyMFA`
  unfoldable pub apply_verify_mfa : FS → US → String → String → String → FS × US × Outcome
  apply_verify_mfa fs us flow_id code expected_state =
      if flow_id == ""
      then (fs, us, refused 400 "validation_error" "flow_id is required")
      else elim (flows.crud.get_by_id fs flow_id) [
        | err _ ↦ (fs, us, flow_not_found)
        | ok flow ↦
            if differs expected_state flow.state
            then (fs, us, unexpected_state)
            else if flow.state == mfa_pending
            then verify_pending fs us flow code
            else (fs, us, not_awaiting)
      ]

  -- `approveOrDenyFlow`, from where the flow is known to wait, with `approve` true
  unfoldable pub approve_pending : ℕ → FS → US → Flow → FS × US × Outcome
  approve_pending now fs us flow =
      let saved = save fs (record flow { state = mfa_approved }) in
      if (normalize_scenario flow.scenario == slow_mfa) && ltb (now - flow.created_at) slow_delay
      then (
        fs,
        us,
        record {
          flow = flow;
          status = 202;
          code = "mfa_pending";
          msg = "waiting for slow_mfa delay";
        },
      )
      else if can_transition flow.state mfa_approved
      then use_up saved (normalize_scenario saved.1.flow.scenario) us
      else (fs, us, invalid_transition)

  -- the same with `approve` false
  unfoldable pub deny_pending : ℕ → FS → US → Flow → FS × US × Outcome
  deny_pending now fs us flow =
      let denied = save fs (mark_terminal now (record flow { state = mfa_denied })) in
      if can_transition flow.state mfa_denied
      then (denied.0, us, denied.1)
      else (fs, us, invalid_transition)

  -- `approveOrDenyFlow`
  unfoldable pub approve_or_deny_flow : ℕ → FS → US → String → Bool → String → FS × US × Outcome
  approve_or_deny_flow now fs us flow_id approve expected_state =
      elim (flows.crud.get_by_id fs flow_id) [
        | err _ ↦ (fs, us, flow_not_found)
        | ok flow ↦
            if differs expected_state flow.state
            then (fs, us, unexpected_state)
            else if flow.state == mfa_pending
            then (if approve then approve_pending now fs us flow else deny_pending now fs us flow)
            else (fs, us, not_awaiting)
      ]

  -- what the update gave back, or, where it failed, the flow that was to be written
  abbrev pub or_as_read : Flow → FS × Result Flow → FS × Result Flow
  or_as_read flow (fs, ok updated) = (fs, ok updated)
  or_as_read flow (fs, err _) = (fs, ok flow)

  -- `getAndAutoAdvanceFlow`
  unfoldable pub get_and_auto_advance_flow : ℕ → FS → String → FS × Result Flow
  get_and_auto_advance_flow now fs flow_id = elim (flows.crud.get_by_id fs flow_id) [
    | err e ↦ (fs, err e)
    | ok flow ↦
        let approved = record flow { state = mfa_approved } in
        let saved = flows.crud.update fs approved in
        if (flow.state == mfa_pending)
          && (normalize_scenario flow.scenario == slow_mfa)
          && leb slow_delay (now - flow.created_at)
          && can_transition flow.state mfa_approved
        then or_as_read approved saved
        else (fs, ok flow)
  ]

  -- `moveToComplete`
  unfoldable pub move_to_complete : ℕ → FS → Flow → FS × Flow × Bool
  move_to_complete now fs flow =
      let done = mark_terminal now (record flow { state = complete }) in
      let (fs', updated) = flows.crud.update fs done in
      let saved : FS × Flow × Bool = elim updated [
        | ok u ↦ (fs', u, true)
        | err _ ↦ (fs', done, false)
      ] in
      if can_transition flow.state complete then saved else (fs, flow, false)

  -- `loginMFAHandler`, as far as it touches the flows: the flow that the page shows
  unfoldable pub login_mfa : ℕ → ℕ → FS → String → FS × Result Flow
  login_mfa now later fs flow_id =
      let (fs', read) = get_and_auto_advance_flow now fs flow_id in
      elim read [
        | err e ↦ (fs', err e)
        | ok flow ↦
            let (fs'', moved, done) = move_to_complete later fs' flow in
            if flow.state == mfa_approved
            then (fs'', ok (if done then moved else flow))
            else (fs', ok flow)
      ]
