-- ===== src/Oidc/Endpoints.antt =====
-- server/internal/oidc/router.go: the handlers of `/authorize`, `/authorize/complete` and the token
-- endpoint, over any stores.
use authpilot.Common.{ℕ, String, Bool, false, not, none, some, ◌==◌, if◌then◌else◌, ltb}
use authpilot.Common.Text.{trim_space}
use authpilot.Domain.{User, Flow, Session}
use authpilot.Store.{Result, ok, err, CrudStore, FlowStore, SessionStore}
use authpilot.Flow.{complete, expired_token, normalize_scenario}
use authpilot.Oidc.{
  Issuer, Reply, failed, login_redirect, code_redirect, issued, panicked, not_redeemed,
  AuthorizeQuery, trimmed, new_flow, authorize_refusal, grant_refusal, new_session, rotated,
  synthetic_flow,
}

module _ {FS US SS : Type 0} (flows : FlowStore FS) (users : CrudStore US User)
    (sessions : SessionStore SS) (derive hash : String → String) (parses : String → Bool) where
  -- `authorizeHandler`
  unfoldable pub authorize : ℕ → FS → AuthorizeQuery → FS × Reply
  authorize now fs query =
      let q = trimmed query in
      let (fs', created) = flows.crud.create fs (new_flow now q) in
      elim (authorize_refusal parses q) [
        | some reply ↦ (fs, reply)
        | none ↦ (
          fs',
          elim created [
            | ok flow ↦ login_redirect flow.id
            | err _ ↦ failed 500 "server_error" "failed to create flow"
          ],
        )
      ]

  -- the redirect of a flow that holds its code; `url.Parse` gives nil for an address it refuses
  unfoldable pub redirect_with_code : Flow → Reply
  redirect_with_code flow =
      if parses flow.redirect_uri
      then code_redirect flow.redirect_uri flow.auth_code flow.oauth_state
      else panicked

  -- `authorizeCompleteHandler`, from where the flow is known and complete
  unfoldable pub give_code : FS → Flow → Result String → FS × Reply
  give_code fs flow (err _) = (fs, failed 500 "server_error" "failed to generate auth code")
  give_code fs flow (ok code) =
      let coded = record flow { auth_code = code } in
      let (fs', updated) = flows.crud.update fs coded in
      (
        fs',
        elim updated [
          | ok _ ↦ redirect_with_code coded
          | err _ ↦ failed 500 "server_error" "failed to store auth code"
        ],
      )

  -- `authorizeCompleteHandler`; `random` is what `randomID(16)` gives
  unfoldable pub authorize_complete : FS → String → Result String → FS × Reply
  authorize_complete fs id random =
      let flow_id = trim_space id in
      if flow_id == ""
      then (fs, failed 400 "invalid_request" "flow_id is required")
      else elim (flows.crud.get_by_id fs flow_id) [
        | err _ ↦ (fs, failed 404 "invalid_request" "flow not found")
        | ok flow ↦
            if not (flow.state == complete)
            then (fs, failed 409 "invalid_request" "flow is not complete")
            else if flow.redirect_uri == ""
            then (fs, failed 400 "invalid_request" "flow has no redirect_uri (not an OIDC flow)")
            else give_code fs flow random
      ]

  -- `handleAuthCodeGrant`, from where the user of the flow is known
  unfoldable pub grant_user : ℕ → Issuer → SS → Flow → User → SS × Reply
  grant_user later issuer ss matched user =
      let expired = normalize_scenario matched.scenario == expired_token in
      elim (issuer.issue expired matched user) [
        | err _ ↦ (ss, failed 500 "server_error" "token issuance failed")
        | ok tokens ↦ (
          (sessions.crud.create ss (new_session hash later issuer matched tokens)).0,
          issued tokens,
        )
      ]

  -- the same, from where the code was redeemed
  unfoldable pub grant_matched : ℕ → ℕ → Issuer → US → SS → Flow → String → String → SS × Reply
  grant_matched now later issuer us ss matched redirect_uri verifier =
      elim (grant_refusal derive now matched redirect_uri verifier) [
        | some reason ↦ (ss, failed 400 "invalid_grant" reason)
        | none ↦ elim (users.get_by_id us matched.user_id) [
          | err _ ↦ (ss, failed 500 "server_error" "user not found")
          | ok user ↦ grant_user later issuer ss matched user
        ]
      ]

  -- `handleAuthCodeGrant`, at the time `now`, and `later` where it records the session
  unfoldable pub handle_auth_code_grant :
      ℕ → ℕ → Issuer → FS → US → SS → String → String → String → FS × SS × Reply
  handle_auth_code_grant now later issuer fs us ss code_value redirect_value verifier_value =
      let code = trim_space code_value in
      let (fs', consumed) = flows.consume_auth_code fs code in
      if code == ""
      then (fs, ss, failed 400 "invalid_request" "code is required")
      else elim consumed [
        | err _ ↦ (fs', ss, not_redeemed)
        | ok matched ↦
            let (ss', reply) =
              grant_matched now later issuer us ss matched (trim_space redirect_value)
                (trim_space verifier_value) in
            (fs', ss', reply)
      ]

  -- `handleRefreshGrant`, from where the session and the user are known
  unfoldable pub refresh_user : ℕ → Issuer → SS → Session → User → SS × Reply
  refresh_user later issuer ss session user =
      elim (issuer.issue false (synthetic_flow session) user) [
        | err _ ↦ (ss, failed 500 "server_error" "token issuance failed")
        | ok tokens ↦
            ((sessions.crud.update ss (rotated hash later issuer session tokens)).0, issued tokens)
      ]

  -- `handleRefreshGrant`
  unfoldable pub handle_refresh_grant : ℕ → ℕ → Issuer → US → SS → String → SS × Reply
  handle_refresh_grant now later issuer us ss token_value =
      let token = trim_space token_value in
      if token == ""
      then (ss, failed 400 "invalid_request" "refresh_token is required")
      else elim (sessions.get_by_refresh_token ss (hash token)) [
        | err _ ↦ (ss, failed 400 "invalid_grant" "refresh token not found or already rotated")
        | ok session ↦
            if ltb session.expires_at now
            then (
              (sessions.crud.delete ss session.id).0,
              failed 400 "invalid_grant" "refresh token expired",
            )
            else elim (users.get_by_id us session.user_id) [
              | err _ ↦ (ss, failed 500 "server_error" "user not found")
              | ok user ↦ refresh_user later issuer ss session user
            ]
      ]
