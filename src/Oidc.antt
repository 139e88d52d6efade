-- ===== src/Oidc.antt =====
-- server/internal/oidc/router.go and pkce.go: the authorization code flow with PKCE, and the refresh
-- of tokens. The digests, the parsing of addresses and the issuer of one request are arguments.
pub mod Pkce
pub mod Endpoints
pub mod Grants
pub mod Codes
pub mod Rotation
pub mod Issue
pub mod IssueClaims
pub mod KeyLife
pub mod Userinfo
pub mod Answers
pub mod Introspection
pub mod Mint
pub mod MintLaws
pub mod Keys
mod Tests
mod IssueTests
mod TokenTests
use authpilot.Common.{
  ℕ, ◌+◌, ◌*◌, String, Bool, not, ◌&&◌, ◌||◌, Option, none, some, List, [], ◌∷◌, ◌++◌, ◌==◌,
  if◌then◌else◌, ltb,
}
use Prim.Native.String
use authpilot.Common.Text.{trim_space, fields}
use authpilot.Common.Decimal.{decimal}
use authpilot.Domain.{User, Flow, Session, zero_flow, zero_session}
use authpilot.Store.{Result}
use authpilot.Flow.{initiated, complete, normal}

-- a span of time that may be negative
pub data Duration : Type 0 where
  ahead behind : ℕ → Duration

pub record TokenSet : Type 0 where
  pub access_token : String
  pub token_type : String
  pub expires_in : Duration
  pub id_token : String
  pub refresh_token : String
  pub scope : String

-- What the issuer answers at one request; `issue true` is the issuer whose tokens have expired, and
-- `refresh_ttl` is the lifetime of a refresh token.
pub record Issuer : Type 0 where
  pub issue : Bool → Flow → User → Result TokenSet
  pub refresh_ttl : ℕ

-- what a handler writes
pub data Reply : Type 0 where
  -- `writeOAuthError`
  failed : (status : ℕ) (code description : String) → Reply
  -- `redirectWithError`, to an address that can be parsed
  error_redirect : (redirect_uri state code description : String) → Reply
  -- a redirect to the login page of a flow
  login_redirect : (flow_id : String) → Reply
  -- a redirect to the client with an auth code
  code_redirect : (redirect_uri code state : String) → Reply
  -- a set of tokens
  issued : TokenSet → Reply
  -- the use of a nil pointer
  panicked : Reply

-- the methods that differ from `S256` in the case of the letter only; `ſ` is a lower case of `S`
unfoldable pub is_s256 : String → Bool
is_s256 method = (method == "S256") || (method == "s256") || (method == "ſ256")

-- `VerifyPKCE`, with the base64 of the SHA-256 digest as `derive`: the text of the error, if any
unfoldable pub verify_pkce : (String → String) → String → String → String → Option String
verify_pkce derive challenge method verifier =
    if challenge == ""
    then some "pkce challenge is missing"
    else if verifier == ""
    then some "code_verifier is required"
    else if is_s256 method || (method == "")
    then (if derive verifier == challenge then none else some "pkce verification failed")
    else some "unsupported code_challenge_method (S256 required)"

unfoldable pub split_scope : String → List String
split_scope scope = if scope == "" then [] else fields scope

-- the parameters of a request to `/authorize`
pub record AuthorizeQuery : Type 0 where
  pub client_id : String
  pub redirect_uri : String
  pub response_type : String
  pub scope : String
  pub state : String
  pub nonce : String
  pub code_challenge : String
  pub code_challenge_method : String

-- `strings.TrimSpace` of each parameter
unfoldable pub trimmed : AuthorizeQuery → AuthorizeQuery
trimmed q = record {
  client_id = trim_space q.client_id;
  redirect_uri = trim_space q.redirect_uri;
  response_type = trim_space q.response_type;
  scope = trim_space q.scope;
  state = trim_space q.state;
  nonce = trim_space q.nonce;
  code_challenge = trim_space q.code_challenge;
  code_challenge_method = trim_space q.code_challenge_method;
}

-- 30 minutes, in nanoseconds
abbrev pub flow_lifetime : ℕ
flow_lifetime = 30 * 60 * 1000000000

-- the flow that `/authorize` creates
unfoldable pub new_flow : ℕ → AuthorizeQuery → Flow
unfolding split_scope
new_flow now q = record zero_flow {
  id = String.◌++◌ "flow_" (decimal now);
  state = initiated;
  scenario = normal;
  protocol = "oidc";
  client_id = q.client_id;
  redirect_uri = q.redirect_uri;
  scopes = split_scope q.scope;
  response_type = q.response_type;
  oauth_state = q.state;
  nonce = q.nonce;
  pkce_challenge = q.code_challenge;
  pkce_method = q.code_challenge_method;
  created_at = now;
  expires_at = now + flow_lifetime;
}

-- `redirectWithError`
unfoldable pub redirect_with_error : (String → Bool) → String → String → String → String → Reply
redirect_with_error parses redirect_uri state code description =
    if parses redirect_uri
    then error_redirect redirect_uri state code description
    else failed 400 code description

-- why `/authorize` turns a trimmed request away, if it does
unfoldable pub authorize_refusal : (String → Bool) → AuthorizeQuery → Option Reply
unfolding redirect_with_error
authorize_refusal parses q =
    let bounce = redirect_with_error parses q.redirect_uri q.state in
    if q.client_id == ""
    then some (failed 400 "invalid_request" "client_id is required")
    else if q.redirect_uri == ""
    then some (failed 400 "invalid_request" "redirect_uri is required")
    else if not (q.response_type == "code")
    then some (bounce "unsupported_response_type" "only 'code' is supported")
    else if q.code_challenge == ""
    then some (bounce "invalid_request" "code_challenge is required (PKCE mandatory)")
    else if not (q.code_challenge_method == "") && not (is_s256 q.code_challenge_method)
    then some
        (bounce "invalid_request" "code_challenge_method must be S256 (plain is not supported)")
    else none

-- why a redemption is refused once the code has found its flow, if it is
unfoldable pub grant_refusal : (String → String) → ℕ → Flow → String → String → Option String
grant_refusal derive now matched redirect_uri verifier =
    if not (matched.state == complete)
    then some "flow is not complete"
    else if ltb matched.expires_at now
    then some "authorization code expired"
    else if not (redirect_uri == "") && not (redirect_uri == matched.redirect_uri)
    then some "redirect_uri mismatch"
    else verify_pkce derive matched.pkce_challenge matched.pkce_method verifier

-- the session that is bound to the refresh token
unfoldable pub new_session : (String → String) → ℕ → Issuer → Flow → TokenSet → Session
new_session hash now issuer matched tokens = record zero_session {
  id = String.◌++◌ "sess_" (decimal now);
  user_id = matched.user_id;
  flow_id = matched.id;
  protocol = matched.protocol;
  client_id = matched.client_id;
  refresh_token = hash tokens.refresh_token;
  created_at = now;
  expires_at = now + issuer.refresh_ttl;
  events = record { timestamp = now; type = "token_issued"; details = "" } ∷ [];
}

-- the session after a refresh
unfoldable pub rotated : (String → String) → ℕ → Issuer → Session → TokenSet → Session
rotated hash now issuer session tokens = record session {
  refresh_token = hash tokens.refresh_token;
  expires_at = now + issuer.refresh_ttl;
  events = session.events ++ (record { timestamp = now; type = "refreshed"; details = "" } ∷ []);
}

-- the flow for which a refresh issues tokens
abbrev pub synthetic_flow : Session → Flow
synthetic_flow session = record zero_flow { user_id = session.user_id }

abbrev pub not_redeemed : Reply
not_redeemed = failed 400 "invalid_grant" "code not found or already redeemed"
