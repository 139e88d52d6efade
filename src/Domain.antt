-- ===== src/Domain.antt =====
-- server/internal/domain/models.go. A `time.Time` is a number of nanoseconds, and its zero value is
-- 0; a nil slice or map is the empty one; `*time.Time` is an `Option`.
pub mod Json
use authpilot.Common.{ℕ, String, Bool, false, Option, none, List, []}
use authpilot.Common.GoMap.{GoMap}

-- what an `any` of a claims or metadata map holds; numbers are natural
mutual
  pub data Value : Type 0 where
    null : Value
    bool : Bool → Value
    num : ℕ → Value
    str : String → Value
    arr : Values → Value
    obj : Fields → Value

  pub data Values : Type 0 where
    nil : Values
    cons : Value → Values → Values

  pub data Fields : Type 0 where
    end : Fields
    field : String → Value → Fields → Fields

pub record AuditEvent : Type 0 where
  pub id : String
  pub timestamp : ℕ
  pub event_type : String
  pub actor : String
  pub resource_id : String
  pub metadata : GoMap Value
  pub chain_hash : String

pub record User : Type 0 where
  pub id : String
  pub email : String
  pub display_name : String
  pub groups : List String
  pub mfa_method : String
  pub next_flow : String
  pub active : Bool
  pub claims : GoMap Value
  pub phone_number : String
  pub web_authn_credentials : String
  pub password_hash : String
  pub created_at : ℕ

pub record Group : Type 0 where
  pub id : String
  pub name : String
  pub display_name : String
  pub member_ids : List String
  pub created_at : ℕ

pub record Flow : Type 0 where
  pub id : String
  pub user_id : String
  pub state : String
  pub scenario : String
  pub attempts : ℕ
  pub error : String
  pub protocol : String
  pub created_at : ℕ
  pub expires_at : ℕ
  pub completed_at : Option ℕ
  pub client_id : String
  pub redirect_uri : String
  pub scopes : List String
  pub response_type : String
  pub oauth_state : String
  pub nonce : String
  pub pkce_challenge : String
  pub pkce_method : String
  pub auth_code : String
  pub totp_secret : String
  pub sms_code : String
  pub magic_link_token : String
  pub magic_link_used : Bool
  pub web_authn_challenge : String
  pub web_authn_session : String

pub record SessionEvent : Type 0 where
  pub timestamp : ℕ
  pub type : String
  pub details : String

pub record ScimEvent : Type 0 where
  pub id : String
  pub timestamp : ℕ
  pub method : String
  pub url : String
  pub request_body : String
  pub response_status : ℕ
  pub response_body : String
  pub error : String

pub record Policy : Type 0 where
  pub id : String
  pub name : String
  pub version : String
  pub content : String
  pub content_hash : String
  pub active : Bool
  pub created_at : ℕ
  pub activated_at : Option ℕ
  pub signature : String

pub record Admin : Type 0 where
  pub id : String
  pub username : String
  pub display_name : String
  pub password_hash : String
  pub active : Bool
  pub created_at : ℕ

pub record Session : Type 0 where
  pub id : String
  pub user_id : String
  pub flow_id : String
  pub protocol : String
  pub provider : String
  pub client_id : String
  pub events : List SessionEvent
  pub refresh_token : String
  pub created_at : ℕ
  pub expires_at : ℕ

-- Go's zero values, `domain.User{}` and the like
abbrev pub zero_audit_event : AuditEvent
zero_audit_event = record {
  id = "";
  timestamp = 0;
  event_type = "";
  actor = "";
  resource_id = "";
  metadata = [];
  chain_hash = "";
}

abbrev pub zero_user : User
zero_user = record {
  id = "";
  email = "";
  display_name = "";
  groups = [];
  mfa_method = "";
  next_flow = "";
  active = false;
  claims = [];
  phone_number = "";
  web_authn_credentials = "";
  password_hash = "";
  created_at = 0;
}

abbrev pub zero_group : Group
zero_group = record { id = ""; name = ""; display_name = ""; member_ids = []; created_at = 0 }

abbrev pub zero_flow : Flow
zero_flow = record {
  id = "";
  user_id = "";
  state = "";
  scenario = "";
  attempts = 0;
  error = "";
  protocol = "";
  created_at = 0;
  expires_at = 0;
  completed_at = none;
  client_id = "";
  redirect_uri = "";
  scopes = [];
  response_type = "";
  oauth_state = "";
  nonce = "";
  pkce_challenge = "";
  pkce_method = "";
  auth_code = "";
  totp_secret = "";
  sms_code = "";
  magic_link_token = "";
  magic_link_used = false;
  web_authn_challenge = "";
  web_authn_session = "";
}

abbrev pub zero_scim_event : ScimEvent
zero_scim_event = record {
  id = "";
  timestamp = 0;
  method = "";
  url = "";
  request_body = "";
  response_status = 0;
  response_body = "";
  error = "";
}

abbrev pub zero_admin : Admin
zero_admin = record {
  id = "";
  username = "";
  display_name = "";
  password_hash = "";
  active = false;
  created_at = 0;
}

abbrev pub zero_session : Session
zero_session = record {
  id = "";
  user_id = "";
  flow_id = "";
  protocol = "";
  provider = "";
  client_id = "";
  events = [];
  refresh_token = "";
  created_at = 0;
  expires_at = 0;
}

abbrev pub zero_policy : Policy
zero_policy = record {
  id = "";
  name = "";
  version = "";
  content = "";
  content_hash = "";
  active = false;
  created_at = 0;
  activated_at = none;
  signature = "";
}
