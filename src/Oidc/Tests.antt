-- ===== src/Oidc/Tests.antt =====
-- The theorems about the authorization code flow, at concrete requests over the in-memory stores.
use Prim.Native.String
use authpilot.Common.{
  ==-false→ne, ◌≤◌, ◌≡◌, ◌≢◌, refl, String, Bool, false, some, [], ◌∷◌, arith, ◌==◌, eq_iff,
  Bool-cases, inl, inr, sym, ◌∙◌, ap,
}
use authpilot.Common.GoMap.{lookup, values}
use authpilot.Common.Text.{trim_space}
use authpilot.Domain.{Flow, zero_flow, zero_user, Session, zero_session}
use authpilot.Store.{ok, err, not_found}
use authpilot.Store.Memory.Flows as Flows
use authpilot.Store.Memory.Users as Users
use authpilot.Store.Memory.Sessions as Sessions
use authpilot.Store.Memory.Redeem.{IsValid, HasUniqueCodes, cleared}
use authpilot.Flow.{complete}
use authpilot.Oidc.{
  ahead, Reply, TokenSet, Issuer, issued, failed, code_redirect, AuthorizeQuery, is_s256,
  verify_pkce, grant_refusal, rotated,
}
use authpilot.Oidc.Endpoints.{
  grant_matched, grant_user, handle_auth_code_grant, handle_refresh_grant, refresh_user,
}
use authpilot.Oidc.Grants.{grant, grant-issued, grant-once, IsGrantable, IsIssued}
use authpilot.Oidc.Codes.{finish, code-redeems, with_code, IsFresh}
use authpilot.Oidc.Rotation.{refresh, refresh-rotates, HasUniqueTokens, IsUnused}
use authpilot.Oidc.Rotation as Rotation

-- digests and hashes that tell texts apart
abbrev digest : String → String
digest s = String.◌++◌ "d-" s

abbrev query : AuthorizeQuery
query = record {
  client_id = "app";
  redirect_uri = "http://app/cb";
  response_type = "code";
  scope = "openid";
  state = "xyz";
  nonce = "";
  code_challenge = "d-secret";
  code_challenge_method = "S256";
}

abbrev parses : String → Bool
parses s = s == "http://app/cb"

abbrev secret : String
secret = "secret"

abbrev ended : Flow
ended = record zero_flow {
  id = "f1";
  user_id = "ada";
  state = complete;
  redirect_uri = "http://app/cb";
  oauth_state = "xyz";
  pkce_challenge = "d-secret";
  pkce_method = "S256";
  expires_at = 100;
}

abbrev coded : Flow
coded = with_code ended "abc"

abbrev flows : Flows.FlowStore
flows = record { flows = ("f1", coded) ∷ [] }

abbrev uncoded : Flows.FlowStore
uncoded = record { flows = ("f1", ended) ∷ [] }

abbrev users : Users.UserStore
users = record { users = ("ada", record zero_user { id = "ada" }) ∷ [] }

abbrev tokens : TokenSet
tokens = record {
  access_token = "a";
  token_type = "Bearer";
  expires_in = ahead 3600;
  id_token = "i";
  refresh_token = "r2";
  scope = "openid";
}

abbrev issuer : Issuer
issuer = record { issue = λ expired flow user. ok tokens; refresh_ttl = 50 }

flows-IsValid : IsValid flows
unfolding lookup
flows-IsValid = record { unique = (refl, tt); own_key = (refl, tt) }

uncoded-IsValid : IsValid uncoded
unfolding lookup
uncoded-IsValid = record { unique = (refl, tt); own_key = (refl, tt) }

-- a map of one entry has one key
one_key :
    {A : Type 0} (at k : String) (a b : A) → lookup k ((at, a) ∷ []) ≡ some b → (at ≡ k) × (a ≡ b)
unfolding lookup
one_key at k a b e = elim (Bool-cases (at == k)) [
  | inl hit ↦ ((eq_iff at k).0 hit, cc (rw hit at e))
  | inr miss ↦ cc (rw miss at e)
]

flows-HasUniqueCodes : HasUniqueCodes flows.flows
flows-HasUniqueCodes k j f g ek ej same given =
    sym (one_key "f1" k coded f ek).0 ∙ (one_key "f1" j coded g ej).0

abbrev run : Flows.FlowStore → String → Flows.FlowStore × Sessions.SessionStore × Reply
run fs code =
    grant Users.crud Sessions.session_store digest digest parses 60 61 issuer fs users Sessions.new
      code "http://app/cb" "secret"

grant-issued_example :
    (f : Flow) × (lookup f.id flows.flows ≡ some f)
    × (f.auth_code ≡ "abc")
    × IsGrantable digest 60 f "http://app/cb" "secret"
    × IsIssued Users.crud Sessions.session_store digest digest parses issuer users f tokens
    × (lookup f.id (run flows "abc").0.flows ≡ some (cleared f))
unfolding trim_space handle_auth_code_grant Flows.consume_auth_code grant_matched grant_refusal
    verify_pkce is_s256 grant_user Users.get_by_id lookup
grant-issued_example =
    grant-issued Users.crud Sessions.session_store digest digest parses 60 61 issuer flows users
      Sessions.new "abc" "http://app/cb" "secret" tokens flows-IsValid refl

abc-given : trim_space "abc" ≢ ""
unfolding trim_space
abc-given = ==-false→ne "abc" "" refl

grant-once_example :
    let fs' = (run flows "abc").0 in
    run fs' "abc"
    ≡ (fs', Sessions.new, failed 400 "invalid_grant" "code not found or already redeemed")
grant-once_example =
    grant-once Users.crud Sessions.session_store digest digest parses 60 61 60 61 issuer issuer
      flows users users Sessions.new Sessions.new "abc" "http://app/cb" "http://app/cb" "secret"
      "secret" flows-IsValid flows-HasUniqueCodes abc-given

f1-named : trim_space "f1" ≢ ""
unfolding trim_space
f1-named = ==-false→ne "f1" "" refl

addressed : ended.redirect_uri ≢ ""
addressed = ==-false→ne "http://app/cb" "" refl

uncoded-IsFresh : IsFresh uncoded "abc"
uncoded-IsFresh k g e bad =
    ==-false→ne "" "abc" refl (ap (λ (x : Flow). x.auth_code) (one_key "f1" k ended g e).1 ∙ bad)

abc-nonempty : coded.auth_code ≢ ""
abc-nonempty = ==-false→ne "abc" "" refl

code-redeems_example :
    let (fs', reply) =
      finish Users.crud Sessions.session_store digest digest parses uncoded "f1" (ok "abc") in
    (reply ≡ code_redirect "http://app/cb" "abc" "xyz") × ((run fs' "abc").2 ≡ issued tokens)
unfolding trim_space lookup verify_pkce is_s256 Users.get_by_id Users.clone_user
code-redeems_example =
    code-redeems Users.crud Sessions.session_store digest digest parses 60 61 issuer uncoded users
      Sessions.new "f1" "abc" "http://app/cb" "secret" ended (record zero_user { id = "ada" })
      tokens uncoded-IsValid f1-named refl refl addressed refl uncoded-IsFresh abc-nonempty refl
      refl (omega arith) refl refl refl

abbrev refuses_all : String → Bool
refuses_all s = false

abbrev session : Session
session = record zero_session {
  id = "s1";
  user_id = "ada";
  refresh_token = "d-r1";
  expires_at = 100;
}

abbrev sessions : Sessions.SessionStore
sessions = record { sessions = ("s1", session) ∷ [] }

sessions-IsValid : Rotation.IsValid sessions
unfolding lookup
sessions-IsValid = record { unique = (refl, tt); own_key = (refl, tt) }

sessions-HasUniqueTokens : HasUniqueTokens sessions
sessions-HasUniqueTokens k j v w ek ej same =
    sym (one_key "s1" k session v ek).0 ∙ (one_key "s1" j session w ej).0

sessions-IsUnused : IsUnused sessions "d-r2"
sessions-IsUnused k v e bad =
    ==-false→ne "d-r1" "d-r2" refl
      (ap (λ (x : Session). x.refresh_token) (one_key "s1" k session v e).1 ∙ bad)

refresh-rotates_example :
    let ss' =
      (refresh Flows.flow_store Users.crud digest digest parses 60 61 issuer users sessions
        "r1").0 in
    (old : Session) × (Sessions.get_by_refresh_token sessions "d-r1" ≡ ok old)
    × (60 ≤ old.expires_at)
    × (Sessions.get_by_refresh_token ss' "d-r1" ≡ err not_found)
    × (Sessions.get_by_refresh_token ss' "d-r2" ≡ ok (rotated digest 61 issuer old tokens))
unfolding trim_space handle_refresh_grant Sessions.get_by_refresh_token Users.get_by_id lookup
    refresh_user values
refresh-rotates_example =
    refresh-rotates Flows.flow_store Users.crud digest digest parses 60 61 issuer users sessions
      "r1" tokens sessions-IsValid sessions-HasUniqueTokens sessions-IsUnused refl
