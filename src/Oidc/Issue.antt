-- ===== src/Oidc/Issue.antt =====
-- server/internal/oidc/tokens.go: the claims of the tokens, and their issue. The signer and what
-- `randomID` gives are arguments.
use Prim.Native.String
use authpilot.Common.{
  ℕ, ◌+◌, ◌-◌, ◌/◌, String, Bool, true, false, not, Option, some, List, [], ◌∷◌, ◌==◌,
  if◌then◌else◌,
}
use authpilot.Common.GoMap.{GoMap, lookup, insert}
use authpilot.Domain.{Value, Values, Fields, num, str, arr, obj, nil, cons, end, field, User, Flow}
use authpilot.Store.{Result, ok, err}
use authpilot.Personality.{Personality, apply, add_extra, default_personality}
use authpilot.Oidc.{Duration, ahead, behind, TokenSet, Issuer}

pub record HasuraClaimsConfig : Type 0 where
  pub enabled : Bool
  pub namespace : String
  pub default_role : String
  pub allowed_roles : List String

pub record TokenConfig : Type 0 where
  pub access_token_ttl : Duration
  pub id_token_ttl : Duration
  pub refresh_token_ttl : ℕ
  pub include_jti : Bool
  pub aud_as_array : Bool
  pub include_scope : Bool
  pub hasura_claims : HasuraClaimsConfig

abbrev pub second : ℕ
second = 1000000000

-- `now.Add(ttl).Unix()`
unfoldable pub expiry : ℕ → Duration → ℕ
expiry now (ahead d) = (now + d) / second
expiry now (behind d) = (now - d) / second

-- `int(ttl.Seconds())`
unfoldable pub whole_seconds : Duration → Duration
whole_seconds (ahead d) = ahead (d / second)
whole_seconds (behind d) = behind (d / second)

-- a slice of texts, as a claim
abbrev pub texts : List String → Values
texts [] = nil
texts (s ∷ ss) = cons (str s) (texts ss)

-- `strings.Join`
unfoldable pub join : List String → String → String
join [] between = ""
join (s ∷ []) between = s
join (s ∷ t ∷ ss) between = String.◌++◌ (String.◌++◌ s between) (join (t ∷ ss) between)

unfoldable pub aud_claim : String → Bool → Value
aud_claim client_id as_array = if as_array then arr (cons (str client_id) nil) else str client_id

-- the claims that both tokens begin with
unfoldable pub base_claims : ℕ → String → Duration → Value → User → GoMap Value
base_claims now issuer ttl aud user =
    ("iss", str issuer)
    ∷ ("sub", str user.id)
    ∷ ("aud", aud)
    ∷ ("iat", num (now / second))
    ∷ ("exp", num (expiry now ttl))
    ∷ []

abbrev pub insert_if : Bool → String → Value → GoMap Value → GoMap Value
insert_if b k v m = if b then insert k v m else m

-- `accessClaims`
unfoldable pub access_claims : ℕ → String → TokenConfig → Flow → User → String → GoMap Value
access_claims now issuer cfg flow user jti =
    insert_if cfg.include_scope "scope" (str (join flow.scopes " ")) (
      insert_if cfg.include_jti "jti" (str jti) (
        base_claims now issuer cfg.access_token_ttl (aud_claim flow.client_id cfg.aud_as_array)
          user))

abbrev pub is_empty : List String → Bool
is_empty [] = true
is_empty (s ∷ ss) = false

-- `idClaims`, before the user's own claims
unfoldable pub standard_claims : ℕ → String → TokenConfig → Flow → User → String → GoMap Value
standard_claims now issuer cfg flow user jti =
    insert_if (not (is_empty user.groups)) "groups" (arr (texts user.groups)) (
      insert_if (not (flow.nonce == "")) "nonce" (str flow.nonce) (
        insert_if cfg.include_jti "jti" (str jti) (
          insert "name" (str user.display_name) (
            insert "email" (str user.email) (
              base_claims now issuer cfg.id_token_ttl (aud_claim flow.client_id cfg.aud_as_array)
                user)))))

abbrev pub or_default_namespace : String → String
or_default_namespace ns = if ns == "" then "https://hasura.io/jwt/claims" else ns

abbrev pub first_or : String → List String → String
first_or role [] = role
first_or role (r ∷ roles) = if role == "" then r else role

-- the organisation in the user's own claims, if it is a text that is not empty
abbrev pub with_org : Option Value → Fields → Fields
with_org (some (str org_id)) fs =
    if org_id == "" then fs else field "x-hasura-org-id" (str org_id) fs
with_org _ fs = fs

-- `applyHasuraClaims`
unfoldable pub apply_hasura_claims : HasuraClaimsConfig → User → GoMap Value → GoMap Value
apply_hasura_claims cfg user claims =
    let roles = if is_empty cfg.allowed_roles then user.groups else cfg.allowed_roles in
    let hasura = field "x-hasura-default-role" (str (first_or cfg.default_role roles)) (
      field "x-hasura-allowed-roles" (arr (texts roles))
        (field "x-hasura-user-id" (str user.id) (with_org (lookup "org_id" user.claims) end))) in
    if cfg.enabled then insert (or_default_namespace cfg.namespace) (obj hasura) claims else claims

-- `idClaims`; the loop that adds the user's own claims is the one that adds a personality's
unfoldable pub id_claims : ℕ → String → TokenConfig → Flow → User → String → GoMap Value
id_claims now issuer cfg flow user jti =
    apply_hasura_claims cfg.hasura_claims user
      (add_extra (standard_claims now issuer cfg flow user jti) user.claims)

-- what the requests of randomness and the signing of one call of `Issue` give
pub record Entropy : Type 0 where
  pub signer : Result (GoMap Value → Result String)
  pub access_jti : Result String
  pub id_jti : Result String
  pub refresh_token : Result String

-- `if cfg.IncludeJTI { jti, err := randomID(16); … }`
abbrev pub if_included : Bool → Result String → Result String
if_included b random = if b then random else ok ""

unfoldable pub then_ : {A B : Type 0} → Result A → (A → Result B) → Result B
then_ (ok a) f = f a
then_ (err e) f = err e

-- `Issue`
unfoldable pub issue :
    Entropy → ℕ → String → TokenConfig → Personality → Flow → User → Result TokenSet
issue random now issuer cfg p flow user = then_ random.signer (λ sign.
    then_ (if_included cfg.include_jti random.access_jti) (λ access_jti.
      then_ (sign (access_claims now issuer cfg flow user access_jti)) (λ access_token.
        then_ (if_included cfg.include_jti random.id_jti) (λ id_jti.
          then_ (sign (apply p (id_claims now issuer cfg flow user id_jti))) (λ id_token.
            then_ random.refresh_token (λ refresh_token. ok (record {
              access_token = access_token;
              token_type = "Bearer";
              expires_in = whole_seconds cfg.access_token_ttl;
              id_token = id_token;
              refresh_token = refresh_token;
              scope = join flow.scopes " ";
            })))))))

-- the configuration of the issuer whose tokens have expired: the zero value but for the lifetimes
abbrev pub expired_config : TokenConfig → TokenConfig
expired_config cfg = record {
  access_token_ttl = behind second;
  id_token_ttl = behind second;
  refresh_token_ttl = cfg.refresh_token_ttl;
  include_jti = false;
  aud_as_array = false;
  include_scope = false;
  hasura_claims = record { enabled = false; namespace = ""; default_role = ""; allowed_roles = [] };
}

-- the issuer of one request
unfoldable pub issuer_of : Entropy → ℕ → String → TokenConfig → Personality → Issuer
issuer_of random now url cfg p = record {
  issue = λ expired flow user.
      if expired
      then issue random now url (expired_config cfg) default_personality flow user
      else issue random now url cfg p flow user;
  refresh_ttl = cfg.refresh_token_ttl;
}
