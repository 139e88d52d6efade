-- ===== src/Oidc/Mint.antt =====
-- `MintForUser` of server/internal/oidc/tokens.go, and `mintTokenHandler` of
-- server/internal/httpapi/router.go, which calls it: tokens for a user without a login.
use authpilot.Common.{ℕ, ◌-◌, String, not, ◌&&◌, List, ◌==◌, if◌then◌else◌, ltb}
use authpilot.Common.GoMap.{GoMap, insert}
use authpilot.Common.Int64.{is_positive, times}
use authpilot.Domain.{Value, str, arr, User}
use authpilot.Store.{Result, ok, err, not_found, CrudStore}
use authpilot.Personality.{Personality, apply, add_extra}
use authpilot.Oidc.{Duration, ahead, behind}
use authpilot.Oidc.Issue.{
  TokenConfig, Entropy, second, whole_seconds, texts, join, aud_claim, base_claims, insert_if,
  is_empty, apply_hasura_claims, if_included, then_,
}

pub record MintedTokens : Type 0 where
  pub access_token : String
  pub id_token : String
  pub expires_in : Duration

-- a 64-bit word as a span of time
abbrev pub span_of : ℕ → Duration
span_of w = if ltb w 0x8000000000000000 then ahead w else behind (0x10000000000000000 - w)

-- the lifetime that was asked for, in seconds, or else the server's
unfoldable pub mint_ttl : TokenConfig → ℕ → Duration
mint_ttl cfg expires_in =
    if is_positive expires_in then span_of (times expires_in second) else cfg.access_token_ttl

-- `accessClaims`
unfoldable pub mint_access_claims :
    ℕ → String → TokenConfig → Duration → String → List String → User → String → GoMap Value
mint_access_claims now issuer cfg ttl client_id scopes user jti =
    insert_if (cfg.include_scope && not (is_empty scopes)) "scope" (str (join scopes " ")) (
      insert_if cfg.include_jti "jti" (str jti)
        (base_claims now issuer ttl (aud_claim client_id cfg.aud_as_array) user))

-- `idClaims`
unfoldable pub mint_id_claims :
    ℕ → String → TokenConfig → Duration → String → User → String → GoMap Value
mint_id_claims now issuer cfg ttl client_id user jti =
    let base = base_claims now issuer ttl (aud_claim client_id cfg.aud_as_array) user in
    let named = insert "name" (str user.display_name) (insert "email" (str user.email) base) in
    let own =
      insert_if (not (is_empty user.groups)) "groups" (arr (texts user.groups))
        (insert_if cfg.include_jti "jti" (str jti) named) in
    apply_hasura_claims cfg.hasura_claims user (add_extra own user.claims)

-- `MintForUser`
unfoldable pub mint_for_user :
    Entropy
    → ℕ
    → String
    → TokenConfig
    → Personality
    → User
    → String
    → List String
    → ℕ
    → Result MintedTokens
mint_for_user random now issuer cfg p user client_id scopes expires_in =
    let ttl = mint_ttl cfg expires_in in
    then_ random.signer (λ sign.
      then_ (if_included cfg.include_jti random.access_jti) (λ access_jti.
        then_ (sign (mint_access_claims now issuer cfg ttl client_id scopes user access_jti))
          (λ access_token. then_ (if_included cfg.include_jti random.id_jti) (λ id_jti.
            then_ (sign (apply p (mint_id_claims now issuer cfg ttl client_id user id_jti)))
              (λ id_token. ok (record {
                access_token = access_token;
                id_token = id_token;
                expires_in = whole_seconds ttl;
              }))))))

-- the body of a request
pub record MintRequest : Type 0 where
  pub user_id : String
  pub client_id : String
  pub scopes : List String
  pub expires_in : ℕ

pub data MintReply : Type 0 where
  refused : (status : ℕ) (code : String) → MintReply
  minted : MintedTokens → MintReply

abbrev minted_reply : Result MintedTokens → MintReply
minted_reply (ok tokens) = minted tokens
minted_reply (err e) = refused 500 "INTERNAL_ERROR"

-- `mintTokenHandler`, with a minter and a body that can be read
unfoldable pub mint_token_handler :
    {US : Type 0}
    → CrudStore US User
    → Entropy
    → ℕ
    → String
    → TokenConfig
    → Personality
    → US
    → MintRequest
    → MintReply
unfolding mint_for_user
mint_token_handler users random now issuer cfg p us req =
    if req.user_id == ""
    then refused 400 "INVALID_REQUEST"
    else elim (users.get_by_id us req.user_id) [
      | err not_found ↦ refused 404 "RESOURCE_NOT_FOUND"
      | err _ ↦ refused 500 "INTERNAL_ERROR"
      | ok user ↦
          let seconds = if is_positive req.expires_in then req.expires_in else 3600 in
          minted_reply (mint_for_user random now issuer cfg p user req.client_id req.scopes seconds)
    ]
