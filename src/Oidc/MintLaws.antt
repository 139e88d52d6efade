-- ===== src/Oidc/MintLaws.antt =====
-- Minted tokens compared with those of a login.
use authpilot.Common.{
  ℕ, ◌*◌, ◌<◌, String, true, false, ◌≡◌, ◌≢◌, ◌⊎◌, refl, ap, arith, if◌then◌else◌, ne→==-false,
}
use authpilot.Common.Int64.{is_positive}
use authpilot.Domain.{User, Flow}
use authpilot.Store.{Result, ok, err, CrudStore}
use authpilot.Personality.{Personality, apply}
use authpilot.Oidc.{TokenSet, Duration, ahead}
use authpilot.Oidc.Issue.{
  TokenConfig, Entropy, is_empty, access_claims, id_claims, standard_claims, if_included, then_,
  issue, second,
}
use authpilot.Oidc.IssueClaims.{then_-ok}
use authpilot.Oidc.Mint.{
  MintedTokens, MintRequest, minted, mint_ttl, mint_access_claims, mint_id_claims, mint_for_user,
  mint_token_handler,
}

-- the settings of a server whose access tokens and ID tokens live equally long
abbrev pub lasting : Duration → TokenConfig → TokenConfig
lasting ttl cfg = record cfg { access_token_ttl = ttl; id_token_ttl = ttl }

mint_access_claims-flow :
    (now : ℕ) (issuer : String) (cfg : TokenConfig) (ttl : Duration) (flow : Flow) (user : User)
    (jti : String)
    → (cfg.include_scope ≡ false) ⊎ (is_empty flow.scopes ≡ false)
    → mint_access_claims now issuer cfg ttl flow.client_id flow.scopes user jti
      ≡ access_claims now issuer (lasting ttl cfg) flow user jti
unfolding mint_access_claims access_claims
mint_access_claims-flow now issuer cfg ttl flow user jti h = ground (arith, h)

mint_id_claims-flow :
    (now : ℕ) (issuer : String) (cfg : TokenConfig) (ttl : Duration) (flow : Flow) (user : User)
    (jti : String)
    → flow.nonce ≡ ""
    → mint_id_claims now issuer cfg ttl flow.client_id user jti
      ≡ id_claims now issuer (lasting ttl cfg) flow user jti
unfolding mint_id_claims id_claims standard_claims
mint_id_claims-flow now issuer cfg ttl flow user jti e = rw e refl

-- what minted tokens show of a set of tokens
abbrev minted_part : Result TokenSet → Result MintedTokens
minted_part (err e) = err e
minted_part (ok tokens) = ok (record {
  access_token = tokens.access_token;
  id_token = tokens.id_token;
  expires_in = tokens.expires_in;
})

-- Two chains that agree after a step agree before it.
then_-part :
    {A : Type 0} (r : Result A) (f : A → Result TokenSet) (g : A → Result MintedTokens)
    (tokens : TokenSet)
    → ((a : A) → f a ≡ ok tokens → g a ≡ minted_part (ok tokens))
    → then_ r f ≡ ok tokens
    → then_ r g ≡ minted_part (ok tokens)
unfolding then_
then_-part (ok a) f g tokens h e = h a e
then_-part (err x) f g tokens h e = cc

mint_for_user-issue :
    (random : Entropy) (now : ℕ) (issuer : String) (cfg : TokenConfig) (p : Personality)
    (flow : Flow) (user : User) (tokens : TokenSet) (expires_in : ℕ) (ttl : Duration)
    → flow.nonce ≡ ""
    → (cfg.include_scope ≡ false) ⊎ (is_empty flow.scopes ≡ false)
    → mint_ttl cfg expires_in ≡ ttl
    → issue random now issuer (lasting ttl cfg) p flow user ≡ ok tokens
    → mint_for_user random now issuer cfg p user flow.client_id flow.scopes expires_in
      ≡ minted_part (ok tokens)
unfolding mint_for_user issue
mint_for_user-issue random now issuer cfg p flow user tokens expires_in ttl no_nonce scoped lives
      e =
    rw lives (
      then_-part random.signer _ _ tokens
        (λ sign.
          then_-part (if_included cfg.include_jti random.access_jti) _ _ tokens (λ access_jti.
            rw (mint_access_claims-flow now issuer cfg ttl flow user access_jti scoped) (
              then_-part (sign (access_claims now issuer (lasting ttl cfg) flow user access_jti)) _
                _ tokens
                (λ access_token.
                  then_-part (if_included cfg.include_jti random.id_jti) _ _ tokens (λ id_jti.
                    rw (mint_id_claims-flow now issuer cfg ttl flow user id_jti no_nonce) (
                      then_-part
                        (sign (apply p (id_claims now issuer (lasting ttl cfg) flow user id_jti))) _
                        _ tokens
                        (λ id_token last.
                          let (refresh_token, drawn, made) =
                            then_-ok random.refresh_token _ tokens last in
                          ap minted_part made)))))))
        e)

-- the lifetime in seconds that the handler asks for
abbrev pub asked : ℕ → ℕ
asked expires_in = if is_positive expires_in then expires_in else 3600

asked_positive : (expires_in : ℕ) → is_positive (asked expires_in) ≡ true
asked_positive expires_in = ground arith

mint_ttl-asked :
    (cfg : TokenConfig) (seconds : ℕ)
    → is_positive seconds ≡ true
    → seconds * second < 0x8000000000000000
    → mint_ttl cfg seconds ≡ ahead (seconds * second)
unfolding mint_ttl
mint_ttl-asked cfg seconds positive fits = ground arith

-- A request to mint tokens for a stored user is answered with the access token, the ID token and the lifetime
-- that a login of that user without a nonce gives, for the client and the scopes of the request, on a server
-- whose access tokens and ID tokens both live as many seconds as the request asks for, or 3600 where it asks
-- for none, if the server leaves the scope out of its tokens or the request has a scope, and if the nanoseconds
-- of the lifetime fit in 63 bits.
pub mint_token_handler-issue :
    {US : Type 0} (users : CrudStore US User) (random : Entropy) (now : ℕ) (issuer : String)
    (cfg : TokenConfig) (p : Personality) (us : US) (req : MintRequest) (flow : Flow) (user : User)
    (tokens : TokenSet)
    → req.user_id ≢ ""
    → users.get_by_id us req.user_id ≡ ok user
    → flow.nonce ≡ ""
    → flow.client_id ≡ req.client_id
    → flow.scopes ≡ req.scopes
    → (cfg.include_scope ≡ false) ⊎ (is_empty req.scopes ≡ false)
    → asked req.expires_in * second < 0x8000000000000000
    → issue random now issuer (lasting (ahead (asked req.expires_in * second)) cfg) p flow user
      ≡ ok tokens
    → mint_token_handler users random now issuer cfg p us req
      ≡ minted (record {
        access_token = tokens.access_token;
        id_token = tokens.id_token;
        expires_in = tokens.expires_in;
      })
unfolding mint_token_handler
mint_token_handler-issue users random now issuer cfg p us req flow user tokens named found no_nonce
      client scopes scoped fits e =
    let seconds = asked req.expires_in in
    let ttl = ahead (seconds * second) in
    let lives = mint_ttl-asked cfg seconds (asked_positive req.expires_in) fits in
    let for_flow =
      mint_for_user-issue random now issuer cfg p flow user tokens seconds ttl no_nonce
        (rw scopes scoped) lives e in
    let made = rw (client, scopes) at for_flow in
    rw (mint_token_handler, ne→==-false req.user_id "" named) (rw found (rw made refl))
