-- ===== src/Oidc/IssueClaims.antt =====
-- What the issued tokens say.
use mathlib.Core.Path.{subst}
use authpilot.Common.{
  ℕ, String, ◌≡◌, ◌≢◌, ◌⊎◌, refl, sym, ap, ◌∙◌, Bool, true, false, Option, none, some, [], ◌∷◌,
  Bool-cases, inl, inr, ne→==-false,
}
use authpilot.Common.GoMap.{GoMap, lookup, lookup-insert, HasUniqueKeys, insert-HasUniqueKeys}
use authpilot.Domain.{Value, User, Flow}
use authpilot.Store.{Result, ok, err, value_or}
use authpilot.Personality.{Personality, apply, add_extra, insert_if_absent, rename}
use authpilot.Personality.Claims.{add_extra-keeps, IsSole, apply-keeps}
use authpilot.Oidc.{TokenSet, Duration}
use authpilot.Oidc.Issue.{
  HasuraClaimsConfig, TokenConfig, or_default_namespace, base_claims, insert_if,
  apply_hasura_claims, standard_claims, access_claims, id_claims, Entropy, if_included, then_,
  issue,
}

apply_hasura_claims-keeps :
    (cfg : HasuraClaimsConfig) (user : User) (claims : GoMap Value) (k : String) (v : Value)
    → (cfg.enabled ≡ false) ⊎ (or_default_namespace cfg.namespace ≢ k)
    → lookup k claims ≡ some v
    → lookup k (apply_hasura_claims cfg user claims) ≡ some v
unfolding apply_hasura_claims
apply_hasura_claims-keeps cfg user claims k v (inl off) e = rw off e
apply_hasura_claims-keeps cfg user claims k v (inr other) e = elim (Bool-cases cfg.enabled) [
  | inr off ↦ rw off e
  | inl on ↦
      rw on (
        lookup-insert (or_default_namespace cfg.namespace) k _ claims
        ∙ rw (ne→==-false _ k other) e)
]

-- A claim that the server sets itself is in the claims of the ID token with the server's value, whatever
-- the user's own claims are, if it does not have the name of the Hasura namespace or that is off.
pub id_claims-standard :
    (now : ℕ) (issuer : String) (cfg : TokenConfig) (flow : Flow) (user : User) (jti k : String)
    (v : Value)
    → (cfg.hasura_claims.enabled ≡ false) ⊎ (or_default_namespace cfg.hasura_claims.namespace ≢ k)
    → lookup k (standard_claims now issuer cfg flow user jti) ≡ some v
    → lookup k (id_claims now issuer cfg flow user jti) ≡ some v
unfolding id_claims
id_claims-standard now issuer cfg flow user jti k v free e =
    apply_hasura_claims-keeps cfg.hasura_claims user _ k v free
      (add_extra-keeps k v (standard_claims now issuer cfg flow user jti) user.claims e)

pub then_-ok :
    {A B : Type 0} (r : Result A) (f : A → Result B) (b : B)
    → then_ r f ≡ ok b
    → (a : A) × (r ≡ ok a) × (f a ≡ ok b)
unfolding then_
then_-ok (ok a) f b e = (a, refl, e)
then_-ok (err x) f b e = cc

-- Where a set of tokens is issued, there was a signer, and the access token and the ID token are what it
-- made of the access claims and of the ID claims as the personality renames them, each with the token
-- ID that was drawn for it; the refresh token is the one that was drawn.
pub issue-signed :
    (random : Entropy) (now : ℕ) (issuer : String) (cfg : TokenConfig) (p : Personality)
    (flow : Flow) (user : User) (tokens : TokenSet)
    → issue random now issuer cfg p flow user ≡ ok tokens
    → (sign : GoMap Value → Result String) × (access_jti : String) × (id_jti : String)
      × (random.signer ≡ ok sign)
      × (if_included cfg.include_jti random.access_jti ≡ ok access_jti)
      × (if_included cfg.include_jti random.id_jti ≡ ok id_jti)
      × (sign (access_claims now issuer cfg flow user access_jti) ≡ ok tokens.access_token)
      × (sign (apply p (id_claims now issuer cfg flow user id_jti)) ≡ ok tokens.id_token)
      × (random.refresh_token ≡ ok tokens.refresh_token)
unfolding issue
issue-signed random now issuer cfg p flow user tokens e =
    let (sign, signer, e₁) = then_-ok random.signer _ tokens e in
    let (access_jti, drawn₁, e₂) = then_-ok _ _ tokens e₁ in
    let (access_token, signed₁, e₃) = then_-ok _ _ tokens e₂ in
    let (id_jti, drawn₂, e₄) = then_-ok _ _ tokens e₃ in
    let (id_token, signed₂, e₅) = then_-ok _ _ tokens e₄ in
    let (refresh_token, drawn₃, made) = then_-ok random.refresh_token _ tokens e₅ in
    (
      sign,
      access_jti,
      id_jti,
      signer,
      drawn₁,
      drawn₂,
      signed₁ ∙ ap ok (ap (λ r. (value_or tokens r).access_token) made),
      signed₂ ∙ ap ok (ap (λ r. (value_or tokens r).id_token) made),
      drawn₃ ∙ ap ok (ap (λ r. (value_or tokens r).refresh_token) made),
    )

base_claims-HasUniqueKeys :
    (now : ℕ) (issuer : String) (ttl : Duration) (aud : Value) (user : User)
    → HasUniqueKeys (base_claims now issuer ttl aud user)
unfolding base_claims lookup
base_claims-HasUniqueKeys now issuer ttl aud user = (refl, (refl, (refl, (refl, (refl, tt)))))

insert_if-HasUniqueKeys :
    (b : Bool) (k : String) (v : Value) (m : GoMap Value)
    → HasUniqueKeys m
    → HasUniqueKeys (insert_if b k v m)
insert_if-HasUniqueKeys true k v m h = insert-HasUniqueKeys k v m h
insert_if-HasUniqueKeys false k v m h = h

insert_if_absent-HasUniqueKeys :
    (k : String) (v : Value) (o : Option Value) (m : GoMap Value)
    → HasUniqueKeys m
    → HasUniqueKeys (insert_if_absent k v o m)
insert_if_absent-HasUniqueKeys k v none m h = insert-HasUniqueKeys k v m h
insert_if_absent-HasUniqueKeys k v (some w) m h = h

add_extra-HasUniqueKeys :
    (m extra : GoMap Value) → HasUniqueKeys m → HasUniqueKeys (add_extra m extra)
unfolding add_extra
add_extra-HasUniqueKeys m [] h = h
add_extra-HasUniqueKeys m ((k, v) ∷ extra) h =
    add_extra-HasUniqueKeys (insert_if_absent k v (lookup k m) m) extra
      (insert_if_absent-HasUniqueKeys k v (lookup k m) m h)

standard_claims-HasUniqueKeys :
    (now : ℕ) (issuer : String) (cfg : TokenConfig) (flow : Flow) (user : User) (jti : String)
    → HasUniqueKeys (standard_claims now issuer cfg flow user jti)
unfolding standard_claims
standard_claims-HasUniqueKeys now issuer cfg flow user jti =
    search (insert_if-HasUniqueKeys, insert-HasUniqueKeys, base_claims-HasUniqueKeys) depth 8

id_claims-HasUniqueKeys :
    (now : ℕ) (issuer : String) (cfg : TokenConfig) (flow : Flow) (user : User) (jti : String)
    → HasUniqueKeys (id_claims now issuer cfg flow user jti)
unfolding id_claims apply_hasura_claims
id_claims-HasUniqueKeys now issuer cfg flow user jti =
    search (insert_if-HasUniqueKeys, add_extra-HasUniqueKeys, standard_claims-HasUniqueKeys)

-- Where tokens are issued, the ID token is the signature of claims in which each claim that the server sets itself
-- has the server's value, under the name that the personality gives it, whatever the user's own claims are, if
-- no other claim is given that name by the personality, and the claim does not have the name of the Hasura
-- namespace or that is off.
pub issue-standard :
    (random : Entropy) (now : ℕ) (issuer : String) (cfg : TokenConfig) (p : Personality)
    (flow : Flow) (user : User) (tokens : TokenSet) (sign : GoMap Value → Result String)
    (jti k : String) (v : Value)
    → issue random now issuer cfg p flow user ≡ ok tokens
    → random.signer ≡ ok sign
    → if_included cfg.include_jti random.id_jti ≡ ok jti
    → (cfg.hasura_claims.enabled ≡ false) ⊎ (or_default_namespace cfg.hasura_claims.namespace ≢ k)
    → IsSole p k (id_claims now issuer cfg flow user jti)
    → lookup k (standard_claims now issuer cfg flow user jti) ≡ some v
    → (signed : GoMap Value) × (sign signed ≡ ok tokens.id_token)
      × (lookup (rename p k) signed ≡ some v)
issue-standard random now issuer cfg p flow user tokens sign jti k v e signer drawn free sole own =
    let (sign', access_jti, jti', signer', drawn_access, drawn', access, id_token, refresh) =
      issue-signed random now issuer cfg p flow user tokens e in
    let same_sign : sign' ≡ sign = ap (value_or sign) (sym signer' ∙ signer) in
    let same_jti : jti' ≡ jti = ap (value_or jti) (sym drawn' ∙ drawn) in
    let claims = id_claims now issuer cfg flow user jti in
    (
      apply p claims,
      subst (λ j. sign (apply p (id_claims now issuer cfg flow user j)) ≡ ok tokens.id_token)
          same_jti
          (subst (λ f. f (apply p (id_claims now issuer cfg flow user jti')) ≡ ok tokens.id_token)
            same_sign id_token),
      apply-keeps p k v claims (id_claims-HasUniqueKeys now issuer cfg flow user jti) sole
          (id_claims-standard now issuer cfg flow user jti k v free own),
    )
