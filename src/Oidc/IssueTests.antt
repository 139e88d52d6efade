-- ===== src/Oidc/IssueTests.antt =====
-- The theorems about the issue of tokens, at a user who claims to be another.
use authpilot.Common.{
  ℕ, String, inr, if◌then◌else◌, ◌==◌, ==-false→ne, arith, ◌≡◌, refl, inl, false, some, [], ◌∷◌,
}
use authpilot.Common.GoMap.{GoMap, lookup, insert}
use authpilot.Domain.{Value, str, Flow, zero_flow, User, zero_user}
use authpilot.Store.{Result, ok, err, not_found, CrudStore}
use authpilot.Oidc.{TokenSet, ahead}
use authpilot.Oidc.Issue.{
  TokenConfig, Entropy, second, base_claims, standard_claims, id_claims, issue, apply_hasura_claims,
  join, whole_seconds, then_,
}
use authpilot.Oidc.Mint.{MintRequest, minted, mint_token_handler}
use authpilot.Oidc.MintLaws.{mint_token_handler-issue}
use authpilot.Personality.{default_personality, okta, rename}
use authpilot.Oidc.IssueClaims.{issue-standard}

abbrev ended : Flow
ended = record zero_flow { id = "f1"; user_id = "mallory" }

abbrev plain : TokenConfig
plain = record {
  access_token_ttl = ahead second;
  id_token_ttl = ahead second;
  refresh_token_ttl = 50;
  include_jti = false;
  aud_as_array = false;
  include_scope = false;
  hasura_claims = record { enabled = false; namespace = ""; default_role = ""; allowed_roles = [] };
}

-- a user whose own claims name another user
abbrev mallory : User
mallory = record zero_user {
  id = "mallory";
  claims = ("sub", str "ada") ∷ ("team", str "red") ∷ [];
}

abbrev fixed : Entropy
fixed = record {
  signer = ok (λ claims. ok "signed");
  access_jti = err not_found;
  id_jti = err not_found;
  refresh_token = ok "r1";
}

abbrev signed : TokenSet
signed = record {
  access_token = "signed";
  token_type = "Bearer";
  expires_in = ahead 1;
  id_token = "signed";
  refresh_token = "r1";
  scope = "";
}

abbrev same_signature : GoMap Value → Result String
same_signature claims = ok "signed"

-- under Okta the address is called login, and mallory's own claim sub does not displace the ID
issue-standard_example :
    (claims : GoMap Value) × (same_signature claims ≡ ok "signed")
    × (lookup (rename okta "sub") claims ≡ some (str "mallory"))
unfolding rename issue standard_claims base_claims lookup insert id_claims apply_hasura_claims join
    whole_seconds then_ authpilot.Personality.add_extra
issue-standard_example =
    issue-standard fixed 7 "http://idp" plain okta ended mallory signed same_signature "" "sub"
      (str "mallory") refl refl refl (inl refl)
      (
        inr (==-false→ne "iss" "sub" refl),
        (
          inl refl,
          (
            inr (==-false→ne "aud" "sub" refl),
            (
              inr (==-false→ne "iat" "sub" refl),
              (
                inr (==-false→ne "exp" "sub" refl),
                (
                  inr (==-false→ne "login" "sub" refl),
                  (inr (==-false→ne "name" "sub" refl), (inr (==-false→ne "team" "sub" refl), tt)),
                ),
              ),
            ),
          ),
        ),
      )
      refl

-- a store that holds one user
abbrev only_mallory : CrudStore ℕ User
only_mallory = record {
  create = λ s u. (s, err not_found);
  get_by_id = λ s id. if id == "mallory" then ok mallory else err not_found;
  list = λ s. ok (mallory ∷ []);
  update = λ s u. (s, err not_found);
  delete = λ s id. (s, some not_found);
}

-- a request that asks for no lifetime
abbrev mint_request : MintRequest
mint_request = record { user_id = "mallory"; client_id = ""; scopes = []; expires_in = 0 }

abbrev hour : TokenSet
hour = record signed { expires_in = ahead 3600 }

mint_token_handler-issue_example :
    mint_token_handler only_mallory fixed 7 "http://idp" plain default_personality 0 mint_request
    ≡ minted (record { access_token = "signed"; id_token = "signed"; expires_in = ahead 3600 })
unfolding issue base_claims apply_hasura_claims id_claims standard_claims join whole_seconds then_
mint_token_handler-issue_example =
    mint_token_handler-issue only_mallory fixed 7 "http://idp" plain default_personality 0
      mint_request ended mallory hour (==-false→ne "mallory" "" refl) refl refl refl refl (inl refl)
      (omega arith) refl
