-- ===== src/Oidc/TokenTests.antt =====
-- The theorems about keys and about what tokens are answered with, at two keys and one user.
use authpilot.Common.{
  ℕ, String, Bool, true, false, ◌≡◌, ◌≢◌, refl, Option, none, some, [], ◌∷◌, ◌==◌, if◌then◌else◌,
  eqb, arith, ◌↔◌,
}
use authpilot.Common.GoMap.{GoMap, lookup}
use authpilot.Common.Text.{trim_space}
use authpilot.Domain.{Value, num, str, User, zero_user}
use authpilot.Store.{Result, ok, err, not_found, CrudStore}
use authpilot.Oidc.{ahead}
use authpilot.Oidc.Keys.{
  JsonWebKey, Jose, KeyEntry, Attempt, rotate, rotate_all, no_keys, verify_jwt, normalise_scope,
}
use authpilot.Oidc.KeyLife.{verify_jwt-rotate_all}
use authpilot.Oidc.Userinfo.{
  value, TokenRequest, bearer_token, sub_from_jwt, userinfo, userinfo_claims, introspect,
}
use authpilot.Oidc.Answers.{userinfo_lem}
use authpilot.Oidc.Introspection.{IsActive, introspect-IsActive}

abbrev same : ℕ → ℕ
same n = n

abbrev draw : ℕ → ℕ → String → Attempt same
draw at key kid = record { at = at; generated = ok key; random = ok kid }

abbrev first_key : KeyEntry same
first_key = record {
  address = 0;
  private_key = 1;
  kid = "k1";
  public_jwk = record { key = 1; key_id = "k1"; algorithm = "RS256"; use_ = "sig" };
  retired_at = none;
}

abbrev claims : GoMap Value
claims = ("sub", str "ada") ∷ ("exp", num 20) ∷ []

-- a library for which a token is the number of its key
abbrev numbered : Jose ℕ ℕ
numbered = record {
  parse_signed = λ token. if token == "t1" then some 1 else none;
  verify = λ jws k. if eqb jws k.key then some "payload" else none;
  unmarshal = λ payload. ok (some claims);
}

one_payload : (k : JsonWebKey ℕ) (p : String) → numbered.verify 1 k ≡ some p → p ≡ "payload"
one_payload k p e = ground (arith, e)

verify_jwt-rotate_all_example :
    verify_jwt same numbered 10
      (rotate_all same
        (draw 5 2 "k2" ∷ [])
        (rotate_all same (draw 0 1 "k1" ∷ []) (no_keys same (ahead 100))))
      "t1"
    ≡ ok (some (normalise_scope claims), true)
unfolding rotate_all rotate lookup authpilot.Oidc.Keys.rotated_to
verify_jwt-rotate_all_example =
    verify_jwt-rotate_all same numbered (ahead 100) (draw 0 1 "k1" ∷ []) (draw 5 2 "k2" ∷ [])
      first_key 1 10 20 "t1" 1 "payload" claims refl ((omega arith, omega arith), tt) (omega arith)
      refl refl one_payload refl refl (omega arith)

abbrev ada : User
ada = record zero_user {
  id = "ada";
  email = "ada@example.com";
  groups = "admins" ∷ "devs" ∷ [];
  claims = ("scope", str "admin") ∷ [];
}

-- a store that holds one user, and keeps it
abbrev one_user : CrudStore ℕ User
one_user = record {
  create = λ s u. (s, err not_found);
  get_by_id = λ s id. if id == "ada" then ok ada else err not_found;
  list = λ s. ok (ada ∷ []);
  update = λ s u. (s, err not_found);
  delete = λ s id. (s, some not_found);
}

abbrev bearer : TokenRequest
bearer = record { authorization = "Bearer h.p.s"; access_token = "" }

userinfo_lem_example :
    (sub : String) × (user : User) × (sub_from_jwt
        (λ s. ok s)
        (λ s. ok claims)
        (bearer_token bearer)
      ≡ ok sub)
    × (one_user.get_by_id 0 sub ≡ ok user)
    × (lookup "sub" (userinfo_claims ada) ≡ some (value (str user.id)))
    × (lookup "email" (userinfo_claims ada) ≡ some (value (str user.email)))
    × (lookup "name" (userinfo_claims ada) ≡ some (value (str user.display_name)))
unfolding userinfo lookup authpilot.Common.Prefix.trim_prefix
userinfo_lem_example =
    userinfo_lem one_user (λ s. s) (λ s. ok s) (λ s. ok claims) false [] 0 bearer []
      (userinfo_claims ada) refl

abbrev one_token : String → Result (Option (GoMap Value) × Bool)
one_token token = if token == "t1" then ok (some claims, true) else ok (none, false)

introspect-IsActive_example : IsActive (introspect one_user one_token 0 " t1 ") ↔ (
    (trim_space " t1 " ≢ "")
    × (c : GoMap Value) × (one_token (trim_space " t1 ") ≡ ok (some c, true)))
introspect-IsActive_example = introspect-IsActive one_user one_token 0 " t1 "
