-- ===== src/Oidc/Introspection.antt =====
-- What `/oauth2/introspect` answers.
use authpilot.Common.{
  String, Bool, true, false, ◌≡◌, ◌≢◌, ◌↔◌, inl, inr, refl, ap, ◌∙◌, Option, none, some, [], ◌∷◌,
  ◌==◌, Bool-cases, ne→==-false, ==-false→ne,
}
use authpilot.Common.GoMap.{GoMap, lookup, insert, lookup-insert}
use authpilot.Common.Text.{trim_space}
use authpilot.Domain.{Value, str, bool, User}
use authpilot.Store.{Result, ok, Result-cases, CrudStore}
use authpilot.Oidc.Userinfo.{
  Claim, value, TokenReply, answered, refused, text_of, insert_claim, as_claim, given_text,
  with_sub, introspected, introspect,
}
use authpilot.Oidc.Answers.{or_own, add_own_lem, insert_groups-other}

insert-other :
    (k i : String) (c : Claim) (m : GoMap Claim)
    → (i == k) ≡ false
    → lookup k (insert i c m) ≡ lookup k m
insert-other k i c m e = lookup-insert i k c m ∙ rw e refl

insert_claim-other :
    (k i : String) (c : Option Claim) (m : GoMap Claim)
    → (i == k) ≡ false
    → lookup k (insert_claim i c m) ≡ lookup k m
insert_claim-other k i none m e = refl
insert_claim-other k i (some c) m e = insert-other k i c m e

-- the answer says that the token is active
abbrev pub IsActive : TokenReply → Type 0
IsActive (refused status code) = ⊥
IsActive (answered headers body) = lookup "active" body ≡ some (value (bool true))

abbrev start : GoMap Claim
start = ("active", value (bool true)) ∷ []

start-active : (lookup "active" start ≡ some (value (bool true))) × (lookup "scope" start ≡ none)
unfolding lookup
start-active = (refl, refl)

-- a key that the answer does not set for the user
abbrev IsOther : String → Type 0
IsOther k =
    (("sub" == k) ≡ false)
    × (("username" == k) ≡ false)
    × (("email" == k) ≡ false)
    × (("groups" == k) ≡ false)

module _ {US : Type 0} (users : CrudStore US User) where
  with_sub-found :
      (k : String) (us : US) (sub : String) (m : GoMap Claim) (user : User)
      → (sub == "") ≡ false
      → users.get_by_id us sub ≡ ok user
      → IsOther k
      → lookup k (with_sub users us sub m) ≡ or_own (lookup k m) (lookup k user.claims)
  unfolding with_sub
  with_sub-found k us sub m user given found (s, u, e, g) = rw given (
      rw found (
        add_own_lem k _ user.claims
        ∙ ap (λ held. or_own held (lookup k user.claims))
            (insert_groups-other k user.groups _ g
              ∙ insert-other k "email" (value (str user.email)) _ e
              ∙ insert-other k "username" (value (str user.email)) _ u
              ∙ insert-other k "sub" (value (str sub)) m s)))

  with_sub-keeps :
      (k : String) (c : Claim) (us : US) (sub : String) (m : GoMap Claim)
      → IsOther k
      → lookup k m ≡ some c
      → lookup k (with_sub users us sub m) ≡ some c
  unfolding with_sub
  with_sub-keeps k c us sub m other h = elim (Bool-cases (sub == "")) [
    | inl blank ↦ rw blank h
    | inr given ↦ elim (Result-cases (users.get_by_id us sub)) [
      | inr (x, missing) ↦
          rw given (rw missing (lookup-insert "sub" k (value (str sub)) m ∙ rw other.0 h))
      | inl (user, found) ↦
          with_sub-found k us sub m user given found other
          ∙ ap (λ held. or_own held (lookup k user.claims)) h
    ]
  ]

  introspected-active :
      (us : US) (claims : GoMap Value)
      → lookup "active" (introspected users us claims) ≡ some (value (bool true))
  unfolding introspected
  introspected-active us claims =
      insert_claim-other "active" "scope" (given_text (lookup "scope" claims)) _ refl
      ∙ insert_claim-other "active" "exp" (as_claim (lookup "exp" claims)) _ refl
      ∙ insert_claim-other "active" "client_id" (as_claim (lookup "aud" claims)) _ refl
      ∙ with_sub-keeps "active" (value (bool true)) us (text_of (lookup "sub" claims)) start
          (refl, refl, refl, refl) start-active.0

  IsActive-verified :
      (verify : String → Result (Option (GoMap Value) × Bool)) (us : US) (token : String)
      → IsActive (introspect users verify us token)
      → (trim_space token ≢ "")
        × (claims : GoMap Value) × (verify (trim_space token) ≡ ok (some claims, true))
  unfolding introspect lookup
  IsActive-verified verify us token h = elim (Bool-cases (trim_space token == "")) [
    | inl blank ↦ cc (rw blank at h)
    | inr given ↦ elim (Result-cases (verify (trim_space token))) [
      | inr (x, failed) ↦ elim (rw (given, failed) at h) [ ]
      | inl ((none, active), found) ↦ cc (rw (given, found) at h)
      | inl ((some claims, false), found) ↦ cc (rw (given, found) at h)
      | inl ((some claims, true), found) ↦ (==-false→ne (trim_space token) "" given, claims, found)
    ]
  ]

  verified-IsActive :
      (verify : String → Result (Option (GoMap Value) × Bool)) (us : US) (token : String)
      (claims : GoMap Value)
      → trim_space token ≢ ""
      → verify (trim_space token) ≡ ok (some claims, true)
      → IsActive (introspect users verify us token)
  unfolding introspect
  verified-IsActive verify us token claims given h =
      rw (ne→==-false (trim_space token) "" given) (rw h (introspected-active us claims))

  -- The introspection calls a token active exactly where it is not blank and the check of tokens gives its claims
  -- and finds it active, whatever the claims of the user whom it names.
  pub introspect-IsActive :
      (verify : String → Result (Option (GoMap Value) × Bool)) (us : US) (token : String)
      → IsActive (introspect users verify us token) ↔ (
          (trim_space token ≢ "")
          × (claims : GoMap Value) × (verify (trim_space token) ≡ ok (some claims, true)))
  introspect-IsActive verify us token = (
    IsActive-verified verify us token,
    λ (given, claims, h). verified-IsActive verify us token claims given h,
  )

  -- The scope in the answer is that of the token, or, where the token has none that is a text, the claim of the
  -- user that is called scope.
  pub introspected-scope :
      (us : US) (claims : GoMap Value) (user : User) (v : Value)
      → given_text (lookup "scope" claims) ≡ none
      → text_of (lookup "sub" claims) ≢ ""
      → users.get_by_id us (text_of (lookup "sub" claims)) ≡ ok user
      → lookup "scope" user.claims ≡ some v
      → lookup "scope" (introspected users us claims) ≡ some (value v)
  unfolding introspected
  introspected-scope us claims user v unscoped named found own =
      let sub = text_of (lookup "sub" claims) in
      rw unscoped (
        insert_claim-other "scope" "exp" (as_claim (lookup "exp" claims)) _ refl
        ∙ insert_claim-other "scope" "client_id" (as_claim (lookup "aud" claims)) _ refl
        ∙ with_sub-found "scope" us sub start user (ne→==-false sub "" named) found
            (refl, refl, refl, refl)
        ∙ ap (λ held. or_own held (lookup "scope" user.claims)) start-active.1
        ∙ ap as_claim own)
