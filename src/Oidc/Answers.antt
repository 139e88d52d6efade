-- ===== src/Oidc/Answers.antt =====
-- What `/userinfo` and `/oauth2/introspect` answer.
use Prim.Native.String
use authpilot.Common.{
  String, Bool, false, ◌≡◌, inl, inr, refl, ap, ◌∙◌, Option, none, some, List, [], ◌∷◌, ◌==◌,
  if◌then◌else◌, arith, Bool-cases, eq_iff,
}
use authpilot.Common.GoMap.{GoMap, lookup, lookup-insert}
use authpilot.Domain.{Value, str, User}
use authpilot.Store.{Result, ok, Result-cases, CrudStore}
use authpilot.Oidc.Issue.{join, is_empty}
use authpilot.Oidc.Userinfo.{
  Claim, value, strings, HeaderMapping, TokenRequest, TokenReply, answered, refused, bearer_token,
  sub_from_jwt, insert_absent, insert_groups, add_own, standard_userinfo, userinfo_claims,
  resolve_header_claim, userinfo, as_claim,
}

-- a claim that is held, or else the user's own
abbrev pub or_own : Option Claim → Option Value → Option Claim
or_own (some c) own = some c
or_own none own = as_claim own

insert_absent_lem :
    (k i : String) (v : Value) (held : Option Claim) (m : GoMap Claim)
    → lookup i m ≡ held
    → lookup k (insert_absent i (value v) held m)
      ≡ or_own (lookup k m) (if i == k then some v else none)
insert_absent_lem k i v none m e = ground (arith, lookup-insert i k (value v) m, eq_iff i k)
insert_absent_lem k i v (some c) m e = ground (arith, eq_iff i k)

pub add_own_lem :
    (k : String) (m : GoMap Claim) (own : GoMap Value)
    → lookup k (add_own m own) ≡ or_own (lookup k m) (lookup k own)
unfolding add_own lookup
add_own_lem k m [] = ground arith
add_own_lem k m ((i, v) ∷ own) = ground (
  arith,
  add_own_lem k (insert_absent i (value v) (lookup i m) m) own,
  insert_absent_lem k i v (lookup i m) m refl,
)

add_own-keeps :
    (k : String) (c : Claim) (m : GoMap Claim) (own : GoMap Value)
    → lookup k m ≡ some c
    → lookup k (add_own m own) ≡ some c
add_own-keeps k c m own e = add_own_lem k m own ∙ ap (λ held. or_own held (lookup k own)) e

pub insert_groups-other :
    (k : String) (groups : List String) (m : GoMap Claim)
    → ("groups" == k) ≡ false
    → lookup k (insert_groups groups m) ≡ lookup k m
insert_groups-other k groups m e = ground (arith, lookup-insert "groups" k (strings groups) m, e)

insert_groups-same :
    (groups : List String) (m : GoMap Claim)
    → is_empty groups ≡ false
    → lookup "groups" (insert_groups groups m) ≡ some (strings groups)
insert_groups-same groups m e = rw e (lookup-insert "groups" "groups" (strings groups) m)

standard_userinfo-sub :
    (user : User)
    → (lookup "sub" (standard_userinfo user) ≡ some (value (str user.id)))
      × (lookup "email" (standard_userinfo user) ≡ some (value (str user.email)))
      × (lookup "name" (standard_userinfo user) ≡ some (value (str user.display_name)))
unfolding standard_userinfo lookup
standard_userinfo-sub user = (
  insert_groups-other "sub" user.groups _ refl,
  insert_groups-other "email" user.groups _ refl,
  insert_groups-other "name" user.groups _ refl,
)

userinfo_claims-keeps :
    (k : String) (c : Claim) (user : User)
    → lookup k (standard_userinfo user) ≡ some c
    → lookup k (userinfo_claims user) ≡ some c
unfolding userinfo_claims
userinfo_claims-keeps k c user e = add_own-keeps k c (standard_userinfo user) user.claims e

standard_userinfo-groups :
    (user : User)
    → is_empty user.groups ≡ false
    → lookup "groups" (standard_userinfo user) ≡ some (strings user.groups)
unfolding standard_userinfo
standard_userinfo-groups user e = insert_groups-same user.groups _ e

-- A header that is mapped to the groups of a user who has some shows them in brackets with blanks between, and
-- the separator of the mapping is not heeded.
pub resolve_header_claim-groups :
    (user : User) (sep : String)
    → is_empty user.groups ≡ false
    → resolve_header_claim (userinfo_claims user) "groups" sep
      ≡ String.◌++◌ "[" (String.◌++◌ (join user.groups " ") "]")
unfolding resolve_header_claim
resolve_header_claim-groups user sep e =
    rw
      (
        resolve_header_claim,
        userinfo_claims-keeps "groups" (strings user.groups) user (standard_userinfo-groups user e),
      )
      refl

abbrev body_of : TokenReply → GoMap Claim
body_of (refused status code) = []
body_of (answered headers body) = body

module _ {US : Type 0} (users : CrudStore US User) (canonical : String → String)
    (decode : String → Result String) (unmarshal : String → Result (GoMap Value)) where
  -- An answer of `/userinfo` is about the stored user whom the token of the request names, with the ID, the
  -- address and the name that are stored, whatever the user's own claims are.
  pub userinfo_lem :
      (on : Bool) (mappings : List HeaderMapping) (us : US) (r : TokenRequest)
      (headers : GoMap String) (body : GoMap Claim)
      → userinfo canonical users decode unmarshal on mappings us r ≡ answered headers body
      → (sub : String) × (user : User) × (sub_from_jwt decode unmarshal (bearer_token r) ≡ ok sub)
        × (users.get_by_id us sub ≡ ok user)
        × (lookup "sub" body ≡ some (value (str user.id)))
        × (lookup "email" body ≡ some (value (str user.email)))
        × (lookup "name" body ≡ some (value (str user.display_name)))
  unfolding userinfo
  userinfo_lem on mappings us r headers body e = elim (Bool-cases (bearer_token r == "")) [
    | inl none_given ↦ cc (rw none_given at e)
    | inr given ↦ elim (Result-cases (sub_from_jwt decode unmarshal (bearer_token r))) [
      | inr (x, unread) ↦ cc (rw (given, unread) at e)
      | inl (sub, read) ↦ elim (Result-cases (users.get_by_id us sub)) [
        | inr (x, missing) ↦ cc (rw (given, read, missing) at e)
        | inl (user, found) ↦
            let is : userinfo_claims user ≡ body = ap body_of (rw (given, read, found) at e) in
            let kept = userinfo_claims-keeps in
            let (sub', email, name) = standard_userinfo-sub user in
            (
              sub,
              user,
              read,
              found,
              rw (← is) (kept "sub" (value (str user.id)) user sub'),
              rw (← is) (kept "email" (value (str user.email)) user email),
              rw (← is) (kept "name" (value (str user.display_name)) user name),
            )
      ]
    ]
  ]
