-- ===== src/Oidc/Userinfo.antt =====
-- server/internal/oidc/router.go: the endpoints that read a token, `/userinfo` and `/oauth2/introspect`. The
-- decoding of base64 and JSON and the canonical form of header names are arguments.
use Prim.Native.String
use authpilot.Common.{
  ℕ, String, Bool, true, false, not, Option, none, some, List, [], ◌∷◌, ◌==◌, if◌then◌else◌,
}
use authpilot.Common.GoMap.{GoMap, lookup, insert}
use authpilot.Common.Prefix.{trim_prefix}
use authpilot.Common.Text.{trim_space, split_on}
use authpilot.Domain.{Value, str, arr, bool, User}
use authpilot.Domain.Json.{sprint}
use authpilot.Store.{Result, ok, err, failure, CrudStore}
use authpilot.Oidc.Issue.{join, is_empty}
use authpilot.Oidc.Keys.{sprint_all}
use text.Mathlib.Text.{starts_with}

-- what an interface value of the response maps holds: a slice of texts is not a slice of any values
pub data Claim : Type 0 where
  value : Value → Claim
  strings : List String → Claim

pub record HeaderMapping : Type 0 where
  pub name : String
  pub claim : String
  pub join_with : String

-- the part of a request that the two endpoints read
pub record TokenRequest : Type 0 where
  pub authorization : String
  pub access_token : String

pub data TokenReply : Type 0 where
  -- `writeOAuthError`
  refused : (status : ℕ) (code : String) → TokenReply
  -- `writeJSON` of a map, after some headers
  answered : (headers : GoMap String) (body : GoMap Claim) → TokenReply

-- `bearerToken`
unfoldable pub bearer_token : TokenRequest → String
bearer_token r =
    if starts_with r.authorization "Bearer "
    then trim_prefix r.authorization "Bearer "
    else trim_space r.access_token

abbrev pub text_of : Option Value → String
text_of (some (str s)) = s
text_of _ = ""

-- the part of a token between the first two dots
abbrev second_part : List String → Option String
second_part (first ∷ payload ∷ rest) = some payload
second_part _ = none

-- `subFromJWT`, with the base64 and JSON libraries
unfoldable pub sub_from_jwt :
    (String → Result String) → (String → Result (GoMap Value)) → String → Result String
unfolding split_on
sub_from_jwt decode unmarshal token = elim (second_part (split_on b'.' token)) [
  | none ↦ err (failure "invalid jwt format")
  | some part ↦ elim (decode part) [
    | err e ↦ err e
    | ok payload ↦ elim (unmarshal payload) [
      | err e ↦ err e
      | ok claims ↦
          let sub = text_of (lookup "sub" claims) in
          if sub == "" then err (failure "sub claim missing") else ok sub
    ]
  ]
]

abbrev pub insert_absent : String → Claim → Option Claim → GoMap Claim → GoMap Claim
insert_absent k c none m = insert k c m
insert_absent k c (some held) m = m

-- the loop over the user's own claims
unfoldable pub add_own : GoMap Claim → GoMap Value → GoMap Claim
add_own m [] = m
add_own m ((k, v) ∷ own) = add_own (insert_absent k (value v) (lookup k m) m) own

abbrev pub insert_groups : List String → GoMap Claim → GoMap Claim
insert_groups groups m = if is_empty groups then m else insert "groups" (strings groups) m

-- the claims of `/userinfo`, before the user's own
unfoldable pub standard_userinfo : User → GoMap Claim
standard_userinfo user = insert_groups user.groups (
    ("sub", value (str user.id))
    ∷ ("email", value (str user.email))
    ∷ ("name", value (str user.display_name))
    ∷ [])

unfoldable pub userinfo_claims : User → GoMap Claim
unfolding standard_userinfo add_own
userinfo_claims user = add_own (standard_userinfo user) user.claims

-- `resolveHeaderClaim`; `fmt.Sprint` puts a slice of texts in brackets, with blanks between
unfoldable pub resolve_header_claim : GoMap Claim → String → String → String
resolve_header_claim claims key sep = elim (lookup key claims) [
  | none ↦ ""
  | some (value (str s)) ↦ s
  | some (value (arr vs)) ↦ join (sprint_all vs) (if sep == "" then "," else sep)
  | some (value v) ↦ sprint v
  | some (strings texts) ↦ String.◌++◌ "[" (String.◌++◌ (join texts " ") "]")
]

abbrev pub is_nil : List HeaderMapping → Bool
is_nil [] = true
is_nil (m ∷ ms) = false

module _ (canonical : String → String) where
  -- `w.Header().Set`
  abbrev set_header : String → String → GoMap String → GoMap String
  set_header name text headers = insert (canonical name) text headers

  -- the loop over the mappings
  unfoldable pub mapped_headers : GoMap Claim → List HeaderMapping → GoMap String → GoMap String
  unfolding resolve_header_claim
  mapped_headers claims [] headers = headers
  mapped_headers claims (m ∷ ms) headers =
      let text = resolve_header_claim claims m.claim m.join_with in
      mapped_headers claims ms (if text == "" then headers else set_header m.name text headers)

  unfoldable pub default_headers : User → GoMap String
  default_headers user =
      set_header "X-User-Groups" (join user.groups ",")
        (set_header "X-User-Email" user.email (set_header "X-User-ID" user.id []))

  unfoldable pub propagated : Bool → List HeaderMapping → User → GoMap String
  unfolding mapped_headers default_headers
  propagated on mappings user =
      if not on
      then []
      else if is_nil mappings
      then default_headers user
      else mapped_headers (userinfo_claims user) mappings []

  module _ {US : Type 0} (users : CrudStore US User) (decode : String → Result String)
      (unmarshal : String → Result (GoMap Value)) where
    -- `userinfoHandler`, with `HeaderPropagation` and `HeaderMappings`
    unfoldable pub userinfo : Bool → List HeaderMapping → US → TokenRequest → TokenReply
    unfolding bearer_token sub_from_jwt propagated userinfo_claims
    userinfo on mappings us r =
        if bearer_token r == ""
        then refused 401 "invalid_token"
        else elim (sub_from_jwt decode unmarshal (bearer_token r)) [
          | err _ ↦ refused 401 "invalid_token"
          | ok sub ↦ elim (users.get_by_id us sub) [
            | err _ ↦ refused 401 "invalid_token"
            | ok user ↦ answered (propagated on mappings user) (userinfo_claims user)
          ]
        ]

abbrev pub insert_claim : String → Option Claim → GoMap Claim → GoMap Claim
insert_claim k none m = m
insert_claim k (some c) m = insert k c m

abbrev pub as_claim : Option Value → Option Claim
as_claim none = none
as_claim (some v) = some (value v)

-- a text that is not empty
abbrev pub given_text : Option Value → Option Claim
given_text (some (str s)) = if s == "" then none else some (value (str s))
given_text _ = none

abbrev with_user : Result User → GoMap Claim → GoMap Claim
with_user (err e) resp = resp
with_user (ok user) resp =
    add_own
      (insert_groups user.groups
        (insert "email" (value (str user.email)) (insert "username" (value (str user.email)) resp)))
      user.claims

abbrev inactive : TokenReply
inactive = answered [] (("active", value (bool false)) ∷ [])

module _ {US : Type 0} (users : CrudStore US User) where
  -- the part on the user that the token names
  unfoldable pub with_sub : US → String → GoMap Claim → GoMap Claim
  unfolding add_own
  with_sub us sub resp =
      if sub == ""
      then resp
      else with_user (users.get_by_id us sub) (insert "sub" (value (str sub)) resp)

  -- the answer for the claims of a token that is active
  unfoldable pub introspected : US → GoMap Value → GoMap Claim
  unfolding with_sub
  introspected us claims =
      let known =
        with_sub us (text_of (lookup "sub" claims)) (("active", value (bool true)) ∷ []) in
      insert_claim "scope" (given_text (lookup "scope" claims)) (
        insert_claim "exp" (as_claim (lookup "exp" claims))
          (insert_claim "client_id" (as_claim (lookup "aud" claims)) known))

  -- `introspectHandler`; `verify` is `VerifyJWT` at the time and with the keys of the request
  unfoldable pub introspect :
      (verify : String → Result (Option (GoMap Value) × Bool)) → US → String → TokenReply
  unfolding introspected
  introspect verify us form_token =
      let token = trim_space form_token in
      if token == "" then inactive else elim (verify token) [
        | err _ ↦ refused 500 "server_error"
        | ok verdict ↦
            let (found, active) = verdict in
            elim found [
              | none ↦ inactive
              | some claims ↦ if active then answered [] (introspected us claims) else inactive
            ]
      ]
