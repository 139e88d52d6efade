-- ===== src/Opa/Input.antt =====
-- The input document of an evaluation, of the user or of the request.
use Prim.Native.String
use authpilot.Common.{String, Option, none, some, List, [], ◌∷◌, ◌==◌, if◌then◌else◌}
use authpilot.Common.GoMap.{GoMap, lookup, insert}
use authpilot.Domain.{Value, Values, str, arr, obj, nil, cons, User}
use authpilot.Domain.Json.{fields_of}
use authpilot.Personality.{Personality, apply, insert_if_absent}
use authpilot.Store.{Result, ok, err}

abbrev put_text : String → String → GoMap Value → GoMap Value
put_text key value m = if value == "" then m else insert key (str value) m

abbrev put_context : GoMap Value → GoMap Value → GoMap Value
put_context [] m = m
put_context ctx m = insert "context" (obj (fields_of ctx)) m

-- the copy of a map, key by key
unfoldable pub copied : GoMap Value → GoMap Value → GoMap Value
copied out [] = out
copied out ((k, v) ∷ m) = copied (insert k v out) m

-- `BuildInput`
unfoldable pub build_input : GoMap Value → String → String → GoMap Value → GoMap Value
unfolding copied
build_input raw action resource ctx =
    put_context ctx (put_text "resource" resource (put_text "action" action (copied [] raw)))

unfoldable pub texts : List String → Values
texts [] = nil
texts (s ∷ ss) = cons (str s) (texts ss)

-- the loop over the user's own claims
unfoldable pub add_claims : GoMap Value → GoMap Value → GoMap Value
add_claims claims [] = claims
add_claims claims ((k, v) ∷ own) = add_claims (insert_if_absent k v (lookup k claims) claims) own

-- the claims of a user
unfoldable pub user_claims : User → GoMap Value
unfolding texts add_claims
user_claims user =
    add_claims
      (("sub", str user.id)
        ∷ ("email", str user.email)
        ∷ ("name", str user.display_name)
        ∷ ("groups", arr (texts user.groups))
        ∷ [])
      user.claims

-- `userToClaims`
unfoldable pub user_to_claims : User → GoMap Value
unfolding user_claims texts
user_to_claims user =
    ("claims", obj (fields_of (user_claims user))) ∷ ("roles", arr (texts user.groups)) ∷ []

-- the store of users, if there is one
abbrev pub UserLookup : Type 0
UserLookup = Option (String → Result User)

-- a value, or the text of an error
pub data Resolved (A : Type 0) : Type 0 where
  resolved : A → Resolved A
  unresolved : String → Resolved A

-- `resolveUser`; the source's message has the ID as `%q` prints it
unfoldable pub resolve_user : UserLookup → String → Resolved User
resolve_user none id = unresolved "user store not available"
resolve_user (some get_by_id) id = elim (get_by_id id) [
  | ok user ↦ resolved user
  | err e ↦ unresolved (String.◌++◌ "user \"" (String.◌++◌ id "\" not found"))
]

-- what a policy sees of a user
unfoldable pub user_document : Personality → User → Value
unfolding user_to_claims
user_document p user = obj (fields_of (apply p (user_to_claims user)))
