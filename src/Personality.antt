-- ===== src/Personality.antt =====
-- server/internal/personality/personality.go: the claims of a token, renamed as a provider names them.
-- Maps are visited in the order of their lists.
pub mod Claims
mod Tests
use authpilot.Common.{String, true, Option, none, some, [], ◌∷◌}
use authpilot.Common.Case.{to_lower}
use authpilot.Common.Text.{trim_space}
use authpilot.Common.GoMap.{GoMap, lookup, insert}
use authpilot.Domain.{Value, num, str, bool, obj, end}

pub record Personality : Type 0 where
  pub id : String
  pub name : String
  pub claim_mappings : GoMap String
  pub extra_claims : GoMap Value

abbrev pub or_key : Option String → String → String
or_key none k = k
or_key (some mapped) k = mapped

-- the name that a claim is given
unfoldable pub rename : Personality → String → String
rename p k = or_key (lookup k p.claim_mappings) k

-- the loop over the claims
unfoldable pub add_renamed : Personality → GoMap Value → GoMap Value → GoMap Value
add_renamed p out [] = out
add_renamed p out ((k, v) ∷ claims) = add_renamed p (insert (rename p k) v out) claims

abbrev pub insert_if_absent : String → Value → Option Value → GoMap Value → GoMap Value
insert_if_absent k v none out = insert k v out
insert_if_absent k v (some w) out = out

-- the loop over the extra claims
unfoldable pub add_extra : GoMap Value → GoMap Value → GoMap Value
add_extra out [] = out
add_extra out ((k, v) ∷ extra) = add_extra (insert_if_absent k v (lookup k out) out) extra

-- `Apply`, of a personality that is not nil
unfoldable pub apply : Personality → GoMap Value → GoMap Value
apply p claims = add_extra (add_renamed p [] claims) p.extra_claims

abbrev pub default_personality : Personality
default_personality = record {
  id = "default";
  name = "Furnace Default";
  claim_mappings = [];
  extra_claims = [];
}

abbrev pub okta : Personality
okta = record {
  id = "okta";
  name = "Okta";
  claim_mappings = ("email", "login") ∷ ("name", "name") ∷ [];
  extra_claims = ("ver", num 1) ∷ ("jti", str "okta-jti-placeholder") ∷ [];
}

abbrev pub azure_ad : Personality
azure_ad = record {
  id = "azure-ad";
  name = "Azure AD / Entra ID";
  claim_mappings = ("email", "preferred_username") ∷ ("name", "name") ∷ ("groups", "groups") ∷ [];
  extra_claims = ("tid", str "common") ∷ ("ver", str "2.0") ∷ [];
}

abbrev pub google_workspace : Personality
google_workspace = record {
  id = "google-workspace";
  name = "Google Workspace";
  claim_mappings = ("email", "email") ∷ ("name", "name") ∷ [];
  extra_claims =
      ("hd", str "example.com") ∷ ("email_verified", bool true) ∷ ("locale", str "en") ∷ [];
}

abbrev pub google : Personality
google = record {
  id = "google";
  name = "Google";
  claim_mappings = ("email", "email") ∷ ("name", "name") ∷ [];
  extra_claims = ("email_verified", bool true) ∷ ("locale", str "en") ∷ [];
}

abbrev pub git_hub : Personality
git_hub = record {
  id = "github";
  name = "GitHub";
  claim_mappings = ("email", "email") ∷ ("name", "name") ∷ ("sub", "sub") ∷ [];
  extra_claims = ("login", str "github-user") ∷ [];
}

abbrev pub one_login : Personality
one_login = record {
  id = "onelogin";
  name = "OneLogin";
  claim_mappings = ("email", "email") ∷ ("name", "name") ∷ [];
  extra_claims = ("params", obj end) ∷ [];
}

-- the personalities by ID
abbrev pub registry : GoMap Personality
registry =
    ("default", default_personality)
    ∷ ("okta", okta)
    ∷ ("azure-ad", azure_ad)
    ∷ ("google-workspace", google_workspace)
    ∷ ("google", google)
    ∷ ("github", git_hub)
    ∷ ("onelogin", one_login)
    ∷ []

-- `Get`: the default where the ID is not known
unfoldable pub get : String → Personality
get id = elim (lookup (to_lower (trim_space id)) registry) [
  | none ↦ default_personality
  | some p ↦ p
]
