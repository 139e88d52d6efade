-- ===== src/Scim.antt =====
-- server/internal/scim/scim.go: the SCIM 2.0 server, its resources and what it reads of a request.
-- A body that was decoded is an `Option`, with none for what does not decode; `*bool` is an `Option`.
pub mod Render
pub mod Patch
pub mod GroupPatch
pub mod Users
pub mod Members
pub mod Safety
pub mod Served
pub mod GroupsServed
mod Tests
pub mod Groups
use authpilot.Common.{
  ℕ, String, Bool, true, Option, none, some, List, [], ◌∷◌, ◌==◌, if◌then◌else◌, length,
}
use authpilot.Common.Case.{to_lower, equal_fold, cut, trim}
use authpilot.Common.Text.{trim_space}
use authpilot.Domain.{Value}

-- the times are in whole seconds, as RFC 3339 writes them
pub record Meta : Type 0 where
  pub resource_type : String
  pub created : ℕ
  pub last_modified : ℕ
  pub location : String

pub record ScimAttr : Type 0 where
  pub value : String
  pub primary : Bool
  pub type : String

pub record ScimRef : Type 0 where
  pub value : String
  pub display : String
  pub ref : String

pub record ScimUser : Type 0 where
  pub schemas : List String
  pub id : String
  pub external_id : String
  pub user_name : String
  pub display_name : String
  pub active : Bool
  pub emails : List ScimAttr
  pub phone_nums : List ScimAttr
  pub groups : List ScimRef
  pub meta : Meta

pub record ScimGroup : Type 0 where
  pub schemas : List String
  pub id : String
  pub display_name : String
  pub members : List ScimRef
  pub meta : Meta

pub record ListResponse (A : Type 0) : Type 0 where
  pub schemas : List String
  pub total_results : ℕ
  pub start_index : ℕ
  pub items_per_page : ℕ
  pub resources : List A

pub record PatchItem : Type 0 where
  pub op : String
  pub path : String
  pub value : Value

pub record UserInput : Type 0 where
  pub user_name : String
  pub display_name : String
  pub external_id : String
  pub active : Option Bool
  pub emails : List ScimAttr
  pub phone_nums : List ScimAttr

pub record GroupInput : Type 0 where
  pub display_name : String
  pub members : List ScimRef

-- what a handler writes: a status with a resource, with a `scimError`, or with no body
pub data Answer (A : Type 0) : Type 0 where
  resource : ℕ → A → Answer A
  refused : ℕ → (detail scim_type : String) → Answer A
  no_content : Answer A

abbrev pub schema_user : String
schema_user = "urn:ietf:params:scim:schemas:core:2.0:User"

abbrev pub schema_group : String
schema_group = "urn:ietf:params:scim:schemas:core:2.0:Group"

abbrev pub list_schema : String
list_schema = "urn:ietf:params:scim:api:messages:2.0:ListResponse"

-- the response with all of a list
unfoldable pub list_response : {A : Type 0} → List A → ListResponse A
list_response resources = record {
  schemas = list_schema ∷ [];
  total_results = length resources;
  start_index = 1;
  items_per_page = length resources;
  resources = resources;
}

-- the first attribute that is marked primary
abbrev marked : List ScimAttr → Option String
marked [] = none
marked (a ∷ rest) = let later = marked rest in if a.primary then some a.value else later

abbrev first_value : List ScimAttr → String
first_value [] = ""
first_value (a ∷ rest) = a.value

-- `primaryEmail` and `primaryPhone`, which have the same text
unfoldable pub primary_value : List ScimAttr → String
primary_value attrs = elim (marked attrs) [ none ↦ first_value attrs | some value ↦ value ]

-- the switch over the attribute of a filter
unfoldable pub filter_attribute : ScimUser → String → String → Bool
filter_attribute u attr val =
    if attr == "username"
    then equal_fold u.user_name val
    else if attr == "displayname"
    then equal_fold u.display_name val
    else true

unfoldable pub matches_filter : ScimUser → String → Bool
unfolding filter_attribute
matches_filter u filter =
    let trimmed = trim_space filter in
    if trimmed == "" then true else elim (cut b' ' trimmed) [
      | none ↦ true
      | some (attr, rest) ↦ elim (cut b' ' rest) [
        | none ↦ true
        | some (op, val) ↦
            if to_lower op == "eq" then filter_attribute u (to_lower attr) (trim b'"' val) else true
      ]
    ]
