-- ===== src/Http/KeyHandlers.antt =====
-- server/internal/httpapi/api_key_handlers.go, over the SQLite store of the keys. The random bytes, in hexadecimal,
-- and the digest are arguments.
use Prim.Native.String
use authpilot.Common.{
  ℕ, String, Bool, true, false, not, Option, none, some, List, [], ◌∷◌, ◌==◌, if◌then◌else◌,
  contains,
}
use authpilot.Store.{Result, ok, err, Err, not_found}
use authpilot.Http.ApiKeys.{ApiKey}
use authpilot.Store.Sqlite.ApiKeys.{create, get_by_id, revoke}

abbrev pub valid_scopes : List String
valid_scopes = "read" ∷ "write" ∷ "admin" ∷ "opa:emergency" ∷ []

pub record KeyCreateRequest : Type 0 where
  pub label : String
  pub scopes : List String

pub record KeyCreateResponse : Type 0 where
  pub id : String
  pub label : String
  pub key : String
  pub scopes : List String
  pub created_at : ℕ

pub record KeyResponse : Type 0 where
  pub id : String
  pub label : String
  pub scopes : List String
  pub created_at : ℕ
  pub revoked_at : Option ℕ
  pub last_used_at : Option ℕ

pub data KeyReply : Type 0 where
  failed : (status : ℕ) (code : String) → KeyReply
  created : KeyCreateResponse → KeyReply
  shown : KeyResponse → KeyReply
  no_content : KeyReply

-- the loop over the scopes
unfoldable pub are_valid : List String → Bool
are_valid [] = true
are_valid (s ∷ scopes) =
    let rest = are_valid scopes in if contains valid_scopes s then rest else false

abbrev pub or_read_write : List String → List String
or_read_write [] = "read" ∷ "write" ∷ []
or_read_write (s ∷ scopes) = s ∷ scopes

-- `toAPIKeyResponse`
unfoldable pub to_key_response : ApiKey → KeyResponse
to_key_response k = record {
  id = k.id;
  label = k.label;
  scopes = k.scopes;
  created_at = k.created_at;
  revoked_at = k.revoked_at;
  last_used_at = k.last_used_at;
}

-- `generateAPIKey`: the key, from its random bytes
abbrev pub raw_key : String → String
raw_key bytes = String.◌++◌ "furn_" bytes

abbrev pub new_key : (String → String) → ℕ → String → String → String → List String → ApiKey
new_key hash now bytes id_bytes label scopes = record {
  id = String.◌++◌ "ak_" id_bytes;
  label = label;
  key_hash = hash (raw_key bytes);
  scopes = scopes;
  created_at = now;
  revoked_at = none;
  last_used_at = none;
}

abbrev created_reply : String → Result ApiKey → KeyReply
created_reply key (err e) = failed 500 "SERVER_ERROR"
created_reply key (ok k) =
    created (record {
      id = k.id;
      label = k.label;
      key = key;
      scopes = k.scopes;
      created_at = k.created_at;
    })

-- `createAPIKeyHandler`, of a body that can be read
unfoldable pub create_api_key :
    (hash : String → String)
    → ℕ
    → (bytes : Result String) (id_bytes : String) → List ApiKey
    → KeyCreateRequest
    → List ApiKey × KeyReply
unfolding are_valid
create_api_key hash now bytes id_bytes rows req =
    let scopes = or_read_write req.scopes in
    if req.label == ""
    then (rows, failed 400 "INVALID_REQUEST")
    else if not (are_valid scopes)
    then (rows, failed 400 "INVALID_REQUEST")
    else elim bytes [
      | err _ ↦ (rows, failed 500 "SERVER_ERROR")
      | ok random ↦
          let (rows', result) = create rows (new_key hash now random id_bytes req.label scopes) in
          (rows', created_reply (raw_key random) result)
    ]

abbrev missing_or : Err → String → KeyReply
missing_or not_found code = failed 404 code
missing_or e code = failed 500 "SERVER_ERROR"

-- `getAPIKeyHandler`
unfoldable pub get_api_key : List ApiKey → String → KeyReply
unfolding to_key_response
get_api_key rows id = elim (get_by_id rows id) [
  | err e ↦ missing_or e "NOT_FOUND"
  | ok k ↦ shown (to_key_response k)
]

-- `revokeAPIKeyHandler`
unfoldable pub revoke_api_key : ℕ → List ApiKey → String → List ApiKey × KeyReply
revoke_api_key now rows id =
    let (rows', failure) = revoke rows id now in
    (rows', elim failure [ none ↦ no_content | some e ↦ missing_or e "NOT_FOUND" ])
