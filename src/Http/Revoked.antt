-- ===== src/Http/Revoked.antt =====
-- The life of an API key, from its creation over its revocation.
use mathlib.Core.Path.{subst}
use authpilot.Common.{
  ℕ, String, false, ◌||◌, ◌≡◌, ◌≢◌, inl, inr, refl, ap, ◌∙◌, Option, none, some, List, [], ◌∷◌,
  ◌++◌, ◌==◌, any, arith, Bool-cases, eq_iff, ne→==-false,
}
use authpilot.Store.{Result, ok, Result-cases}
use authpilot.Http.ApiKeys.{ApiKey, scoped, unauthorized, judge, judge_stored, admit}
use authpilot.Http.KeyHandlers.{
  KeyCreateRequest, KeyCreateResponse, KeyReply, created, create_api_key, raw_key, new_key,
  or_read_write, are_valid,
}
use authpilot.Store.Sqlite.ApiKeys.{
  find, has_id, has_hash, inserted, create, get_by_hash, revoke_row, use_row, each, revoke,
  update_last_used, is_open,
}

find-append :
    (hash : String) (rows : List ApiKey) (k row : ApiKey)
    → find (has_hash hash) rows ≡ some row
    → find (has_hash hash) (rows ++ (k ∷ [])) ≡ some row
unfolding find
find-append hash [] k row e = cc
find-append hash (r ∷ rows) k row e = ground (arith, e, find-append hash rows k row)

-- a row that was not there is found after it is added
find-added :
    (hash : String) (rows : List ApiKey) (k : ApiKey)
    → any (λ row. has_id k.id row || has_hash k.key_hash row) rows ≡ false
    → k.key_hash ≡ hash
    → find (has_hash hash) (rows ++ (inserted k ∷ [])) ≡ some (inserted k)
unfolding find
find-added hash [] k none_there is = ground (arith, eq_iff k.key_hash hash, is)
find-added hash (r ∷ rows) k none_there is =
    ground (arith, is, none_there, find-added hash rows k, eq_iff r.key_hash hash)

abbrev row_or : ApiKey → Option ApiKey → ApiKey
row_or k none = k
row_or k (some row) = row

-- a change of the rows that keeps their hashes changes the row that is found
find-each :
    (hash : String) (change : ApiKey → ApiKey) (rows : List ApiKey) (row : ApiKey)
    → ((k : ApiKey) → (change k).key_hash ≡ k.key_hash)
    → find (has_hash hash) rows ≡ some row
    → find (has_hash hash) (each change rows) ≡ some (change row)
unfolding find each
find-each hash change [] row same e = cc
find-each hash change (k ∷ rows) row same e = elim (Bool-cases (k.key_hash == hash)) [
  | inl here ↦
      rw (ap (λ x. x == hash) (same k) ∙ here) (ap (λ o. some (change (row_or k o))) (rw here at e))
  | inr other ↦
      rw (ap (λ x. x == hash) (same k) ∙ other)
        (find-each hash change rows row same (rw other at e))
]

revoke_row-hash : (id : String) (at : ℕ) (k : ApiKey) → (revoke_row id at k).key_hash ≡ k.key_hash
revoke_row-hash id at k = ground arith

use_row-hash : (id : String) (at : ℕ) (k : ApiKey) → (use_row id at k).key_hash ≡ k.key_hash
use_row-hash id at k = ground arith

-- the calls that change the table
pub data KeyCall : Type 0 where
  create_call : ApiKey → KeyCall
  revoke_call : (id : String) (at : ℕ) → KeyCall
  use_call : (id : String) (at : ℕ) → KeyCall

unfoldable pub serve : List ApiKey → KeyCall → List ApiKey
serve rows (create_call k) = (create rows k).0
serve rows (revoke_call id at) = (revoke rows id at).0
serve rows (use_call id at) = update_last_used rows id at

unfoldable pub serve_all : List ApiKey → List KeyCall → List ApiKey
unfolding serve
serve_all rows [] = rows
serve_all rows (call ∷ calls) = serve_all (serve rows call) calls

-- the row with the hash is revoked
abbrev IsRevoked : String → List ApiKey → Type 0
IsRevoked hash rows = (k : ApiKey) × (find (has_hash hash) rows ≡ some k) × (is_open k ≡ false)

revoke_row-closed :
    (id : String) (at : ℕ) (k : ApiKey) → is_open k ≡ false → is_open (revoke_row id at k) ≡ false
revoke_row-closed id at k e = ground (arith, e)

use_row-closed :
    (id : String) (at : ℕ) (k : ApiKey) → is_open k ≡ false → is_open (use_row id at k) ≡ false
use_row-closed id at k e = ground (arith, e)

create-IsRevoked :
    (hash : String) (rows : List ApiKey) (k : ApiKey)
    → IsRevoked hash rows
    → IsRevoked hash (create rows k).0
unfolding create
create-IsRevoked hash rows k (row, found, closed) =
    elim (Bool-cases (any (λ row. has_id k.id row || has_hash k.key_hash row) rows)) [
      | inl taken ↦ rw taken (row, found, closed)
      | inr free ↦ rw free (row, find-append hash rows (inserted k) row found, closed)
    ]

serve-IsRevoked :
    (hash : String) (rows : List ApiKey) (call : KeyCall)
    → IsRevoked hash rows
    → IsRevoked hash (serve rows call)
unfolding serve revoke update_last_used
serve-IsRevoked hash rows (create_call k) h = create-IsRevoked hash rows k h
serve-IsRevoked hash rows (revoke_call id at) (row, found, closed) = (
  revoke_row id at row,
  find-each hash (revoke_row id at) rows row (revoke_row-hash id at) found,
  revoke_row-closed id at row closed,
)
serve-IsRevoked hash rows (use_call id at) (row, found, closed) = (
  use_row id at row,
  find-each hash (use_row id at) rows row (use_row-hash id at) found,
  use_row-closed id at row closed,
)

serve_all-IsRevoked :
    (hash : String) (rows : List ApiKey) (calls : List KeyCall)
    → IsRevoked hash rows
    → IsRevoked hash (serve_all rows calls)
unfolding serve_all
serve_all-IsRevoked hash rows [] h = h
serve_all-IsRevoked hash rows (call ∷ calls) h =
    serve_all-IsRevoked hash (serve rows call) calls (serve-IsRevoked hash rows call h)

-- the verdict on a key that is not the configured one, by the row of its hash
admit-found :
    (hash : String → String) (api_key key : String) (rows : List ApiKey) (k : ApiKey)
    → key ≢ ""
    → key ≢ api_key
    → find (has_hash (hash key)) rows ≡ some k
    → admit api_key (some (get_by_hash rows)) hash key ≡ judge (ok k)
unfolding admit judge_stored get_by_hash
admit-found hash api_key key rows k given other found =
    rw (ne→==-false key api_key other) (rw (ne→==-false key "" given) (rw found (ground arith)))

admit-revoked :
    (hash : String → String) (api_key key : String) (rows : List ApiKey)
    → key ≢ ""
    → key ≢ api_key
    → IsRevoked (hash key) rows
    → admit api_key (some (get_by_hash rows)) hash key ≡ unauthorized
unfolding judge
admit-revoked hash api_key key rows given other (k, found, closed) =
    admit-found hash api_key key rows k given other found ∙ ground (arith, closed)

abbrev response_of : KeyCreateResponse → KeyReply → KeyCreateResponse
response_of other (created resp) = resp
response_of other _ = other

judge-unrevoked : (k : ApiKey) → k.revoked_at ≡ none → judge (ok k) ≡ scoped k.scopes
unfolding judge
judge-unrevoked k e = rw (judge, e) refl

-- the row of a key that the handler has created
abbrev IsStored : List ApiKey → String → KeyCreateResponse → Type 0
IsStored rows h resp =
    (k : ApiKey) × (find (has_hash h) rows ≡ some k)
    × (k.id ≡ resp.id)
    × (k.scopes ≡ resp.scopes)
    × (k.revoked_at ≡ none)

create_api_key-IsStored :
    (hash : String → String) (now : ℕ) (bytes : Result String) (id_bytes : String)
    (rows rows' : List ApiKey) (req : KeyCreateRequest) (resp : KeyCreateResponse)
    → create_api_key hash now bytes id_bytes rows req ≡ (rows', created resp)
    → IsStored rows' (hash resp.key) resp
unfolding create_api_key create
create_api_key-IsStored hash now bytes id_bytes rows rows' req resp e =
    elim (Bool-cases (req.label == "")) [
      | inl blank ↦ cc (rw blank at e)
      | inr labelled ↦ elim (Bool-cases (are_valid (or_read_write req.scopes))) [
        | inr unknown ↦ cc (rw (labelled, unknown) at e)
        | inl known ↦ elim (Result-cases bytes) [
          | inr (x, failed_) ↦ cc (rw (labelled, known, failed_) at e)
          | inl (random, drawn) ↦
              let k = new_key hash now random id_bytes req.label (or_read_write req.scopes) in
              elim (Bool-cases (any (λ row. has_id k.id row || has_hash k.key_hash row) rows)) [
                | inl taken ↦ cc (rw (labelled, known, drawn, taken) at e)
                | inr free ↦
                    let made = rw (labelled, known, drawn, free) at e in
                    let is = ap (λ r. response_of resp r.1) made in
                    (
                      inserted k,
                      subst (λ z. find (has_hash (hash z.key)) rows' ≡ some (inserted k)) is
                          (subst
                            (λ z. find (has_hash (hash (raw_key random))) z ≡ some (inserted k))
                            (ap (λ r. r.0) made) (find-added _ rows k free refl)),
                      ap (λ z. z.id) is,
                      ap (λ z. z.scopes) is,
                      refl,
                    )
              ]
        ]
      ]
    ]

-- A key that the handler creates is admitted with the scopes of the answer, and after its revocation it is not
-- admitted any more, whatever calls are made of the store of the keys afterwards, if the key that the server
-- is configured with is another one.
pub create_api_key-revoked :
    (hash : String → String) (now : ℕ) (bytes : Result String) (id_bytes api_key : String)
    (rows rows' : List ApiKey) (req : KeyCreateRequest) (resp : KeyCreateResponse) (at : ℕ)
    (calls : List KeyCall)
    → create_api_key hash now bytes id_bytes rows req ≡ (rows', created resp)
    → resp.key ≢ ""
    → resp.key ≢ api_key
    → let gone = (revoke rows' resp.id at).0 in
      (admit api_key (some (get_by_hash rows')) hash resp.key ≡ scoped resp.scopes)
      × (admit api_key (some (get_by_hash (serve_all gone calls))) hash resp.key ≡ unauthorized)
unfolding judge revoke
create_api_key-revoked hash now bytes id_bytes api_key rows rows' req resp at calls e given other =
    let (k, found, id, scopes, unrevoked) =
      create_api_key-IsStored hash now bytes id_bytes rows rows' req resp e in
    let gone =
      find-each (hash resp.key) (revoke_row resp.id at) rows' k (revoke_row-hash resp.id at)
        found in
    let closed : is_open (revoke_row resp.id at k) ≡ false =
      ground (arith, eq_iff k.id resp.id, id, unrevoked) in
    (
      admit-found hash api_key resp.key rows' k given other found
          ∙ judge-unrevoked k unrevoked
          ∙ ap scoped scopes,
      admit-revoked hash api_key resp.key (serve_all (revoke rows' resp.id at).0 calls) given other
          (serve_all-IsRevoked (hash resp.key) (revoke rows' resp.id at).0 calls
            (revoke_row resp.id at k, gone, closed)),
    )
