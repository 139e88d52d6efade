-- ===== src/Store/Sqlite/ApiKeys.antt =====
-- server/internal/store/sqlite/api_keys.go, over the list of the rows of its table, whose columns id and
-- key_hash are unique. A row is what the scan makes of its texts. List is a query.
use authpilot.Common.{
  ℕ, String, Bool, true, false, ◌&&◌, ◌||◌, Option, none, some, List, [], ◌∷◌, ◌++◌, ◌==◌,
  if◌then◌else◌, any,
}
use authpilot.Store.{Result, ok, err, Err, failure, not_found}
use authpilot.Http.ApiKeys.{ApiKey}

-- the first row that passes a test, as `QueryRow` scans it
unfoldable pub find : (ApiKey → Bool) → List ApiKey → Option ApiKey
find test [] = none
find test (k ∷ rows) = if test k then some k else find test rows

-- `scanAPIKey`
abbrev pub scan : Option ApiKey → Result ApiKey
scan none = err not_found
scan (some k) = ok k

abbrev pub has_id : String → ApiKey → Bool
has_id id k = k.id == id

abbrev pub has_hash : String → ApiKey → Bool
has_hash hash k = k.key_hash == hash

-- the columns that an INSERT writes
abbrev pub inserted : ApiKey → ApiKey
inserted k = record k { revoked_at = none; last_used_at = none }

unfoldable pub create : List ApiKey → ApiKey → List ApiKey × Result ApiKey
create rows k =
    if any (λ row. has_id k.id row || has_hash k.key_hash row) rows
    then (rows, err (failure "insert api key"))
    else (rows ++ (inserted k ∷ []), ok k)

unfoldable pub get_by_id : List ApiKey → String → Result ApiKey
unfolding find
get_by_id rows id = scan (find (has_id id) rows)

-- the error is wrapped
abbrev wrapped : Result ApiKey → Result ApiKey
wrapped (err e) = err e
wrapped (ok k) = ok k

unfoldable pub get_by_hash : List ApiKey → String → Result ApiKey
unfolding find
get_by_hash rows hash = wrapped (scan (find (has_hash hash) rows))

abbrev pub is_open : ApiKey → Bool
is_open k = elim k.revoked_at [ none ↦ true | some t ↦ false ]

-- the update of one row
abbrev pub revoke_row : String → ℕ → ApiKey → ApiKey
revoke_row id at k = if has_id id k && is_open k then record k { revoked_at = some at } else k

abbrev pub use_row : String → ℕ → ApiKey → ApiKey
use_row id at k = if has_id id k then record k { last_used_at = some at } else k

unfoldable pub each : (ApiKey → ApiKey) → List ApiKey → List ApiKey
each change [] = []
each change (k ∷ rows) = change k ∷ each change rows

unfoldable pub revoke : List ApiKey → String → ℕ → List ApiKey × Option Err
unfolding each
revoke rows id at = (
  each (revoke_row id at) rows,
  if any (λ k. has_id id k && is_open k) rows then none else some not_found,
)

unfoldable pub update_last_used : List ApiKey → String → ℕ → List ApiKey
unfolding each
update_last_used rows id at = each (use_row id at) rows
