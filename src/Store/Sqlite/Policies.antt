-- ===== src/Store/Sqlite/Policies.antt =====
-- server/internal/store/sqlite/policies.go and signer.go: versions of policies, one of which is active for
-- each name. The table is the list of its rows; the statements of SQL are functions of the list. A
-- database that fails is left out, apart from the rows that its constraints refuse.
use authpilot.Common.{
  ℕ, String, Bool, true, false, not, ◌&&◌, ◌||◌, Option, none, some, List, [], ◌∷◌, ◌++◌, ◌==◌,
  if◌then◌else◌, any, keep, map,
}
use authpilot.Domain.{Policy}

-- `policySigner`: a key pair, as what it makes of a text and what it accepts
pub record Signer : Type 0 where
  pub sign : String → String
  pub verify : (text signature : String) → Bool

pub data PolicyError : Type 0 where
  not_found tampered refused : PolicyError

pub data PolicyResult : Type 0 where
  policy : Policy → PolicyResult
  no_policy : PolicyError → PolicyResult

-- the primary key, and the unique index of the table
abbrev pub clashes : Policy → Policy → Bool
clashes p q = (q.id == p.id) || ((q.name == p.name) && (q.version == p.version))

unfoldable pub create : List Policy → Policy → List Policy × PolicyResult
create rows p =
    if any (clashes p) rows then (rows, no_policy refused) else (rows ++ (p ∷ []), policy p)

-- the first row that passes the test
unfoldable pub first_row : (Policy → Bool) → List Policy → Option Policy
first_row test [] = none
first_row test (p ∷ rows) = let later = first_row test rows in if test p then some p else later

abbrev pub scanned : Option Policy → PolicyResult
scanned none = no_policy not_found
scanned (some p) = policy p

unfoldable pub get_by_id : List Policy → String → PolicyResult
unfolding first_row
get_by_id rows id = scanned (first_row (λ p. p.id == id) rows)

-- the check of the signature, where there is one
unfoldable pub checked : Option Signer → Policy → PolicyResult
checked none p = policy p
checked (some signer) p =
    if not (p.signature == "") && not (signer.verify p.content_hash p.signature)
    then no_policy tampered
    else policy p

unfoldable pub get_by_name : Option Signer → List Policy → String → PolicyResult
unfolding first_row checked
get_by_name signer rows name = elim (first_row (λ p. (p.name == name) && p.active) rows) [
  | none ↦ no_policy not_found
  | some p ↦ checked signer p
]

-- the two updates of the transaction in `Activate`, on one row
unfoldable pub deactivated : String → Policy → Policy
deactivated name p =
    if p.name == name then record p { active = false; activated_at = none; signature = "" } else p

unfoldable pub made_active : String → ℕ → String → Policy → Policy
made_active id at signature p =
    if p.id == id
    then record p { active = true; activated_at = some at; signature = signature }
    else p

abbrev pub signature_of : Option Signer → String → String
signature_of none hash = ""
signature_of (some signer) hash = signer.sign hash

unfoldable pub activate :
    Option Signer → List Policy → String → ℕ → List Policy × Option PolicyError
unfolding first_row deactivated made_active
activate signer rows id at = elim (first_row (λ p. p.id == id) rows) [
  | none ↦ (rows, some not_found)
  | some p ↦ (
    map (made_active id at (signature_of signer p.content_hash)) (map (deactivated p.name) rows),
    none,
  )
]

unfoldable pub delete : List Policy → String → List Policy × Option PolicyError
delete rows id =
    if any (λ p. p.id == id) rows
    then (keep (λ p. not (p.id == id)) rows, none)
    else (rows, some not_found)
